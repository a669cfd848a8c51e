-- ===== src/Prelude/BTreeMap/Laws.antt =====
-- Sorted maps that read alike are equal; what `remove` and `collect` leave.
use mathlib.Core.Path.{◌≡◌, refl, ap, ap₂, ◌∙◌, sym, subst}
use mathlib.Core.List.{List, [], ◌∷◌}
use mathlib.Core.Option.{Option, none, some}
use native.Mathlib.Omega.{arith}
use leopard.Prelude.Tests.{if◌then◌else◌}
use leopard.Prelude.Bytes.{
  Text, cmp_refl, eq_of_cmp, lt_of_cmp-gt, gt_of_cmp-lt, cmp-lt_trans, text_eq, text_eq_iff,
}
use leopard.Prelude.BTreeMap.{
  get, insert, remove, collect, collect_onto, Above, IsSorted, Above-trans, get-Above,
  insert-IsSorted, get-insert,
}

module _ {ℓ} {V : Type ℓ} where
  pub get-remove :
      (k j : Text) (m : List (Text × V))
      → IsSorted m
      → get j (remove k m) ≡ (if text_eq k j then none else get j m)
  unfolding get remove
  get-remove k j [] s = ground arith
  get-remove k j ((i, w) ∷ m) s = ground (
    arith,
    get-remove k j m,
    text_eq_iff k j,
    cmp_refl j,
    eq_of_cmp j k,
    eq_of_cmp k i,
    eq_of_cmp j i,
    get-Above j m,
    Above-trans j i m,
    cmp-lt_trans j k i,
    lt_of_cmp-gt k i,
  )

  tails_read_alike :
      (k : Text) (v w : V) (m n : List (Text × V))
      → Above k m
      → Above k n
      → ((p : Text) → get p ((k, v) ∷ m) ≡ get p ((k, w) ∷ n))
      → (p : Text) → get p m ≡ get p n
  unfolding get
  tails_read_alike k v w m n a b h p = ground (
    arith,
    h p,
    eq_of_cmp p k,
    get-Above k m,
    get-Above k n,
    Above-trans p k m,
    Above-trans p k n,
    get-Above p m,
    get-Above p n,
  )

  heads_agree :
      (k : Text) (v : V) (m : List (Text × V)) (j : Text) (w : V) (n : List (Text × V))
      → ((p : Text) → get p ((k, v) ∷ m) ≡ get p ((j, w) ∷ n))
      → (k ≡ j) × (v ≡ w)
  unfolding get
  heads_agree k v m j w n h =
      ground
        (arith, h k, h j, cmp_refl k, cmp_refl j, eq_of_cmp k j, lt_of_cmp-gt k j, gt_of_cmp-lt k j)

  get-head : (k : Text) (v : V) (m : List (Text × V)) → get k ((k, v) ∷ m) ≡ some v
  unfolding get
  get-head k v m = ground (arith, cmp_refl k)

  get-nil : (k : Text) → get {V = V} k [] ≡ none
  unfolding get
  get-nil k = refl

  -- A sorted map is determined by what it reads.
  pub BTreeMap-ext :
      (m n : List (Text × V)) → IsSorted m → IsSorted n → ((p : Text) → get p m ≡ get p n) → m ≡ n
  BTreeMap-ext [] [] s t h = refl
  BTreeMap-ext [] ((j, w) ∷ n) s t h = cc (h j, get-head j w n, get-nil j)
  BTreeMap-ext ((k, v) ∷ m) [] s t h = cc (h k, get-head k v m, get-nil k)
  BTreeMap-ext ((k, v) ∷ m) ((j, w) ∷ n) s t h =
      let same = heads_agree k v m j w n h in
      let below : Above k n = rw same.0 t.0 in
      let reads : (p : Text) → get p ((k, v) ∷ m) ≡ get p ((k, w) ∷ n) =
        subst (λ x. (p : Text) → get p ((k, v) ∷ m) ≡ get p ((x, w) ∷ n)) (sym same.0) h in
      let rest = BTreeMap-ext m n s.1 t.1 (tails_read_alike k v w m n s.0 below reads) in
      ap₂ ◌∷◌ (λ i. (same.0 i, same.1 i)) rest

  collect_onto-IsSorted : (m es : List (Text × V)) → IsSorted m → IsSorted (collect_onto m es)
  unfolding collect_onto
  collect_onto-IsSorted m [] s = s
  collect_onto-IsSorted m ((k, v) ∷ es) s =
      collect_onto-IsSorted (insert k v m) es (insert-IsSorted k v m s)

  pub collect-IsSorted : (es : List (Text × V)) → IsSorted (collect es)
  unfolding collect
  collect-IsSorted es = collect_onto-IsSorted [] es tt

  -- The last value that a list of entries gives a key.
  abbrev pub last_of : Text → List (Text × V) → Option V → Option V
  last_of k [] d = d
  last_of k ((j, v) ∷ es) d = last_of k es (if text_eq j k then some v else d)

  get-collect_onto :
      (k : Text) (m es : List (Text × V)) → get k (collect_onto m es) ≡ last_of k es (get k m)
  unfolding collect_onto
  get-collect_onto k m [] = refl
  get-collect_onto k m ((j, v) ∷ es) =
      get-collect_onto k (insert j v m) es ∙ ap (last_of k es) (get-insert j k v m)

  pub get-collect : (k : Text) (es : List (Text × V)) → get k (collect es) ≡ last_of k es none
  unfolding collect
  get-collect k es = get-collect_onto k [] es ∙ ap (last_of k es) (get-nil k)

  -- The keys of a sorted list of entries differ, so the last value of a key is its first.
  last_of-Above : (k : Text) (m : List (Text × V)) (d : Option V) → Above k m → last_of k m d ≡ d
  last_of-Above k [] d h = refl
  last_of-Above k ((j, v) ∷ m) d h =
      ground (arith, last_of-Above k m d, text_eq_iff j k, cmp_refl k)

  pub last_of-IsSorted : (k : Text) (m : List (Text × V)) → IsSorted m → last_of k m none ≡ get k m
  unfolding get
  last_of-IsSorted k [] s = refl
  last_of-IsSorted k ((j, v) ∷ m) s = ground (
    arith,
    last_of-IsSorted k m s.1,
    text_eq_iff j k,
    cmp_refl k,
    eq_of_cmp k j,
    last_of-Above k m (some v),
    last_of-Above k m none,
    Above-trans k j m,
    get-Above k m,
  )
