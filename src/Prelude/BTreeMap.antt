-- ===== src/Prelude/BTreeMap.antt =====
-- std's `BTreeMap<String, V>`: a list of entries in increasing byte-wise order of the keys, which
-- is the order of its iterator.
pub mod Laws
use Prim.Native.Nat.Ordering.{lt, eq, gt}
use mathlib.Core.Path.{◌≡◌, refl}
use mathlib.Core.List.{List, [], ◌∷◌}
use mathlib.Core.Option.{Option, none, some}
use native.Mathlib.Omega.{arith}
use leopard.Prelude.Tests.{if◌then◌else◌}
use leopard.Prelude.Bytes.{
  Text, cmp, cmp_refl, eq_of_cmp, lt_of_cmp-gt, cmp-lt_trans, text_eq, text_eq_iff,
}

module _ {ℓ} {V : Type ℓ} where
  unfoldable pub get : Text → List (Text × V) → Option V
  get k [] = none
  get k ((j, v) ∷ m) = elim (cmp k j) [ lt ↦ none | eq ↦ some v | gt ↦ get k m ]

  unfoldable pub insert : Text → V → List (Text × V) → List (Text × V)
  insert k v [] = (k, v) ∷ []
  insert k v ((j, w) ∷ m) = elim (cmp k j) [
    | lt ↦ (k, v) ∷ (j, w) ∷ m
    | eq ↦ (k, v) ∷ m
    | gt ↦ (j, w) ∷ insert k v m
  ]

  unfoldable pub remove : Text → List (Text × V) → List (Text × V)
  remove k [] = []
  remove k ((j, w) ∷ m) = elim (cmp k j) [ lt ↦ (j, w) ∷ m | eq ↦ m | gt ↦ (j, w) ∷ remove k m ]

  -- `into_iter().collect()`: a later entry replaces an earlier one of its key.
  collect_onto : List (Text × V) → List (Text × V) → List (Text × V)
  collect_onto m [] = m
  collect_onto m ((k, v) ∷ es) = collect_onto (insert k v m) es

  unfoldable pub collect : List (Text × V) → List (Text × V)
  unfolding collect_onto
  collect es = collect_onto [] es

  -- Every key of the map is above `b`.
  abbrev pub Above : Text → List (Text × V) → Type 0
  Above b [] = Unit
  Above b ((k, v) ∷ m) = (cmp b k ≡ lt) × Above b m

  abbrev pub IsSorted : List (Text × V) → Type 0
  IsSorted [] = Unit
  IsSorted ((k, v) ∷ m) = Above k m × IsSorted m

  pub Above-trans : (a b : Text) (m : List (Text × V)) → cmp a b ≡ lt → Above b m → Above a m
  Above-trans a b [] h s = tt
  Above-trans a b ((k, v) ∷ m) h s = (cmp-lt_trans a b k h s.0, Above-trans a b m h s.1)

  Above-insert :
      (b k : Text) (v : V) (m : List (Text × V)) → cmp b k ≡ lt → Above b m → Above b (insert k v m)
  unfolding insert
  Above-insert b k v [] h s = (h, tt)
  Above-insert b k v ((j, w) ∷ m) h s = ground (arith, Above-insert b k v m h)

  Above-remove : (b k : Text) (m : List (Text × V)) → Above b m → Above b (remove k m)
  unfolding remove
  Above-remove b k [] s = tt
  Above-remove b k ((j, w) ∷ m) s = ground (arith, Above-remove b k m)

  pub insert-IsSorted :
      (k : Text) (v : V) (m : List (Text × V)) → IsSorted m → IsSorted (insert k v m)
  unfolding insert
  insert-IsSorted k v [] s = (tt, tt)
  insert-IsSorted k v ((j, w) ∷ m) s = ground (
    arith,
    insert-IsSorted k v m,
    Above-insert j k v m,
    Above-trans k j m,
    lt_of_cmp-gt k j,
    eq_of_cmp k j,
  )

  pub remove-IsSorted : (k : Text) (m : List (Text × V)) → IsSorted m → IsSorted (remove k m)
  unfolding remove
  remove-IsSorted k [] s = tt
  remove-IsSorted k ((j, w) ∷ m) s = ground (arith, remove-IsSorted k m, Above-remove j k m)

  pub get-Above : (k : Text) (m : List (Text × V)) → Above k m → get k m ≡ none
  unfolding get
  get-Above k [] s = refl
  get-Above k ((j, w) ∷ m) s = ground arith

  -- A read after a write, at any two keys.
  pub get-insert :
      (k j : Text) (v : V) (m : List (Text × V))
      → get j (insert k v m) ≡ (if text_eq k j then some v else get j m)
  unfolding get insert
  get-insert k j v [] = ground (arith, text_eq_iff k j, cmp_refl j, eq_of_cmp j k)
  get-insert k j v ((i, w) ∷ m) = ground (
    arith,
    get-insert k j v m,
    text_eq_iff k j,
    cmp_refl j,
    eq_of_cmp j k,
    eq_of_cmp k i,
    eq_of_cmp j i,
    cmp-lt_trans j k i,
    lt_of_cmp-gt k i,
  )
