-- ===== src/Merkle/Sync/Merge.antt =====
-- The rule by which `apply_fetched` resolves two values of a key, the greater one, and what a batch
-- of fetched pairs does to each key.
use leopard.Prelude.{
  ◌≡◌, refl, ap, ◌∙◌, Bool, true, false, Option, none, some, List, [], ◌∷◌, ◌++◌, Text, text_eq,
  text_eq_iff, contains, if◌then◌else◌, arith, Option-cases, inl, inr,
}
use leopard.Prelude.Bytes.{cmp_refl, eq_of_cmp, lt_of_cmp-gt, gt_of_cmp-lt}
use leopard.Prelude.BTreeMap
use leopard.Prelude.BTreeMap.{IsSorted, insert-IsSorted, get-insert}
use leopard.State.Dash.{DashMap}
use leopard.State.Storage.{save_silent}
use leopard.Merkle.Session.{data_answer}
use leopard.Merkle.Sync.{is_greater, should_store, apply_one, apply_all, Applied}

-- The greater of two values, where there are two.
unfoldable pub merge : Option Text → Option Text → Option Text
merge a none = a
merge none (some y) = some y
merge (some x) (some y) = if is_greater y x then some y else some x

pub merge_idem : (a : Option Text) → merge a a ≡ a
unfolding merge
merge_idem none = refl
merge_idem (some x) = ground (arith, cmp_refl x)

pub merge_comm : (a b : Option Text) → merge a b ≡ merge b a
unfolding merge
merge_comm none none = refl
merge_comm none (some y) = refl
merge_comm (some x) none = refl
merge_comm (some x) (some y) = ground (
  arith,
  lt_of_cmp-gt y x,
  gt_of_cmp-lt y x,
  lt_of_cmp-gt x y,
  gt_of_cmp-lt x y,
  eq_of_cmp y x,
  eq_of_cmp x y,
)

pub merge-none : (a : Option Text) → merge a none ≡ a
unfolding merge
merge-none none = refl
merge-none (some x) = refl

-- Merging in what is merged already changes nothing.
pub merge_absorb : (a b : Option Text) → merge (merge a b) b ≡ merge a b
unfolding merge
merge_absorb a none = refl
merge_absorb none (some y) = ground (arith, cmp_refl y)
merge_absorb (some x) (some y) = ground (arith, cmp_refl y)

pub merge_absorb_left : (a b : Option Text) → merge b (merge a b) ≡ merge a b
unfolding merge
merge_absorb_left none none = refl
merge_absorb_left none (some y) = ground (arith, cmp_refl y)
merge_absorb_left (some x) none = refl
merge_absorb_left (some x) (some y) = ground (
  arith,
  cmp_refl y,
  lt_of_cmp-gt y x,
  gt_of_cmp-lt y x,
  lt_of_cmp-gt x y,
  gt_of_cmp-lt x y,
  eq_of_cmp y x,
  eq_of_cmp x y,
)

-- What a batch leaves of a key that had the value `o`.
abbrev pub merge_all : Text → List (Text × Text) → Option Text → Option Text
merge_all j [] o = o
merge_all j ((k, v) ∷ fs) o = merge_all j fs (if text_eq k j then merge o (some v) else o)

merge_all-append :
    (j : Text) (fs gs : List (Text × Text)) (o : Option Text)
    → merge_all j (fs ++ gs) o ≡ merge_all j gs (merge_all j fs o)
merge_all-append j [] gs o = refl
merge_all-append j ((k, v) ∷ fs) gs o =
    merge_all-append j fs gs (if text_eq k j then merge o (some v) else o)

-- The pairs of the keys that a responder is asked for bring in its values of those keys.
pub merge_all-data_answer :
    (j : Text) (entries : List (Text × Text)) (ks : List Text) (o : Option Text)
    → merge_all j (data_answer entries ks) o
      ≡ (if contains j ks then merge o (BTreeMap.get j entries) else o)
unfolding data_answer
merge_all-data_answer j entries [] o = refl
merge_all-data_answer j entries (k ∷ ks) o = elim (Option-cases (BTreeMap.get k entries)) [
  | inl e ↦
      rw (e, data_answer)
        (ground (arith, e, merge_all-data_answer j entries ks o, text_eq_iff k j, merge-none o))
  | inr (v, e) ↦
      rw (e, data_answer)
        (ground (
          arith,
          e,
          merge_all-data_answer j entries ks (if text_eq k j then merge o (some v) else o),
          text_eq_iff k j,
          merge_absorb o (some v),
        ))
]

module _ (D : DashMap) (L : Type 0) where
  -- Storage and `current` read alike.
  abbrev pub InStep : Applied D L → Type 0
  InStep a = (j : Text) → D.get j a.storage.memory_storage ≡ BTreeMap.get j a.current

  apply_one_lem :
      (k v : Text) (a : Applied D L)
      → InStep a
      → InStep (apply_one D L k v a)
        × ((j : Text)
            → BTreeMap.get j (apply_one D L k v a).current ≡ (
                if text_eq k j
                then merge (BTreeMap.get j a.current) (some v)
                else BTreeMap.get j a.current))
  unfolding apply_one save_silent should_store merge
  apply_one_lem k v a h = (
    λ j.
        ground
          (arith, h j, D.get-insert k j v a.storage.memory_storage, get-insert k j v a.current),
    λ j. ground (
      arith,
      get-insert k j v a.current,
      text_eq_iff k j,
      Option-cases (BTreeMap.get j a.current),
    ),
  )

  -- The whole batch: storage and `current` stay in step, and each key is merged with what was
  -- fetched of it.
  pub apply_all_lem :
      (fetched : List (Text × Text)) (a : Applied D L)
      → InStep a
      → InStep (apply_all D L fetched a)
        × ((j : Text)
            → BTreeMap.get j (apply_all D L fetched a).current
              ≡ merge_all j fetched (BTreeMap.get j a.current))
  unfolding apply_all
  apply_all_lem [] a h = (h, λ j. refl)
  apply_all_lem ((k, v) ∷ fetched) a h =
      let one = apply_one_lem k v a h in
      let rest = apply_all_lem fetched (apply_one D L k v a) one.0 in
      (rest.0, λ j. rest.1 j ∙ ap (merge_all j fetched) (one.1 j))

  if-IsSorted :
      (b : Bool) (x y : Applied D L)
      → IsSorted x.current
      → IsSorted y.current
      → IsSorted (if b then x else y).current
  if-IsSorted true x y h g = h
  if-IsSorted false x y h g = g

  pub apply_all-IsSorted :
      (fetched : List (Text × Text)) (a : Applied D L)
      → IsSorted a.current
      → IsSorted (apply_all D L fetched a).current
  unfolding apply_all apply_one
  apply_all-IsSorted [] a s = s
  apply_all-IsSorted ((k, v) ∷ fetched) a s = apply_all-IsSorted fetched (apply_one D L k v a) (
      if-IsSorted (should_store (BTreeMap.get k a.current) v)
        (record {
          storage = save_silent D L (record { key = k; value = v }) a.storage;
          current = BTreeMap.insert k v a.current;
        })
        a (insert-IsSorted k v a.current s) s)
