-- ===== src/Merkle/Sync/Apply.antt =====
-- A batch of fetched pairs, applied to the storage and the tree, and what an honest responder sends.
use leopard.Prelude.{
  ℕ, ◌+◌, ◌≡◌, refl, ap, ◌∙◌, sym, true, Option, none, some, List, [], ◌∷◌, ◌++◌, map, concat, Text,
  text_eq_iff, arith, Option-cases, inl, inr,
}
use leopard.Prelude.BTreeMap
use leopard.Prelude.Bytes.{cmp_refl, eq_of_cmp}
use leopard.Prelude.BTreeMap.{IsSorted, get-Above, Above, Above-trans}
use leopard.Prelude.BTreeMap.Laws.{last_of, get-collect, collect-IsSorted, last_of-IsSorted}
use leopard.State.Dash.{DashMap}
use leopard.State.Storage.{KeyValueDataStateStorage, DefaultDataStateItem, items}
use leopard.Merkle.Tree.{BinaryMerkleTree, replace_all}
use leopard.Merkle.Tree.Valid.{lookup, IsValid, replace_all_lem}
use leopard.Merkle.Session.{data_answer, fetch_all, request}
use leopard.Merkle.Session.Missing.{has}
use leopard.Merkle.Sync.{apply_all, apply_fetched, Applied}
use leopard.Merkle.Sync.Merge.{merge_all, apply_all_lem, apply_all-IsSorted}

-- A responder that answers each data request in time from one set of entries.
abbrev pub honest_data : List (Text × Text) → ℕ → List Text → Option (List (Text × Text))
honest_data entries id ks = some (data_answer entries ks)

data_answer-append :
    (es : List (Text × Text)) (ks js : List Text)
    → data_answer es (ks ++ js) ≡ data_answer es ks ++ data_answer es js
unfolding data_answer
data_answer-append es [] js = refl
data_answer-append es (k ∷ ks) js = elim (Option-cases (BTreeMap.get k es)) [
  | inl e ↦ rw (e, data_answer) (data_answer-append es ks js)
  | inr (v, e) ↦ rw (e, data_answer) (ap (◌∷◌ (k, v)) (data_answer-append es ks js))
]

pub fetch_all_honest :
    (es : List (Text × Text)) (cs : List (List Text)) (id : ℕ)
    → fetch_all (honest_data es) cs id ≡ data_answer es (concat cs)
unfolding fetch_all request data_answer
fetch_all_honest es [] id = refl
fetch_all_honest es (c ∷ cs) id =
    ap (λ x. data_answer es c ++ x) (fetch_all_honest es cs (id + 1))
    ∙ sym (data_answer-append es c (concat cs))

pairs_items :
    (es : List (Text × Text))
    → map
        (λ (i : DefaultDataStateItem). (i.key, i.value))
        (map (λ e. record { key = e.0; value = e.1 }) es)
      ≡ es
pairs_items [] = refl
pairs_items (e ∷ es) = ap (◌∷◌ e) (pairs_items es)

pub has-get :
    (k v : Text) (es : List (Text × Text)) → BTreeMap.get k es ≡ some v → has k v es ≡ true
unfolding BTreeMap.get
has-get k v [] h = cc
has-get k v ((j, w) ∷ es) h =
    ground (arith, has-get k v es, eq_of_cmp k j, text_eq_iff j k, text_eq_iff w v)

pub get-has :
    (k v : Text) (es : List (Text × Text))
    → IsSorted es
    → has k v es ≡ true
    → BTreeMap.get k es ≡ some v
unfolding BTreeMap.get
get-has k v [] s h = cc
get-has k v ((j, w) ∷ es) s h = ground (
  arith,
  get-has k v es s.1,
  cmp_refl k,
  text_eq_iff j k,
  text_eq_iff w v,
  get-Above k es,
  eq_of_cmp k j,
  Above-trans k j es,
)

module _ (D : DashMap) (L : Type 0) (digest : Text → Text) where
  -- The tree mirrors the storage.
  abbrev pub Mirrors : KeyValueDataStateStorage D L → BinaryMerkleTree → Type 0
  Mirrors storage tree = (j : Text) → D.get j storage.memory_storage ≡ lookup j tree

  -- Applying a batch merges it into each key of the storage, and leaves a valid tree that mirrors
  -- the storage, whatever the tree was.
  pub apply_fetched_lem :
      (storage : KeyValueDataStateStorage D L) (tree : BinaryMerkleTree)
      (fetched : List (Text × Text))
      → let after = apply_fetched D L digest storage tree fetched in
        IsValid digest after.1
        × Mirrors after.0 after.1
        × ((j : Text) → lookup j after.1 ≡ merge_all j fetched (D.get j storage.memory_storage))
  unfolding apply_fetched items
  apply_fetched_lem storage tree fetched =
      let pairs = map (λ (i : DefaultDataStateItem). (i.key, i.value)) (items D L storage) in
      let start : Applied D L = record { storage = storage; current = BTreeMap.collect pairs } in
      let known : (j : Text)
          → BTreeMap.get j (BTreeMap.collect pairs) ≡ D.get j storage.memory_storage =
        λ j.
          get-collect j pairs
          ∙ ap (λ es. last_of j es none) (pairs_items (D.iter storage.memory_storage))
          ∙ D.get-iter j storage.memory_storage in
      let ran = apply_all_lem D L fetched start (λ j. sym (known j)) in
      let sorted = apply_all-IsSorted D L fetched start (collect-IsSorted pairs) in
      let final = (apply_all D L fetched start).current in
      let rebuilt = replace_all_lem digest final tree in
      let read : (j : Text) → lookup j (replace_all digest final tree) ≡ BTreeMap.get j final =
        λ j. rebuilt.1 j ∙ last_of-IsSorted j final sorted in
      (
        rebuilt.0,
        λ j. ran.0 j ∙ sym (read j),
        λ j. read j ∙ ran.1 j ∙ ap (merge_all j fetched) (known j),
      )
