-- ===== src/State/Storage/Laws.antt =====
-- What the reads give after the writes, the listeners that fire, and what a miss does to memory.
use mathlib.Core.Option
use leopard.Prelude.{
  ◌≡◌, refl, ap, ◌∙◌, Option, none, some, List, [], ◌∷◌, map, Text, text_eq, if◌then◌else◌, arith,
  Bool-cases, Option-cases, inl, inr, false,
}
use leopard.Prelude.BTreeMap.Laws.{last_of}
use leopard.State.Dash.{DashMap}
use leopard.State.Storage.{
  DefaultDataStateItem, KeyValueDataStateStorage, insert_all, save, save_silent, get, items,
}

pairs_of_items :
    (es : List (Text × Text))
    → map
        (λ (i : DefaultDataStateItem). (i.key, i.value))
        (map (λ (e : Text × Text). record { key = e.0; value = e.1 }) es)
      ≡ es
pairs_of_items [] = refl
pairs_of_items (e ∷ es) = ap (◌∷◌ e) (pairs_of_items es)

module _ (D : DashMap) (L : Type 0) where
  abbrev pub Storage : Type 0
  Storage = KeyValueDataStateStorage D L

  -- What memory maps a key to.
  abbrev pub reads : Text → Storage → Option Text
  reads k s = D.get k s.memory_storage

  pub last_of-some :
      (k : Text) (es : List (Text × Text)) (d : Option Text) {w : Text}
      → last_of k es none ≡ some w
      → last_of k es d ≡ some w
  last_of-some k [] d h = cc
  last_of-some k ((j, v) ∷ es) d h = elim (Bool-cases (text_eq j k)) [
    | inl e ↦ rw e (rw e at h)
    | inr e ↦ rw e (last_of-some k es d (rw e at h))
  ]

  insert_all_lem :
      (j : Text) (es : List (Text × Text)) (m : D.Map)
      → D.get j (insert_all D L es m) ≡ last_of j es (D.get j m)
  unfolding insert_all
  insert_all_lem j [] m = refl
  insert_all_lem j ((k, v) ∷ es) m =
      insert_all_lem j es (D.insert k v m) ∙ ap (last_of j es) (D.get-insert k j v m)

  -- A save makes its key read as its value and changes no other key, whether silent or not; only
  -- the one that is not silent fires, each listener once, in the order of registration.
  pub save_lem :
      (item : DefaultDataStateItem) (s : Storage)
      → ((j : Text)
          → reads j (save D L item s).0
            ≡ (if text_eq item.key j then some item.value else reads j s))
        × ((save D L item s).1 ≡ map (λ l. (l, item)) s.listeners)
        × ((save D L item s).0 ≡ save_silent D L item s)
  unfolding save save_silent
  save_lem item s = (λ j. D.get-insert item.key j item.value s.memory_storage, refl, refl)

  -- What memory holds after `get key`: a hit leaves it, a miss overlays the file on it.
  abbrev pub after_get : Text → Storage → Text → Option Text
  after_get key s j = elim (reads key s) [
    | some v ↦ reads j s
    | none ↦ elim s.disk [ some es ↦ last_of j es (reads j s) | none ↦ reads j s ]
  ]

  abbrev pub Answer :
      Text → Storage → KeyValueDataStateStorage D L × Option DefaultDataStateItem → Type 0
  Answer key s r =
      (r.1 ≡ Option.map (λ v. record { key = key; value = v }) (reads key r.0))
      × ((j : Text) → reads j r.0 ≡ after_get key s j)

  get_hit : (key v : Text) (s : Storage) → reads key s ≡ some v → Answer key s (get D L key s)
  unfolding get
  get_hit key v s e = (ground (arith, e), λ j. ground (arith, e))

  get_miss :
      (key : Text) (s : Storage) → reads key s ≡ none → s.disk ≡ none → Answer key s (get D L key s)
  unfolding get
  get_miss key s e f = (ground (arith, e, f), λ j. ground (arith, e, f))

  get_reload :
      (key : Text) (es : List (Text × Text)) (s : Storage)
      → reads key s ≡ none
      → s.disk ≡ some es
      → Answer key s (get D L key s)
  unfolding get
  get_reload key es s e f =
      (ground (arith, e, f), λ j. ground (arith, e, f, insert_all_lem j es s.memory_storage))

  -- A `get` answers with what memory then maps the key to, and memory is as `after_get` says: a hit
  -- and a miss with no file leave it, a miss with a file overlays the file on it.
  pub get_lem : (key : Text) (s : Storage) → Answer key s (get D L key s)
  get_lem key s = elim (Option-cases (reads key s)) [
    | inl e ↦ elim (Option-cases s.disk) [
      | inl f ↦ get_miss key s e f
      | inr (es, f) ↦ get_reload key es s e f
    ]
    | inr (v, e) ↦ get_hit key v s e
  ]

  after_get_reload :
      (key j : Text) (es : List (Text × Text)) (s : Storage)
      → reads key s ≡ none
      → s.disk ≡ some es
      → after_get key s j ≡ last_of j es (reads j s)
  after_get_reload key j es s e f = ground (arith, e, f)

  -- A saved value does not survive a miss on another key while the file holds an older one: the
  -- file's value is read from then on.
  pub save-get_stale :
      (k v w key : Text) (s : Storage) (es : List (Text × Text))
      → s.disk ≡ some es
      → last_of k es none ≡ some w
      → text_eq k key ≡ false
      → reads key s ≡ none
      → reads k (get D L key (save D L (record { key = k; value = v }) s).0).0 ≡ some w
  unfolding save
  save-get_stale k v w key s es file old other miss =
      let t : Storage = (save D L (record { key = k; value = v }) s).0 in
      let missed : reads key t ≡ none = D.get-insert k key v s.memory_storage ∙ rw other miss in
      (get_reload key es t missed file).1 k
      ∙ after_get_reload key k es t missed file
      ∙ (last_of-some k es (reads k t) old)

  pub last_of-items :
      (k : Text) (s : Storage)
      → last_of k (map (λ (i : DefaultDataStateItem). (i.key, i.value)) (items D L s)) none
        ≡ reads k s
  unfolding items
  last_of-items k s =
      ap (λ es. last_of k es none) (pairs_of_items (D.iter s.memory_storage))
      ∙ D.get-iter k s.memory_storage
