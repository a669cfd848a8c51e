-- ===== src/State/Storage/History.antt =====
-- A storage under any sequence of its calls, against a map from keys to values: what it holds, what each
-- get answers and which listeners are called.
use mathlib.Core.Option
use leopard.Prelude.{
  ◌≡◌, ◌≢◌, refl, sym, ap, ap₂, ◌∙◌, Option, none, some, List, [], ◌∷◌, ◌++◌, map, Text, text_eq,
  if◌then◌else◌, arith, Option-cases, inl, inr,
}
use leopard.Prelude.BTreeMap.Laws.{last_of}
use leopard.State.Dash.{DashMap}
use leopard.State.Storage.{
  DefaultDataStateItem, KeyValueDataStateStorage, save, save_silent, get, flush,
}
use leopard.State.Storage.Laws.{reads, get_lem, after_get, last_of-some}

pub data StorageOp : Type 0 where
  saved : DefaultDataStateItem → StorageOp
  saved_silently : DefaultDataStateItem → StorageOp
  got : Text → StorageOp
  flushed : StorageOp

-- How the file stands to memory: there is none, it holds what memory holds, or it may be older.
pub data FileState : Type 0 where
  absent : FileState
  current : FileState
  behind : FileState

abbrev pub after_write : FileState → FileState
after_write absent = absent
after_write current = behind
after_write behind = behind

-- No get comes between a write and the flush that follows it, once there is a file.
abbrev pub IsTimely : FileState → List StorageOp → Type 0
IsTimely f [] = Unit
IsTimely f (saved item ∷ ops) = IsTimely (after_write f) ops
IsTimely f (saved_silently item ∷ ops) = IsTimely (after_write f) ops
IsTimely f (got key ∷ ops) = (f ≢ behind) × IsTimely f ops
IsTimely f (flushed ∷ ops) = IsTimely current ops

-- The map of the data, and what is done with it.
abbrev pub DataMap : Type 0
DataMap = Text → Option Text

abbrev pub written : DefaultDataStateItem → DataMap → DataMap
written item m j = if text_eq item.key j then some item.value else m j

abbrev pub mapped : List StorageOp → DataMap → DataMap
mapped [] m = m
mapped (saved item ∷ ops) m = mapped ops (written item m)
mapped (saved_silently item ∷ ops) m = mapped ops (written item m)
mapped (got key ∷ ops) m = mapped ops m
mapped (flushed ∷ ops) m = mapped ops m

abbrev pub answered : List StorageOp → DataMap → List (Option DefaultDataStateItem)
answered [] m = []
answered (saved item ∷ ops) m = answered ops (written item m)
answered (saved_silently item ∷ ops) m = answered ops (written item m)
answered (got key ∷ ops) m =
    Option.map (λ v. record { key = key; value = v }) (m key) ∷ answered ops m
answered (flushed ∷ ops) m = answered ops m

module _ (D : DashMap) (L : Type 0) where
  abbrev Storage : Type 0
  Storage = KeyValueDataStateStorage D L

  -- Each save that is not silent calls each listener once, in the order of registration.
  abbrev pub called : List StorageOp → List L → List (L × DefaultDataStateItem)
  called [] ls = []
  called (saved item ∷ ops) ls = map (λ l. (l, item)) ls ++ called ops ls
  called (saved_silently item ∷ ops) ls = called ops ls
  called (got key ∷ ops) ls = called ops ls
  called (flushed ∷ ops) ls = called ops ls

  -- The storage after the calls, what the gets answer, and the calls of the listeners.
  abbrev pub run_storage :
      List StorageOp
      → Storage
      → Storage × List (Option DefaultDataStateItem) × List (L × DefaultDataStateItem)
  run_storage [] s = (s, [], [])
  run_storage (saved item ∷ ops) s =
      let one = save D L item s in
      let rest = run_storage ops one.0 in (rest.0, rest.1, one.1 ++ rest.2)
  run_storage (saved_silently item ∷ ops) s = run_storage ops (save_silent D L item s)
  run_storage (got key ∷ ops) s =
      let one = get D L key s in
      let rest = run_storage ops one.0 in (rest.0, one.1 ∷ rest.1, rest.2)
  run_storage (flushed ∷ ops) s = run_storage ops (flush D L s)

  abbrev pub Fits : FileState → Storage → Type 0
  Fits absent s = s.disk ≡ none
  Fits current s =
      (es : List (Text × Text)) × (s.disk ≡ some es)
      × ((j : Text) → last_of j es none ≡ reads D L j s)
  Fits behind s = Unit

  abbrev data_of : Storage → DataMap
  data_of s j = reads D L j s

  -- What a get leaves as it was, when the file is not behind.
  record Kept (f : FileState) (s s' : Storage) : Type 0 where
    data_eq : data_of s' ≡ data_of s
    listeners_eq : s'.listeners ≡ s.listeners
    fits : Fits f s'

  record Written (item : DefaultDataStateItem) (f : FileState) (s s' : Storage) : Type 0 where
    data_eq : data_of s' ≡ written item (data_of s)
    listeners_eq : s'.listeners ≡ s.listeners
    fits : Fits (after_write f) s'

  save_silent-Written :
      (item : DefaultDataStateItem) (f : FileState) (s : Storage)
      → Fits f s
      → Written item f s (save_silent D L item s)
  unfolding save_silent
  save_silent-Written item f s h = record {
    data_eq = λ i j. D.get-insert item.key j item.value s.memory_storage i;
    listeners_eq = refl;
    fits = later f h;
  }
    where
      later : (f : FileState) → Fits f s → Fits (after_write f) (save_silent D L item s)
      later absent h = h
      later current h = tt
      later behind h = tt

  get-rest :
      (key : Text) (s : Storage)
      → ((get D L key s).0.disk ≡ s.disk) × ((get D L key s).0.listeners ≡ s.listeners)
  unfolding get
  get-rest key s = elim (Option-cases (reads D L key s)) [
    | inl e ↦ elim (Option-cases s.disk) [
      | inl d ↦ rw (e, get, d) (d, refl)
      | inr (es, d) ↦ rw (e, get, d) (d, refl)
    ]
    | inr (v, e) ↦ rw (e, get) (refl, refl)
  ]

  overlaid :
      (j : Text) (es : List (Text × Text)) (o : Option Text)
      → last_of j es none ≡ o
      → last_of j es o ≡ o
  overlaid j es none h = h
  overlaid j es (some v) h = last_of-some D L j es (some v) h

  after_get-same :
      (key : Text) (f : FileState) (s : Storage) (j : Text)
      → Fits f s
      → f ≢ behind
      → after_get D L key s j ≡ reads D L j s
  after_get-same key absent s j h timely = ground (arith, h)
  after_get-same key current s j h timely =
      ground (arith, h.1, overlaid j h.0 (reads D L j s) (h.2 j))
  after_get-same key behind s j h timely = absurd (timely refl)

  get-Kept :
      (key : Text) (f : FileState) (s : Storage)
      → Fits f s
      → f ≢ behind
      → Kept f s (get D L key s).0
  get-Kept key f s h timely = record {
    data_eq = λ i j. same j i;
    listeners_eq = (get-rest key s).1;
    fits = still f h timely;
  }
    where
      same : (j : Text) → reads D L j (get D L key s).0 ≡ reads D L j s
      same j = (get_lem D L key s).1 j ∙ after_get-same key f s j h timely

      still : (f : FileState) → Fits f s → f ≢ behind → Fits f (get D L key s).0
      still absent h timely = (get-rest key s).0 ∙ h
      still current h timely = (
        h.0,
        (get-rest key s).0 ∙ h.1,
        λ j. h.2 j ∙ sym ((get_lem D L key s).1 j ∙ after_get-same key current s j h timely),
      )
      still behind h timely = absurd (timely refl)

  abbrev Ran :
      List StorageOp
      → Storage
      → Storage × List (Option DefaultDataStateItem) × List (L × DefaultDataStateItem)
      → Type 0
  Ran ops s r =
      (data_of r.0 ≡ mapped ops (data_of s))
      × (r.1 ≡ answered ops (data_of s))
      × (r.2 ≡ called ops s.listeners)

  run_storage-Ran :
      (ops : List StorageOp) (f : FileState) (s : Storage)
      → Fits f s
      → IsTimely f ops
      → Ran ops s (run_storage ops s)
  unfolding save save_silent flush
  run_storage-Ran [] f s h t = (refl, refl, refl)
  run_storage-Ran (saved item ∷ ops) f s h t =
      let one = save_silent-Written item f s h in
      let rest = run_storage-Ran ops (after_write f) (save_silent D L item s) one.fits t in
      (
        rest.0 ∙ ap (mapped ops) one.data_eq,
        rest.1 ∙ ap (answered ops) one.data_eq,
        ap (λ cs. map (λ l. (l, item)) s.listeners ++ cs) rest.2,
      )
  run_storage-Ran (saved_silently item ∷ ops) f s h t =
      let one = save_silent-Written item f s h in
      let rest = run_storage-Ran ops (after_write f) (save_silent D L item s) one.fits t in
      (rest.0 ∙ ap (mapped ops) one.data_eq, rest.1 ∙ ap (answered ops) one.data_eq, rest.2)
  run_storage-Ran (got key ∷ ops) f s h t =
      let one = get-Kept key f s h t.0 in
      let rest = run_storage-Ran ops f (get D L key s).0 one.fits t.1 in
      let answer =
        (get_lem D L key s).0
        ∙ ap (λ m. Option.map (λ v. record { key = key; value = v }) (m key)) one.data_eq in
      (
        rest.0 ∙ ap (mapped ops) one.data_eq,
        ap₂ ◌∷◌ answer (rest.1 ∙ ap (answered ops) one.data_eq),
        rest.2 ∙ ap (called ops) one.listeners_eq,
      )
  run_storage-Ran (flushed ∷ ops) f s h t =
      run_storage-Ran ops current (flush D L s)
        (D.iter s.memory_storage, refl, λ j. D.get-iter j s.memory_storage) t

  -- A storage that starts with no file, or with one that holds what memory holds, is a map under any saves,
  -- silent or not, gets and flushes, as long as no get comes between a write and the next flush
  -- once there is a file: it holds the last value of each key, each get answers with the value at
  -- that time, and each save that is not silent calls each listener once, in order.
  pub run_storage_lem :
      (ops : List StorageOp) (f : FileState) (s : Storage)
      → Fits f s
      → IsTimely f ops
      → ((j : Text) → reads D L j (run_storage ops s).0 ≡ mapped ops (λ k. reads D L k s) j)
        × ((run_storage ops s).1 ≡ answered ops (λ k. reads D L k s))
        × ((run_storage ops s).2 ≡ called ops s.listeners)
  run_storage_lem ops f s h t =
      let r = run_storage-Ran ops f s h t in (λ j. ap (λ m. m j) r.0, r.1, r.2)
