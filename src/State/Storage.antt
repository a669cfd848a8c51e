-- ===== src/State/Storage.antt =====
-- state/src/storage/mod.rs: `KeyValueDataStateStorage`, and `DefaultDataState` of state.rs, which
-- passes each call on. `disk` is what `exists` and `load` give: none where there is no file or it
-- does not parse. A save that fires listeners returns the calls that it makes, in order.
pub mod Laws
pub mod History
use mathlib.Core.Option
use leopard.Prelude.{
  ◌≡◌, Option, none, some, List, [], ◌∷◌, ◌++◌, map, Text, Bool, true, false, if◌then◌else◌,
}
use leopard.State.Dash.{DashMap}

pub record DefaultDataStateItem : Type 0 where
  pub key : Text
  pub value : Text

module _ (D : DashMap) (L : Type 0) where
  open D use {Map, iter}

  pub record KeyValueDataStateStorage : Type 0 where
    pub memory_storage : Map
    pub disk : Option (List (Text × Text))
    pub listeners : List L

  -- `for (k, v) in data { memory_storage.insert(k, v); }`
  unfoldable pub insert_all : List (Text × Text) → Map → Map
  insert_all [] m = m
  insert_all ((k, v) ∷ es) m = insert_all es (D.insert k v m)

  unfoldable pub new_storage : Option (List (Text × Text)) → KeyValueDataStateStorage
  new_storage disk = record {
    memory_storage = insert_all (Option.get_or disk []) D.new;
    disk = disk;
    listeners = [];
  }

  unfoldable pub add_listener : L → KeyValueDataStateStorage → KeyValueDataStateStorage
  add_listener l s = record s { listeners = s.listeners ++ l ∷ [] }

  unfoldable pub save_silent :
      DefaultDataStateItem → KeyValueDataStateStorage → KeyValueDataStateStorage
  save_silent item s = record s { memory_storage = D.insert item.key item.value s.memory_storage }

  unfoldable pub save :
      DefaultDataStateItem
      → KeyValueDataStateStorage
      → KeyValueDataStateStorage × List (L × DefaultDataStateItem)
  save item s = (
    record s { memory_storage = D.insert item.key item.value s.memory_storage },
    map (λ l. (l, item)) s.listeners,
  )

  -- A miss reloads the file into memory before it answers.
  unfoldable pub get :
      Text → KeyValueDataStateStorage → KeyValueDataStateStorage × Option DefaultDataStateItem
  get key s = elim (D.get key s.memory_storage) [
    | some v ↦ (s, some (record { key = key; value = v }))
    | none ↦ elim s.disk [
      | some es ↦
          let m = insert_all es s.memory_storage in
          (
            record s { memory_storage = m },
            Option.map (λ v. record { key = key; value = v }) (D.get key m),
          )
      | none ↦ (s, none)
    ]
  ]

  unfoldable pub items : KeyValueDataStateStorage → List DefaultDataStateItem
  items s = map (λ e. record { key = e.0; value = e.1 }) (iter s.memory_storage)

  unfoldable pub keys : KeyValueDataStateStorage → List Text
  keys s = map (λ e. e.0) (iter s.memory_storage)

  -- One tick of `spawn_periodic_flush`, where the write succeeds.
  unfoldable pub flush : KeyValueDataStateStorage → KeyValueDataStateStorage
  flush s = record s { disk = some (iter s.memory_storage) }
