-- ===== src/Merkle/Sync.antt =====
-- reconciliation/src/merkle_tree/receiver.rs: `apply_fetched` and `handle_sync_root`, over the
-- node's storage. The storage that `get_storage("default")` yields is an argument.
-- `current` is a std `HashMap`, whose order is not specified: it is kept in the order of the keys,
-- and `replace_all`, its one reader, sorts what it is given.
pub mod Merge
pub mod Apply
pub mod Exchange
pub mod Converge
use Prim.Native.Nat.Ordering.{gt}
use mathlib.Core.Option
use leopard.Prelude.{
  ℕ, Bool, true, false, Option, none, some, List, [], ◌∷◌, map, Text, text_eq, if◌then◌else◌,
}
use leopard.Prelude.Bytes.{cmp}
use leopard.Prelude.BTreeMap
use leopard.State.Dash.{DashMap}
use leopard.State.Storage.{KeyValueDataStateStorage, DefaultDataStateItem, save_silent, items}
use leopard.Merkle.Tree.{BinaryMerkleTree, replace_all, get_root_hash, snapshot}
use leopard.Merkle.Session.{MerkleNodeAnswer, run_diff_session}

-- `&value > existing` on strings.
abbrev pub is_greater : Text → Text → Bool
is_greater value existing = elim (cmp value existing) [ gt ↦ true | _ ↦ false ]

unfoldable pub should_store : Option Text → Text → Bool
should_store (some existing) value = is_greater value existing
should_store none value = true

module _ (D : DashMap) (L : Type 0) where
  -- The storage and the `current` map that the loop carries.
  pub record Applied : Type 0 where
    pub storage : KeyValueDataStateStorage D L
    pub current : List (Text × Text)

  unfoldable pub apply_one : Text → Text → Applied → Applied
  apply_one key value a =
      if should_store (BTreeMap.get key a.current) value
      then record {
        storage = save_silent D L (record { key = key; value = value }) a.storage;
        current = BTreeMap.insert key value a.current;
      }
      else a

  unfoldable pub apply_all : List (Text × Text) → Applied → Applied
  apply_all [] a = a
  apply_all ((key, value) ∷ fetched) a = apply_all fetched (apply_one key value a)

module _ (D : DashMap) (L : Type 0) (digest : Text → Text) where
  unfoldable pub apply_fetched :
      KeyValueDataStateStorage D L
      → BinaryMerkleTree
      → List (Text × Text)
      → KeyValueDataStateStorage D L × BinaryMerkleTree
  apply_fetched storage tree fetched =
      let pairs = map (λ (i : DefaultDataStateItem). (i.key, i.value)) (items D L storage) in
      let done =
        apply_all D L fetched (record { storage = storage; current = BTreeMap.collect pairs }) in
      (done.storage, replace_all digest done.current tree)

  -- A root that matches ends the exchange; a mismatch starts a session, and none is a session whose
  -- walk the fuel does not cover.
  unfoldable pub handle_sync_root :
      (ℕ → List Text → Option (List MerkleNodeAnswer))
      → (ℕ → List Text → Option (List (Text × Text)))
      → ℕ
      → ℕ
      → Text
      → KeyValueDataStateStorage D L
      → BinaryMerkleTree
      → Option (KeyValueDataStateStorage D L × BinaryMerkleTree)
  handle_sync_root ask_nodes ask_data fuel id root_hash storage tree =
      if text_eq (get_root_hash tree.root) root_hash
      then some (storage, tree)
      else Option.map (apply_fetched storage tree)
          (run_diff_session (snapshot tree) ask_nodes ask_data fuel id)
