-- ===== src/Replication.antt =====
-- replication/src/protocol/mod.rs, the eager broadcast of each save, and the storage listener of
-- reconciliation/src/merkle_tree/protocol.rs, which keeps the tree of a node in step with its storage. The
-- node has its default storage. The valid targets at the time of a save are an argument, and the task that
-- a listener spawns is taken as done with the save.
pub mod InStep
use leopard.Prelude.{Text, List, [], ◌∷◌, ◌++◌, map}
use leopard.State.Dash.{DashMap}
use leopard.State.Storage.{
  DefaultDataStateItem, KeyValueDataStateStorage, add_listener, save, save_silent, items,
}
use leopard.Merkle.Tree.{BinaryMerkleTree, insert, replace_all}

pub data StorageListener : Type 0 where
  tree_insert : StorageListener
  broadcast : StorageListener

pub data ReplicationMessage : Type 0 where
  insert_notification : Text → Text → ReplicationMessage

module _ (D : DashMap) (digest : Text → Text) where
  pub record Node : Type 0 where
    pub storage : KeyValueDataStateStorage D StorageListener
    pub tree : BinaryMerkleTree

  -- `MerkleTreeReconciliationProtocol::setup_storage_listener`
  unfoldable pub setup_tree_listener : Node → Node
  setup_tree_listener n = record {
    storage = add_listener D StorageListener tree_insert n.storage;
    tree =
        replace_all digest
          (map (λ (i : DefaultDataStateItem). (i.key, i.value)) (items D StorageListener n.storage))
          n.tree;
  }

  -- `EagerBroadcastReplicationProtocol::setup_storage_listener`
  unfoldable pub setup_broadcast_listener : Node → Node
  setup_broadcast_listener n = record n {
    storage = add_listener D StorageListener broadcast n.storage;
  }

  -- What the listeners do, in the order in which they fire: the tree, and the messages that are sent.
  unfoldable pub fire :
      List Text
      → List (StorageListener × DefaultDataStateItem)
      → BinaryMerkleTree
      → BinaryMerkleTree × List (Text × ReplicationMessage)
  fire targets [] tree = (tree, [])
  fire targets ((tree_insert, item) ∷ fired) tree =
      fire targets fired (insert digest item.key item.value tree)
  fire targets ((broadcast, item) ∷ fired) tree =
      let rest = fire targets fired tree in
      (rest.0, map (λ (t : Text). (t, insert_notification item.key item.value)) targets ++ rest.1)

  -- A save by the node itself.
  unfoldable pub store_item :
      List Text → DefaultDataStateItem → Node → Node × List (Text × ReplicationMessage)
  store_item targets item n =
      let saved = save D StorageListener item n.storage in
      let fired = fire targets saved.1 n.tree in
      (record { storage = saved.0; tree = fired.0 }, fired.1)

  -- `ReceiveReplicationMessageTask::run`
  unfoldable pub receive_notification : ReplicationMessage → Node → Node
  receive_notification (insert_notification key value) n = record n {
    storage = save_silent D StorageListener (record { key = key; value = value }) n.storage;
  }
