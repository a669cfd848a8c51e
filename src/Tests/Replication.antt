-- ===== src/Tests/Replication.antt =====
-- A node that replicates, with two entries.
use leopard.Prelude.{
  ◌≡◌, ◌≢◌, refl, [], ◌∷◌, some, none, Text, codes, text_eq, if◌then◌else◌, arith,
}
use leopard.State.Storage.{DefaultDataStateItem, add_listener}
use leopard.Merkle.Tree.{new_tree}
use leopard.Merkle.Tree.Valid.{lookup}
use leopard.Replication.{
  Node, setup_tree_listener, setup_broadcast_listener, store_item, receive_notification,
  insert_notification,
}
use leopard.Replication.InStep.{
  InStep, reads_at, store_item-InStep, setup-InStep, receive_notification-stale,
}
use leopard.Tests.Fixtures.{write_log, digest, our_entries}

abbrev bare : Node write_log digest
bare = record {
  storage = record { memory_storage = our_entries; disk = none; listeners = [] };
  tree = new_tree;
}

abbrev set_up : Node write_log digest
set_up = setup_broadcast_listener write_log digest (setup_tree_listener write_log digest bare)

set_up-InStep : InStep write_log digest set_up
set_up-InStep = setup-InStep write_log digest bare refl

abbrev nine : DefaultDataStateItem
nine = record { key = codes "b"; value = codes "9" }

store_item-InStep_example :
    let r = store_item write_log digest (codes "n" ∷ codes "o" ∷ []) nine set_up in
    InStep write_log digest r.0
    × (r.1
        ≡ (codes "n", insert_notification (codes "b") (codes "9"))
          ∷ (codes "o", insert_notification (codes "b") (codes "9"))
          ∷ [])
    × ((k : Text)
        → reads_at write_log digest k r.0 ≡ (
            if text_eq (codes "b") k then some (codes "9") else reads_at write_log digest k set_up))
store_item-InStep_example =
    store_item-InStep write_log digest (codes "n" ∷ codes "o" ∷ []) nine set_up set_up-InStep

new_value : reads_at write_log digest (codes "b") set_up ≢ some (codes "9")
unfolding setup_broadcast_listener setup_tree_listener add_listener
new_value e = let same : some (codes "7") ≡ some (codes "9") = e in grind arith

receive_notification-stale_example :
    let after =
      receive_notification write_log digest (insert_notification (codes "b") (codes "9")) set_up in
    (reads_at write_log digest (codes "b") after ≡ some (codes "9"))
    × (lookup (codes "b") after.tree ≢ some (codes "9"))
receive_notification-stale_example =
    receive_notification-stale write_log digest (codes "b") (codes "9") set_up set_up-InStep
      new_value
