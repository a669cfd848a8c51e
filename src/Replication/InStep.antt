-- ===== src/Replication/InStep.antt =====
-- The tree of a node that replicates: in step with the saves of the node, and behind those of others.
use leopard.Prelude.{
  ◌≡◌, ◌≢◌, refl, sym, ap, ◌∙◌, Option, some, List, [], ◌∷◌, ◌++◌, map, Text, text_eq,
  if◌then◌else◌,
}
use leopard.Prelude.Bytes.{text_eq_refl}
use mathlib.Core.Path.{subst}
use mathlib.Core.List.{append-nil}
use leopard.State.Dash.{DashMap}
use leopard.State.Storage.{DefaultDataStateItem, save, save_silent, items, add_listener}
use leopard.State.Storage.Laws.{reads, last_of-items}
use leopard.Merkle.Tree.{insert}
use leopard.Merkle.Tree.Valid.{IsValid, lookup, insert_lem, replace_all_lem}
use leopard.Replication.{
  StorageListener, tree_insert, broadcast, ReplicationMessage, insert_notification, Node,
  setup_tree_listener, setup_broadcast_listener, fire, store_item, receive_notification,
}

module _ (D : DashMap) (digest : Text → Text) where
  abbrev pub reads_at : Text → Node D digest → Option Text
  reads_at k n = reads D StorageListener k n.storage

  -- The node has both listeners, and its tree is that of its data.
  pub record InStep (n : Node D digest) : Type 0 where
    pub listening : n.storage.listeners ≡ tree_insert ∷ broadcast ∷ []
    pub valid : IsValid digest n.tree
    pub mirrors : (k : Text) → lookup k n.tree ≡ reads_at k n

  abbrev pub notified : List Text → DefaultDataStateItem → List (Text × ReplicationMessage)
  notified targets item = map (λ (t : Text). (t, insert_notification item.key item.value)) targets

  store_item-listening :
      (targets : List Text) (item : DefaultDataStateItem) (n : Node D digest)
      → n.storage.listeners ≡ tree_insert ∷ broadcast ∷ []
      → store_item D digest targets item n ≡ (
        record {
          storage = save_silent D StorageListener item n.storage;
          tree = insert digest item.key item.value n.tree;
        },
        notified targets item,
      )
  unfolding store_item fire save save_silent
  store_item-listening targets item n h = rw h (
      ap
        (λ ms. (
          record {
            storage = record n.storage {
              memory_storage = D.insert item.key item.value n.storage.memory_storage;
              listeners = tree_insert ∷ broadcast ∷ [];
            };
            tree = insert digest item.key item.value n.tree;
          },
          ms,
        ))
        (append-nil (notified targets item)))

  -- A save by a node in step leaves it in step, and tells each target once, in their order; the saved key
  -- then reads as the value, and any other as before.
  pub store_item-InStep :
      (targets : List Text) (item : DefaultDataStateItem) (n : Node D digest)
      → InStep n
      → InStep (store_item D digest targets item n).0
        × ((store_item D digest targets item n).1 ≡ notified targets item)
        × ((k : Text)
            → reads_at k (store_item D digest targets item n).0
              ≡ (if text_eq item.key k then some item.value else reads_at k n))
  unfolding save_silent
  store_item-InStep targets item n s =
      let tree = insert_lem digest item.key item.value n.tree s.valid in
      subst
        (λ (r : Node D digest × List (Text × ReplicationMessage)).
          InStep r.0
          × (r.1 ≡ notified targets item)
          × ((k : Text)
              → reads_at k r.0 ≡ (if text_eq item.key k then some item.value else reads_at k n)))
        (sym (store_item-listening targets item n s.listening))
        (
          record {
            listening = s.listening;
            valid = tree.0;
            mirrors = λ k.
                tree.1 k
                ∙ ap (λ o. if text_eq item.key k then some item.value else o) (s.mirrors k)
                ∙ sym (D.get-insert item.key k item.value n.storage.memory_storage);
          },
          refl,
          λ k. D.get-insert item.key k item.value n.storage.memory_storage,
        )

  -- A node that had no listener is in step once both protocols have set theirs up.
  pub setup-InStep :
      (n : Node D digest)
      → n.storage.listeners ≡ []
      → InStep (setup_broadcast_listener D digest (setup_tree_listener D digest n))
  unfolding setup_broadcast_listener setup_tree_listener add_listener
  setup-InStep n h =
      let built =
        replace_all_lem digest
          (map (λ (i : DefaultDataStateItem). (i.key, i.value)) (items D StorageListener n.storage))
          n.tree in
      record {
        listening = ap (λ ls. (ls ++ tree_insert ∷ []) ++ broadcast ∷ []) h;
        valid = built.0;
        mirrors = λ k. built.1 k ∙ last_of-items D StorageListener k n.storage;
      }

  -- A value that is new to a node in step and comes by replication is read there, and the tree
  -- does not have it.
  pub receive_notification-stale :
      (key value : Text) (n : Node D digest)
      → InStep n
      → reads_at key n ≢ some value
      → let after = receive_notification D digest (insert_notification key value) n in
        (reads_at key after ≡ some value) × (lookup key after.tree ≢ some value)
  unfolding receive_notification save_silent
  receive_notification-stale key value n s new = (
    D.get-insert key key value n.storage.memory_storage ∙ rw (text_eq_refl key) refl,
    λ e. new (sym (s.mirrors key) ∙ e),
  )
