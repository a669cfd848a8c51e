-- ===== src/Tests/Merkle.antt =====
-- The theorems of the Merkle component at two small nodes.
use leopard.Prelude.{
  ℕ, ◌<◌, ◌≡◌, ◌↔◌, refl, true, List, [], ◌∷◌, ◌++◌, some, none, Text, codes, arith, text_eq,
  if◌then◌else◌, contains, All,
}
use mathlib.Core.Option
use leopard.Prelude.BTreeMap.Laws.{last_of, last_of-IsSorted}
use leopard.Prelude.Lists.{chunks}
use leopard.Prelude.Bytes.{cmp, split}
use leopard.Prelude.BTreeMap
use leopard.Tests.Fixtures.{
  digest, digest_length, write_log, our_entries, their_entries, our_tree, their_tree, tree_of,
  our_tree-IsValid, their_tree-IsValid, our_shape, their_shape, Listener, our_storage,
  their_storage, storage_of,
}
use leopard.Merkle.Tree.{
  BinaryMerkleTree, new_tree, get_root_hash, snapshot, build_recursive, build_fuel, join_links,
  child_bytes, insert, remove, replace_all, get_node, get_node_summary, rebuild_tree, walk_summary,
}
use leopard.Merkle.Tree.Built.{inputs, inputs_fuel}
use leopard.Merkle.Tree.Path.{found_summary, get_node_summary-get_node}
use leopard.Merkle.Tree.Boundary.{build_recursive_boundary}
use leopard.Merkle.Tree.Valid.{lookup, IsValid, insert_lem, remove_lem, replace_all_lem}
use leopard.Merkle.Tree.History.{
  TreeOp, inserted, removed, replaced, effects, run_ops, run_ops_root,
}
use leopard.Merkle.Tree.Agree.{is_collision_free, get_root_hash_iff}
use leopard.Merkle.Tree.Hash.{IsShaped}
use leopard.Merkle.Session.{
  diff_loop, fetch_all, run_diff_session, run_level, visit_all, visit, request, node_answer,
  local_hash, data_answer,
}
use leopard.Merkle.Session.Loop.{honest, diff_loop_root}
use leopard.Merkle.Sync.{handle_sync_root, apply_fetched, apply_all, apply_one, should_store}
use leopard.Merkle.Sync.Merge.{merge_all}
use leopard.Merkle.Sync.Apply.{honest_data, Mirrors, apply_fetched_lem}
use leopard.Merkle.Sync.Exchange.{Merged, exchange_merges}
use leopard.Merkle.Sync.Converge.{exchanges_converge}
use leopard.State.Storage.{save_silent, items, KeyValueDataStateStorage}
use leopard.Merkle.Session.Walk.{differing, height}

-- The strings that the two trees hash do not collide.
trees_free :
    is_collision_free digest (inputs digest our_entries ++ inputs digest their_entries) ≡ true
unfolding is_collision_free inputs inputs_fuel build_fuel join_links child_bytes
trees_free = refl

get_root_hash_iff_example :
    (get_root_hash our_tree.root ≡ get_root_hash their_tree.root)
    ↔ ((j : Text) → lookup j our_tree ≡ lookup j their_tree)
get_root_hash_iff_example =
    get_root_hash_iff digest digest_length 1 our_tree their_tree our_tree-IsValid their_tree-IsValid
      our_shape their_shape trees_free

-- The first node holds "b" with a greater value, and the second a key more.
abbrev merged_entries : List (Text × Text)
merged_entries = (codes "a", codes "1") ∷ (codes "b", codes "7") ∷ (codes "c", codes "2") ∷ []

their_height : height their_tree.root < 4
unfolding build_recursive build_fuel join_links
their_height = omega arith

merged_height : height (tree_of merged_entries).root < 4
unfolding build_recursive build_fuel join_links
merged_height = omega arith

our_storage-Mirrors : Mirrors write_log Listener digest our_storage our_tree
our_storage-Mirrors j = last_of-IsSorted j our_entries our_tree-IsValid.sorted

exchange_merges_example :
    Merged digest digest_length 1 our_tree their_tree our_tree-IsValid their_tree-IsValid our_shape
      their_shape trees_free write_log Listener our_storage our_storage-Mirrors
      (handle_sync_root write_log Listener digest
        (honest (snapshot their_tree))
        (honest_data their_entries)
        4
        0
        (get_root_hash their_tree.root)
        our_storage
        our_tree)
exchange_merges_example =
    exchange_merges digest digest_length 1 our_tree their_tree our_tree-IsValid their_tree-IsValid
      our_shape their_shape trees_free write_log Listener our_storage our_storage-Mirrors 4 0
      their_height

their_storage-Mirrors : Mirrors write_log Listener digest their_storage their_tree
their_storage-Mirrors j = last_of-IsSorted j their_entries their_tree-IsValid.sorted

-- Afterwards both hold the greater "b".
abbrev ours_after : KeyValueDataStateStorage write_log Listener
ours_after = storage_of (our_entries ++ (codes "c", codes "2") ∷ []) none

abbrev theirs_after : KeyValueDataStateStorage write_log Listener
theirs_after =
    storage_of (their_entries ++ (codes "a", codes "1") ∷ (codes "b", codes "7") ∷ []) none

we_pull :
    handle_sync_root write_log Listener digest
      (honest (snapshot their_tree))
      (honest_data their_entries)
      4
      0
      (get_root_hash their_tree.root)
      our_storage
      our_tree
    ≡ some (ours_after, tree_of merged_entries)
unfolding handle_sync_root get_root_hash run_diff_session diff_loop run_level visit_all visit
    request node_answer get_node_summary walk_summary local_hash snapshot fetch_all data_answer
    apply_fetched apply_all apply_one should_store save_silent items replace_all rebuild_tree
    build_recursive build_fuel join_links child_bytes split BTreeMap.collect BTreeMap.get
    BTreeMap.insert cmp chunks
we_pull = refl

they_pull :
    handle_sync_root write_log Listener digest
      (honest (snapshot (tree_of merged_entries)))
      (honest_data merged_entries)
      4
      0
      (get_root_hash (tree_of merged_entries).root)
      their_storage
      their_tree
    ≡ some (theirs_after, tree_of merged_entries)
unfolding handle_sync_root get_root_hash run_diff_session diff_loop run_level visit_all visit
    request node_answer get_node_summary walk_summary local_hash snapshot fetch_all data_answer
    apply_fetched apply_all apply_one should_store save_silent items replace_all rebuild_tree
    build_recursive build_fuel join_links child_bytes split BTreeMap.collect BTreeMap.get
    BTreeMap.insert cmp chunks
they_pull = refl

merged_shape : All (IsShaped 1) merged_entries
merged_shape = ((refl, omega arith), ((refl, omega arith), ((refl, omega arith), tt)))

merged_free :
    is_collision_free digest (inputs digest their_entries ++ inputs digest merged_entries) ≡ true
unfolding is_collision_free inputs inputs_fuel build_fuel join_links child_bytes
merged_free = refl

exchanges_converge_example : tree_of merged_entries ≡ tree_of merged_entries
exchanges_converge_example =
    exchanges_converge digest digest_length 1 write_log Listener our_tree their_tree
      (tree_of merged_entries) (tree_of merged_entries) our_tree-IsValid their_tree-IsValid
      our_shape their_shape merged_shape trees_free merged_free our_storage their_storage ours_after
      theirs_after our_storage-Mirrors their_storage-Mirrors 4 0 0 their_height merged_height
      we_pull they_pull

apply_fetched_lem_example :
    IsValid digest (apply_fetched write_log Listener digest our_storage our_tree their_entries).1
    × Mirrors write_log Listener digest
        (apply_fetched write_log Listener digest our_storage our_tree their_entries).0
        (apply_fetched write_log Listener digest our_storage our_tree their_entries).1
    × ((j : Text)
        → lookup j (apply_fetched write_log Listener digest our_storage our_tree their_entries).1
          ≡ merge_all j their_entries (last_of j our_entries none))
apply_fetched_lem_example =
    apply_fetched_lem write_log Listener digest our_storage our_tree their_entries

diff_loop_root_example :
    (id' : ℕ) × (found : List Text) × (diff_loop
        (snapshot our_tree)
        (honest (snapshot their_tree))
        4
        (codes "root" ∷ [])
        9
        []
      ≡ some (id', found))
    × ((k : Text) → contains k found ≡ contains k (differing our_tree.root their_tree.root))
unfolding snapshot
diff_loop_root_example = diff_loop_root our_tree.root their_tree.root 4 9 their_height

insert_lem_example :
    IsValid digest (insert digest (codes "c") (codes "9") our_tree)
    × ((j : Text)
        → lookup j (insert digest (codes "c") (codes "9") our_tree)
          ≡ (if text_eq (codes "c") j then some (codes "9") else lookup j our_tree))
insert_lem_example = insert_lem digest (codes "c") (codes "9") our_tree our_tree-IsValid

remove_lem_example :
    IsValid digest (remove digest (codes "b") our_tree)
    × ((j : Text)
        → lookup j (remove digest (codes "b") our_tree)
          ≡ (if text_eq (codes "b") j then none else lookup j our_tree))
remove_lem_example = remove_lem digest (codes "b") our_tree our_tree-IsValid

replace_all_lem_example :
    IsValid digest (replace_all digest their_entries our_tree)
    × ((j : Text)
        → lookup j (replace_all digest their_entries our_tree) ≡ last_of j their_entries none)
replace_all_lem_example = replace_all_lem digest their_entries our_tree

-- The same data, by inserts in another order with a removal, and by a replacement.
abbrev first_history : List TreeOp
first_history =
    inserted (codes "b") (codes "2")
    ∷ inserted (codes "c") (codes "5")
    ∷ inserted (codes "a") (codes "1")
    ∷ removed (codes "c")
    ∷ inserted (codes "b") (codes "7")
    ∷ []

abbrev second_history : List TreeOp
second_history = inserted (codes "z") (codes "0") ∷ replaced our_entries ∷ []

abbrev first_tree : BinaryMerkleTree
first_tree = run_ops digest first_history new_tree

abbrev second_tree : BinaryMerkleTree
second_tree = run_ops digest second_history new_tree

first_entries : first_tree.entries ≡ our_entries
unfolding new_tree insert remove replace_all rebuild_tree BTreeMap.insert BTreeMap.remove cmp
first_entries = refl

second_entries : second_tree.entries ≡ our_entries
unfolding new_tree insert remove replace_all rebuild_tree BTreeMap.insert BTreeMap.collect cmp
second_entries = refl

ours_free : is_collision_free digest (inputs digest our_entries ++ inputs digest our_entries) ≡ true
unfolding is_collision_free inputs inputs_fuel build_fuel join_links child_bytes
ours_free = refl

first_shape : All (IsShaped 1) first_tree.entries
first_shape = rw first_entries our_shape

second_shape : All (IsShaped 1) second_tree.entries
second_shape = rw second_entries our_shape

histories_free :
    is_collision_free digest (inputs digest first_tree.entries ++ inputs digest second_tree.entries)
    ≡ true
histories_free = rw (first_entries, second_entries) ours_free

run_ops_root_example :
    (get_root_hash first_tree.root ≡ get_root_hash second_tree.root)
    ↔ ((j : Text) → effects first_history j none ≡ effects second_history j none)
run_ops_root_example =
    run_ops_root digest digest_length 1 first_history second_history first_shape second_shape
      histories_free

get_node_summary-get_node_example :
    get_node_summary (snapshot our_tree) (codes "root-right")
    ≡ Option.map found_summary (get_node our_tree.root (codes "root-right"))
unfolding snapshot
get_node_summary-get_node_example = get_node_summary-get_node our_tree.root (codes "root-right")

-- "ab" with "c" against "a" with "bc".
build_recursive_boundary_example :
    get_root_hash (build_recursive digest ((codes "ab", codes "c") ∷ []))
    ≡ get_root_hash (build_recursive digest ((codes "a", codes "bc") ∷ []))
build_recursive_boundary_example =
    build_recursive_boundary digest ((codes "ab", codes "c") ∷ []) ((codes "a", codes "bc") ∷ [])
      refl
