-- ===== src/Merkle/Tree.antt =====
-- reconciliation/src/merkle_tree/tree.rs: the binary hash tree over the sorted data set, and its
-- frozen snapshots. The locks leave no trace: each method runs under `insert_rebuild_lock`.
-- `digest` stands for blake3: `update`s feed a hasher the concatenation that it then hashes.
pub mod Built
pub mod Hash
pub mod Boundary
pub mod Path
pub mod Valid
pub mod Agree
pub mod History
use leopard.Prelude.{
  ℕ, zero, suc, ◌/◌, Bool, ◌||◌, Option, none, some, List, [], ◌∷◌, ◌++◌, Text, codes, text_eq,
  length, take, drop, replicate, if◌then◌else◌,
}
use leopard.Prelude.Bytes.{split}
use leopard.Prelude.BTreeMap

-- `Option<Box<MerkleNode>>`, the constructor `node` with the fields `hash`, `left`, `right`, `key`.
pub data Link : Type 0 where
  absent : Link
  node : Text → Link → Link → Option Text → Link

pub record MerkleNode : Type 0 where
  pub hash : Text
  pub left : Link
  pub right : Link
  pub key : Option Text

pub record MerkleTreeSnapshot : Type 0 where
  pub root : Link

pub record BinaryMerkleTree : Type 0 where
  pub entries : List (Text × Text)
  pub root : Link

-- `[0; 32]`
abbrev pub zero_hash : Text
zero_hash = replicate 32 0

unfoldable pub get_root_hash : Link → Text
get_root_hash absent = zero_hash
get_root_hash (node h l r k) = h

abbrev pub root_name : Text
root_name = codes "root"

abbrev pub is_left : Text → Bool
is_left part = text_eq part (codes "0") || text_eq part (codes "left")

abbrev pub is_right : Text → Bool
is_right part = text_eq part (codes "1") || text_eq part (codes "right")

-- The loop of `get_node` over the parts of a path; `?` leaves it at an absent child.
unfoldable pub walk : Link → Option Text → List Text → Option (MerkleNode × Option Text)
walk absent parent parts = none
walk (node h l r k) parent [] = some (record { hash = h; left = l; right = r; key = k }, parent)
walk (node h l r k) parent (part ∷ parts) =
    let stay = walk (node h l r k) parent parts in
    let go_left = walk l (some h) parts in
    let go_right = walk r (some h) parts in
    if text_eq part root_name
    then stay
    else if is_left part
    then go_left
    else if is_right part
    then go_right
    else none

unfoldable pub get_node : Link → Text → Option (MerkleNode × Option Text)
get_node absent path = none
get_node (node h l r k) path =
    if text_eq path root_name
    then some (record { hash = h; left = l; right = r; key = k }, none)
    else walk (node h l r k) none (split b'-' path)

-- The loop of `get_node_summary`.
unfoldable pub walk_summary : Link → List Text → Option (Text × Option Text)
walk_summary absent parts = none
walk_summary (node h l r k) [] = some (h, k)
walk_summary (node h l r k) (part ∷ parts) =
    let stay = walk_summary (node h l r k) parts in
    let go_left = walk_summary l parts in
    let go_right = walk_summary r parts in
    if text_eq part root_name
    then stay
    else if is_left part
    then go_left
    else if is_right part
    then go_right
    else none

unfoldable pub get_node_summary : MerkleTreeSnapshot → Text → Option (Text × Option Text)
get_node_summary snap path =
    walk_summary snap.root (if text_eq path root_name then [] else split b'-' path)

unfoldable pub snapshot : BinaryMerkleTree → MerkleTreeSnapshot
snapshot t = record { root = t.root }

-- What a child adds to its parent's hasher.
unfoldable pub child_bytes : Link → Text
child_bytes absent = []
child_bytes (node h l r k) = h

unfoldable pub new_tree : BinaryMerkleTree
new_tree = record { entries = []; root = absent }

module _ (digest : Text → Text) where
  unfoldable pub join_links : Link → Link → Link
  join_links l r = node (digest (child_bytes l ++ child_bytes r)) l r none

  unfoldable pub build_fuel : ℕ → List (Text × Text) → Link
  build_fuel zero entries = absent
  build_fuel (suc f) [] = absent
  build_fuel (suc f) ((k, v) ∷ []) = node (digest (k ++ v)) absent absent (some k)
  build_fuel (suc f) (e ∷ e' ∷ es) =
      let entries = e ∷ e' ∷ es in
      let mid = length entries / 2 in
      join_links (build_fuel f (take mid entries)) (build_fuel f (drop mid entries))

  -- Each half is shorter than the whole, so the length is fuel enough.
  unfoldable pub build_recursive : List (Text × Text) → Link
  build_recursive entries = build_fuel (length entries) entries

  unfoldable pub rebuild_tree : BinaryMerkleTree → BinaryMerkleTree
  rebuild_tree t = record { entries = t.entries; root = build_recursive t.entries }

  unfoldable pub insert : Text → Text → BinaryMerkleTree → BinaryMerkleTree
  insert key value t = rebuild_tree (record t { entries = BTreeMap.insert key value t.entries })

  unfoldable pub remove : Text → BinaryMerkleTree → BinaryMerkleTree
  remove key t = rebuild_tree (record t { entries = BTreeMap.remove key t.entries })

  unfoldable pub replace_all : List (Text × Text) → BinaryMerkleTree → BinaryMerkleTree
  replace_all entries t = rebuild_tree (record t { entries = BTreeMap.collect entries })
