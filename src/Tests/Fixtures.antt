-- ===== src/Tests/Fixtures.antt =====
-- Data for the tests: a digest, a concurrent map, two data sets and their nodes.
use leopard.Prelude.{
  if◌then◌else◌, some, text_eq, arith, All, Option, ℕ, ◌+◌, ◌*◌, ◌≡◌, refl, ◌∙◌, List, [], ◌∷◌,
  ◌++◌, none, Text, codes, length, replicate,
}
use leopard.Prelude.BTreeMap
use leopard.Prelude.BTreeMap.{IsSorted, insert, insert-IsSorted, get-insert}
use leopard.Prelude.BTreeMap.Laws.{last_of, collect-IsSorted, get-collect, last_of-IsSorted}
use leopard.State.Dash.{DashMap}
use leopard.State.Storage.{KeyValueDataStateStorage}
use leopard.Merkle.Tree.{BinaryMerkleTree, build_recursive}
use leopard.Merkle.Tree.Valid.{IsValid}
use leopard.Merkle.Tree.Hash.{IsShaped}
use leopard.Prelude.Bytes.{cmp}

abbrev polynomial : Text → ℕ
polynomial [] = 1
polynomial (b ∷ bs) = b + 257 * polynomial bs

-- A digest of 32 elements.
abbrev pub digest : Text → Text
digest bs = replicate 31 0 ++ polynomial bs ∷ []

pub digest_length : (bs : Text) → length (digest bs) ≡ 32
digest_length bs = refl

pub last_of-append :
    (k j v : Text) (m : List (Text × Text)) (d : Option Text)
    → last_of j (m ++ (k, v) ∷ []) d ≡ (if text_eq k j then some v else last_of j m d)
last_of-append k j v [] d = refl
last_of-append k j v ((i, w) ∷ m) d = last_of-append k j v m (if text_eq i j then some w else d)

-- A map that keeps its writes in order.
abbrev pub write_log : DashMap
write_log = record {
  Map = List (Text × Text);
  new = [];
  insert = λ k v m. m ++ (k, v) ∷ [];
  get = λ k m. last_of k m none;
  iter = BTreeMap.collect;
  get-new = λ k. refl;
  get-insert = λ k j v m. last_of-append k j v m none;
  get-iter = λ k m. last_of-IsSorted k (BTreeMap.collect m) (collect-IsSorted m) ∙ get-collect k m;
}

abbrev pub our_entries : List (Text × Text)
our_entries = (codes "a", codes "1") ∷ (codes "b", codes "7") ∷ []

abbrev pub their_entries : List (Text × Text)
their_entries = (codes "b", codes "4") ∷ (codes "c", codes "2") ∷ []

abbrev pub tree_of : List (Text × Text) → BinaryMerkleTree
tree_of es = record { entries = es; root = build_recursive digest es }

abbrev pub our_tree : BinaryMerkleTree
our_tree = tree_of our_entries

abbrev pub their_tree : BinaryMerkleTree
their_tree = tree_of their_entries

pub our_tree-IsValid : IsValid digest our_tree
unfolding cmp
our_tree-IsValid = record { sorted = ((refl, tt), (tt, tt)); built = refl }

pub their_tree-IsValid : IsValid digest their_tree
unfolding cmp
their_tree-IsValid = record { sorted = ((refl, tt), (tt, tt)); built = refl }

pub our_shape : All (IsShaped 1) our_entries
our_shape = ((refl, omega arith), ((refl, omega arith), tt))

pub their_shape : All (IsShaped 1) their_entries
their_shape = ((refl, omega arith), ((refl, omega arith), tt))

abbrev pub Listener : Type 0
Listener = ℕ

abbrev pub storage_of :
    List (Text × Text) → Option (List (Text × Text)) → KeyValueDataStateStorage write_log Listener
storage_of es disk = record { memory_storage = es; disk = disk; listeners = 5 ∷ 6 ∷ [] }

abbrev pub our_storage : KeyValueDataStateStorage write_log Listener
our_storage = storage_of our_entries none

abbrev pub their_storage : KeyValueDataStateStorage write_log Listener
their_storage = storage_of their_entries none
