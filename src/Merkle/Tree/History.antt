-- ===== src/Merkle/Tree/History.antt =====
-- A tree after any sequence of its operations, against the map from keys to values that they describe.
use leopard.Prelude.{
  ◌≡◌, ◌↔◌, refl, sym, ap, ◌∙◌, true, Option, none, some, List, [], ◌∷◌, ◌++◌, Text, ℕ, All, length,
  text_eq, if◌then◌else◌,
}
use leopard.Prelude.BTreeMap.{get}
use leopard.Prelude.BTreeMap.Laws.{last_of}
use leopard.Merkle.Tree.{BinaryMerkleTree, new_tree, insert, remove, replace_all, get_root_hash}
use leopard.Merkle.Tree.Built.{inputs}
use leopard.Merkle.Tree.Hash.{IsShaped}
use leopard.Merkle.Tree.Valid.{
  lookup, IsValid, new_tree-IsValid, insert_lem, remove_lem, replace_all_lem,
}
use leopard.Merkle.Tree.Agree.{is_collision_free, get_root_hash_iff}

pub data TreeOp : Type 0 where
  inserted : Text → Text → TreeOp
  removed : Text → TreeOp
  replaced : List (Text × Text) → TreeOp

-- What an operation makes of what a key is mapped to.
abbrev pub effect : TreeOp → Text → Option Text → Option Text
effect (inserted k v) j o = if text_eq k j then some v else o
effect (removed k) j o = if text_eq k j then none else o
effect (replaced es) j o = last_of j es none

abbrev pub effects : List TreeOp → Text → Option Text → Option Text
effects [] j o = o
effects (op ∷ ops) j o = effects ops j (effect op j o)

module _ (digest : Text → Text) where
  abbrev pub run_op : TreeOp → BinaryMerkleTree → BinaryMerkleTree
  run_op (inserted k v) t = insert digest k v t
  run_op (removed k) t = remove digest k t
  run_op (replaced es) t = replace_all digest es t

  abbrev pub run_ops : List TreeOp → BinaryMerkleTree → BinaryMerkleTree
  run_ops [] t = t
  run_ops (op ∷ ops) t = run_ops ops (run_op op t)

  run_op-IsValid :
      (op : TreeOp) (t : BinaryMerkleTree)
      → IsValid digest t
      → IsValid digest (run_op op t)
        × ((j : Text) → lookup j (run_op op t) ≡ effect op j (lookup j t))
  run_op-IsValid (inserted k v) t h = insert_lem digest k v t h
  run_op-IsValid (removed k) t h = remove_lem digest k t h
  run_op-IsValid (replaced es) t h = replace_all_lem digest es t

  run_ops-IsValid :
      (ops : List TreeOp) (t : BinaryMerkleTree)
      → IsValid digest t
      → IsValid digest (run_ops ops t)
        × ((j : Text) → lookup j (run_ops ops t) ≡ effects ops j (lookup j t))
  run_ops-IsValid [] t h = (h, λ j. refl)
  run_ops-IsValid (op ∷ ops) t h =
      let one = run_op-IsValid op t h in
      let rest = run_ops-IsValid ops (run_op op t) one.0 in
      (rest.0, λ j. rest.1 j ∙ ap (effects ops j) (one.1 j))

  -- Two new trees, each after any sequence of inserts, removes and replacements, have the same root hash
  -- exactly when the sequences describe the same map from keys to values. The keys of the entries
  -- that are left have one length, none of them is 64 bytes long with its value, the digest has 32
  -- bytes, and it does not collide on the strings that the two trees hash.
  pub run_ops_root :
      (digest_length : (x : Text) → length (digest x) ≡ 32) (w : ℕ) (first second : List TreeOp)
      → All (IsShaped w) (run_ops first new_tree).entries
      → All (IsShaped w) (run_ops second new_tree).entries
      → is_collision_free digest (
          inputs digest (run_ops first new_tree).entries
          ++ inputs digest (run_ops second new_tree).entries)
        ≡ true
      → (get_root_hash (run_ops first new_tree).root ≡ get_root_hash (run_ops second new_tree).root)
        ↔ ((j : Text) → effects first j none ≡ effects second j none)
  unfolding new_tree get
  run_ops_root digest_length w first second shaped shaped' free =
      let a = run_ops-IsValid first new_tree (new_tree-IsValid digest) in
      let b = run_ops-IsValid second new_tree (new_tree-IsValid digest) in
      let same =
        get_root_hash_iff digest digest_length w (run_ops first new_tree) (run_ops second new_tree)
          a.0 b.0 shaped shaped' free in
      (λ e j. sym (a.1 j) ∙ same.0 e j ∙ b.1 j, λ e. same.1 (λ j. a.1 j ∙ e j ∙ sym (b.1 j)))
