-- ===== src/Merkle/Tree/Valid.antt =====
-- The invariant of `BinaryMerkleTree`: the entries are sorted, and the root is the tree that
-- `build_recursive` builds of them. Each method keeps it, and a valid tree is a function of
-- what it maps the keys to.
use leopard.Prelude.{◌≡◌, refl, some, none, Option, List, Text, text_eq, if◌then◌else◌}
use leopard.Prelude.BTreeMap
use leopard.Prelude.BTreeMap.{IsSorted, insert-IsSorted, remove-IsSorted, get-insert}
use leopard.Prelude.BTreeMap.Laws.{get-remove, BTreeMap-ext, collect-IsSorted, get-collect, last_of}
use leopard.Merkle.Tree.{
  BinaryMerkleTree, build_recursive, build_fuel, rebuild_tree, insert, remove, replace_all,
  new_tree,
}

-- What a tree maps a key to.
abbrev pub lookup : Text → BinaryMerkleTree → Option Text
lookup k t = BTreeMap.get k t.entries

module _ (digest : Text → Text) where
  pub record IsValid (t : BinaryMerkleTree) : Type 0 where
    pub sorted : IsSorted t.entries
    pub built : t.root ≡ build_recursive digest t.entries

  pub new_tree-IsValid : IsValid new_tree
  unfolding new_tree build_recursive build_fuel
  new_tree-IsValid = record { sorted = tt; built = refl }

  -- Inserting keeps the tree valid, and then the key reads as the value and no other key changes.
  pub insert_lem :
      (k v : Text) (t : BinaryMerkleTree)
      → IsValid t
      → IsValid (insert digest k v t)
        × ((j : Text)
            → lookup j (insert digest k v t) ≡ (if text_eq k j then some v else lookup j t))
  unfolding insert rebuild_tree
  insert_lem k v t h = (
    record { sorted = insert-IsSorted k v t.entries h.sorted; built = refl },
    λ j. get-insert k j v t.entries,
  )

  -- Removing keeps the tree valid, and then the key is gone and no other key changes.
  pub remove_lem :
      (k : Text) (t : BinaryMerkleTree)
      → IsValid t
      → IsValid (remove digest k t)
        × ((j : Text) → lookup j (remove digest k t) ≡ (if text_eq k j then none else lookup j t))
  unfolding remove rebuild_tree
  remove_lem k t h = (
    record { sorted = remove-IsSorted k t.entries h.sorted; built = refl },
    λ j. get-remove k j t.entries h.sorted,
  )

  -- A batch replaces all the data of any tree, valid or not, and leaves a valid one, in which each
  -- key reads as its last entry in the batch.
  pub replace_all_lem :
      (es : List (Text × Text)) (t : BinaryMerkleTree)
      → IsValid (replace_all digest es t)
        × ((j : Text) → lookup j (replace_all digest es t) ≡ last_of j es none)
  unfolding replace_all rebuild_tree
  replace_all_lem es t =
      (record { sorted = collect-IsSorted es; built = refl }, λ j. get-collect j es)

  -- Valid trees that map the keys alike are equal, root and all.
  pub IsValid-ext :
      (s t : BinaryMerkleTree)
      → IsValid s
      → IsValid t
      → ((j : Text) → lookup j s ≡ lookup j t)
      → s ≡ t
  IsValid-ext s t h g e =
      let same = BTreeMap-ext s.entries t.entries h.sorted g.sorted e in
      let roots : s.root ≡ t.root = rw (h.built, g.built, same) in
      λ i. record { entries = same i; root = roots i }
