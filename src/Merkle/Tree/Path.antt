-- ===== src/Merkle/Tree/Path.antt =====
-- Node ids: what `get_node` and `get_node_summary` find at a path, and at the two ids that
-- `run_diff_session` makes of one.
use mathlib.Core.Option
use leopard.Prelude.{
  ◌≡◌, refl, ap, ◌∙◌, Option, none, some, List, [], ◌∷◌, ◌++◌, Text, codes, text_eq, text_eq_iff,
  if◌then◌else◌, Bool-cases, inl, inr, arith, sym,
}
use leopard.Prelude.Bytes.{split, split-append}
use leopard.Merkle.Tree.{
  Link, absent, node, MerkleNode, root_name, is_left, is_right, walk, get_node, walk_summary,
  get_node_summary,
}

abbrev pub left_of : Link → Link
left_of absent = absent
left_of (node h l r k) = l

abbrev pub right_of : Link → Link
right_of absent = absent
right_of (node h l r k) = r

abbrev pub summary : Link → Option (Text × Option Text)
summary absent = none
summary (node h l r k) = some (h, k)

abbrev pub found_summary : MerkleNode × Option Text → Text × Option Text
found_summary (n, parent) = (n.hash, n.key)

walk-summary :
    (t : Link) (parent : Option Text) (parts : List Text)
    → walk_summary t parts ≡ Option.map found_summary (walk t parent parts)
unfolding walk walk_summary
walk-summary absent parent parts = refl
walk-summary (node h l r k) parent [] = refl
walk-summary (node h l r k) parent (part ∷ parts) = ground (
  arith,
  walk-summary (node h l r k) parent parts,
  walk-summary l (some h) parts,
  walk-summary r (some h) parts,
)

-- The summary is that of the node which `get_node` clones, at every path.
pub get_node_summary-get_node :
    (t : Link) (path : Text)
    → get_node_summary (record { root = t }) path ≡ Option.map found_summary (get_node t path)
unfolding get_node_summary get_node walk_summary
get_node_summary-get_node absent path = refl
get_node_summary-get_node (node h l r k) path = elim (Bool-cases (text_eq path root_name)) [
  | inl e ↦ rw e
  | inr e ↦ rw e (walk-summary (node h l r k) none (split b'-' path))
]

-- The subtree at the parts of a path, absent where there is none.
unfoldable pub descend : Link → List Text → Link
descend absent parts = absent
descend (node h l r k) [] = node h l r k
descend (node h l r k) (part ∷ parts) =
    let stay = descend (node h l r k) parts in
    let go_left = descend l parts in
    let go_right = descend r parts in
    if text_eq part root_name
    then stay
    else if is_left part
    then go_left
    else if is_right part
    then go_right
    else absent

unfoldable pub subtree : Link → Text → Link
subtree t path = descend t (split b'-' path)

walk_summary-descend :
    (t : Link) (parts : List Text) → walk_summary t parts ≡ summary (descend t parts)
unfolding walk_summary descend
walk_summary-descend absent parts = refl
walk_summary-descend (node h l r k) [] = refl
walk_summary-descend (node h l r k) (part ∷ parts) = ground (
  arith,
  walk_summary-descend (node h l r k) parts,
  walk_summary-descend l parts,
  walk_summary-descend r parts,
)

root_parts : (t : Link) → descend t [] ≡ descend t (split b'-' root_name)
unfolding descend split
root_parts absent = refl
root_parts (node h l r k) = refl

pub get_node_summary-subtree :
    (t : Link) (path : Text)
    → get_node_summary (record { root = t }) path ≡ summary (subtree t path)
unfolding get_node_summary subtree
get_node_summary-subtree t path = elim (Bool-cases (text_eq path root_name)) [
  | inl e ↦ rw e (
      walk_summary-descend t []
      ∙ ap summary (
          root_parts t
          ∙ ap (λ p. descend t (split b'-' p)) (sym ((text_eq_iff path root_name).0 e))))
  | inr e ↦ rw e (walk_summary-descend t (split b'-' path))
]

pub subtree-root : (t : Link) → subtree t root_name ≡ t
unfolding subtree descend split
subtree-root absent = refl
subtree-root (node h l r k) = refl

descend-left :
    (t : Link) (parts : List Text)
    → descend t (parts ++ codes "left" ∷ []) ≡ left_of (descend t parts)
unfolding descend
descend-left absent parts = refl
descend-left (node h absent r k) [] = refl
descend-left (node h (node a b c d) r k) [] = refl
descend-left (node h l r k) (part ∷ parts) =
    ground (arith, descend-left (node h l r k) parts, descend-left l parts, descend-left r parts)

descend-right :
    (t : Link) (parts : List Text)
    → descend t (parts ++ codes "right" ∷ []) ≡ right_of (descend t parts)
unfolding descend
descend-right absent parts = refl
descend-right (node h l absent k) [] = refl
descend-right (node h l (node a b c d) k) [] = refl
descend-right (node h l r k) (part ∷ parts) =
    ground (arith, descend-right (node h l r k) parts, descend-right l parts, descend-right r parts)

-- The id `format!("{}-left", id)` names the left child of what `id` names, and likewise the right.
pub subtree-left :
    (t : Link) (path : Text) → subtree t (path ++ codes "-left") ≡ left_of (subtree t path)
unfolding subtree split
subtree-left t path = rw (split-append b'-' path (codes "left")) (descend-left t (split b'-' path))

pub subtree-right :
    (t : Link) (path : Text) → subtree t (path ++ codes "-right") ≡ right_of (subtree t path)
unfolding subtree split
subtree-right t path =
    rw (split-append b'-' path (codes "right")) (descend-right t (split b'-' path))
