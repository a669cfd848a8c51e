-- ===== src/Merkle/Session/Walk.antt =====
-- The walk of `run_diff_session` against a responder that answers every request from one snapshot:
-- the keys that it finds are those that a recursion on both trees at once finds.
use mathlib.Core.List.{append_assoc, append-nil}
use leopard.Prelude.{
  ℕ, suc, max, ◌≡◌, refl, ap, ◌∙◌, Bool, false, not, none, some, List, [], ◌∷◌, ◌++◌, map, Text,
  codes, text_eq, text_eq_iff, arith, if◌then◌else◌,
}
use leopard.Merkle.Tree.{Link, absent, node, MerkleTreeSnapshot, get_root_hash, zero_hash}
use leopard.Merkle.Tree.Path.{left_of, right_of, summary, subtree, get_node_summary-subtree}
use leopard.Merkle.Session.{MerkleNodeAnswer, DiffState, node_answer, local_hash, visit, visit_all}

-- The keys of the leaves of the second tree that the first, at the same place, does not match.
unfoldable pub differing : Link → Link → List Text
differing t absent = []
differing t (node h l r k) = if text_eq (get_root_hash t) h then [] else elim k [
  | some key ↦ key ∷ []
  | none ↦ if text_eq h zero_hash then [] else differing (left_of t) l ++ differing (right_of t) r
]

abbrev pub height : Link → ℕ
height absent = 0
height (node h l r k) = suc (max (height l) (height r))

-- What one visit adds: the key of a differing leaf, or the ids of the children.
abbrev pub here : Link → Link → List Text
here t absent = []
here t (node h l r k) =
    if text_eq (get_root_hash t) h then [] else elim k [ some key ↦ key ∷ [] | none ↦ [] ]

abbrev pub goes : Link → Link → Bool
goes t absent = false
goes t (node h l r k) =
    if text_eq (get_root_hash t) h
    then false
    else elim k [ some key ↦ false | none ↦ not (text_eq h zero_hash) ]

abbrev pub child_ids : Text → Bool → List Text
child_ids p b = if b then (p ++ codes "-left") ∷ (p ++ codes "-right") ∷ [] else []

local_hash-subtree :
    (t : Link) (p : Text) → local_hash (record { root = t }) p ≡ get_root_hash (subtree t p)
unfolding local_hash get_root_hash
local_hash-subtree t p = rw (get_node_summary-subtree t p, local_hash) (lem (subtree t p))
  where
    lem : (s : Link) → (elim (summary s) [ some x ↦ x.0 | none ↦ zero_hash ]) ≡ get_root_hash s
    lem absent = refl
    lem (node h l r k) = refl

module _ (t u : Link) where
  abbrev pub snap : MerkleTreeSnapshot
  snap = record { root = t }

  abbrev pub peer : MerkleTreeSnapshot
  peer = record { root = u }

  abbrev pub heres : List Text → List Text
  heres [] = []
  heres (p ∷ ps) = here (subtree t p) (subtree u p) ++ heres ps

  abbrev pub nexts : List Text → List Text
  nexts [] = []
  nexts (p ∷ ps) = child_ids p (goes (subtree t p) (subtree u p)) ++ nexts ps

  abbrev pub under : List Text → List Text
  under [] = []
  under (p ∷ ps) = differing (subtree t p) (subtree u p) ++ under ps

  abbrev answer_of : Text → Link → MerkleNodeAnswer
  answer_of p absent = (p, zero_hash, none)
  answer_of p (node h l r k) = (p, h, k)

  node_answer-subtree : (p : Text) → node_answer peer p ≡ answer_of p (subtree u p)
  unfolding node_answer
  node_answer-subtree p = rw (get_node_summary-subtree u p, node_answer) (lem (subtree u p))
    where
      lem :
          (s : Link)
          → (elim (summary s) [ some x ↦ (p, x.0, x.1) | none ↦ (p, zero_hash, none) ])
            ≡ answer_of p s
      lem absent = refl
      lem (node h l r k) = refl

  visit_answer :
      (p : Text) (s : Link) (w : DiffState)
      → visit snap (answer_of p s) w ≡ record w {
        keys_to_fetch = w.keys_to_fetch ++ here (subtree t p) s;
        next = w.next ++ child_ids p (goes (subtree t p) s);
      }
  unfolding visit
  visit_answer p absent w =
      ground (arith, append-nil w.keys_to_fetch, append-nil w.next, text_eq_iff zero_hash zero_hash)
  visit_answer p (node h l r none) w =
      ground (arith, local_hash-subtree t p, append-nil w.keys_to_fetch, append-nil w.next)
  visit_answer p (node h l r (some key)) w =
      ground (arith, local_hash-subtree t p, append-nil w.keys_to_fetch, append-nil w.next)

  visit_one :
      (p : Text) (w : DiffState)
      → visit snap (node_answer peer p) w ≡ record w {
        keys_to_fetch = w.keys_to_fetch ++ here (subtree t p) (subtree u p);
        next = w.next ++ child_ids p (goes (subtree t p) (subtree u p));
      }
  visit_one p w = ap (λ a. visit snap a w) (node_answer-subtree p) ∙ visit_answer p (subtree u p) w

  pub visit_level :
      (ps : List Text) (w : DiffState)
      → visit_all snap (map (node_answer peer) ps) w
        ≡ record w { keys_to_fetch = w.keys_to_fetch ++ heres ps; next = w.next ++ nexts ps }
  unfolding visit_all
  visit_level [] w = ground (arith, append-nil w.keys_to_fetch, append-nil w.next)
  visit_level (p ∷ ps) w =
      let now : DiffState = record w {
        keys_to_fetch = w.keys_to_fetch ++ here (subtree t p) (subtree u p);
        next = w.next ++ child_ids p (goes (subtree t p) (subtree u p));
      } in
      ap (visit_all snap (map (node_answer peer) ps)) (visit_one p w) ∙ visit_level ps now ∙ (λ i.
        record w {
          keys_to_fetch =
              append_assoc w.keys_to_fetch (here (subtree t p) (subtree u p)) (heres ps) i;
          next = append_assoc w.next (child_ids p (goes (subtree t p) (subtree u p))) (nexts ps) i;
        })
