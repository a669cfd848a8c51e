-- ===== src/Merkle/Session/Loop.antt =====
-- The levels of `run_diff_session`: with fuel above the height of the responder's tree the loop
-- ends, and finds exactly the keys of `differing`.
use mathlib.Core.List.{append_assoc, append-nil}
use leopard.Prelude.{
  ℕ, zero, suc, ◌+◌, ◌<◌, ◌≡◌, refl, sym, ap, ◌∙◌, Bool, true, false, ◌||◌, Option, none, some,
  List, [], ◌∷◌, ◌++◌, map, Text, contains, contains-append, length, chunks, concat, concat-chunks,
  arith, All, ◌&&◌,
}
use leopard.Merkle.Tree.{Link, MerkleTreeSnapshot, absent, node, root_name}
use leopard.Merkle.Tree.Path.{left_of, right_of, subtree, subtree-root, subtree-left, subtree-right}
use leopard.Merkle.Session.{
  MerkleNodeAnswer, DiffState, node_answer, request, run_level, diff_loop, frontier_chunk,
}
use leopard.Merkle.Session.Walk.{
  differing, height, here, goes, child_ids, snap, peer, heres, nexts, under, visit_level,
}

-- A responder that answers every request in time from one snapshot.
abbrev pub honest : MerkleTreeSnapshot → ℕ → List Text → Option (List MerkleNodeAnswer)
honest snap id ids = some (map (node_answer snap) ids)

module _ (t u : Link) where
  heres-append : (ps qs : List Text) → heres t u (ps ++ qs) ≡ heres t u ps ++ heres t u qs
  heres-append [] qs = refl
  heres-append (p ∷ ps) qs =
      rw (heres-append ps qs)
        (sym (append_assoc (here (subtree t p) (subtree u p)) (heres t u ps) (heres t u qs)))

  nexts-append : (ps qs : List Text) → nexts t u (ps ++ qs) ≡ nexts t u ps ++ nexts t u qs
  nexts-append [] qs = refl
  nexts-append (p ∷ ps) qs = rw (nexts-append ps qs) (
      sym (
        append_assoc (child_ids p (goes (subtree t p) (subtree u p))) (nexts t u ps)
          (nexts t u qs)))

  run_level-honest :
      (cs : List (List Text)) (w : DiffState)
      → run_level (snap t u) (honest (peer t u)) cs w ≡ record {
        request_id = w.request_id + length cs;
        keys_to_fetch = w.keys_to_fetch ++ heres t u (concat cs);
        next = w.next ++ nexts t u (concat cs);
      }
  unfolding run_level request
  run_level-honest [] w = λ i. record {
    request_id = (let e : w.request_id ≡ w.request_id + 0 = omega arith in e) i;
    keys_to_fetch = sym (append-nil w.keys_to_fetch) i;
    next = sym (append-nil w.next) i;
  }
  run_level-honest (c ∷ cs) w =
      let begun : DiffState = record w { request_id = w.request_id + 1 } in
      let now : DiffState = record begun {
        keys_to_fetch = w.keys_to_fetch ++ heres t u c;
        next = w.next ++ nexts t u c;
      } in
      ap (run_level (snap t u) (honest (peer t u)) cs) (visit_level t u c begun)
      ∙ run_level-honest cs now
      ∙ (λ i. record {
        request_id =
            (let e : w.request_id + 1 + length cs ≡ w.request_id + length (c ∷ cs) = omega arith in
                e)
              i;
        keys_to_fetch =
            (append_assoc w.keys_to_fetch (heres t u c) (heres t u (concat cs))
                ∙ ap (λ x. w.keys_to_fetch ++ x) (sym (heres-append c (concat cs))))
              i;
        next =
            (append_assoc w.next (nexts t u c) (nexts t u (concat cs))
                ∙ ap (λ x. w.next ++ x) (sym (nexts-append c (concat cs))))
              i;
      })

  under-append :
      (k : Text) (ps qs : List Text)
      → contains k (under t u (ps ++ qs)) ≡ (contains k (under t u ps) || contains k (under t u qs))
  under-append k [] qs = refl
  under-append k (p ∷ ps) qs = ground (
    arith,
    under-append k ps qs,
    contains-append k (differing (subtree t p) (subtree u p)) (under t u (ps ++ qs)),
    contains-append k (differing (subtree t p) (subtree u p)) (under t u ps),
  )

  -- A differing subtree is its root and its two children.
  split_differing :
      (k : Text) (a b : Link)
      → contains k (differing a b) ≡ (
          contains k (here a b)
          || (goes a b
              && (contains k (differing (left_of a) (left_of b))
                  || contains k (differing (right_of a) (right_of b)))))
  unfolding differing
  split_differing k a absent = refl
  split_differing k a (node h l r (some key)) = ground arith
  split_differing k a (node h l r none) =
      ground (arith, contains-append k (differing (left_of a) l) (differing (right_of a) r))

  under-child_ids :
      (k p : Text) (b : Bool)
      → contains k (under t u (child_ids p b)) ≡ (
          b
          && (contains k (differing (left_of (subtree t p)) (left_of (subtree u p)))
              || contains k (differing (right_of (subtree t p)) (right_of (subtree u p)))))
  under-child_ids k p false = refl
  under-child_ids k p true =
      let a = differing (left_of (subtree t p)) (left_of (subtree u p)) in
      let b = differing (right_of (subtree t p)) (right_of (subtree u p)) in
      rw (subtree-left t p, subtree-left u p, subtree-right t p, subtree-right u p)
        (ground (arith, contains-append k a (b ++ []), contains-append k b []))

  under_level :
      (k : Text) (ps : List Text)
      → contains k (under t u ps)
        ≡ (contains k (heres t u ps) || contains k (under t u (nexts t u ps)))
  under_level k [] = refl
  under_level k (p ∷ ps) = ground (
    arith,
    under_level k ps,
    contains-append k (differing (subtree t p) (subtree u p)) (under t u ps),
    contains-append k (here (subtree t p) (subtree u p)) (heres t u ps),
    under-append k (child_ids p (goes (subtree t p) (subtree u p))) (nexts t u ps),
    split_differing k (subtree t p) (subtree u p),
    under-child_ids k p (goes (subtree t p) (subtree u p)),
  )

  abbrev pub Lower : ℕ → List Text → Type 0
  Lower n ps = All (λ p. height (subtree u p) < n) ps

  Lower-append : (n : ℕ) (ps qs : List Text) → Lower n ps → Lower n qs → Lower n (ps ++ qs)
  Lower-append n [] qs h g = g
  Lower-append n (p ∷ ps) qs h g = (h.0, Lower-append n ps qs h.1 g)

  children_lower :
      (n : ℕ) (a b : Link)
      → goes a b ≡ true
      → height b < suc n
      → (height (left_of b) < n) × (height (right_of b) < n)
  children_lower n a absent g h = cc
  children_lower n a (node x l r k) g h = omega arith

  Lower-child_ids :
      (n : ℕ) (p : Text) (b : Bool)
      → goes (subtree t p) (subtree u p) ≡ b
      → height (subtree u p) < suc n
      → Lower n (child_ids p b)
  Lower-child_ids n p false g h = tt
  Lower-child_ids n p true g h =
      let low = children_lower n (subtree t p) (subtree u p) g h in
      (rw (subtree-left u p) low.0, (rw (subtree-right u p) low.1, tt))

  Lower-nexts : (n : ℕ) (ps : List Text) → Lower (suc n) ps → Lower n (nexts t u ps)
  Lower-nexts n [] h = tt
  Lower-nexts n (p ∷ ps) h =
      Lower-append n (child_ids p (goes (subtree t p) (subtree u p))) (nexts t u ps)
        (Lower-child_ids n p (goes (subtree t p) (subtree u p)) refl h.0) (Lower-nexts n ps h.1)

  -- What the loop over a frontier returns.
  abbrev pub Finds : ℕ → List Text → ℕ → List Text → Type 0
  Finds f ps id keys =
      (id' : ℕ) × (found : List Text) × (diff_loop (snap t u) (honest (peer t u)) f ps id keys
        ≡ some (id', found))
      × ((k : Text) → contains k found ≡ (contains k keys || contains k (under t u ps)))

  pub diff_loop_honest :
      (f : ℕ) (ps : List Text) (id : ℕ) (keys : List Text) → Lower f ps → Finds f ps id keys
  unfolding diff_loop
  diff_loop_honest zero [] id keys h = (id, keys, refl, λ k. ground arith)
  diff_loop_honest zero (p ∷ ps) id keys h = absurd (omega arith)
  diff_loop_honest (suc f) [] id keys h = (id, keys, refl, λ k. ground arith)
  diff_loop_honest (suc f) (p ∷ ps) id keys h =
      let cs = chunks frontier_chunk (p ∷ ps) in
      let start : DiffState = record { request_id = id; keys_to_fetch = keys; next = [] } in
      let whole : concat cs ≡ p ∷ ps = concat-chunks frontier_chunk (p ∷ ps) (omega arith) in
      let heard = heres t u (p ∷ ps) in
      let level = nexts t u (p ∷ ps) in
      let ran : run_level (snap t u) (honest (peer t u)) cs start
          ≡ record { request_id = id + length cs; keys_to_fetch = keys ++ heard; next = level } =
        run_level-honest cs start ∙ (λ i. record {
          request_id = id + length cs;
          keys_to_fetch = keys ++ heres t u (whole i);
          next = nexts t u (whole i);
        }) in
      let rest =
        diff_loop_honest f level (id + length cs) (keys ++ heard) (Lower-nexts f (p ∷ ps) h) in
      (
        rest.0,
        rest.1,
        ap
              (λ (w : DiffState).
                diff_loop (snap t u) (honest (peer t u)) f w.next w.request_id w.keys_to_fetch)
              ran
            ∙ rest.2,
        λ k. ground (arith, rest.3 k, contains-append k keys heard, under_level k (p ∷ ps)),
      )

  -- Against a responder that answers in time from one snapshot, with fuel above the height of its
  -- tree, the loop ends, and the keys it finds are those of the leaves that the local tree, at the
  -- same place, does not match.
  pub diff_loop_root :
      (f id : ℕ)
      → height u < f
      → (id' : ℕ) × (found : List Text) × (diff_loop
            (snap t u)
            (honest (peer t u))
            f
            (root_name ∷ [])
            id
            []
          ≡ some (id', found))
        × ((k : Text) → contains k found ≡ contains k (differing t u))
  diff_loop_root f id h =
      let r = diff_loop_honest f (root_name ∷ []) id [] (rw (subtree-root u) h, tt) in
      (
        r.0,
        r.1,
        r.2,
        λ k.
            r.3 k
            ∙ rw (subtree-root t, subtree-root u)
                (ground (arith, contains-append k (differing t u) [])),
      )
