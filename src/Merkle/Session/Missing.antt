-- ===== src/Merkle/Session/Missing.antt =====
-- The differing keys of two built trees against their entries: every entry of the second that the
-- first lacks is among them, and they are keys of the second.
use leopard.Prelude.{
  ℕ, ◌<◌, ◌≡◌, ◌≢◌, refl, sym, ap, ◌∙◌, Bool, true, false, ◌||◌, ◌&&◌, some, List, [], ◌∷◌, ◌++◌,
  Text, text_eq, text_eq_iff, contains, contains-append, length, length-append, arith, All,
  All-append_left, All-append_right, Bool-cases, inl, inr,
}
use leopard.Merkle.Tree.{Link, absent, node, get_root_hash, child_bytes, join_links, zero_hash}
use leopard.Merkle.Tree.Built.{Built, nothing, leaf, fork}
use leopard.Merkle.Tree.Hash.{IsShaped, entries_of_hash}
use leopard.Merkle.Tree.Agree.{get_root_hash-Built}
use leopard.Merkle.Tree.Path.{left_of, right_of}
use leopard.Merkle.Session.Walk.{differing}

-- Whether an entry stands in a list.
abbrev pub has : Text → Text → List (Text × Text) → Bool
has k v [] = false
has k v ((j, w) ∷ es) = (text_eq j k && text_eq w v) || has k v es

abbrev pub has_key : Text → List (Text × Text) → Bool
has_key k [] = false
has_key k ((j, w) ∷ es) = text_eq j k || has_key k es

pub has-append :
    (k v : Text) (es ds : List (Text × Text)) → has k v (es ++ ds) ≡ (has k v es || has k v ds)
has-append k v [] ds = refl
has-append k v ((j, w) ∷ es) ds = ground (arith, has-append k v es ds)

pub has_key-append :
    (k : Text) (es ds : List (Text × Text)) → has_key k (es ++ ds) ≡ (has_key k es || has_key k ds)
has_key-append k [] ds = refl
has_key-append k ((j, w) ∷ es) ds = ground (arith, has_key-append k es ds)

module _ (digest : Text → Text) (digest_length : (x : Text) → length (digest x) ≡ 32)
    (S : Text → Type 0) (inj : (x y : Text) → S x → S y → digest x ≡ digest y → x ≡ y)
    (nonzero : (x : Text) → S x → digest x ≢ zero_hash) (w : ℕ) where
  pub hash_ne_zero :
      {es : List (Text × Text)} {t : Link}
      → Built digest S es t
      → 0 < length es
      → get_root_hash t ≢ zero_hash
  hash_ne_zero b h e = let r = get_root_hash-Built digest b h in nonzero r.1 r.2 (sym r.3 ∙ e)

  empty_root :
      {es : List (Text × Text)} {t : Link}
      → Built digest S es t
      → length es ≡ 0
      → get_root_hash t ≡ zero_hash
  unfolding get_root_hash
  empty_root nothing h = refl
  empty_root (leaf k v s) h = absurd (omega arith)
  empty_root (fork {xs = xs} {ys = ys} a c p q d s) h =
      absurd (omega (arith, ap length d, length-append xs ys))

  -- Where the hashes are equal and the second tree is not empty, the entries are the same.
  same_entries :
      (es es' : List (Text × Text)) {t t' : Link}
      → Built digest S es t
      → Built digest S es' t'
      → 0 < length es'
      → All (IsShaped w) es
      → All (IsShaped w) es'
      → get_root_hash t ≡ get_root_hash t'
      → es ≡ es'
  same_entries [] es' b b' h g g' e = absurd (hash_ne_zero b' h (sym e ∙ empty_root b refl))
  same_entries (d ∷ es) es' b b' h g g' e =
      entries_of_hash digest digest_length S inj w b b' (omega arith) h g g' (
        sym (get_root_hash-Built digest b (omega arith)).0
        ∙ e
        ∙ (get_root_hash-Built digest b' h).0)

  -- A child is built over a part of its parent's entries.
  abbrev Part : Link → List (Text × Text) → Type 0
  Part t es =
      (xs : List (Text × Text)) × Built digest S xs t
      × All (IsShaped w) xs
      × ((k v : Text) → has k v es ≡ false → has k v xs ≡ false)

  left-Part :
      {es : List (Text × Text)} {t : Link}
      → Built digest S es t
      → All (IsShaped w) es
      → Part (left_of t) es
  unfolding join_links
  left-Part nothing g = ([], nothing, tt, λ k v h. refl)
  left-Part (leaf k v s) g = ([], nothing, tt, λ k v h. refl)
  left-Part (fork {xs = xs} {ys = ys} a c p q d s) g = (
    xs,
    a,
    All-append_left (IsShaped w) xs ys (rw d at g),
    λ k v h. ground (arith, ap (has k v) d, has-append k v xs ys),
  )

  right-Part :
      {es : List (Text × Text)} {t : Link}
      → Built digest S es t
      → All (IsShaped w) es
      → Part (right_of t) es
  unfolding join_links
  right-Part nothing g = ([], nothing, tt, λ k v h. refl)
  right-Part (leaf k v s) g = ([], nothing, tt, λ k v h. refl)
  right-Part (fork {xs = xs} {ys = ys} a c p q d s) g = (
    ys,
    c,
    All-append_right (IsShaped w) xs ys (rw d at g),
    λ k v h. ground (arith, ap (has k v) d, has-append k v xs ys),
  )

  -- The differing keys hold every key whose entry the first tree lacks.
  pub differing_complete :
      (k v : Text) {es' : List (Text × Text)} {u : Link}
      → Built digest S es' u
      → (es : List (Text × Text)) (t : Link) → Built digest S es t
      → All (IsShaped w) es
      → All (IsShaped w) es'
      → has k v es' ≡ true
      → has k v es ≡ false
      → contains k (differing t u) ≡ true
  unfolding differing join_links child_bytes get_root_hash
  differing_complete k v nothing es t b g g' h n = cc
  differing_complete k v (leaf j x s) es t b g g' h n =
      let b' : Built digest S ((j, x) ∷ []) (node (digest (j ++ x)) absent absent (some j)) =
        leaf j x s in
      elim (Bool-cases (text_eq (get_root_hash t) (digest (j ++ x)))) [
        | inl e ↦
            let same =
              same_entries es ((j, x) ∷ []) b b' (omega arith) g g'
                ((text_eq_iff (get_root_hash t) (digest (j ++ x))).0 e) in
            cc (ap (has k v) same)
        | inr e ↦ rw e (ground arith)
      ]
  differing_complete k v {es' = es'} (fork {xs = xs} {ys = ys} {l = l} {r = r} a c p q d s) es t b g
        g' h n =
      let x = child_bytes l ++ child_bytes r in
      let b' : Built digest S es' (join_links digest l r) = fork a c p q d s in
      let whole : 0 < length es' = omega (arith, ap length d, length-append xs ys) in
      let g1 : All (IsShaped w) (xs ++ ys) = rw d at g' in
      let lp = left-Part b g in
      let rp = right-Part b g in
      let in_left : has k v xs ≡ true → contains k (differing (left_of t) l) ≡ true = λ m.
        differing_complete k v a lp.0 (left_of t) lp.1 lp.2 (All-append_left (IsShaped w) xs ys g1)
          m (lp.3 k v n) in
      let in_right : has k v ys ≡ true → contains k (differing (right_of t) r) ≡ true = λ m.
        differing_complete k v c rp.0 (right_of t) rp.1 rp.2
          (All-append_right (IsShaped w) xs ys g1) m (rp.3 k v n) in
      let either : (has k v xs || has k v ys) ≡ true =
        sym (has-append k v xs ys) ∙ sym (ap (has k v) d) ∙ h in
      elim (Bool-cases (text_eq (get_root_hash t) (digest x))) [
        | inl e ↦
            let same =
              same_entries es es' b b' whole g g'
                ((text_eq_iff (get_root_hash t) (digest x)).0 e) in
            cc (ap (has k v) same)
        | inr e ↦ rw e (
            ground (
              arith,
              nonzero x s,
              text_eq_iff (digest x) zero_hash,
              contains-append k (differing (left_of t) l) (differing (right_of t) r),
              in_left,
              in_right,
              either,
            ))
      ]

  -- And they are keys of the second tree.
  pub differing_sound :
      (k : Text) {es' : List (Text × Text)} {u : Link} (t : Link)
      → Built digest S es' u
      → contains k (differing t u) ≡ true
      → has_key k es' ≡ true
  unfolding differing join_links
  differing_sound k t nothing h = cc
  differing_sound k t (leaf j x s) h =
      ground (arith, text_eq_iff (get_root_hash t) (digest (j ++ x)))
  differing_sound k t (fork {xs = xs} {ys = ys} {l = l} {r = r} a c p q d s) h = ground (
    arith,
    ap (has_key k) d,
    has_key-append k xs ys,
    contains-append k (differing (left_of t) l) (differing (right_of t) r),
    differing_sound k (left_of t) a,
    differing_sound k (right_of t) c,
  )
