-- ===== src/Merkle/Tree/Hash.antt =====
-- When the hash of a tree determines its entries: the digests are 32 bytes long and collide on
-- none of the strings that are hashed, the keys have one length, and no entry is 64 bytes long
-- (an inner node hashes 64 bytes).
use leopard.Prelude.{
  ℕ, ◌+◌, ◌<◌, ◌≡◌, ◌≢◌, ◌∙◌, ap, sym, ap₂, List, [], ◌∷◌, ◌++◌, Text, length, length-append,
  append-injective, arith, All, All-append_left, All-append_right,
}
use leopard.Merkle.Tree.{Link, child_bytes, join_links}
use leopard.Merkle.Tree.Built.{Built, nothing, leaf, fork}

abbrev pub IsShaped : ℕ → Text × Text → Type 0
IsShaped w (k, v) = (length k ≡ w) × (w + length v ≢ 64)

module _ (digest : Text → Text) (digest_length : (x : Text) → length (digest x) ≡ 32) where
  pub length-child_bytes :
      {S : Text → Type 0} {es : List (Text × Text)} {t : Link}
      → Built digest S es t
      → 0 < length es
      → length (child_bytes t) ≡ 32
  unfolding child_bytes join_links
  length-child_bytes nothing h = absurd (omega arith)
  length-child_bytes (leaf k v s) h = digest_length (k ++ v)
  length-child_bytes (fork {l = l} {r = r} a b p q e s) h =
      digest_length (child_bytes l ++ child_bytes r)

  module _ (S : Text → Type 0) (inj : (x y : Text) → S x → S y → digest x ≡ digest y → x ≡ y)
      (w : ℕ) where
    leaf_ne_fork :
        (k v : Text) {xs ys : List (Text × Text)} {l r : Link}
        → IsShaped w (k, v)
        → S (k ++ v)
        → Built digest S xs l
        → Built digest S ys r
        → 0 < length xs
        → 0 < length ys
        → S (child_bytes l ++ child_bytes r)
        → digest (k ++ v) ≡ digest (child_bytes l ++ child_bytes r)
        → ⊥
    leaf_ne_fork k v {l = l} {r = r} shape s a b p q s' e =
        let same : k ++ v ≡ child_bytes l ++ child_bytes r = inj _ _ s s' e in
        shape.1 (
          omega (
            arith,
            shape.0,
            ap length same,
            length-append k v,
            length-append (child_bytes l) (child_bytes r),
            length-child_bytes a p,
            length-child_bytes b q,
          ))

    pub entries_of_hash :
        {es es' : List (Text × Text)} {t t' : Link}
        → Built digest S es t
        → Built digest S es' t'
        → 0 < length es
        → 0 < length es'
        → All (IsShaped w) es
        → All (IsShaped w) es'
        → child_bytes t ≡ child_bytes t'
        → es ≡ es'
    unfolding child_bytes join_links
    entries_of_hash nothing b h h' g g' e = absurd (omega arith)
    entries_of_hash (leaf k v s) nothing h h' g g' e = absurd (omega arith)
    entries_of_hash (leaf k v s) (leaf k' v' s') h h' g g' e =
        let parts = append-injective k v k' v' (omega (arith, g.0, g'.0)) (inj _ _ s s' e) in
        λ i. (parts.0 i, parts.1 i) ∷ []
    entries_of_hash (leaf k v s) (fork a b p q d s') h h' g g' e =
        absurd (leaf_ne_fork k v g.0 s a b p q s' e)
    entries_of_hash (fork a b p q d s) nothing h h' g g' e = absurd (omega arith)
    entries_of_hash (fork a b p q d s) (leaf k v s') h h' g g' e =
        absurd (leaf_ne_fork k v g'.0 s' a b p q s (sym e))
    entries_of_hash (fork {xs = xs} {ys = ys} {l = l} {r = r} a b p q d s)
          (fork {xs = xs'} {ys = ys'} {l = l'} {r = r'} a' b' p' q' d' s') h h' g g' e =
        let parts =
          append-injective (child_bytes l) (child_bytes r) (child_bytes l') (child_bytes r')
            (length-child_bytes a p ∙ sym (length-child_bytes a' p')) (inj _ _ s s' e) in
        let g1 : All (IsShaped w) (xs ++ ys) = rw (← d) g in
        let g2 : All (IsShaped w) (xs' ++ ys') = rw (← d') g' in
        let lefts =
          entries_of_hash a a' p p' (All-append_left (IsShaped w) xs ys g1)
            (All-append_left (IsShaped w) xs' ys' g2) parts.0 in
        let rights =
          entries_of_hash b b' q q' (All-append_right (IsShaped w) xs ys g1)
            (All-append_right (IsShaped w) xs' ys' g2) parts.1 in
        d ∙ ap₂ ◌++◌ lefts rights ∙ sym d'
