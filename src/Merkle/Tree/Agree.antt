-- ===== src/Merkle/Tree/Agree.antt =====
-- Equal root hashes against equal data.
use leopard.Prelude.{
  ◌<◌, ◌≡◌, ◌≢◌, refl, ◌&&◌, not, true, ◌∙◌, ap, sym, List, [], ◌∷◌, ◌++◌, Text, Bool, text_eq,
  text_eq_iff, contains, contains-append, length, arith, if◌then◌else◌, All, ℕ, ◌↔◌,
}
use leopard.Prelude.BTreeMap
use leopard.Merkle.Tree.{
  Link, child_bytes, join_links, get_root_hash, build_recursive, build_fuel, zero_hash,
  BinaryMerkleTree,
}
use leopard.Merkle.Tree.Built.{Built, nothing, leaf, fork, inputs, build_recursive-Built}
use leopard.Merkle.Tree.Hash.{IsShaped, entries_of_hash}
use leopard.Merkle.Tree.Valid.{lookup, IsValid, IsValid-ext}

module _ (digest : Text → Text) where
  -- `x` collides with no string of the list, and its digest is not the mark of an absent node.
  abbrev pub apart : Text → List Text → Bool
  apart x [] = not (text_eq (digest x) zero_hash)
  apart x (y ∷ ys) = (if text_eq (digest x) (digest y) then text_eq x y else true) && apart x ys

  abbrev pub all_apart : List Text → List Text → Bool
  all_apart [] ys = true
  all_apart (x ∷ xs) ys = apart x ys && all_apart xs ys

  unfoldable pub is_collision_free : List Text → Bool
  is_collision_free xs = all_apart xs xs

  pub apart_eq :
      (x y : Text) (ys : List Text)
      → apart x ys ≡ true
      → contains y ys ≡ true
      → digest x ≡ digest y
      → x ≡ y
  apart_eq x y [] h m e = cc
  apart_eq x y (z ∷ zs) h m e = ground (
    arith,
    apart_eq x y zs,
    text_eq_iff z y,
    text_eq_iff x z,
    text_eq_iff x y,
    text_eq_iff (digest x) (digest z),
  )

  apart_nonzero : (x : Text) (ys : List Text) → apart x ys ≡ true → digest x ≢ zero_hash
  apart_nonzero x [] h e = ground (arith, text_eq_iff (digest x) zero_hash)
  apart_nonzero x (z ∷ zs) h e = apart_nonzero x zs (ground arith) e

  pub apart_of_mem :
      (x : Text) (xs ys : List Text)
      → all_apart xs ys ≡ true
      → contains x xs ≡ true
      → apart x ys ≡ true
  apart_of_mem x [] ys h m = cc
  apart_of_mem x (z ∷ zs) ys h m = ground (arith, apart_of_mem x zs ys, text_eq_iff z x)

  pub collision_free_eq :
      (xs : List Text) (x y : Text)
      → is_collision_free xs ≡ true
      → contains x xs ≡ true
      → contains y xs ≡ true
      → digest x ≡ digest y
      → x ≡ y
  unfolding is_collision_free
  collision_free_eq xs x y h m n e = apart_eq x y xs (apart_of_mem x xs xs h m) n e

  pub collision_free_nonzero :
      (xs : List Text) (x : Text)
      → is_collision_free xs ≡ true
      → contains x xs ≡ true
      → digest x ≢ zero_hash
  unfolding is_collision_free
  collision_free_nonzero xs x h m = apart_nonzero x xs (apart_of_mem x xs xs h m)

  pub get_root_hash-Built :
      {S : Text → Type 0} {es : List (Text × Text)} {t : Link}
      → Built digest S es t
      → 0 < length es
      → (get_root_hash t ≡ child_bytes t) × (x : Text) × S x × (get_root_hash t ≡ digest x)
  unfolding get_root_hash child_bytes join_links
  get_root_hash-Built nothing h = absurd (omega arith)
  get_root_hash-Built (leaf k v s) h = (refl, k ++ v, s, refl)
  get_root_hash-Built (fork {l = l} {r = r} a b p q e s) h =
      (refl, child_bytes l ++ child_bytes r, s, refl)

  module _ (digest_length : (x : Text) → length (digest x) ≡ 32) (w : ℕ) where
    -- One of the two trees is empty and the other is not.
    empty_ne :
        (all : List Text) (e : Text × Text) (es : List (Text × Text))
        → is_collision_free all ≡ true
        → ((x : Text) → contains x (inputs digest (e ∷ es)) ≡ true → contains x all ≡ true)
        → get_root_hash (build_recursive digest (e ∷ es)) ≢ zero_hash
    empty_ne all e es free within h =
        let S : Text → Type 0 = λ x. contains x all ≡ true in
        let root =
          get_root_hash-Built (build_recursive-Built digest S (e ∷ es) within) (omega arith) in
        collision_free_nonzero all root.1 free root.2 (sym root.3 ∙ h)

    build_empty : get_root_hash (build_recursive digest []) ≡ zero_hash
    unfolding build_recursive build_fuel get_root_hash
    build_empty = refl

    same_entries :
        (all : List Text) (es es' : List (Text × Text))
        → is_collision_free all ≡ true
        → ((x : Text) → contains x (inputs digest es) ≡ true → contains x all ≡ true)
        → ((x : Text) → contains x (inputs digest es') ≡ true → contains x all ≡ true)
        → All (IsShaped w) es
        → All (IsShaped w) es'
        → get_root_hash (build_recursive digest es) ≡ get_root_hash (build_recursive digest es')
        → es ≡ es'
    same_entries all [] [] free p q g g' e = refl
    same_entries all [] (e' ∷ es') free p q g g' e =
        absurd (empty_ne all e' es' free q (sym e ∙ build_empty))
    same_entries all (d ∷ es) [] free p q g g' e =
        absurd (empty_ne all d es free p (e ∙ build_empty))
    same_entries all (d ∷ es) (e' ∷ es') free p q g g' e =
        let S : Text → Type 0 = λ x. contains x all ≡ true in
        let b = build_recursive-Built digest S (d ∷ es) p in
        let b' = build_recursive-Built digest S (e' ∷ es') q in
        let r = get_root_hash-Built b (omega arith) in
        let r' = get_root_hash-Built b' (omega arith) in
        entries_of_hash digest digest_length S (λ x y m n. collision_free_eq all x y free m n) w b
          b' (omega arith) (omega arith) g g' (sym r.0 ∙ e ∙ r'.0)

    -- Two valid trees whose keys have one length, none of whose entries is 64 bytes long, and on
    -- whose hashed strings the digest does not collide, have the same root hash exactly when they
    -- map every key alike.
    pub get_root_hash_iff :
        (s t : BinaryMerkleTree)
        → IsValid digest s
        → IsValid digest t
        → All (IsShaped w) s.entries
        → All (IsShaped w) t.entries
        → is_collision_free (inputs digest s.entries ++ inputs digest t.entries) ≡ true
        → (get_root_hash s.root ≡ get_root_hash t.root) ↔ ((j : Text) → lookup j s ≡ lookup j t)
    get_root_hash_iff s t h g shape shape' free =
        let xs = inputs digest s.entries in
        let ys = inputs digest t.entries in
        (
          λ e.
              let same =
                same_entries (xs ++ ys) s.entries t.entries free
                  (λ x m. ground (arith, contains-append x xs ys))
                  (λ x m. ground (arith, contains-append x xs ys)) shape shape'
                  (rw (h.built, g.built) at e) in
              λ j. ap (BTreeMap.get j) same,
          λ e. ap (λ (u : BinaryMerkleTree). get_root_hash u.root) (IsValid-ext digest s t h g e),
        )
