-- ===== src/Merkle/Tree/Boundary.antt =====
-- A leaf hashes the key and the value with nothing between them.
use leopard.Prelude.{
  ℕ, zero, suc, ◌/◌, ◌≡◌, refl, ap, ap₂, ◌∙◌, sym, List, [], ◌∷◌, ◌++◌, map, Text, length, take,
  drop,
}
use leopard.Merkle.Tree.{Link, get_root_hash, child_bytes, build_fuel, build_recursive, join_links}

-- The key and the value of an entry, run together.
abbrev pub run_together : Text × Text → Text
run_together (k, v) = k ++ v

module _ {ℓ κ} {A : Type ℓ} {B : Type κ} (f : A → B) where
  map-take : (n : ℕ) (xs : List A) → map f (take n xs) ≡ take n (map f xs)
  map-take zero xs = refl
  map-take (suc n) [] = refl
  map-take (suc n) (x ∷ xs) = ap (◌∷◌ (f x)) (map-take n xs)

  map-drop : (n : ℕ) (xs : List A) → map f (drop n xs) ≡ drop n (map f xs)
  map-drop zero xs = refl
  map-drop (suc n) [] = refl
  map-drop (suc n) (x ∷ xs) = map-drop n xs

  length-map : (xs : List A) → length (map f xs) ≡ length xs
  length-map [] = refl
  length-map (x ∷ xs) = ap suc (length-map xs)

module _ (digest : Text → Text) where
  Alike : Link → Link → Type 0
  Alike a b = (child_bytes a ≡ child_bytes b) × (get_root_hash a ≡ get_root_hash b)

  build_fuel-Alike :
      (f : ℕ) (es ds : List (Text × Text))
      → map run_together es ≡ map run_together ds
      → Alike (build_fuel digest f es) (build_fuel digest f ds)
  unfolding build_fuel Alike child_bytes get_root_hash join_links
  build_fuel-Alike zero es ds h = (refl, refl)
  build_fuel-Alike (suc f) [] [] h = (refl, refl)
  build_fuel-Alike (suc f) [] (d ∷ ds) h = cc
  build_fuel-Alike (suc f) (e ∷ es) [] h = cc
  build_fuel-Alike (suc f) ((k, v) ∷ []) ((j, x) ∷ []) h =
      let same : k ++ v ≡ j ++ x = cc in (ap digest same, ap digest same)
  build_fuel-Alike (suc f) (e ∷ []) (d ∷ d' ∷ ds) h = cc
  build_fuel-Alike (suc f) (e ∷ e' ∷ es) (d ∷ []) h = cc
  build_fuel-Alike (suc f) (e ∷ e' ∷ es) (d ∷ d' ∷ ds) h =
      let xs = e ∷ e' ∷ es in
      let ys = d ∷ d' ∷ ds in
      let lengths : length xs ≡ length ys =
        sym (length-map run_together xs) ∙ ap length h ∙ length-map run_together ys in
      let mids : length xs / 2 ≡ length ys / 2 = ap (λ (n : ℕ). n / 2) lengths in
      let l = build_fuel-Alike f (take (length xs / 2) xs) (take (length ys / 2) ys) (
        map-take run_together (length xs / 2) xs
        ∙ ap₂ take mids h
        ∙ sym (map-take run_together (length ys / 2) ys)) in
      let r = build_fuel-Alike f (drop (length xs / 2) xs) (drop (length ys / 2) ys) (
        map-drop run_together (length xs / 2) xs
        ∙ ap₂ drop mids h
        ∙ sym (map-drop run_together (length ys / 2) ys)) in
      let same = ap digest (ap₂ ◌++◌ l.0 r.0) in (same, same)

  -- Whatever the digest, data sets whose entries agree in order once key and value are run together
  -- have the same root hash: the place where a key ends is not hashed.
  pub build_recursive_boundary :
      (es ds : List (Text × Text))
      → map run_together es ≡ map run_together ds
      → get_root_hash (build_recursive digest es) ≡ get_root_hash (build_recursive digest ds)
  unfolding build_recursive Alike
  build_recursive_boundary es ds h =
      let lengths : length es ≡ length ds =
        sym (length-map run_together es) ∙ ap length h ∙ length-map run_together ds in
      rw lengths (build_fuel-Alike (length ds) es ds h).1
