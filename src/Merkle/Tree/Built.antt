-- ===== src/Merkle/Tree/Built.antt =====
-- What `build_recursive` builds, as a relation between a list of entries and a tree, and the byte
-- strings that are hashed on the way.
use leopard.Prelude.{
  ℕ, zero, suc, ◌-◌, ◌/◌, ◌≤◌, ◌<◌, min, ◌≡◌, sym, true, some, List, [], ◌∷◌, ◌++◌, Text,
  text_eq_iff, contains, contains-append, length, take, drop, length-take, length-drop,
  take-append-drop, arith,
}
use leopard.Merkle.Tree.{Link, absent, node, child_bytes, join_links, build_fuel, build_recursive}

module _ (digest : Text → Text) where
  -- The strings that `build_fuel` hashes.
  unfoldable pub inputs_fuel : ℕ → List (Text × Text) → List Text
  inputs_fuel zero entries = []
  inputs_fuel (suc f) [] = []
  inputs_fuel (suc f) ((k, v) ∷ []) = (k ++ v) ∷ []
  inputs_fuel (suc f) (e ∷ e' ∷ es) =
      let entries = e ∷ e' ∷ es in
      let mid = length entries / 2 in
      let l = build_fuel digest f (take mid entries) in
      let r = build_fuel digest f (drop mid entries) in
      (child_bytes l ++ child_bytes r)
      ∷ (inputs_fuel f (take mid entries) ++ inputs_fuel f (drop mid entries))

  unfoldable pub inputs : List (Text × Text) → List Text
  unfolding inputs_fuel
  inputs entries = inputs_fuel (length entries) entries

  -- `Built S entries link`: `link` is a tree over `entries`, and `S` holds of all that it hashes.
  pub data Built (S : Text → Type 0) : List (Text × Text) → Link → Type 0 where
    nothing : Built S [] absent
    leaf :
        (k v : Text)
        → S (k ++ v)
        → Built S ((k, v) ∷ []) (node (digest (k ++ v)) absent absent (some k))
    fork :
        {xs ys es : List (Text × Text)} {l r : Link}
        → Built S xs l
        → Built S ys r
        → 0 < length xs
        → 0 < length ys
        → es ≡ xs ++ ys
        → S (child_bytes l ++ child_bytes r)
        → Built S es (join_links digest l r)

  halves :
      (f n : ℕ)
      → suc (suc n) ≤ suc f
      → (min (suc (suc n) / 2) (suc (suc n)) ≤ f)
        × (suc (suc n) - suc (suc n) / 2 ≤ f)
        × (0 < min (suc (suc n) / 2) (suc (suc n)))
        × (0 < suc (suc n) - suc (suc n) / 2)
  halves f n h = omega arith

  pub build_fuel-Built :
      (S : Text → Type 0) (f : ℕ) (es : List (Text × Text))
      → length es ≤ f
      → ((x : Text) → contains x (inputs_fuel f es) ≡ true → S x)
      → Built S es (build_fuel digest f es)
  unfolding build_fuel inputs_fuel
  build_fuel-Built S zero [] h s = nothing
  build_fuel-Built S zero (e ∷ es) h s = absurd (omega arith)
  build_fuel-Built S (suc f) [] h s = nothing
  build_fuel-Built S (suc f) ((k, v) ∷ []) h s =
      leaf k v (s (k ++ v) (ground (arith, text_eq_iff (k ++ v) (k ++ v))))
  build_fuel-Built S (suc f) (e ∷ e' ∷ es) h s =
      let entries = e ∷ e' ∷ es in
      let mid = length entries / 2 in
      let l = build_fuel digest f (take mid entries) in
      let r = build_fuel digest f (drop mid entries) in
      let here = child_bytes l ++ child_bytes r in
      let lefts = inputs_fuel f (take mid entries) in
      let rights = inputs_fuel f (drop mid entries) in
      fork
        (build_fuel-Built S f (take mid entries) (rw length-take (halves f (length es) h).0)
          (λ x m. s x (ground (arith, contains-append x lefts rights))))
        (build_fuel-Built S f (drop mid entries) (rw length-drop (halves f (length es) h).1)
          (λ x m. s x (ground (arith, contains-append x lefts rights))))
        (rw length-take (halves f (length es) h).2) (rw length-drop (halves f (length es) h).3)
        (sym (take-append-drop mid entries)) (s here (ground (arith, text_eq_iff here here)))

  pub build_recursive-Built :
      (S : Text → Type 0) (es : List (Text × Text))
      → ((x : Text) → contains x (inputs es) ≡ true → S x)
      → Built S es (build_recursive digest es)
  unfolding build_recursive inputs
  build_recursive-Built S es s = build_fuel-Built S (length es) es (omega arith) s
