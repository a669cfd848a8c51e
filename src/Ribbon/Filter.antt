-- ===== src/Ribbon/Filter.antt =====
-- reconciliation/src/algorithms/ribbon/filter.rs: the filter and its membership test. A scratch is
-- two vectors that every test resets first, so it is no part of the state.
use leopard.Prelude.{ℕ, ◌+◌, Bool, List, [], ◌∷◌, replicate, get_elem?, ltb, text_eq, if◌then◌else◌}
use mathlib.Core.Option
use leopard.Ribbon.Params.{Params, fingerprint_words}
use leopard.Ribbon.Hashing.{xor_words, for_each_set_bit, standard_equation}

pub record RibbonFilter : Type 0 where
  pub params : Params
  pub z : List (List ℕ)
  pub stride_words : ℕ

unfoldable pub new : Params → List (List ℕ) → RibbonFilter
new p z = record { params = p; z = z; stride_words = fingerprint_words p }

-- A row in range.
abbrev pub z_row : List (List ℕ) → ℕ → List ℕ
z_row z row = Option.get_or (get_elem? z row) []

-- The calls of the closure, one for each offset.
unfoldable pub accumulate : ℕ → List (List ℕ) → ℕ → List ℕ → List ℕ → List ℕ
accumulate m z start [] acc = acc
accumulate m z start (offset ∷ offsets) acc =
    accumulate m z start offsets
      (if ltb (start + offset) m then xor_words acc (z_row z (start + offset)) else acc)

module _ {ℓ} {K : Type ℓ} (hash_one : K → ℕ) where
  unfoldable pub contains : K → RibbonFilter → Bool
  contains key f =
      let e = standard_equation hash_one key f.params.seed f.params in
      let offsets = for_each_set_bit e.0.coeff_lo e.0.coeff_hi in
      let acc = accumulate f.params.m f.z e.0.start offsets (replicate f.stride_words 0) in
      text_eq acc e.1
