-- ===== src/Tests/Ribbon.antt =====
-- A ribbon filter of six keys with a small hash.
use leopard.Prelude.{ℕ, ◌*◌, ◌%◌, ◌^◌, ◌≡◌, true, false, some, none, inr, List, [], ◌∷◌, refl, All}
use leopard.Ribbon.Params.{Params, standard, homogeneous, validate}
use leopard.Ribbon.Filter.{RibbonFilter, contains, new, accumulate}
use leopard.Ribbon.Builder.{
  build, grow_loop, retry_loop, build_once, place_each, place, shifted, solve, xor_rows,
  initial_rows, free_rows,
}
use leopard.Ribbon.Hashing.{
  standard_equation, fingerprint_of, coefficients, mask_last, draw, derive_attempt_seed, next_u64,
  for_each_set_bit, set_bits_loop, trailing_zeros, xor_words,
}
use leopard.Ribbon.Attempts.{build_lem}
use leopard.Ribbon.Total.{build_homogeneous}

abbrev mixed : ℕ → ℕ
mixed key = (key * 0x2545F4914F6CDD1D) % 2 ^ 64

abbrev twelve_rows : Params
twelve_rows = record {
  m = 12;
  w = 6;
  r = 8;
  mode = standard;
  seed = 7;
  retry_limit = 4;
  grow_limit = 2;
}

abbrev six_keys : List ℕ
six_keys = 1 ∷ 2 ∷ 3 ∷ 4 ∷ 5 ∷ 6 ∷ []

abbrev six_filter : RibbonFilter
six_filter = record {
  params = record twelve_rows { seed = 5642271067099973283 };
  z =
      (0 ∷ [])
      ∷ (159 ∷ [])
      ∷ (218 ∷ [])
      ∷ (0 ∷ [])
      ∷ (74 ∷ [])
      ∷ (196 ∷ [])
      ∷ (123 ∷ [])
      ∷ (0 ∷ [])
      ∷ (0 ∷ [])
      ∷ (232 ∷ [])
      ∷ (0 ∷ [])
      ∷ (0 ∷ [])
      ∷ [];
  stride_words = 1;
}

six_built : build mixed twelve_rows six_keys ≡ some (inr six_filter)
unfolding build validate grow_loop retry_loop build_once place_each place shifted solve xor_rows
    initial_rows free_rows new standard_equation fingerprint_of coefficients mask_last draw
    derive_attempt_seed next_u64 for_each_set_bit set_bits_loop trailing_zeros xor_words
six_built = refl

-- A key that was not given is not found.
seven_missed : contains mixed 7 six_filter ≡ false
unfolding contains accumulate standard_equation fingerprint_of coefficients mask_last draw next_u64
    for_each_set_bit set_bits_loop trailing_zeros xor_words
seven_missed = refl

build_lem_example : All (λ key. contains mixed key six_filter ≡ true) six_keys
build_lem_example = (build_lem mixed twelve_rows six_keys).1 six_filter six_built

abbrev sixteen_rows : Params
sixteen_rows = record {
  m = 16;
  w = 6;
  r = 8;
  mode = homogeneous;
  seed = 7;
  retry_limit = 1;
  grow_limit = 0;
}

sixteen_valid : validate sixteen_rows ≡ none
unfolding validate
sixteen_valid = refl

build_homogeneous_example :
    (filter : RibbonFilter) × (build mixed sixteen_rows six_keys ≡ some (inr filter))
    × All (λ key. contains mixed key filter ≡ true) six_keys
build_homogeneous_example = build_homogeneous mixed sixteen_rows six_keys sixteen_valid refl
