-- ===== src/Ribbon/Hashing.antt =====
-- reconciliation/src/algorithms/ribbon/hashing.rs: words added bit by bit, the set bits of a pair of
-- words, the SplitMix64 generator, and the equation of a key. `hash_one` stands for the caller's
-- `BuildHasher`, which yields a `u64`.
use Prim.Native.Nat.{bit_and, bit_or, bit_xor}
use leopard.Prelude.{
  ℕ, zero, suc, ◌+◌, ◌-◌, ◌*◌, ◌/◌, ◌%◌, ◌^◌, List, [], ◌∷◌, ◌++◌, map, replicate, leb, ◌==◌,
  if◌then◌else◌,
}
use leopard.Ribbon.Params.{Params, fingerprint_words, fingerprint_last_word_mask, is_homogeneous}

abbrev pub mix_const : ℕ
mix_const = 0x9E3779B97F4A7C15

pub record StandardEquation : Type 0 where
  pub start : ℕ
  pub coeff_lo : ℕ
  pub coeff_hi : ℕ

-- The words of `dst` past the end of the other stay.
unfoldable pub xor_words : List ℕ → List ℕ → List ℕ
xor_words [] rhs = []
xor_words (d ∷ ds) [] = d ∷ ds
xor_words (d ∷ ds) (r ∷ rs) = bit_xor d r ∷ xor_words ds rs

-- `trailing_zeros` of a word of `n` bits.
unfoldable pub trailing_zeros : ℕ → ℕ → ℕ
trailing_zeros zero x = 0
trailing_zeros (suc n) x =
    let above = trailing_zeros n (x / 2) in if x % 2 == 1 then 0 else suc above

-- `while lo != 0`, for at most `n` turns: the lowest set bit, which is then cleared.
unfoldable pub set_bits_loop : ℕ → ℕ → List ℕ
set_bits_loop zero lo = []
set_bits_loop (suc n) lo =
    let rest = set_bits_loop n (bit_and lo (lo - 1)) in
    if lo == 0 then [] else trailing_zeros 64 lo ∷ rest

-- The offsets that `for_each_set_bit_u128_parts` calls its argument with, in order. A word has 64
-- bits, hence the number of turns.
unfoldable pub for_each_set_bit : ℕ → ℕ → List ℕ
for_each_set_bit lo hi = set_bits_loop 64 lo ++ map (◌+◌ 64) (set_bits_loop 64 hi)

-- The next state and the word.
unfoldable pub next_u64 : ℕ → ℕ × ℕ
next_u64 s =
    let state = (s + mix_const) % 2 ^ 64 in
    let a = (bit_xor state (state / 2 ^ 30) * 0xBF58476D1CE4E5B9) % 2 ^ 64 in
    let b = (bit_xor a (a / 2 ^ 27) * 0x94D049BB133111EB) % 2 ^ 64 in
    (state, bit_xor b (b / 2 ^ 31))

abbrev pub fastrange : ℕ → ℕ → ℕ
fastrange x range = (x * range) / 2 ^ 64

-- `w` is at most `m` in valid parameters, so the difference is exact.
abbrev pub start_position : ℕ → ℕ → ℕ → ℕ
start_position next_word m w = fastrange next_word ((m - w) + 1)

unfoldable pub derive_attempt_seed : ℕ → ℕ → ℕ
derive_attempt_seed base_seed attempt_index =
    let sm = bit_xor base_seed ((attempt_index * mix_const) % 2 ^ 64) in
    ((next_u64 sm).1 * mix_const) % 2 ^ 64

-- That many words of the stream, and the state after them.
unfoldable pub draw : ℕ → ℕ → List ℕ × ℕ
draw zero s = ([], s)
draw (suc n) s = let step = next_u64 s in let rest = draw n step.0 in (step.1 ∷ rest.0, rest.1)

-- `*last &= mask`
unfoldable pub mask_last : ℕ → List ℕ → List ℕ
mask_last mask [] = []
mask_last mask (x ∷ []) = bit_and x mask ∷ []
mask_last mask (x ∷ y ∷ ys) = x ∷ mask_last mask (y ∷ ys)

-- The two halves of the coefficients and the state of the stream after them.
unfoldable pub coefficients : ℕ → ℕ → (ℕ × ℕ) × ℕ
coefficients w s =
    let first = next_u64 s in
    let second = next_u64 first.0 in
    if leb w 64
    then ((bit_or (bit_and first.1 (2 ^ w - 1)) 1, 0), first.0)
    else ((bit_or first.1 1, bit_and second.1 (2 ^ (w - 64) - 1)), second.0)

unfoldable pub fingerprint_of : Params → ℕ → List ℕ
fingerprint_of p s =
    if is_homogeneous p.mode
    then replicate (fingerprint_words p) 0
    else mask_last (fingerprint_last_word_mask p) (draw (fingerprint_words p) s).0

module _ {ℓ} {K : Type ℓ} (hash_one : K → ℕ) where
  -- The equation, and the fingerprint that the source writes to its last argument.
  unfoldable pub standard_equation : K → ℕ → Params → StandardEquation × List ℕ
  standard_equation key seed p =
      let stream = (bit_xor (hash_one key) seed * mix_const) % 2 ^ 64 in
      let first = next_u64 stream in
      let c = coefficients p.w first.0 in
      let equation : StandardEquation = record {
        start = start_position first.1 p.m p.w;
        coeff_lo = c.0.0;
        coeff_hi = c.0.1;
      } in
      (equation, fingerprint_of p c.1)
