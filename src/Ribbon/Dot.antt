-- ===== src/Ribbon/Dot.antt =====
-- The sum of the values at the set bits of a coefficient word: linear in the word, and split at any
-- position. The loop over the set bits computes it.
use Prim.Native.Nat.{bit_xor}
use leopard.Prelude.{
  ℕ, zero, suc, ◌+◌, ◌/◌, ◌%◌, ◌^◌, ◌≡◌, refl, sym, ap, ap₂, ◌∙◌, arith, ◌==◌, if◌then◌else◌,
}
use leopard.Prelude.Words

module _ (v : ℕ → ℕ) where
  -- The value at `i` when `c` is odd.
  abbrev pub bit_term : ℕ → ℕ → ℕ
  bit_term c i = if c % 2 == 1 then v i else 0

  -- The `n` lowest bits of `c`, from position `i` on.
  unfoldable pub dot : ℕ → ℕ → ℕ → ℕ
  dot zero c i = 0
  dot (suc n) c i = bit_xor (bit_term c i) (dot n (c / 2) (suc i))

  bit_term-bit_xor : (a b i : ℕ) → bit_term (bit_xor a b) i ≡ bit_xor (bit_term a i) (bit_term b i)
  bit_term-bit_xor a b i = ground (
    arith,
    Words.bit_xor_parity a b,
    Words.bit_xor_self (v i),
    Words.bit_xor_zero_left (v i),
    Words.bit_xor_zero_right (v i),
    Words.bit_xor_zero_left 0,
  )

  pub dot-bit_xor : (n a b i : ℕ) → dot n (bit_xor a b) i ≡ bit_xor (dot n a i) (dot n b i)
  unfolding dot
  dot-bit_xor zero a b i = refl
  dot-bit_xor (suc n) a b i =
      ap₂ bit_xor (bit_term-bit_xor a b i)
        (ap (λ c. dot n c (suc i)) (Words.bit_xor_half a b) ∙ dot-bit_xor n (a / 2) (b / 2) (suc i))
      ∙ Words.bit_xor_interchange (bit_term a i) (bit_term b i) (dot n (a / 2) (suc i))
          (dot n (b / 2) (suc i))

  pub dot_zero : (n i : ℕ) → dot n 0 i ≡ 0
  unfolding dot
  dot_zero zero i = refl
  dot_zero (suc n) i = ap (bit_xor 0) (dot_zero n (suc i))

  -- Only the bits that are counted matter.
  pub dot_mod : (n c i : ℕ) → dot n (c % 2 ^ n) i ≡ dot n c i
  unfolding dot
  dot_mod zero c i = refl
  dot_mod (suc n) c i =
      let e = Words.mod_pow_suc n c in
      let parity : c % 2 ^ suc n % 2 ≡ c % 2 = omega (arith, e) in
      let halved : c % 2 ^ suc n / 2 ≡ c / 2 % 2 ^ n = omega (arith, e) in
      ap₂ bit_xor (ap (λ t. if t == 1 then v i else 0) parity)
        (ap (λ t. dot n t (suc i)) halved ∙ dot_mod n (c / 2) (suc i))

  -- The sum of a prefix of the bits and the rest.
  pub dot_split : (n k c i : ℕ) → dot (n + k) c i ≡ bit_xor (dot n c i) (dot k (c / 2 ^ n) (n + i))
  unfolding dot
  dot_split zero k c i =
      let whole : c / 2 ^ 0 ≡ c = omega arith in
      let here : 0 + i ≡ i = omega arith in
      ap (λ t. dot t c i) (omega arith) ∙ sym (Words.bit_xor_zero_left _ ∙ ap₂ (dot k) whole here)
  dot_split (suc n) k c i =
      let first = bit_term c i in
      let sizes : suc n + k ≡ suc (n + k) = omega arith in
      let places : n + suc i ≡ suc n + i = omega arith in
      ap (λ t. dot t c i) sizes
      ∙ ap (bit_xor first) (dot_split n k (c / 2) (suc i))
      ∙ sym (Words.bit_xor_assoc first (dot n (c / 2) (suc i)) _)
      ∙ ap (bit_xor (bit_xor first (dot n (c / 2) (suc i))))
          (ap₂ (dot k) (sym (Words.div_pow_suc n c)) places)
