-- ===== src/Ribbon/Shift.antt =====
-- What the elimination does to the coefficients of an equation: adding another one's and shifting out
-- the zeros keep the sum of the values, and leave a coefficient that is odd again.
use Prim.Native.Nat.{bit_xor, bit_or}
use native.Mathlib.Nat.{
  pow-suc, one-le-pow, mod-eq_of_lt, add-mul-mod_self_right, add-mul-div_right, div-eq_of_lt,
  div-lt_iff_lt-mul, mul-le-mul_right,
}
use leopard.Prelude.{
  ℕ, zero, suc, ◌+◌, ◌*◌, ◌/◌, ◌%◌, ◌^◌, ◌<◌, ◌≡◌, ◌≢◌, refl, sym, ap, ap₂, ◌∙◌, arith, ◌==◌,
  Bool-cases, ==_iff, inl, inr,
}
use leopard.Prelude.Words
use leopard.Ribbon.Hashing.{trailing_zeros}
use leopard.Ribbon.Dot.{dot, dot_zero, dot_mod, dot_split}

-- The zeros that are counted are there, ...
pub trailing_zeros-mod : (n x : ℕ) → x % 2 ^ trailing_zeros n x ≡ 0
unfolding trailing_zeros
trailing_zeros-mod zero x = omega arith
trailing_zeros-mod (suc n) x = elim (Bool-cases (x % 2 == 1)) [
  | inl e ↦ rw e (omega arith)
  | inr e ↦
      let even : x % 2 ≡ 0 = ground (arith, e) in
      rw e (
        omega (arith, Words.mod_pow_suc (trailing_zeros n (x / 2)) x, trailing_zeros-mod n (x / 2)))
]

-- ... and a one follows.
pub trailing_zeros-odd :
    (n x : ℕ) → x ≢ 0 → x < 2 ^ n → (trailing_zeros n x < n) × (x / 2 ^ trailing_zeros n x % 2 ≡ 1)
unfolding trailing_zeros
trailing_zeros-odd zero x h p = absurd (h (omega arith))
trailing_zeros-odd (suc n) x h p = elim (Bool-cases (x % 2 == 1)) [
  | inl e ↦ let odd : x % 2 ≡ 1 = (==_iff (x % 2) 1).0 e in rw e (omega arith, omega arith)
  | inr e ↦
      let even : x % 2 ≡ 0 = ground (arith, e) in
      let rest = trailing_zeros-odd n (x / 2) (λ z. h (omega arith)) (omega (arith, pow-suc 2 n)) in
      rw e (
        omega (arith, rest.0),
        ap (λ t. t % 2) (Words.div_pow_suc (trailing_zeros n (x / 2)) x) ∙ rest.1,
      )
]

pub trailing_zeros_even_pos : (n x : ℕ) → x % 2 ≡ 0 → 0 < trailing_zeros (suc n) x
unfolding trailing_zeros
trailing_zeros_even_pos n x e = rw e (omega arith)

module _ (v : ℕ → ℕ) where
  -- Zeros at the low end only move the word.
  dot-drop : (n s c i : ℕ) → c % 2 ^ s ≡ 0 → dot v (s + n) c i ≡ dot v n (c / 2 ^ s) (s + i)
  dot-drop n s c i e =
      dot_split v s n c i
      ∙ ap (λ t. bit_xor t (dot v n (c / 2 ^ s) (s + i)))
          (sym (dot_mod v s c i) ∙ ap (λ t. dot v s t i) e ∙ dot_zero v s i)
      ∙ Words.bit_xor_zero_left _

  -- Zeros at the high end do not count.
  dot-short : (n k c i : ℕ) → c < 2 ^ n → dot v (n + k) c i ≡ dot v n c i
  dot-short n k c i p =
      dot_split v n k c i
      ∙ ap (bit_xor (dot v n c i))
          (ap (λ t. dot v k t (n + i)) (div-eq_of_lt p) ∙ dot_zero v k (n + i))
      ∙ Words.bit_xor_zero_right _

  -- Two fields side by side.
  dot-fields :
      (n k r q i : ℕ)
      → r < 2 ^ n
      → dot v (n + k) (r + q * 2 ^ n) i ≡ bit_xor (dot v n r i) (dot v k q (n + i))
  dot-fields n k r q i p =
      let whole = one-le-pow n 2 (omega arith) in
      let low : (r + q * 2 ^ n) % 2 ^ n ≡ r = add-mul-mod_self_right r q (2 ^ n) ∙ mod-eq_of_lt p in
      let high : (r + q * 2 ^ n) / 2 ^ n ≡ q =
        add-mul-div_right r q whole ∙ ap (λ t. t + q) (div-eq_of_lt p) ∙ omega arith in
      dot_split v n k (r + q * 2 ^ n) i
      ∙ ap₂ bit_xor (sym (dot_mod v n (r + q * 2 ^ n) i) ∙ ap (λ t. dot v n t i) low)
          (ap (λ t. dot v k t (n + i)) high)

pow-add : (s t : ℕ) → 2 ^ (s + t) ≡ 2 ^ t * 2 ^ s
pow-add zero t = let sizes : 0 + t ≡ t = omega arith in ap (◌^◌ 2) sizes ∙ omega arith
pow-add (suc s) t =
    let sizes : suc s + t ≡ suc (s + t) = omega arith in
    ap (◌^◌ 2) sizes
    ∙ pow-suc 2 (s + t)
    ∙ omega (arith, pow-add s t, ap (λ u. 2 ^ t * u) (pow-suc 2 s))

-- A word shifted to the right has fewer bits.
pub div-lt_pow : (s t c : ℕ) → c < 2 ^ (s + t) → c / 2 ^ s < 2 ^ t
div-lt_pow s t c p =
    (div-lt_iff_lt-mul {k = 2 ^ s} {x = c} {y = 2 ^ t} (one-le-pow s 2 (omega arith))).1
      (omega (arith, pow-add s t))

module _ (v : ℕ → ℕ) (s t : ℕ) where
  pub dot-shift :
      (c i : ℕ)
      → c % 2 ^ s ≡ 0
      → c < 2 ^ (s + t)
      → dot v (s + t) c i ≡ dot v (s + t) (c / 2 ^ s) (s + i)
  dot-shift c i e p =
      dot-drop v t s c i e
      ∙ sym (dot-short v t s (c / 2 ^ s) (s + i) (div-lt_pow s t c p))
      ∙ ap (λ n. dot v n (c / 2 ^ s) (s + i)) (omega arith)

  -- The same for two words, of which the upper one's low bits move into the lower one.
  pub dot-shift_pair :
      (lo hi i : ℕ)
      → lo % 2 ^ s ≡ 0
      → lo < 2 ^ (s + t)
      → hi < 2 ^ (s + t)
      → bit_xor (dot v (s + t) lo i) (dot v (s + t) hi ((s + t) + i))
        ≡ bit_xor
            (dot v (t + s) (lo / 2 ^ s + hi % 2 ^ s * 2 ^ t) (s + i))
            (dot v (t + s) (hi / 2 ^ s) ((t + s) + (s + i)))
  dot-shift_pair lo hi i e p q =
      let low = dot v t (lo / 2 ^ s) (s + i) in
      let mid = dot v s hi ((s + t) + i) in
      let high = dot v t (hi / 2 ^ s) (s + ((s + t) + i)) in
      let before = ap₂ bit_xor (dot-drop v t s lo i e) (dot_split v s t hi ((s + t) + i)) in
      let places : t + (s + i) ≡ (s + t) + i = omega arith in
      let far : (t + s) + (s + i) ≡ s + ((s + t) + i) = omega arith in
      let field = ap₂ (dot v s) refl places ∙ dot_mod v s hi ((s + t) + i) in
      let fields =
        dot-fields v t s (lo / 2 ^ s) (hi % 2 ^ s) (s + i) (div-lt_pow s t lo p)
        ∙ ap (bit_xor low) field in
      let short =
        dot-short v t s (hi / 2 ^ s) ((t + s) + (s + i)) (div-lt_pow s t hi q)
        ∙ ap (dot v t (hi / 2 ^ s)) far in
      before ∙ sym (Words.bit_xor_assoc low mid high) ∙ sym (ap₂ bit_xor fields short)

scaled_mod : (s t c : ℕ) → (c * 2 ^ t) % 2 ^ (s + t) ≡ c % 2 ^ s * 2 ^ t
scaled_mod s zero c =
    let one_c : c * 2 ^ 0 ≡ c = omega arith in
    let sizes : s + 0 ≡ s = omega arith in ap₂ (λ a b. a % 2 ^ b) one_c sizes ∙ omega arith
scaled_mod s (suc t) c =
    let sizes : s + suc t ≡ suc (s + t) = omega arith in
    let scaled = ap (λ (u : ℕ). c * u) (pow-suc 2 t) in
    let halved : c * 2 ^ suc t / 2 ≡ c * 2 ^ t = omega (arith, scaled) in
    ap (λ n. (c * 2 ^ suc t) % 2 ^ n) sizes
    ∙ omega (
      arith,
      Words.mod_pow_suc (s + t) (c * 2 ^ suc t),
      ap (λ u. u % 2 ^ (s + t)) halved,
      scaled,
      scaled_mod s t c,
      ap (λ (u : ℕ). c % 2 ^ s * u) (pow-suc 2 t),
    )

-- `(c_lo >> s) | (c_hi << t)` in words of `s + t` bits.
pub or_of_shifts :
    (s t lo hi : ℕ)
    → lo < 2 ^ (s + t)
    → bit_or (lo / 2 ^ s) ((hi * 2 ^ t) % 2 ^ (s + t)) ≡ lo / 2 ^ s + hi % 2 ^ s * 2 ^ t
or_of_shifts s t lo hi p =
    let cut : (hi * 2 ^ t) % 2 ^ (s + t) ≡ hi % 2 ^ s * 2 ^ t = scaled_mod s t hi in
    ap (bit_or (lo / 2 ^ s)) cut
    ∙ Words.bit_or_fields t (hi % 2 ^ s) (lo / 2 ^ s) (div-lt_pow s t lo p)

-- An odd word stays odd when another's bits are put above its lowest one.
pub odd_fields : (t r q : ℕ) → 0 < t → r % 2 ≡ 1 → (r + q * 2 ^ t) % 2 ≡ 1
odd_fields zero r q p e = absurd (omega arith)
odd_fields (suc t) r q p e = omega (arith, ap (λ (u : ℕ). q * u) (pow-suc 2 t))

pub fields_lt : (s t r q : ℕ) → r < 2 ^ t → q < 2 ^ s → r + q * 2 ^ t < 2 ^ (s + t)
fields_lt s t r q p h =
    omega (arith, mul-le-mul_right {m = suc q} {n = 2 ^ s} (2 ^ t) h, pow-add s t)
