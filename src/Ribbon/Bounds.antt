-- ===== src/Ribbon/Bounds.antt =====
-- builder.rs and hashing.rs, where the set bits of an equation end: a coefficient of `b` bits keeps within
-- the rows when `b` rows are left, and the elimination keeps it so.
use Prim.Native.Nat.{bit_or, bit_xor}
use native.Mathlib.Nat.{pow-le-pow_right, one-le-pow, div-eq_of_lt, mod-eq_of_lt, mod-le}
use leopard.Prelude.{
  ℕ, ◌+◌, ◌-◌, ◌*◌, ◌/◌, ◌%◌, ◌^◌, ◌<◌, ◌≤◌, ◌≡◌, ◌≢◌, true, false, refl, ap, ap₂, ◌==◌, ◌&&◌,
  Bool-cases, inl, inr, arith, leb, ltb,
}
use mathlib.Core.Path.{subst}
use leopard.Prelude.Words
use leopard.Ribbon.Hashing.{trailing_zeros}
use leopard.Ribbon.Builder.{shifted, shift_of}
use leopard.Ribbon.Shift.{
  trailing_zeros-odd, trailing_zeros_even_pos, div-lt_pow, or_of_shifts, fields_lt,
}

-- The pair of words has `b` bits at most.
pub record Fits (b lo hi : ℕ) : Type 0 where
  pub low : b ≤ 64 → (lo < 2 ^ b) × (hi ≡ 0)
  pub high : 64 < b → hi < 2 ^ (b - 64)

pow_le : (a b : ℕ) → a ≤ b → 2 ^ a ≤ 2 ^ b
pow_le a b h = pow-le-pow_right {n = 2} (omega arith) h

pub Fits-mono : {b lo hi : ℕ} (c : ℕ) → b ≤ c → lo < 2 ^ 64 → Fits b lo hi → Fits c lo hi
Fits-mono {b} {lo} {hi} c h small f = record {
  low = λ p. let l = f.low (omega arith) in (omega (arith, l.0, pow_le b c h), l.1);
  high = λ p. elim (Bool-cases (leb b 64)) [
    | inl e ↦
        let l = f.low (ground arith) in omega (arith, l.1, one-le-pow (c - 64) 2 (omega arith))
    | inr e ↦ omega (arith, f.high (ground arith), pow_le (b - 64) (c - 64) (omega arith))
  ];
}

pub Fits-bit_xor :
    (b lo hi lo' hi' : ℕ) → Fits b lo hi → Fits b lo' hi' → Fits b (bit_xor lo lo') (bit_xor hi hi')
Fits-bit_xor b lo hi lo' hi' f g = record {
  low = λ p.
      let l = f.low p in
      let l' = g.low p in (Words.bit_xor_lt b lo lo' l.0 l'.0, ap₂ bit_xor l.1 l'.1);
  high = λ p. Words.bit_xor_lt (b - 64) hi hi' (f.high p) (g.high p);
}

-- The lowest set bit lies below the end.
low_bit_lt : (b x s : ℕ) → x < 2 ^ b → x / 2 ^ s % 2 ≡ 1 → s < b
low_bit_lt b x s h odd = elim (Bool-cases (leb b s)) [
  | inl e ↦
      let past = div-eq_of_lt {n = x} {m = 2 ^ s} (omega (arith, pow_le b s (ground arith), h)) in
      let even : x / 2 ^ s % 2 ≡ 0 = ap (λ t. t % 2) past in absurd (omega arith)
  | inr e ↦ ground arith
]

lt_pow_at : (m n x : ℕ) → m ≡ n → x < 2 ^ m → x < 2 ^ n
lt_pow_at m n x e h = subst (λ t. x < 2 ^ t) e h

module _ (b lo hi : ℕ) (p : lo < 2 ^ 64) (f : Fits b lo hi) where
  -- The shift within the lower word.
  shift_within-Fits :
      (s : ℕ)
      → s < 64
      → s < b
      → Fits (b - s) (bit_or (lo / 2 ^ s) ((hi * 2 ^ (64 - s)) % 2 ^ 64)) (hi / 2 ^ s)
  shift_within-Fits s h q =
      let sizes : s + (64 - s) ≡ 64 = omega arith in
      let joined =
        subst
          (λ n.
            lo < 2 ^ n
            → bit_or (lo / 2 ^ s) ((hi * 2 ^ (64 - s)) % 2 ^ n)
              ≡ lo / 2 ^ s + hi % 2 ^ s * 2 ^ (64 - s))
          sizes (or_of_shifts s (64 - s) lo hi) p in
      record {
        low = λ a. elim (Bool-cases (leb b 64)) [
          | inl e ↦
              let l = f.low (ground arith) in
              let gone : hi % 2 ^ s ≡ 0 = omega (arith, mod-le hi (2 ^ s), l.1) in
              let none_high : hi % 2 ^ s * 2 ^ (64 - s) ≡ 0 =
                omega (arith, ap (λ (t : ℕ). t * 2 ^ (64 - s)) gone) in
              (
                omega (
                  arith,
                  joined,
                  none_high,
                  div-lt_pow s (b - s) lo (lt_pow_at b (s + (b - s)) lo (omega arith) l.0),
                ),
                div-eq_of_lt (omega (arith, l.1, one-le-pow s 2 (omega arith))),
              )
          | inr e ↦
              let upper = f.high (ground arith) in
              let small : hi < 2 ^ s = omega (arith, upper, pow_le (b - 64) s (omega arith)) in
              let same = mod-eq_of_lt small in
              (
                rw (joined, same)
                    (lt_pow_at ((b - 64) + (64 - s)) (b - s) _ (ground arith) (
                      fields_lt (b - 64) (64 - s) (lo / 2 ^ s) hi
                        (div-lt_pow s (64 - s) lo (lt_pow_at 64 (s + (64 - s)) lo (omega arith) p))
                        upper)),
                div-eq_of_lt small,
              )
        ];
        high = λ a.
            div-lt_pow s (b - s - 64) hi
              (lt_pow_at (b - 64) (s + (b - s - 64)) hi (omega arith) (f.high (omega arith)));
      }

  -- The shift out of the lower word.
  shift_across-Fits : (k : ℕ) → 64 + k < b → Fits (b - (64 + k)) (hi / 2 ^ k) 0
  shift_across-Fits k h = record {
    low = λ a. (
      div-lt_pow k (b - (64 + k)) hi
          (lt_pow_at (b - 64) (k + (b - (64 + k))) hi (omega arith) (f.high (omega arith))),
      refl,
    );
    high = λ a. one-le-pow (b - (64 + k) - 64) 2 (omega arith);
  }

module _ (b lo hi : ℕ) (p : lo < 2 ^ 64) (q : hi < 2 ^ 64) (f : Fits b lo hi) where
  -- The whole shift of a coefficient whose lowest digit is 0 and which is not 0.
  pub shifted-Fits :
      lo % 2 ≡ 0
      → (lo == 0 && hi == 0) ≡ false
      → (shift_of lo hi < b)
        × Fits
            (b - shift_of lo hi)
            (shifted (shift_of lo hi) lo hi).0
            (shifted (shift_of lo hi) lo hi).1
  unfolding shifted
  shifted-Fits e h = elim (Bool-cases (lo == 0)) [
    | inl z ↦
        let some_hi : hi ≢ 0 = ground arith in
        let k = trailing_zeros 64 hi in
        let ones = trailing_zeros-odd 64 hi some_hi q in
        let past : 64 < b = elim (Bool-cases (leb b 64)) [
          | inl le ↦ absurd (some_hi (f.low (ground arith)).1)
          | inr gt ↦ ground arith
        ] in
        let inside : 64 + k < b = omega (arith, low_bit_lt (b - 64) hi k (f.high past) ones.1) in
        let above : leb 64 (64 + k) ≡ true = ground arith in
        let rest : 64 + k - 64 ≡ k = omega arith in
        rw (z, above, rest) (inside, shift_across-Fits b lo hi p f k inside)
    | inr z ↦
        let some_lo : lo ≢ 0 = ground arith in
        let s = trailing_zeros 64 lo in
        let ones = trailing_zeros-odd 64 lo some_lo p in
        let inside : s < b = elim (Bool-cases (leb b 64)) [
          | inl le ↦ low_bit_lt b lo s (f.low (ground arith)).0 ones.1
          | inr gt ↦ ground (arith, ones.0)
        ] in
        let below : leb 64 s ≡ false = ground (arith, ones.0) in
        let above : ltb 0 s ≡ true = ground (arith, trailing_zeros_even_pos 63 lo e) in
        rw (z, below, above) (inside, shift_within-Fits b lo hi p f s ones.0 inside)
  ]
