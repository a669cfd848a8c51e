-- ===== src/Ribbon/Reduce.antt =====
-- builder.rs, the shift in the elimination: it moves an equation to a later row and keeps the sum of
-- the values at its set bits.
use Prim.Native.Nat.{bit_xor, bit_or}
use native.Mathlib.Nat.{div-le_self, mod-lt, one-le-pow}
use leopard.Prelude.{
  ℕ, ◌+◌, ◌-◌, ◌*◌, ◌/◌, ◌%◌, ◌^◌, ◌<◌, ◌≡◌, ◌≢◌, true, false, sym, ap, ap₂, ◌∙◌, arith, ◌==◌,
  Bool-cases, ==_iff, inl, inr, leb, ltb, ◌&&◌,
}
use mathlib.Core.Path.{subst}
use leopard.Prelude.Words
use leopard.Ribbon.Hashing.{trailing_zeros}
use leopard.Ribbon.Builder.{shifted, shift_of}
use leopard.Ribbon.Dot.{dot, dot_zero}
use leopard.Ribbon.SetBits.{dot2}
use leopard.Ribbon.Shift.{
  trailing_zeros-mod, trailing_zeros-odd, trailing_zeros_even_pos, div-lt_pow, or_of_shifts,
  odd_fields, fields_lt, dot-shift, dot-shift_pair,
}

abbrev dot_pair : (ℕ → ℕ) → ℕ → ℕ → ℕ → ℕ → ℕ
dot_pair v n lo hi i = bit_xor (dot v n lo i) (dot v n hi (n + i))

-- A reduced equation's coefficients: odd again, of `n` bits, `s` rows further on, with the same sum
-- whatever the values.
record ReducedAt (n lo hi s : ℕ) (c : ℕ × ℕ) : Type 0 where
  odd : c.0 % 2 ≡ 1
  lo_lt : c.0 < 2 ^ n
  hi_lt : c.1 < 2 ^ n
  moves : 0 < s
  same : (v : ℕ → ℕ) (i : ℕ) → dot_pair v n lo hi i ≡ dot_pair v n c.0 c.1 (s + i)

pub record Reduced (lo hi s : ℕ) (c : ℕ × ℕ) : Type 0 where
  pub odd : c.0 % 2 ≡ 1
  pub lo_lt : c.0 < 2 ^ 64
  pub hi_lt : c.1 < 2 ^ 64
  pub moves : 0 < s
  pub same : (v : ℕ → ℕ) (i : ℕ) → dot2 v lo hi i ≡ dot2 v c.0 c.1 (s + i)

-- The shift within the lower word, in words of `s + t` bits.
shifted_low_at :
    (s t lo hi : ℕ)
    → 0 < s
    → 0 < t
    → lo % 2 ^ s ≡ 0
    → lo / 2 ^ s % 2 ≡ 1
    → lo < 2 ^ (s + t)
    → hi < 2 ^ (s + t)
    → ReducedAt
        (s + t)
        lo
        hi
        s
        (bit_or (lo / 2 ^ s) ((hi * 2 ^ ((s + t) - s)) % 2 ^ (s + t)), hi / 2 ^ s)
shifted_low_at s t lo hi a b e o p q =
    let upper : (s + t) - s ≡ t = omega arith in
    let word : bit_or (lo / 2 ^ s) ((hi * 2 ^ ((s + t) - s)) % 2 ^ (s + t))
        ≡ lo / 2 ^ s + hi % 2 ^ s * 2 ^ t =
      ap (λ u. bit_or (lo / 2 ^ s) ((hi * 2 ^ u) % 2 ^ (s + t))) upper ∙ or_of_shifts s t lo hi p in
    let sizes : t + s ≡ s + t = omega arith in
    record {
      odd = ap (λ u. u % 2) word ∙ odd_fields t (lo / 2 ^ s) (hi % 2 ^ s) b o;
      lo_lt = rw word (
          fields_lt s t (lo / 2 ^ s) (hi % 2 ^ s) (div-lt_pow s t lo p)
            (mod-lt hi (one-le-pow s 2 (omega arith))));
      hi_lt = omega (arith, div-le_self hi (2 ^ s));
      moves = a;
      same = λ v i.
          dot-shift_pair v s t lo hi i e p q
          ∙ ap₂ (λ n u. dot_pair v n u (hi / 2 ^ s) (s + i)) sizes (sym word);
    }

-- The shift out of the lower word.
shifted_high_at :
    (k t hi : ℕ)
    → hi % 2 ^ k ≡ 0
    → hi / 2 ^ k % 2 ≡ 1
    → hi < 2 ^ (k + t)
    → 0 < k + t
    → ReducedAt (k + t) 0 hi ((k + t) + k) (hi / 2 ^ k, 0)
shifted_high_at k t hi e o p a =
    let room = one-le-pow (k + t) 2 (omega arith) in
    record {
      odd = o;
      lo_lt = omega (arith, div-le_self hi (2 ^ k));
      hi_lt = omega (arith, room);
      moves = omega arith;
      same = λ v i.
          let n = k + t in
          let places : k + (n + i) ≡ (n + k) + i = omega arith in
          ap (λ u. bit_xor u (dot v n hi (n + i))) (dot_zero v n i)
          ∙ Words.bit_xor_zero_left _
          ∙ dot-shift v k t hi (n + i) e p
          ∙ ap (dot v n (hi / 2 ^ k)) places
          ∙ sym (Words.bit_xor_zero_right _)
          ∙ ap (bit_xor (dot v n (hi / 2 ^ k) ((n + k) + i)))
              (sym (dot_zero v n (n + ((n + k) + i))));
    }

at_64 : {lo hi s : ℕ} {c : ℕ × ℕ} → ReducedAt 64 lo hi s c → Reduced lo hi s c
unfolding dot2
at_64 r = record { odd = r.odd; lo_lt = r.lo_lt; hi_lt = r.hi_lt; moves = r.moves; same = r.same }

module _ (lo hi : ℕ) (p : lo < 2 ^ 64) (q : hi < 2 ^ 64) where
  shift_within :
      (k : ℕ)
      → 0 < k
      → k < 64
      → lo % 2 ^ k ≡ 0
      → lo / 2 ^ k % 2 ≡ 1
      → Reduced lo hi k (shifted k lo hi)
  unfolding shifted
  shift_within k a b e o =
      let sizes : k + (64 - k) ≡ 64 = omega arith in
      let reduced =
        subst
          (λ n.
            lo < 2 ^ n
            → hi < 2 ^ n
            → ReducedAt n lo hi k (bit_or (lo / 2 ^ k) ((hi * 2 ^ (n - k)) % 2 ^ n), hi / 2 ^ k))
          sizes (shifted_low_at k (64 - k) lo hi a (omega arith) e o) in
      let below : leb 64 k ≡ false = ground arith in
      let above : ltb 0 k ≡ true = ground arith in rw (below, above) (at_64 (reduced p q))

  shift_across :
      (k : ℕ)
      → k < 64
      → lo ≡ 0
      → hi % 2 ^ k ≡ 0
      → hi / 2 ^ k % 2 ≡ 1
      → Reduced lo hi (64 + k) (shifted (64 + k) lo hi)
  unfolding shifted
  shift_across k b z e o =
      let sizes : k + (64 - k) ≡ 64 = omega arith in
      let reduced =
        subst (λ n. hi < 2 ^ n → 0 < n → ReducedAt n 0 hi (n + k) (hi / 2 ^ k, 0)) sizes
          (shifted_high_at k (64 - k) hi e o) in
      let above : leb 64 (64 + k) ≡ true = ground arith in
      let rest : 64 + k - 64 ≡ k = omega arith in
      rw (z, above, rest) (at_64 (reduced q (omega arith)))

-- The whole shift of a coefficient whose lowest digit is 0 and which is not 0.
pub shifted-Reduced :
    (lo hi : ℕ)
    → lo < 2 ^ 64
    → hi < 2 ^ 64
    → lo % 2 ≡ 0
    → ((lo == 0 && hi == 0) ≡ false)
    → Reduced lo hi (shift_of lo hi) (shifted (shift_of lo hi) lo hi)
shifted-Reduced lo hi p q e h = elim (Bool-cases (lo == 0)) [
  | inl z ↦
      let zero_lo : lo ≡ 0 = (==_iff lo 0).0 z in
      let some_hi : hi ≢ 0 = ground arith in
      let ones = trailing_zeros-odd 64 hi some_hi q in
      rw z (
        shift_across lo hi p q (trailing_zeros 64 hi) ones.0 zero_lo (trailing_zeros-mod 64 hi)
          ones.1)
  | inr z ↦
      let some_lo : lo ≢ 0 = ground arith in
      let ones = trailing_zeros-odd 64 lo some_lo p in
      rw z (
        shift_within lo hi p q (trailing_zeros 64 lo) (trailing_zeros_even_pos 63 lo e) ones.0
          (trailing_zeros-mod 64 lo) ones.1)
]
