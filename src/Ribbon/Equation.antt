-- ===== src/Ribbon/Equation.antt =====
-- hashing.rs: the equation of a key is one that the elimination takes, with an odd coefficient, two words of
-- 64 bits and a fingerprint within the mask.
use Prim.Native.Nat.{bit_and, bit_or, bit_xor}
use native.Mathlib.Nat.{mod-le}
use leopard.Prelude.{
  ℕ, zero, suc, ◌+◌, ◌-◌, ◌*◌, ◌/◌, ◌%◌, ◌^◌, ◌<◌, ◌≤◌, ◌≡◌, refl, ap, length, Bool-cases, inl, inr,
  arith, leb,
}
use mathlib.Core.Path.{subst}
use leopard.Prelude.Words
use leopard.Ribbon.Params.{
  Params, fingerprint_words, mask_bits, fingerprint_last_word_mask, is_homogeneous,
}
use leopard.Ribbon.Hashing.{
  next_u64, mix_const, coefficients, fingerprint_of, draw, mask_last, standard_equation,
}
use leopard.Ribbon.Builder.{Slot}
use leopard.Ribbon.Rows.{IsRow, mask_last-IsRow, zeros-IsRow}
use leopard.Ribbon.Place.{IsSlot}

pub next_u64-lt : (s : ℕ) → (next_u64 s).1 < 2 ^ 64
unfolding next_u64
next_u64-lt s =
    let state = (s + mix_const) % 2 ^ 64 in
    let a = (bit_xor state (state / 2 ^ 30) * 0xBF58476D1CE4E5B9) % 2 ^ 64 in
    let b = (bit_xor a (a / 2 ^ 27) * 0x94D049BB133111EB) % 2 ^ 64 in
    Words.bit_xor_lt 64 b (b / 2 ^ 31) (omega arith) (omega arith)

pub length-draw : (n s : ℕ) → length (draw n s).0 ≡ n
unfolding draw
length-draw zero s = refl
length-draw (suc n) s = ap suc (length-draw n (next_u64 s).0)

-- Setting the lowest digit makes a word odd and no longer.
pub or_one_odd : (x : ℕ) → bit_or x 1 % 2 ≡ 1
or_one_odd x = omega (arith, Words.bit_or_step x 1)

pub or_one_lt : (x : ℕ) → x < 2 ^ 64 → bit_or x 1 < 2 ^ 64
or_one_lt x h = omega (arith, Words.bit_or_step x 1, Words.bit_or_zero_right (x / 2))

and_mask_le : (k x : ℕ) → bit_and x (2 ^ k - 1) ≤ x
and_mask_le k x = omega (arith, Words.bit_and_mask k x, mod-le x (2 ^ k))

pub coefficients_lem :
    (w s : ℕ)
    → ((coefficients w s).0.0 % 2 ≡ 1)
      × ((coefficients w s).0.0 < 2 ^ 64)
      × ((coefficients w s).0.1 < 2 ^ 64)
unfolding coefficients
coefficients_lem w s =
    let first = next_u64 s in
    let second = next_u64 first.0 in
    elim (Bool-cases (leb w 64)) [
      | inl e ↦ rw e (
        or_one_odd (bit_and first.1 (2 ^ w - 1)),
        or_one_lt (bit_and first.1 (2 ^ w - 1))
            (omega (arith, and_mask_le w first.1, next_u64-lt s)),
        omega arith,
      )
      | inr e ↦ rw e (
        or_one_odd first.1,
        or_one_lt first.1 (next_u64-lt s),
        omega (arith, and_mask_le (w - 64) second.1, next_u64-lt first.0),
      )
    ]

fingerprint_of-IsRow :
    (p : Params) (s : ℕ) → IsRow (fingerprint_words p) (mask_bits p) (fingerprint_of p s)
unfolding fingerprint_of
fingerprint_of-IsRow p s = elim (Bool-cases (is_homogeneous p.mode)) [
  | inl e ↦ rw e (zeros-IsRow (mask_bits p) (fingerprint_words p))
  | inr e ↦ rw e (
      subst
        (λ n.
          IsRow n (mask_bits p)
            (mask_last (fingerprint_last_word_mask p) (draw (fingerprint_words p) s).0))
        (length-draw (fingerprint_words p) s)
        (mask_last-IsRow (mask_bits p) (draw (fingerprint_words p) s).0))
]

module _ {ℓ} {K : Type ℓ} (hash_one : K → ℕ) (p : Params) where
  -- The key's equation as it enters the elimination.
  abbrev pub key_slot : K → Slot
  key_slot key =
      let eq = standard_equation hash_one key p.seed p in
      record { coeff_lo = eq.0.coeff_lo; coeff_hi = eq.0.coeff_hi; rhs = eq.1 }

  abbrev pub key_start : K → ℕ
  key_start key = (standard_equation hash_one key p.seed p).0.start

  pub key_slot-IsSlot : (key : K) → IsSlot (fingerprint_words p) (mask_bits p) (key_slot key)
  unfolding standard_equation
  key_slot-IsSlot key =
      let stream = (bit_xor (hash_one key) p.seed * mix_const) % 2 ^ 64 in
      let s = (next_u64 stream).0 in
      let c = coefficients_lem p.w s in
      record {
        odd = c.0;
        lo_lt = c.1;
        hi_lt = c.2;
        row = fingerprint_of-IsRow p (coefficients p.w s).1;
      }
