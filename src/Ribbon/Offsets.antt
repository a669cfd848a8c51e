-- ===== src/Ribbon/Offsets.antt =====
-- hashing.rs with valid parameters: the equation of a key ends within the rows, and so does each offset
-- at which the set bits of an equation are visited.
use Prim.Native.Nat.{bit_and, bit_or, bit_xor}
use native.Mathlib.Nat.{pow-suc, one-le-pow, div-lt_iff_lt-mul, mul-lt-mul_of_pos_right, mod-lt}
use leopard.Prelude.{
  ℕ, zero, suc, ◌+◌, ◌-◌, ◌*◌, ◌/◌, ◌%◌, ◌^◌, ◌<◌, ◌≤◌, ◌≡◌, true, refl, sym, ap, ◌∙◌, List, [],
  ◌∷◌, ◌++◌, map, Bool-cases, inl, inr, arith, leb, none, ◌==◌, replicate,
}
use mathlib.Core.Path.{subst}
use leopard.Prelude.Words
use leopard.Prelude.Lists.{All}
use leopard.Ribbon.Params.{Params, validate, is_homogeneous, fingerprint_words}
use leopard.Ribbon.Hashing.{
  next_u64, coefficients, start_position, for_each_set_bit, standard_equation, mix_const,
  fingerprint_of,
}
use leopard.Ribbon.Builder.{all_zero}
use leopard.Ribbon.SetBits.{bits, bits_zero, for_each_set_bit_lem}
use leopard.Ribbon.Equation.{next_u64-lt, key_slot, key_start, key_slot-IsSlot}
use leopard.Ribbon.Bounds.{Fits, Fits-mono}
use leopard.Ribbon.InBounds.{Sound}

abbrev AllBelow : ℕ → List ℕ → Type 0
AllBelow b = All (λ o. o < b)

AllBelow-map : (k b c : ℕ) (os : List ℕ) → k + b ≤ c → AllBelow b os → AllBelow c (map (◌+◌ k) os)
AllBelow-map k b c [] h a = tt
AllBelow-map k b c (o ∷ os) h a = (omega (arith, a.0), AllBelow-map k b c os h a.1)

AllBelow-map-suc : (b : ℕ) (os : List ℕ) → AllBelow b os → AllBelow (suc b) (map suc os)
AllBelow-map-suc b [] a = tt
AllBelow-map-suc b (o ∷ os) a = (omega (arith, a.0), AllBelow-map-suc b os a.1)

AllBelow-mono : (b c : ℕ) (os : List ℕ) → b ≤ c → AllBelow b os → AllBelow c os
AllBelow-mono b c [] h a = tt
AllBelow-mono b c (o ∷ os) h a = (omega (arith, a.0), AllBelow-mono b c os h a.1)

AllBelow-append : (b : ℕ) (os ps : List ℕ) → AllBelow b os → AllBelow b ps → AllBelow b (os ++ ps)
AllBelow-append b [] ps a c = c
AllBelow-append b (o ∷ os) ps a c = (a.0, AllBelow-append b os ps a.1 c)

bits-AllBelow : (n b c : ℕ) → c < 2 ^ b → AllBelow b (bits n c)
unfolding bits
bits-AllBelow zero b c h = tt
bits-AllBelow (suc n) zero c h =
    let z : c ≡ 0 = omega arith in
    subst (AllBelow 0) (sym (ap (bits (suc n)) z ∙ bits_zero (suc n))) tt
bits-AllBelow (suc n) (suc b) c h =
    let above =
      AllBelow-map-suc b (bits n (c / 2))
        (bits-AllBelow n b (c / 2) (omega (arith, pow-suc 2 b))) in
    elim (Bool-cases (c % 2 == 1)) [ inl e ↦ rw e (omega arith, above) | inr e ↦ rw e above ]

pub for_each_set_bit-below :
    (b lo hi : ℕ) → lo < 2 ^ 64 → hi < 2 ^ 64 → Fits b lo hi → AllBelow b (for_each_set_bit lo hi)
for_each_set_bit-below b lo hi p q f =
    subst (AllBelow b) (sym (for_each_set_bit_lem lo hi p q)) (elim (Bool-cases (leb b 64)) [
      | inl e ↦
          let l = f.low (ground arith) in
          let no_high : map (◌+◌ 64) (bits 64 hi) ≡ [] =
            ap (λ t. map (◌+◌ 64) (bits 64 t)) l.1 ∙ ap (map (◌+◌ 64)) (bits_zero 64) in
          AllBelow-append b (bits 64 lo) _ (bits-AllBelow 64 b lo l.0)
            (subst (AllBelow b) (sym no_high) tt)
      | inr e ↦
          AllBelow-append b (bits 64 lo) _
            (AllBelow-mono 64 b (bits 64 lo) (ground arith) (bits-AllBelow 64 64 lo p))
            (AllBelow-map 64 (b - 64) b (bits 64 hi) (ground arith)
              (bits-AllBelow 64 (b - 64) hi (f.high (ground arith))))
    ])

pub record IsValidParams (p : Params) : Type 0 where
  pub width : 0 < p.w
  pub width_le : p.w ≤ p.m
  pub retries : 0 < p.retry_limit

pub validate-IsValidParams : (p : Params) → validate p ≡ none → IsValidParams p
unfolding validate
validate-IsValidParams p h = ground arith

or_one_lt_pow : (w x : ℕ) → 0 < w → x < 2 ^ w → bit_or x 1 < 2 ^ w
or_one_lt_pow zero x h p = absurd (omega arith)
or_one_lt_pow (suc w) x h p =
    omega (arith, Words.bit_or_step x 1, Words.bit_or_zero_right (x / 2), pow-suc 2 w)

and_mask_lt : (w x : ℕ) → bit_and x (2 ^ w - 1) < 2 ^ w
and_mask_lt w x = rw (Words.bit_and_mask w x) (mod-lt x (one-le-pow w 2 (omega arith)))

coefficients-Fits : (w s : ℕ) → 0 < w → Fits w (coefficients w s).0.0 (coefficients w s).0.1
unfolding coefficients
coefficients-Fits w s h = elim (Bool-cases (leb w 64)) [
  | inl e ↦ rw e (record {
    low = λ a. (
      or_one_lt_pow w (bit_and (next_u64 s).1 (2 ^ w - 1)) h (and_mask_lt w (next_u64 s).1),
      refl,
    );
    high = λ a. absurd (ground arith);
  })
  | inr e ↦ rw e (record {
    low = λ a. absurd (ground arith);
    high = λ a. and_mask_lt (w - 64) (next_u64 (next_u64 s).0).1;
  })
]

start_position-le : (x m w : ℕ) → x < 2 ^ 64 → start_position x m w ≤ m - w
start_position-le x m w h =
    let fewer = mul-lt-mul_of_pos_right {m = x} {n = 2 ^ 64} {k = m - w + 1} h (omega arith) in
    let below : (x * (m - w + 1)) / 2 ^ 64 < m - w + 1 =
      (div-lt_iff_lt-mul {k = 2 ^ 64} {x = x * (m - w + 1)} {y = m - w + 1} (omega arith)).1
        (omega (arith, fewer)) in
    omega (arith, below)

all_zero-replicate : (n : ℕ) → all_zero (replicate n 0) ≡ true
all_zero-replicate zero = refl
all_zero-replicate (suc n) = all_zero-replicate n

fingerprint_of-nothing :
    (p : Params) (s : ℕ) → is_homogeneous p.mode ≡ true → all_zero (fingerprint_of p s) ≡ true
unfolding fingerprint_of
fingerprint_of-nothing p s e = rw e (all_zero-replicate (fingerprint_words p))

module _ {ℓ} {K : Type ℓ} (hash_one : K → ℕ) (p : Params) (valid : IsValidParams p) (key : K) where
  key_start-le : key_start hash_one p key ≤ p.m - p.w
  unfolding standard_equation
  key_start-le =
      let stream = (bit_xor (hash_one key) p.seed * mix_const) % 2 ^ 64 in
      start_position-le (next_u64 stream).1 p.m p.w (next_u64-lt stream)

  pub key_start-lt : key_start hash_one p key < p.m
  key_start-lt = omega (arith, key_start-le, valid.width, valid.width_le)

  pub key_slot-Sound : Sound p (key_slot hash_one p key) (key_start hash_one p key)
  unfolding standard_equation
  key_slot-Sound =
      let stream = (bit_xor (hash_one key) p.seed * mix_const) % 2 ^ 64 in
      let s = (next_u64 stream).0 in
      let own = key_slot-IsSlot hash_one p key in
      record {
        slot = own;
        fits =
            Fits-mono (p.m - key_start hash_one p key) (omega (arith, key_start-le, valid.width_le))
              own.lo_lt (coefficients-Fits p.w s valid.width);
        nothing = λ e. fingerprint_of-nothing p (coefficients p.w s).1 e;
      }
