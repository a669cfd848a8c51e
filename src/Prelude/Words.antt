-- ===== src/Prelude/Words.antt =====
-- Rust's `^`, `&` and `|` on unsigned words, as arithmetic on their lowest binary digit.
use Prim.Native.Nat.{
  ℕ, zero, suc, ◌+◌, ◌-◌, ◌*◌, ◌/◌, ◌%◌, ◌^◌, ◌≤◌, ◌<◌, min, max, digits, bitwise, differ, bit_and,
  bit_or, bit_xor, bit_and-bitwise, bit_or-bitwise, bit_xor-bitwise,
}
use mathlib.Core.Path.{◌≡◌, refl, ap, ap₂, ◌∙◌, sym}
use native.Mathlib.Nat.{
  le_refl, pow-suc, one-le-pow, mod-lt, mod-add-div', add-mul-mod_self_right, mod-eq_of_lt,
  div-div-eq-div-mul,
}
use native.Mathlib.Omega.{arith}

-- An operation on the binary digits: `f` on each two, and `z` where the first word has no more.
module _ (z : ℕ → ℕ) (f : ℕ → ℕ → ℕ) where
  one_more : (n a b : ℕ) → a ≤ n → digits z f (suc n) a b ≡ digits z f n a b
  one_more zero zero b h = refl
  one_more (suc n) zero b h = refl
  one_more zero (suc a) b h = absurd (omega arith)
  one_more (suc n) (suc a) b h = rw (one_more n (suc a / 2) (b / 2) (omega arith)) refl

  many_more : (d n a b : ℕ) → a ≤ n → digits z f (d + n) a b ≡ digits z f n a b
  many_more zero n a b h = ap (λ t. digits z f t a b) (omega arith)
  many_more (suc d) n a b h =
      let next : suc d + n ≡ suc (d + n) = omega arith in
      ap (λ t. digits z f t a b) next ∙ one_more (d + n) a b (omega arith) ∙ many_more d n a b h

  module _ (op : ℕ → ℕ → ℕ) (means : (a b : ℕ) → op a b ≡ bitwise z f a b)
      (low : (b : ℕ) → z b ≡ z (b / 2) * 2 + f 0 (b % 2)) where
    lowest_digit : (a b : ℕ) → op a b ≡ op (a / 2) (b / 2) * 2 + f (a % 2) (b % 2)
    lowest_digit zero b = means 0 b ∙ low b ∙ ap (λ t. t * 2 + f 0 (b % 2)) (sym (means 0 (b / 2)))
    lowest_digit (suc a) b =
        let half = suc a / 2 in
        let spare : (a - half) + half ≡ a = omega arith in
        let fuel : digits z f a half (b / 2) ≡ digits z f half half (b / 2) =
          ap (λ n. digits z f n half (b / 2)) (sym spare)
          ∙ many_more (a - half) half half (b / 2) (le_refl half) in
        means (suc a) b ∙ ap (λ t. t * 2 + f (suc a % 2) (b % 2)) (fuel ∙ sym (means half (b / 2)))

parity_below : (x y : ℕ) → x < 2 → y < 2 → differ x y ≡ (x + y) % 2
parity_below zero zero p q = refl
parity_below zero (suc zero) p q = refl
parity_below (suc zero) zero p q = refl
parity_below (suc zero) (suc zero) p q = refl
parity_below zero (suc (suc y)) p q = absurd (omega arith)
parity_below (suc zero) (suc (suc y)) p q = absurd (omega arith)
parity_below (suc (suc x)) y p q = absurd (omega arith)

pub bit_xor_step : (a b : ℕ) → bit_xor a b ≡ bit_xor (a / 2) (b / 2) * 2 + (a + b) % 2
bit_xor_step a b =
    let low : (d : ℕ) → d ≡ d / 2 * 2 + differ 0 (d % 2) =
      λ d. omega (arith, parity_below 0 (d % 2) (omega arith) (omega arith)) in
    omega (
      arith,
      lowest_digit (λ y. y) differ bit_xor bit_xor-bitwise low a b,
      parity_below (a % 2) (b % 2) (omega arith) (omega arith),
    )

pub bit_or_step : (a b : ℕ) → bit_or a b ≡ bit_or (a / 2) (b / 2) * 2 + max (a % 2) (b % 2)
bit_or_step = lowest_digit (λ y. y) max bit_or bit_or-bitwise (λ d. omega arith)

pub bit_and_step : (a b : ℕ) → bit_and a b ≡ bit_and (a / 2) (b / 2) * 2 + min (a % 2) (b % 2)
bit_and_step = lowest_digit (λ y. 0) min bit_and bit_and-bitwise (λ d. omega arith)

pub bit_xor_half : (a b : ℕ) → bit_xor a b / 2 ≡ bit_xor (a / 2) (b / 2)
bit_xor_half a b = omega (arith, bit_xor_step a b)

pub bit_xor_parity : (a b : ℕ) → bit_xor a b % 2 ≡ (a + b) % 2
bit_xor_parity a b = omega (arith, bit_xor_step a b)

zero_left_below : (n b : ℕ) → b ≤ n → bit_xor 0 b ≡ b
zero_left_below zero b h = let e : b ≡ 0 = omega arith in rw e refl
zero_left_below (suc n) b h =
    omega (arith, bit_xor_step 0 b, zero_left_below n (b / 2) (omega arith))

pub bit_xor_zero_left : (b : ℕ) → bit_xor 0 b ≡ b
bit_xor_zero_left b = zero_left_below b b (le_refl b)

comm_below : (n a b : ℕ) → a ≤ n → b ≤ n → bit_xor a b ≡ bit_xor b a
comm_below zero a b p q =
    let ea : a ≡ 0 = omega arith in let eb : b ≡ 0 = omega arith in rw (ea, eb) refl
comm_below (suc n) a b p q = omega (
  arith,
  bit_xor_step a b,
  bit_xor_step b a,
  comm_below n (a / 2) (b / 2) (omega arith) (omega arith),
)

pub bit_xor_comm : (a b : ℕ) → bit_xor a b ≡ bit_xor b a
bit_xor_comm a b = comm_below (a + b) a b (omega arith) (omega arith)

pub bit_xor_zero_right : (a : ℕ) → bit_xor a 0 ≡ a
bit_xor_zero_right a = bit_xor_comm a 0 ∙ bit_xor_zero_left a

assoc_below :
    (n a b c : ℕ) → a ≤ n → b ≤ n → c ≤ n → bit_xor (bit_xor a b) c ≡ bit_xor a (bit_xor b c)
assoc_below zero a b c p q r =
    let ea : a ≡ 0 = omega arith in
    let eb : b ≡ 0 = omega arith in let ec : c ≡ 0 = omega arith in rw (ea, eb, ec) refl
assoc_below (suc n) a b c p q r =
    let left = bit_xor_step (bit_xor a b) c in
    let right = bit_xor_step a (bit_xor b c) in
    let rest = assoc_below n (a / 2) (b / 2) (c / 2) (omega arith) (omega arith) (omega arith) in
    let l = ap (λ t. bit_xor t (c / 2)) (bit_xor_half a b) in
    let r = ap (λ t. bit_xor (a / 2) t) (bit_xor_half b c) in
    omega (arith, left, right, rest, l, r, bit_xor_parity a b, bit_xor_parity b c)

pub bit_xor_assoc : (a b c : ℕ) → bit_xor (bit_xor a b) c ≡ bit_xor a (bit_xor b c)
bit_xor_assoc a b c = assoc_below (a + b + c) a b c (omega arith) (omega arith) (omega arith)

self_below : (n a : ℕ) → a ≤ n → bit_xor a a ≡ 0
self_below zero a p = let ea : a ≡ 0 = omega arith in rw ea refl
self_below (suc n) a p = omega (arith, bit_xor_step a a, self_below n (a / 2) (omega arith))

pub bit_xor_self : (a : ℕ) → bit_xor a a ≡ 0
bit_xor_self a = self_below a a (le_refl a)

-- `(a ^ b) ^ (c ^ d)` regrouped by columns.
pub bit_xor_interchange :
    (a b c d : ℕ) → bit_xor (bit_xor a b) (bit_xor c d) ≡ bit_xor (bit_xor a c) (bit_xor b d)
bit_xor_interchange a b c d =
    rw (bit_xor_assoc a b (bit_xor c d), bit_xor_assoc a c (bit_xor b d))
      (ap (bit_xor a) (
        sym (bit_xor_assoc b c d) ∙ ap (λ t. bit_xor t d) (bit_xor_comm b c) ∙ bit_xor_assoc c b d))

-- What is added twice goes away.
pub bit_xor_cancel : (a b : ℕ) → bit_xor a (bit_xor a b) ≡ b
bit_xor_cancel a b =
    sym (bit_xor_assoc a a b) ∙ ap (λ t. bit_xor t b) (bit_xor_self a) ∙ bit_xor_zero_left b

pub bit_xor_lt : (n a b : ℕ) → a < 2 ^ n → b < 2 ^ n → bit_xor a b < 2 ^ n
bit_xor_lt zero a b p q =
    let ea : a ≡ 0 = omega arith in let eb : b ≡ 0 = omega arith in rw (ea, eb) (omega arith)
bit_xor_lt (suc n) a b p q =
    let e = pow-suc 2 n in
    omega (
      arith,
      bit_xor_step a b,
      e,
      bit_xor_lt n (a / 2) (b / 2) (omega (arith, e)) (omega (arith, e)),
    )

and_zero_below : (n a : ℕ) → a ≤ n → bit_and a 0 ≡ 0
and_zero_below zero a p = let e : a ≡ 0 = omega arith in rw e refl
and_zero_below (suc n) a p = omega (arith, bit_and_step a 0, and_zero_below n (a / 2) (omega arith))

or_zero_below : (n a : ℕ) → a ≤ n → bit_or a 0 ≡ a
or_zero_below zero a p = let e : a ≡ 0 = omega arith in rw e refl
or_zero_below (suc n) a p = omega (arith, bit_or_step a 0, or_zero_below n (a / 2) (omega arith))

pub bit_or_zero_right : (a : ℕ) → bit_or a 0 ≡ a
bit_or_zero_right a = or_zero_below a a (le_refl a)

pub twice_scaled : (q k : ℕ) → q * 2 ^ suc k ≡ 2 * (q * 2 ^ k)
twice_scaled q k = omega (arith, ap (λ (t : ℕ). q * t) (pow-suc 2 k))

-- The lowest `k + 1` bits: the lowest one, and `k` of the others.
pub mod_pow_suc : (k a : ℕ) → a % 2 ^ suc k ≡ a / 2 % 2 ^ k * 2 + a % 2
mod_pow_suc k a =
    let low = a / 2 % 2 ^ k * 2 + a % 2 in
    let high = a / 2 / 2 ^ k in
    let small = mod-lt (a / 2) {m = 2 ^ k} (one-le-pow k 2 (omega arith)) in
    let split : a ≡ low + high * 2 ^ suc k =
      omega (arith, mod-add-div' (a / 2) (2 ^ k), twice_scaled high k) in
    ap (λ t. t % 2 ^ suc k) split
    ∙ add-mul-mod_self_right low high (2 ^ suc k)
    ∙ mod-eq_of_lt (omega (arith, small, pow-suc 2 k))

pub div_pow_suc : (k a : ℕ) → a / 2 ^ suc k ≡ a / 2 / 2 ^ k
div_pow_suc k a =
    ap (λ t. a / t) (omega (arith, pow-suc 2 k)) ∙ sym (div-div-eq-div-mul a 2 (2 ^ k))

pub bit_and_zero_left : (b : ℕ) → bit_and 0 b ≡ 0
bit_and_zero_left b = simp bit_and-bitwise refl

or_left_zero : (b : ℕ) → bit_or 0 b ≡ b
or_left_zero b = simp bit_or-bitwise refl

-- A mask of the `k` lowest bits is the remainder by `2 ^ k`.
pub bit_and_mask : (k a : ℕ) → bit_and a (2 ^ k - 1) ≡ a % 2 ^ k
bit_and_mask zero a = omega (arith, and_zero_below a a (le_refl a))
bit_and_mask (suc k) a =
    let e = pow-suc 2 k in
    let p = one-le-pow k 2 (omega arith) in
    let halved : (2 ^ suc k - 1) / 2 ≡ 2 ^ k - 1 = omega (arith, e, p) in
    omega (
      arith,
      e,
      p,
      bit_and_step a (2 ^ suc k - 1),
      ap (bit_and (a / 2)) halved,
      bit_and_mask k (a / 2),
      mod_pow_suc k a,
    )

-- `r | (q << k)` is a sum when `r` fits `k` bits.
pub bit_or_fields : (k q r : ℕ) → r < 2 ^ k → bit_or r (q * 2 ^ k) ≡ r + q * 2 ^ k
bit_or_fields zero q r fits =
    let e : r ≡ 0 = omega arith in rw e (omega (arith, or_left_zero (q * 2 ^ 0)))
bit_or_fields (suc k) q r fits =
    let e = twice_scaled q k in
    let halved : q * 2 ^ suc k / 2 ≡ q * 2 ^ k = omega (arith, e) in
    let rest = bit_or_fields k q (r / 2) (omega (arith, pow-suc 2 k)) in
    omega (arith, bit_or_step r (q * 2 ^ suc k), e, ap (bit_or (r / 2)) halved, rest)

-- The masked sum of two words is the sum of the masked words.
pub bit_xor_mod : (k a b : ℕ) → bit_xor a b % 2 ^ k ≡ bit_xor (a % 2 ^ k) (b % 2 ^ k)
bit_xor_mod zero a b =
    let ea : a % 2 ^ 0 ≡ 0 = omega arith in
    let eb : b % 2 ^ 0 ≡ 0 = omega arith in rw (ea, eb) (omega arith)
bit_xor_mod (suc k) a b =
    let ma = mod_pow_suc k a in
    let mb = mod_pow_suc k b in
    let halved_a : a % 2 ^ suc k / 2 ≡ a / 2 % 2 ^ k = omega (arith, ma) in
    let halved_b : b % 2 ^ suc k / 2 ≡ b / 2 % 2 ^ k = omega (arith, mb) in
    let rest = bit_xor_mod k (a / 2) (b / 2) in
    omega (
      arith,
      mod_pow_suc k (bit_xor a b),
      ap (λ t. t % 2 ^ k) (bit_xor_half a b),
      rest,
      bit_xor_step (a % 2 ^ suc k) (b % 2 ^ suc k),
      ap₂ bit_xor halved_a halved_b,
      ma,
      mb,
      bit_xor_parity a b,
    )
