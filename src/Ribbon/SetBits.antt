-- ===== src/Ribbon/SetBits.antt =====
-- The loop that visits the set bits of a word, against a list of the positions of its digits.
use Prim.Native.Nat.{bit_xor, bit_and}
use native.Mathlib.Nat.{pow-suc, le_refl, pow-le-pow_right}
use leopard.Prelude.{
  ℕ, zero, suc, ◌+◌, ◌-◌, ◌*◌, ◌/◌, ◌%◌, ◌^◌, ◌≤◌, ◌<◌, ◌≡◌, ◌≢◌, false, refl, sym, ap, ap₂, ◌∙◌,
  List, [], ◌∷◌, ◌++◌, map, arith, ◌==◌, if◌then◌else◌, Bool-cases, ==_iff, inl, inr,
}
use leopard.Prelude.Words
use leopard.Ribbon.Hashing.{trailing_zeros, set_bits_loop, for_each_set_bit}
use leopard.Ribbon.Dot.{dot}

-- The positions of the ones among the `n` lowest binary digits, ascending.
unfoldable pub bits : ℕ → ℕ → List ℕ
bits zero c = []
bits (suc n) c = let above = map suc (bits n (c / 2)) in if c % 2 == 1 then 0 ∷ above else above

pub bits_zero : (n : ℕ) → bits n 0 ≡ []
unfolding bits
bits_zero zero = refl
bits_zero (suc n) = ap (map suc) (bits_zero n)

trailing_zeros_enough :
    (n x : ℕ) → x ≢ 0 → x < 2 ^ n → trailing_zeros (suc n) x ≡ trailing_zeros n x
unfolding trailing_zeros
trailing_zeros_enough zero x h p = absurd (h (omega arith))
trailing_zeros_enough (suc n) x h p = elim (Bool-cases (x % 2 == 1)) [
  | inl e ↦ rw e refl
  | inr e ↦
      let even : x % 2 ≡ 0 = ground (arith, e) in
      rw e (
        ap suc
          (trailing_zeros_enough n (x / 2) (λ z. h (omega arith)) (omega (arith, pow-suc 2 n))))
]

and_self_below : (n a : ℕ) → a ≤ n → bit_and a a ≡ a
and_self_below zero a p = let e : a ≡ 0 = omega arith in rw e refl
and_self_below (suc n) a p =
    omega (arith, Words.bit_and_step a a, and_self_below n (a / 2) (omega arith))

and_le_below : (n a b : ℕ) → a ≤ n → bit_and a b ≤ a
and_le_below zero a b p =
    let e : a ≡ 0 = omega arith in rw (e, Words.bit_and_zero_left b) (le_refl 0)
and_le_below (suc n) a b p =
    omega (arith, Words.bit_and_step a b, and_le_below n (a / 2) (b / 2) (omega arith))

clear_odd : (x : ℕ) → bit_and (2 * x + 1) (2 * x + 1 - 1) ≡ 2 * x
clear_odd x =
    let a : (2 * x + 1) / 2 ≡ x = omega arith in
    let b : (2 * x + 1 - 1) / 2 ≡ x = omega arith in
    omega (
      arith,
      Words.bit_and_step (2 * x + 1) (2 * x + 1 - 1),
      ap₂ bit_and a b,
      and_self_below x x (le_refl x),
    )

clear_even : (x : ℕ) → x ≢ 0 → bit_and (2 * x) (2 * x - 1) ≡ 2 * bit_and x (x - 1)
clear_even x h =
    let a : 2 * x / 2 ≡ x = omega arith in
    let b : (2 * x - 1) / 2 ≡ x - 1 = omega arith in
    omega (arith, Words.bit_and_step (2 * x) (2 * x - 1), ap₂ bit_and a b)

-- A number's test against another that it differs from.
==_of_ne : (a b : ℕ) → a ≢ b → (a == b) ≡ false
==_of_ne a b h = ground arith

trailing_zeros_double : (n x : ℕ) → trailing_zeros (suc n) (2 * x) ≡ suc (trailing_zeros n x)
unfolding trailing_zeros
trailing_zeros_double n x =
    let even : 2 * x % 2 ≡ 0 = omega arith in
    let half : 2 * x / 2 ≡ x = omega arith in rw (even, half) refl

trailing_zeros_even :
    (n x : ℕ) → x ≢ 0 → x < 2 ^ n → trailing_zeros (suc n) (2 * x) ≡ suc (trailing_zeros (suc n) x)
trailing_zeros_even n x h p =
    trailing_zeros_double n x ∙ ap suc (sym (trailing_zeros_enough n x h p))

trailing_zeros_odd : (n c : ℕ) → c % 2 ≡ 1 → trailing_zeros (suc n) c ≡ 0
unfolding trailing_zeros
trailing_zeros_odd n c e = rw e refl

loop_step :
    (f lo : ℕ)
    → lo ≢ 0
    → set_bits_loop (suc f) lo ≡ trailing_zeros 64 lo ∷ set_bits_loop f (bit_and lo (lo - 1))
unfolding set_bits_loop
loop_step f lo h = rw (==_of_ne lo 0 h) refl

bits_odd : (n c : ℕ) → c % 2 ≡ 1 → bits (suc n) c ≡ 0 ∷ map suc (bits n (c / 2))
unfolding bits
bits_odd n c e = rw e refl

bits_even : (n c : ℕ) → c % 2 ≡ 0 → bits (suc n) c ≡ map suc (bits n (c / 2))
unfolding bits
bits_even n c e = rw e refl

loop_zero : (f : ℕ) → set_bits_loop f 0 ≡ []
unfolding set_bits_loop
loop_zero zero = refl
loop_zero (suc f) = refl

loop_base : (c : ℕ) → set_bits_loop 0 c ≡ []
unfolding set_bits_loop
loop_base c = refl

loop_even : (f x : ℕ) → x < 2 ^ 63 → set_bits_loop f (2 * x) ≡ map suc (set_bits_loop f x)
loop_even zero x p = loop_base (2 * x) ∙ ap (map suc) (sym (loop_base x))
loop_even (suc f) x p = elim (Bool-cases (x == 0)) [
  | inl e ↦
      let z : x ≡ 0 = (==_iff x 0).0 e in
      rw z (loop_zero (suc f) ∙ ap (map suc) (sym (loop_zero (suc f))))
  | inr e ↦
      let h : x ≢ 0 = ground (arith, e) in
      let lower = and_le_below x x (x - 1) (le_refl x) in
      let rest = loop_even f (bit_and x (x - 1)) (omega arith) in
      loop_step f (2 * x) (λ z. h (omega arith))
      ∙ ap₂ ◌∷◌ (trailing_zeros_even 63 x h p) (ap (set_bits_loop f) (clear_even x h) ∙ rest)
      ∙ ap (map suc) (sym (loop_step f x h))
]

loop-bits : (n f lo : ℕ) → lo < 2 ^ n → n ≤ f → n ≤ 64 → set_bits_loop f lo ≡ bits n lo
loop-bits zero f lo p q r = let z : lo ≡ 0 = omega arith in rw z (loop_zero f ∙ sym (bits_zero 0))
loop-bits (suc n) zero lo p q r = absurd (omega arith)
loop-bits (suc n) (suc f) lo p q r =
    let x = lo / 2 in
    let small : x < 2 ^ n = omega (arith, pow-suc 2 n) in
    let smaller : x < 2 ^ 63 =
      omega (arith, small, pow-le-pow_right {n = 2} (omega arith) {i = n} {j = 63} (omega arith)) in
    elim (Bool-cases (lo % 2 == 1)) [
      | inl e ↦
          let odd : lo % 2 ≡ 1 = (==_iff (lo % 2) 1).0 e in
          let whole : lo ≡ 2 * x + 1 = omega arith in
          let cleared = ap (λ c. bit_and c (c - 1)) whole ∙ clear_odd x in
          loop_step f lo (λ z. omega arith)
          ∙ ap₂ ◌∷◌ (trailing_zeros_odd 63 lo odd) (
              ap (set_bits_loop f) cleared
              ∙ loop_even f x smaller
              ∙ ap (map suc) (loop-bits n f x small (omega arith) (omega arith)))
          ∙ sym (bits_odd n lo odd)
      | inr e ↦
          let even : lo % 2 ≡ 0 = ground (arith, e) in
          let whole : lo ≡ 2 * x = omega arith in
          ap (set_bits_loop (suc f)) whole
          ∙ loop_even (suc f) x smaller
          ∙ ap (map suc) (loop-bits n (suc f) x small (omega arith) (omega arith))
          ∙ sym (bits_even n lo even)
    ]

-- The calls of `for_each_set_bit_u128_parts` are one for each set bit of the two words, in ascending
-- order, for any two words of 64 bits.
pub for_each_set_bit_lem :
    (lo hi : ℕ)
    → lo < 2 ^ 64
    → hi < 2 ^ 64
    → for_each_set_bit lo hi ≡ bits 64 lo ++ map (◌+◌ 64) (bits 64 hi)
unfolding for_each_set_bit
for_each_set_bit_lem lo hi p q =
    ap₂ (λ a b. a ++ map (◌+◌ 64) b) (loop-bits 64 64 lo p (le_refl 64) (le_refl 64))
      (loop-bits 64 64 hi q (le_refl 64) (le_refl 64))

module _ (v : ℕ → ℕ) where
  -- The values at some offsets from `i`, added.
  unfoldable pub sum_at : List ℕ → ℕ → ℕ
  sum_at [] i = 0
  sum_at (o ∷ os) i = bit_xor (v (i + o)) (sum_at os i)

  sum_at-append :
      (os ps : List ℕ) (i : ℕ) → sum_at (os ++ ps) i ≡ bit_xor (sum_at os i) (sum_at ps i)
  unfolding sum_at
  sum_at-append [] ps i = sym (Words.bit_xor_zero_left _)
  sum_at-append (o ∷ os) ps i =
      ap (bit_xor (v (i + o))) (sum_at-append os ps i)
      ∙ sym (Words.bit_xor_assoc (v (i + o)) (sum_at os i) (sum_at ps i))

  sum_at-map : (k : ℕ) (os : List ℕ) (i : ℕ) → sum_at (map (◌+◌ k) os) i ≡ sum_at os (k + i)
  unfolding sum_at
  sum_at-map k [] i = refl
  sum_at-map k (o ∷ os) i = ap₂ bit_xor (ap v (omega arith)) (sum_at-map k os i)

  sum_at-map-suc : (os : List ℕ) (i : ℕ) → sum_at (map suc os) i ≡ sum_at os (suc i)
  unfolding sum_at
  sum_at-map-suc [] i = refl
  sum_at-map-suc (o ∷ os) i = ap₂ bit_xor (ap v (omega arith)) (sum_at-map-suc os i)

  sum_at-bits : (n c i : ℕ) → sum_at (bits n c) i ≡ dot v n c i
  unfolding sum_at bits dot
  sum_at-bits zero c i = refl
  sum_at-bits (suc n) c i = elim (Bool-cases (c % 2 == 1)) [
    | inl e ↦ rw e (
        ap₂ bit_xor (ap v (omega arith))
          (sum_at-map-suc (bits n (c / 2)) i ∙ sum_at-bits n (c / 2) (suc i)))
    | inr e ↦ rw e (
        sum_at-map-suc (bits n (c / 2)) i
        ∙ sum_at-bits n (c / 2) (suc i)
        ∙ sym (Words.bit_xor_zero_left _))
  ]

  -- The sum at the offsets of a pair of words.
  unfoldable pub dot2 : ℕ → ℕ → ℕ → ℕ
  dot2 lo hi i = bit_xor (dot v 64 lo i) (dot v 64 hi (64 + i))

  pub sum_at-for_each_set_bit :
      (lo hi i : ℕ) → lo < 2 ^ 64 → hi < 2 ^ 64 → sum_at (for_each_set_bit lo hi) i ≡ dot2 lo hi i
  unfolding dot2
  sum_at-for_each_set_bit lo hi i p q =
      ap (λ os. sum_at os i) (for_each_set_bit_lem lo hi p q)
      ∙ sum_at-append (bits 64 lo) (map (◌+◌ 64) (bits 64 hi)) i
      ∙ ap₂ bit_xor (sum_at-bits 64 lo i)
          (sum_at-map 64 (bits 64 hi) i ∙ sum_at-bits 64 hi (64 + i))
