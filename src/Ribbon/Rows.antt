-- ===== src/Ribbon/Rows.antt =====
-- A row of words: its words one by one, the sum of two rows, and the mask on the last word.
use Prim.Native.Nat.{bit_and, bit_xor}
use native.Mathlib.Nat.{mod-eq_of_lt, mod-lt, one-le-pow}
use leopard.Prelude.{
  ℕ, zero, suc, ◌-◌, ◌%◌, ◌^◌, ◌<◌, ◌≡◌, true, refl, sym, ap, ap₂, ◌∙◌, List, [], ◌∷◌, length,
  replicate, get_elem?, length-replicate, arith,
}
use mathlib.Core.Option
use leopard.Prelude.Words
use leopard.Ribbon.Hashing.{xor_words, mask_last}
use leopard.Ribbon.Builder.{all_zero}

-- A word in range, and 0 past the end.
abbrev pub word : ℕ → List ℕ → ℕ
word j row = Option.get_or (get_elem? row j) 0

pub length-xor_words : (a b : List ℕ) → length (xor_words a b) ≡ length a
unfolding xor_words
length-xor_words [] b = refl
length-xor_words (x ∷ a) [] = refl
length-xor_words (x ∷ a) (y ∷ b) = ap suc (length-xor_words a b)

-- Within the first row, whatever the length of the other.
pub word-xor_words :
    (j : ℕ) (a b : List ℕ) → j < length a → word j (xor_words a b) ≡ bit_xor (word j a) (word j b)
unfolding xor_words
word-xor_words j [] b h = absurd (omega arith)
word-xor_words j (x ∷ a) [] h = sym (Words.bit_xor_zero_right (word j (x ∷ a)))
word-xor_words zero (x ∷ a) (y ∷ b) h = refl
word-xor_words (suc j) (x ∷ a) (y ∷ b) h = word-xor_words j a b (omega arith)

pub word-replicate : (j n : ℕ) → word j (replicate n 0) ≡ 0
word-replicate j zero = refl
word-replicate zero (suc n) = refl
word-replicate (suc j) (suc n) = word-replicate j n

pub word-all_zero : (j : ℕ) (row : List ℕ) → all_zero row ≡ true → word j row ≡ 0
word-all_zero j [] h = refl
word-all_zero zero (x ∷ row) h = ground arith
word-all_zero (suc j) (x ∷ row) h = ground (arith, word-all_zero j row)

-- A row is known by its words.
pub row_ext :
    (a b : List ℕ) → length a ≡ length b → ((j : ℕ) → j < length a → word j a ≡ word j b) → a ≡ b
row_ext [] [] e h = refl
row_ext [] (y ∷ b) e h = absurd (omega arith)
row_ext (x ∷ a) [] e h = absurd (omega arith)
row_ext (x ∷ a) (y ∷ b) e h =
    ap₂ ◌∷◌ (h 0 (omega arith)) (row_ext a b (omega arith) (λ j p. h (suc j) (omega arith)))

-- A row of `n` words of which the last is within the mask of `k` bits.
pub record IsRow (n k : ℕ) (row : List ℕ) : Type 0 where
  pub size : length row ≡ n
  pub masked : mask_last (2 ^ k - 1) row ≡ row

mask_xor :
    (k a b : ℕ)
    → bit_and (bit_xor a b) (2 ^ k - 1) ≡ bit_xor (bit_and a (2 ^ k - 1)) (bit_and b (2 ^ k - 1))
mask_xor k a b =
    Words.bit_and_mask k (bit_xor a b)
    ∙ Words.bit_xor_mod k a b
    ∙ sym (ap₂ bit_xor (Words.bit_and_mask k a) (Words.bit_and_mask k b))

mask_mask : (k a : ℕ) → bit_and (bit_and a (2 ^ k - 1)) (2 ^ k - 1) ≡ bit_and a (2 ^ k - 1)
mask_mask k a =
    Words.bit_and_mask k (bit_and a (2 ^ k - 1))
    ∙ ap (λ t. t % 2 ^ k) (Words.bit_and_mask k a)
    ∙ mod-eq_of_lt (mod-lt a (one-le-pow k 2 (omega arith)))
    ∙ sym (Words.bit_and_mask k a)

module _ (k : ℕ) where
  mask_last-xor_words :
      (a b : List ℕ)
      → length a ≡ length b
      → mask_last (2 ^ k - 1) (xor_words a b)
        ≡ xor_words (mask_last (2 ^ k - 1) a) (mask_last (2 ^ k - 1) b)
  unfolding mask_last xor_words
  mask_last-xor_words [] b e = refl
  mask_last-xor_words (x ∷ a) [] e = absurd (omega arith)
  mask_last-xor_words (x ∷ []) (y ∷ []) e = ap (λ t. t ∷ []) (mask_xor k x y)
  mask_last-xor_words (x ∷ []) (y ∷ y' ∷ b) e = absurd (omega arith)
  mask_last-xor_words (x ∷ x' ∷ a) (y ∷ []) e = absurd (omega arith)
  mask_last-xor_words (x ∷ x' ∷ a) (y ∷ y' ∷ b) e =
      ap (◌∷◌ (bit_xor x y)) (mask_last-xor_words (x' ∷ a) (y' ∷ b) (omega arith))

  mask_last_again :
      (a : List ℕ) → mask_last (2 ^ k - 1) (mask_last (2 ^ k - 1) a) ≡ mask_last (2 ^ k - 1) a
  unfolding mask_last
  mask_last_again [] = refl
  mask_last_again (x ∷ []) = ap (λ t. t ∷ []) (mask_mask k x)
  mask_last_again (x ∷ y ∷ []) = ap (λ t. x ∷ t ∷ []) (mask_mask k y)
  mask_last_again (x ∷ y ∷ z ∷ a) = ap (◌∷◌ x) (mask_last_again (y ∷ z ∷ a))

  length-mask_last : (mask : ℕ) (a : List ℕ) → length (mask_last mask a) ≡ length a
  unfolding mask_last
  length-mask_last mask [] = refl
  length-mask_last mask (x ∷ []) = refl
  length-mask_last mask (x ∷ y ∷ a) = ap suc (length-mask_last mask (y ∷ a))

  mask_last-zeros : (n : ℕ) → mask_last (2 ^ k - 1) (replicate n 0) ≡ replicate n 0
  unfolding mask_last
  mask_last-zeros zero = refl
  mask_last-zeros (suc zero) = ap (λ t. t ∷ []) (Words.bit_and_zero_left (2 ^ k - 1))
  mask_last-zeros (suc (suc n)) = ap (◌∷◌ 0) (mask_last-zeros (suc n))

  pub xor_words-IsRow :
      {n : ℕ} (a b : List ℕ) → IsRow n k a → IsRow n k b → IsRow n k (xor_words a b)
  xor_words-IsRow a b p q = record {
    size = length-xor_words a b ∙ p.size;
    masked = mask_last-xor_words a b (p.size ∙ sym q.size) ∙ ap₂ xor_words p.masked q.masked;
  }

  pub mask_last-IsRow : (a : List ℕ) → IsRow (length a) k (mask_last (2 ^ k - 1) a)
  mask_last-IsRow a = record { size = length-mask_last (2 ^ k - 1) a; masked = mask_last_again a }

  pub zeros-IsRow : (n : ℕ) → IsRow n k (replicate n 0)
  zeros-IsRow n = record { size = length-replicate n 0; masked = mask_last-zeros n }
