-- ===== src/RfRiblt/Wire/RoundTrip.antt =====
-- The bytes of a ribbon filter, read back.
use Prim.Native.Nat.{bit_and}
use native.Mathlib.Nat.{pow-suc, mod-eq_of_lt, pow-le-pow_right}
use leopard.Prelude.{
  ℕ, zero, suc, ◌+◌, ◌-◌, ◌*◌, ◌/◌, ◌%◌, ◌^◌, ◌<◌, ◌≤◌, ◌≡◌, min, false, refl, ap, ap₂, ◌∙◌, some,
  List, [], ◌∷◌, ◌++◌, Text, length, take, drop, length-append, take-length-append,
  drop-length-append, ltb, ◌==◌, arith,
}
use mathlib.Core.List.{append_assoc}
use mathlib.Core.Path.{subst}
use leopard.Prelude.Words
use leopard.RfRiblt.Wire.{to_le_bytes, from_le_bytes, word_bytes, pack_row, read_u64, unpack_row}

pub length-to_le_bytes : (l n : ℕ) → length (to_le_bytes l n) ≡ l
unfolding to_le_bytes
length-to_le_bytes zero n = refl
length-to_le_bytes (suc l) n = ap suc (length-to_le_bytes l (n / 256))

take-to_le_bytes : (t l n : ℕ) → t ≤ l → take t (to_le_bytes l n) ≡ to_le_bytes t n
unfolding to_le_bytes
take-to_le_bytes zero l n h = refl
take-to_le_bytes (suc t) zero n h = absurd (omega arith)
take-to_le_bytes (suc t) (suc l) n h =
    ap (◌∷◌ (n % 256)) (take-to_le_bytes t l (n / 256) (omega arith))

pow-byte : (l : ℕ) → 2 ^ (8 * suc l) ≡ 256 * 2 ^ (8 * l)
pow-byte l =
    let k = 8 * l in
    let sizes : 8 * suc l ≡ suc (suc (suc (suc (suc (suc (suc (suc k))))))) = omega arith in
    ap (◌^◌ 2) sizes
    ∙ omega (
      arith,
      pow-suc 2 k,
      pow-suc 2 (suc k),
      pow-suc 2 (suc (suc k)),
      pow-suc 2 (suc (suc (suc k))),
      pow-suc 2 (suc (suc (suc (suc k)))),
      pow-suc 2 (suc (suc (suc (suc (suc k))))),
      pow-suc 2 (suc (suc (suc (suc (suc (suc k)))))),
      pow-suc 2 (suc (suc (suc (suc (suc (suc (suc k))))))),
    )

from-to_le_bytes : (l n : ℕ) → n < 2 ^ (8 * l) → from_le_bytes (to_le_bytes l n) ≡ n
unfolding to_le_bytes from_le_bytes
from-to_le_bytes zero n h = omega arith
from-to_le_bytes (suc l) n h =
    omega (arith, from-to_le_bytes l (n / 256) (omega (arith, pow-byte l)))

take_exact : (t : ℕ) (xs ys : Text) → length xs ≡ t → take t (xs ++ ys) ≡ xs
take_exact t xs ys l = subst (λ u. take u (xs ++ ys) ≡ xs) l (take-length-append xs ys)

drop_exact : (t : ℕ) (xs ys : Text) → length xs ≡ t → drop t (xs ++ ys) ≡ ys
drop_exact t xs ys l = subst (λ u. drop u (xs ++ ys) ≡ ys) l (drop-length-append xs ys)

not_short : (t : ℕ) (xs ys : Text) → length xs ≡ t → ltb (length (xs ++ ys)) t ≡ false
not_short t xs ys l = ground (arith, length-append xs ys)

-- A number of the header, with what follows it.
pub read_u64-append :
    (n : ℕ) (rest : Text) → n < 2 ^ 64 → read_u64 (to_le_bytes 8 n ++ rest) ≡ some (n, rest)
unfolding read_u64
read_u64-append n rest h =
    let l = length-to_le_bytes 8 n in
    rw (not_short 8 (to_le_bytes 8 n) rest l) (
      ap₂ (λ a b. some (a, b))
        (ap from_le_bytes (take_exact 8 (to_le_bytes 8 n) rest l) ∙ from-to_le_bytes 8 n h)
        (drop_exact 8 (to_le_bytes 8 n) rest l))

-- The words of a row that has that many bits.
abbrev pub WordsFit : ℕ → List ℕ → Type 0
WordsFit bits [] = bits ≡ 0
WordsFit bits (word ∷ words) =
    (0 < bits) × (word < 2 ^ min bits 64) × WordsFit (bits - min bits 64) words

pow_le_bytes : (k t : ℕ) → k ≤ 8 * t → 2 ^ k ≤ 2 ^ (8 * t)
pow_le_bytes k t h = pow-le-pow_right {n = 2} (omega arith) h

-- The bytes of one word.
abbrev chunk : ℕ → ℕ → Text
chunk bits word = take (word_bytes bits) (to_le_bytes 8 (bit_and word (2 ^ min bits 64 - 1)))

chunk_lem :
    (bits word : ℕ) → word < 2 ^ min bits 64 → chunk bits word ≡ to_le_bytes (word_bytes bits) word
chunk_lem bits word h =
    ap (λ w. take (word_bytes bits) (to_le_bytes 8 w))
      (Words.bit_and_mask (min bits 64) word ∙ mod-eq_of_lt h)
    ∙ take-to_le_bytes (word_bytes bits) 8 word (omega arith)

from-chunk : (bits word : ℕ) → word < 2 ^ min bits 64 → from_le_bytes (chunk bits word) ≡ word
from-chunk bits word h =
    ap from_le_bytes (chunk_lem bits word h)
    ∙ from-to_le_bytes (word_bytes bits) word
        (omega (arith, pow_le_bytes (min bits 64) (word_bytes bits) (omega arith)))

length-chunk : (bits word : ℕ) → word < 2 ^ min bits 64 → length (chunk bits word) ≡ word_bytes bits
length-chunk bits word h =
    ap length (chunk_lem bits word h) ∙ length-to_le_bytes (word_bytes bits) word

pack_row-cons :
    (bits word : ℕ) (words : List ℕ)
    → 0 < bits
    → pack_row bits (word ∷ words) ≡ chunk bits word ++ pack_row (bits - min bits 64) words
unfolding pack_row
pack_row-cons bits word words h = let more : (bits == 0) ≡ false = ground arith in rw more refl

unpack_row-more :
    (n bits : ℕ) (bytes words rest : Text)
    → ltb (length bytes) (word_bytes bits) ≡ false
    → unpack_row n (bits - min bits 64) (drop (word_bytes bits) bytes) ≡ some (words, rest)
    → unpack_row (suc n) bits bytes
      ≡ some (from_le_bytes (take (word_bytes bits) bytes) ∷ words, rest)
unfolding unpack_row
unpack_row-more n bits bytes words rest e h = rw (unpack_row, e, h)

pub unpack-pack_row :
    (words : List ℕ) (bits : ℕ) (rest : Text)
    → WordsFit bits words
    → unpack_row (length words) bits (pack_row bits words ++ rest) ≡ some (words, rest)
unfolding unpack_row pack_row
unpack-pack_row [] bits rest f = refl
unpack-pack_row (word ∷ words) bits rest f =
    let first = chunk bits word in
    let after = pack_row (bits - min bits 64) words ++ rest in
    let l = length-chunk bits word f.1 in
    let joined : pack_row bits (word ∷ words) ++ rest ≡ first ++ after =
      ap (λ t. t ++ rest) (pack_row-cons bits word words f.0) ∙ append_assoc first _ rest in
    let ih = unpack-pack_row words (bits - min bits 64) rest f.2 in
    ap (unpack_row (suc (length words)) bits) joined
    ∙ unpack_row-more (length words) bits (first ++ after) words rest
        (not_short (word_bytes bits) first after l)
        (ap (unpack_row (length words) (bits - min bits 64))
            (drop_exact (word_bytes bits) first after l)
          ∙ ih)
    ∙ ap (λ t. some (t ∷ words, rest))
        (ap from_le_bytes (take_exact (word_bytes bits) first after l) ∙ from-chunk bits word f.1)

pack_row-nil : (bits : ℕ) → length (pack_row bits []) ≡ 0
unfolding pack_row
pack_row-nil bits = refl

pub length-pack_row :
    (words : List ℕ) (bits : ℕ)
    → WordsFit bits words
    → length (pack_row bits words) ≡ (bits + 7) / 8
length-pack_row [] bits f = omega (arith, pack_row-nil bits)
length-pack_row (word ∷ words) bits f =
    ap length (pack_row-cons bits word words f.0)
    ∙ length-append (chunk bits word) (pack_row (bits - min bits 64) words)
    ∙ omega (arith, length-chunk bits word f.1, length-pack_row words (bits - min bits 64) f.2)

pub length-WordsFit :
    (words : List ℕ) (bits : ℕ) → WordsFit bits words → length words ≡ (bits + 63) / 64
length-WordsFit [] bits f = omega arith
length-WordsFit (word ∷ words) bits f =
    omega (arith, length-WordsFit words (bits - min bits 64) f.2)
