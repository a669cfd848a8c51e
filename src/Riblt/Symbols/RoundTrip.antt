-- ===== src/Riblt/Symbols/RoundTrip.antt =====
-- Decoding undoes encoding while the lengths fit in a byte, and what a longer key decodes to.
use mathlib.Core.List.{append_assoc}
use leopard.Prelude.{
  ℕ, zero, suc, ◌+◌, ◌-◌, ◌*◌, ◌/◌, ◌%◌, ◌^◌, ◌≤◌, ◌<◌, max, ◌≡◌, refl, sym, ap, ap₂, ◌∙◌, true,
  false, some, [], ◌∷◌, ◌++◌, Text, length, length-append, length-replicate, get_elem?, take, drop,
  replicate, take-length-append, drop-length-append, leb, ltb, arith,
}
use leopard.Riblt.Symbols.{
  RibltSymbol, RibltCodedSymbol, fields, encode_symbol, decode_value, decode_symbol, to_be_bytes,
  from_be_bytes, encode_coded, decode_coded,
}

leb_of_le : (a b : ℕ) → a ≤ b → leb a b ≡ true
leb_of_le a b h = ground arith

ltb_of_lt : (a b : ℕ) → a < b → ltb a b ≡ true
ltb_of_lt a b h = ground arith

get_elem?-append : (xs : Text) (y : ℕ) (ys : Text) → get_elem? (xs ++ y ∷ ys) (length xs) ≡ some y
get_elem?-append [] y ys = refl
get_elem?-append (x ∷ xs) y ys = get_elem?-append xs y ys

drop_past : (xs : Text) (y : ℕ) (ys : Text) → drop (suc (length xs)) (xs ++ y ∷ ys) ≡ ys
drop_past [] y ys = refl
drop_past (x ∷ xs) y ys = drop_past xs y ys

module _ (lossy : Text → Text) where
  decode_value_lem :
      (b : ℕ) (k v rest : Text)
      → decode_value lossy (b ∷ (k ++ length v ∷ (v ++ rest))) (suc (length k)) ≡ lossy v
  unfolding decode_value
  decode_value_lem b k v rest =
      let size : length (k ++ length v ∷ (v ++ rest)) ≡ length k + suc (length v + length rest) =
        length-append k (length v ∷ (v ++ rest))
        ∙ ap (λ n. length k + suc n) (length-append v rest) in
      rw (
        get_elem?-append k (length v) (v ++ rest),
        size,
        ltb_of_lt (suc (length k)) (suc (length k + suc (length v + length rest))) (omega arith),
        drop_past k (length v) (v ++ rest),
        take-length-append v rest,
        leb_of_le (suc (suc (length k)) + length v) (suc (length k + suc (length v + length rest)))
            (omega arith),
      )

  decode_fields :
      (k v rest : Text)
      → decode_symbol lossy (length k ∷ (k ++ length v ∷ (v ++ rest)))
        ≡ record { key = lossy k; value = lossy v }
  unfolding decode_symbol
  decode_fields k v rest =
      let size = length-append k (length v ∷ (v ++ rest)) in
      rw (
        leb_of_le (suc (length k)) (suc (length (k ++ length v ∷ (v ++ rest))))
            (omega (arith, size)),
        take-length-append k (length v ∷ (v ++ rest)),
        decode_value_lem (length k) k v rest,
      )

  -- Where key and value are at most 255 bytes long, and `lossy` keeps them (they are valid UTF-8),
  -- decoding a symbol's bytes gives the symbol back; the bytes are 128 unless the fields are longer.
  pub decode-encode_symbol :
      (s : RibltSymbol)
      → length s.key < 256
      → length s.value < 256
      → lossy s.key ≡ s.key
      → lossy s.value ≡ s.value
      → (decode_symbol lossy (encode_symbol s) ≡ s)
        × (length (encode_symbol s) ≡ max 128 (2 + length s.key + length s.value))
  unfolding encode_symbol
  decode-encode_symbol s h h' valid valid' =
      let k = s.key in
      let v = s.value in
      let zeros : Text = replicate (128 - length (fields k v)) 0 in
      let kept : length k % 256 ≡ length k = omega arith in
      let kept' : length v % 256 ≡ length v = omega arith in
      let shape : encode_symbol s ≡ length k ∷ (k ++ length v ∷ (v ++ zeros)) =
        ap₂ ◌∷◌ kept
          (append_assoc k ((length v % 256) ∷ v) zeros ∙ ap (λ n. k ++ n ∷ (v ++ zeros)) kept') in
      (
        ap (decode_symbol lossy) shape
            ∙ decode_fields k v zeros
            ∙ (λ i. record { key = valid i; value = valid' i }),
        omega (
          arith,
          length-append (fields k v) zeros,
          length-replicate {A = ℕ} (128 - length (fields k v)) 0,
          length-append k ((length v % 256) ∷ v),
        ),
      )

  zero_length : (rest : Text) → (decode_symbol lossy (0 ∷ rest)).key ≡ lossy []
  unfolding decode_symbol
  zero_length rest = rw (leb_of_le 1 (suc (length rest)) (omega arith)) refl

  -- A key whose length is a multiple of 256, which the length byte cannot tell from the empty one,
  -- is decoded as the empty string.
  pub decode-encode_wrapped :
      (s : RibltSymbol)
      → length s.key % 256 ≡ 0
      → (decode_symbol lossy (encode_symbol s)).key ≡ lossy []
  unfolding encode_symbol
  decode-encode_wrapped s h = rw h (zero_length _)

pub take_at : (n : ℕ) (xs ys : Text) → n ≡ length xs → take n (xs ++ ys) ≡ xs
take_at n xs ys h = rw h (take-length-append xs ys)

pub drop_at : (n : ℕ) (xs ys : Text) → n ≡ length xs → drop n (xs ++ ys) ≡ ys
drop_at n xs ys h = rw h (drop-length-append xs ys)

from_be_bytes-append :
    (acc : ℕ) (xs : Text) (b : ℕ)
    → from_be_bytes acc (xs ++ b ∷ []) ≡ 256 * from_be_bytes acc xs + b
unfolding from_be_bytes
from_be_bytes-append acc [] b = refl
from_be_bytes-append acc (x ∷ xs) b = from_be_bytes-append (256 * acc + x) xs b

-- How many values that many bytes have.
abbrev pub width : ℕ → ℕ
width zero = 1
width (suc l) = 256 * width l

pub from_be_bytes-to_be_bytes : (l n : ℕ) → n < width l → from_be_bytes 0 (to_be_bytes l n) ≡ n
unfolding from_be_bytes to_be_bytes
from_be_bytes-to_be_bytes zero n h = omega arith
from_be_bytes-to_be_bytes (suc l) n h =
    let rest = from_be_bytes-to_be_bytes l (n / 256) (omega arith) in
    omega (arith, from_be_bytes-append 0 (to_be_bytes l (n / 256)) (n % 256), rest)

pub length-to_be_bytes : (l n : ℕ) → length (to_be_bytes l n) ≡ l
unfolding to_be_bytes
length-to_be_bytes zero n = refl
length-to_be_bytes (suc l) n = omega (
  arith,
  length-append (to_be_bytes l (n / 256)) ((n % 256) ∷ []),
  length-to_be_bytes l (n / 256),
)

-- Decoding a coded symbol's bytes gives it back, whatever the length of its sum.
pub decode-encode_coded :
    (c : RibltCodedSymbol)
    → c.hash < 2 ^ 64
    → c.count < 2 ^ 64
    → decode_coded (encode_coded c) ≡ some c
unfolding decode_coded encode_coded
decode-encode_coded c h h' =
    let H = to_be_bytes 8 c.hash in
    let C = to_be_bytes 8 c.count in
    let lh = length-to_be_bytes 8 c.hash in
    let lc = length-to_be_bytes 8 c.count in
    let size : length (c.sum ++ (H ++ C)) ≡ length c.sum + 16 =
      omega (arith, lh, lc, length-append c.sum (H ++ C), length-append H C) in
    let all_there : ltb (length (c.sum ++ (H ++ C))) 16 ≡ false = ground (arith, size) in
    let sums = take_at (length (c.sum ++ (H ++ C)) - 16) c.sum (H ++ C) (omega (arith, size)) in
    let tails = drop_at (length (c.sum ++ (H ++ C)) - 16) c.sum (H ++ C) (omega (arith, size)) in
    let hashes = take_at 8 H C (sym lh) in
    let counts : drop (length (c.sum ++ (H ++ C)) - 8) (c.sum ++ (H ++ C)) ≡ C =
      ap (drop (length (c.sum ++ (H ++ C)) - 8)) (sym (append_assoc c.sum H C))
      ∙ drop_at (length (c.sum ++ (H ++ C)) - 8) (c.sum ++ H) C
          (omega (arith, size, lh, length-append c.sum H)) in
    let hash_back = from_be_bytes-to_be_bytes 8 c.hash h in
    let count_back = from_be_bytes-to_be_bytes 8 c.count h' in
    rw (all_there, tails, sums, hashes, counts, hash_back, count_back)
