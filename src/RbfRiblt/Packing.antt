-- ===== src/RbfRiblt/Packing.antt =====
-- rbf_riblt/protocols.rs and algorithms/rbf/bloom.rs: the bits of a slice as bytes, and back.
use Prim.Native.Nat.{bit_or}
use native.Mathlib.Nat.{pow-suc}
use leopard.Prelude.{
  ℕ, zero, suc, ◌+◌, ◌-◌, ◌*◌, ◌/◌, ◌%◌, ◌^◌, ◌==◌, ◌<◌, ◌≤◌, min, ◌≡◌, refl, sym, ap, ap₂, ◌∙◌,
  Bool, true, false, List, [], ◌∷◌, ◌++◌, map, length, take, drop, length-take, length-drop,
  take-append-drop, arith, if◌then◌else◌,
}
use leopard.Prelude.Lists.{chunks, chunks_fuel}
use leopard.Prelude.Words.{bit_or_fields, twice_scaled}
use leopard.Bloom.{read_byte, read_bits}
use leopard.RbfRiblt.{fold_byte, pack_bits}

-- The number whose binary digits are given, lowest first.
value : List Bool → ℕ
value [] = 0
value (b ∷ bs) = (if b then 1 else 0) + 2 * value bs

odd_scaled : (v k : ℕ) → (1 + 2 * v) * 2 ^ k ≡ 2 ^ k + 2 * (v * 2 ^ k)
odd_scaled v k = omega arith

even_scaled : (v k : ℕ) → (0 + 2 * v) * 2 ^ k ≡ 2 * (v * 2 ^ k)
even_scaled v k = omega arith

fold_byte-value :
    (bs : List Bool) (i byte : ℕ) → byte < 2 ^ i → fold_byte i byte bs ≡ byte + value bs * 2 ^ i
unfolding fold_byte value
fold_byte-value [] i byte h = omega arith
fold_byte-value (true ∷ bs) i byte h =
    let one : bit_or byte (2 ^ i) ≡ byte + 2 ^ i =
      ap (bit_or byte) (omega arith) ∙ bit_or_fields i 1 byte h ∙ omega arith in
    let fits : bit_or byte (2 ^ i) < 2 ^ suc i = omega (arith, one, pow-suc 2 i) in
    fold_byte-value bs (suc i) (bit_or byte (2 ^ i)) fits
    ∙ omega (arith, one, twice_scaled (value bs) i, odd_scaled (value bs) i)
fold_byte-value (false ∷ bs) i byte h =
    fold_byte-value bs (suc i) byte (omega (arith, pow-suc 2 i))
    ∙ omega (arith, twice_scaled (value bs) i, even_scaled (value bs) i)

read_byte-value : (bs : List Bool) (n m : ℕ) → length bs ≡ min n m → read_byte n m (value bs) ≡ bs
unfolding read_byte value
read_byte-value [] zero m h = refl
read_byte-value [] (suc n) zero h = refl
read_byte-value [] (suc n) (suc m) h = absurd (omega arith)
read_byte-value (b ∷ bs) zero m h = absurd (omega arith)
read_byte-value (b ∷ bs) (suc n) zero h = absurd (omega arith)
read_byte-value (true ∷ bs) (suc n) (suc m) h =
    let low : (1 + 2 * value bs) % 2 ≡ 1 = omega arith in
    let half : (1 + 2 * value bs) / 2 ≡ value bs = omega arith in
    ap₂ ◌∷◌ (ap (λ t. t == 1) low) (ap (read_byte n m) half ∙ read_byte-value bs n m (omega arith))
read_byte-value (false ∷ bs) (suc n) (suc m) h =
    let low : (0 + 2 * value bs) % 2 ≡ 0 = omega arith in
    let half : (0 + 2 * value bs) / 2 ≡ value bs = omega arith in
    ap₂ ◌∷◌ (ap (λ t. t == 1) low) (ap (read_byte n m) half ∙ read_byte-value bs n m (omega arith))

read_bits-chunks :
    (f : ℕ) (bs : List Bool)
    → length bs ≤ f
    → read_bits (length bs) (map (fold_byte 0 0) (chunks_fuel f 8 bs)) ≡ bs
unfolding read_bits chunks_fuel
read_bits-chunks zero [] h = refl
read_bits-chunks zero (b ∷ bs) h = absurd (omega arith)
read_bits-chunks (suc f) [] h = refl
read_bits-chunks (suc f) (b ∷ bs) h =
    let all = b ∷ bs in
    let c = take 8 all in
    let byte : fold_byte 0 0 c ≡ value c = fold_byte-value c 0 0 (omega arith) ∙ omega arith in
    let first : read_byte 8 (length all) (fold_byte 0 0 c) ≡ c =
      ap (read_byte 8 (length all)) byte ∙ read_byte-value c 8 (length all) (length-take 8 all) in
    let rest : read_bits (length all - 8) (map (fold_byte 0 0) (chunks_fuel f 8 (drop 8 all)))
        ≡ drop 8 all =
      ap (λ n. read_bits n (map (fold_byte 0 0) (chunks_fuel f 8 (drop 8 all))))
        (sym (length-drop 8 all))
      ∙ read_bits-chunks f (drop 8 all) (omega (arith, length-drop 8 all)) in
    ap₂ ◌++◌ first rest ∙ take-append-drop 8 all

-- The bits that are packed are read back.
pub read_bits-pack_bits : (bs : List Bool) → read_bits (length bs) (pack_bits bs) ≡ bs
unfolding pack_bits chunks
read_bits-pack_bits bs = read_bits-chunks (length bs) bs (omega arith)
