-- ===== src/RfRiblt/Wire.antt =====
-- reconciliation/src/rf_riblt/protocols.rs and receiver.rs: a ribbon filter as bytes, the five numbers
-- of its header, its mode and its rows, of each row as many bytes as its bits need. A `u64` is eight
-- bytes, lowest first. Sizes stay below 2 ^ 64.
pub mod RoundTrip
pub mod Filter
pub mod Built
use Prim.Native.Nat.{bit_and}
use leopard.Prelude.{
  ℕ, zero, suc, ◌+◌, ◌-◌, ◌*◌, ◌/◌, ◌%◌, ◌^◌, min, max, true, false, Option, none, some, ◌⊎◌, inl,
  inr, List, [], ◌∷◌, ◌++◌, Text, length, take, drop, ltb, ◌==◌, if◌then◌else◌,
}
use leopard.Ribbon.Params.{
  Params, Mode, standard, homogeneous, is_homogeneous, from_expected_items, with_seed,
}
use leopard.Ribbon.Params.{new as new_params}
use leopard.Ribbon.Filter.{RibbonFilter, new}
use leopard.Ribbon.Builder.{build}

abbrev pub rf_fingerprint_bits : ℕ
rf_fingerprint_bits = 8

abbrev pub rf_ribbon_width : ℕ
rf_ribbon_width = 64

unfoldable pub to_le_bytes : ℕ → ℕ → Text
to_le_bytes zero n = []
to_le_bytes (suc l) n = (n % 256) ∷ to_le_bytes l (n / 256)

unfoldable pub from_le_bytes : Text → ℕ
from_le_bytes [] = 0
from_le_bytes (b ∷ bs) = b + 256 * from_le_bytes bs

-- `take.div_ceil(8)` for the bits of one word.
abbrev pub word_bytes : ℕ → ℕ
word_bytes bits_left = (min bits_left 64 + 7) / 8

-- The `while` loop over one row, by its words.
unfoldable pub pack_row : ℕ → List ℕ → Text
pack_row bits_left [] = []
pack_row bits_left (word ∷ words) =
    let rest = pack_row (bits_left - min bits_left 64) words in
    if bits_left == 0
    then []
    else take (word_bytes bits_left) (to_le_bytes 8 (bit_and word (2 ^ min bits_left 64 - 1)))
      ++ rest

unfoldable pub pack_rows : ℕ → List (List ℕ) → Text
pack_rows r [] = []
pack_rows r (row ∷ rows) = pack_row r row ++ pack_rows r rows

abbrev pub mode_byte : Mode → ℕ
mode_byte standard = 0
mode_byte homogeneous = 1

-- The bytes of a built filter.
unfoldable pub filter_bytes : RibbonFilter → Text
filter_bytes f =
    to_le_bytes 8 f.params.m
    ++ (to_le_bytes 8 f.params.w
        ++ (to_le_bytes 8 f.params.r
            ++ (to_le_bytes 8 f.params.seed
                ++ (mode_byte f.params.mode
                    ∷ (to_le_bytes 8 (f.params.m * ((f.params.r + 7) / 8))
                        ++ pack_rows f.params.r f.z)))))

-- None where the construction fails. `ribbon_seed` is the random number that the code draws.
unfoldable pub build_filter_bytes : (Text → ℕ) → (ℕ → ℕ) → ℕ → List Text → Option (Text × ℕ)
build_filter_bytes hash_one scaled ribbon_seed keys =
    elim (from_expected_items scaled (max (length keys) 1) rf_ribbon_width rf_fingerprint_bits
      homogeneous) [
        | inl error ↦ none
        | inr params ↦ elim (build hash_one (with_seed ribbon_seed params) keys) [
          | some (inr f) ↦ some (filter_bytes f, ribbon_seed)
          | _ ↦ none
        ]
      ]

-- `read_u64!`: the number and the bytes after it.
unfoldable pub read_u64 : Text → Option (ℕ × Text)
read_u64 bytes =
    if ltb (length bytes) 8 then none else some (from_le_bytes (take 8 bytes), drop 8 bytes)

-- The `while` loop over one row of `n` words.
unfoldable pub unpack_row : ℕ → ℕ → Text → Option (List ℕ × Text)
unpack_row zero bits_left bytes = some ([], bytes)
unpack_row (suc n) bits_left bytes =
    let take_bytes = word_bytes bits_left in
    elim (ltb (length bytes) take_bytes) [
      | true ↦ none
      | false ↦ elim (unpack_row n (bits_left - min bits_left 64) (drop take_bytes bytes)) [
        | none ↦ none
        | some (words, rest) ↦ some (from_le_bytes (take take_bytes bytes) ∷ words, rest)
      ]
    ]

unfoldable pub unpack_rows : ℕ → ℕ → Text → Option (List (List ℕ))
unpack_rows r zero bytes = some []
unpack_rows r (suc m) bytes = elim (unpack_row ((r + 63) / 64) r bytes) [
  | none ↦ none
  | some (row, rest) ↦ elim (unpack_rows r m rest) [ none ↦ none | some rows ↦ some (row ∷ rows) ]
]

-- The part after the numbers of the header.
unfoldable pub read_body : ℕ → ℕ → ℕ → ℕ → Text → Option RibbonFilter
read_body m w r seed [] = none
read_body m w r seed (mode_of ∷ bytes) =
    let mode = if mode_of == 0 then standard else homogeneous in
    elim (read_u64 bytes) [
      | none ↦ none
      | some (packed_len, packed) ↦ elim (ltb (length packed) packed_len) [
        | true ↦ none
        | false ↦ elim (unpack_rows r m packed) [
          | none ↦ none
          | some z ↦ elim (new_params m w r mode) [
            | inl error ↦ none
            | inr params ↦ some (new (with_seed seed params) z)
          ]
        ]
      ]
    ]

infixl 5 ◌>>=◌
abbrev ◌>>=◌ {ℓ κ} : {A : Type ℓ} {B : Type κ} → Option A → (A → Option B) → Option B
none >>= f = none
some a >>= f = f a

unfoldable pub reconstruct_filter_from_bytes : Text → Option RibbonFilter
reconstruct_filter_from_bytes bytes = if ltb (length bytes) (8 * 4 + 1 + 8) then none else do
  m ← read_u64 bytes
  w ← read_u64 m.1
  r ← read_u64 w.1
  seed ← read_u64 r.1
  read_body m.0 w.0 r.0 seed.0 seed.1
