-- ===== src/Riblt/Symbols.antt =====
-- reconciliation/src/riblt_core/symbols.rs: the byte forms of a symbol and of a coded symbol.
-- A `u64` or `i64` is a natural number below 2 ^ 64, an `i64` its two's complement word.
-- `lossy` stands for `String::from_utf8_lossy`.
pub mod RoundTrip
use mathlib.Core.Option
use leopard.Prelude.{
  ℕ, zero, suc, ◌+◌, ◌-◌, ◌*◌, ◌/◌, ◌%◌, Bool, Option, none, some, List, [], ◌∷◌, ◌++◌, Text,
  length, get_elem?, take, drop, replicate, leb, ltb, if◌then◌else◌,
}

pub record RibltSymbol : Type 0 where
  pub key : Text
  pub value : Text

pub record RibltCodedSymbol : Type 0 where
  pub sum : Text
  pub hash : ℕ
  pub count : ℕ

abbrev pub byte_array_length : ℕ
byte_array_length = 128

-- `bytes.resize(n, 0)` where `bytes` is shorter than `n`, else nothing.
abbrev pub pad : ℕ → Text → Text
pad n bytes = bytes ++ replicate (n - length bytes) 0

-- A length is cast to `u8`.
abbrev pub fields : Text → Text → Text
fields key value = (length key % 256) ∷ (key ++ (length value % 256) ∷ value)

unfoldable pub encode_symbol : RibltSymbol → Text
encode_symbol s = pad byte_array_length (fields s.key s.value)

-- From the index on: the length byte of the value, and the value if all of it is there.
unfoldable pub decode_value : (Text → Text) → Text → ℕ → Text
decode_value lossy bytes idx =
    let value_len = Option.get_or (get_elem? bytes idx) 0 in
    let start = if ltb idx (length bytes) then suc idx else idx in
    if leb (start + value_len) (length bytes) then lossy (take value_len (drop start bytes)) else []

unfoldable pub decode_symbol : (Text → Text) → Text → RibltSymbol
decode_symbol lossy [] = record { key = []; value = [] }
decode_symbol lossy (key_len ∷ rest) =
    let bytes = key_len ∷ rest in
    if leb (suc key_len) (length bytes)
    then record {
      key = lossy (take key_len (drop 1 bytes));
      value = decode_value lossy bytes (suc key_len);
    }
    else record { key = []; value = decode_value lossy bytes 1 }

-- `to_be_bytes` of a word of the given number of bytes.
unfoldable pub to_be_bytes : ℕ → ℕ → Text
to_be_bytes zero n = []
to_be_bytes (suc l) n = to_be_bytes l (n / 256) ++ (n % 256) ∷ []

-- `from_be_bytes`, on top of the bytes read before.
unfoldable pub from_be_bytes : ℕ → Text → ℕ
from_be_bytes acc [] = acc
from_be_bytes acc (b ∷ bs) = from_be_bytes (256 * acc + b) bs

unfoldable pub encode_coded : RibltCodedSymbol → Text
encode_coded c = c.sum ++ (to_be_bytes 8 c.hash ++ to_be_bytes 8 c.count)

-- None is the panic on fewer than 16 bytes.
unfoldable pub decode_coded : Text → Option RibltCodedSymbol
decode_coded bytes =
    if ltb (length bytes) 16
    then none
    else let n = length bytes in
      some (record {
        sum = take (n - 16) bytes;
        hash = from_be_bytes 0 (take 8 (drop (n - 16) bytes));
        count = from_be_bytes 0 (drop (n - 8) bytes);
      })
