-- ===== src/Riblt/Decoder.antt =====
-- What the engine uses of the third-party `riblt` crate: `RatelessIBLT`, which yields the coded
-- symbols of a set one after the other, and `Decoder`. Adding a coded symbol leaves the symbols
-- decoded so far as they are, and `try_decode` only adds to them.
use leopard.Prelude.{◌≡◌, Bool, List, [], ◌++◌}
use leopard.Riblt.Symbols.{RibltSymbol, RibltCodedSymbol}

pub record RatelessIblt : Type 1 where
  pub Encoder : Type 0
  pub new : List RibltSymbol → Encoder
  pub next_coded_symbol : Encoder → RibltCodedSymbol × Encoder

pub record DecoderOps : Type 1 where
  pub Decoder : Type 0
  pub new : Decoder
  pub add_symbol : RibltSymbol → Decoder → Decoder
  pub add_coded_symbol : RibltCodedSymbol → Decoder → Decoder
  pub try_decode : Decoder → Decoder
  pub decoded : Decoder → Bool
  pub remote_symbols : Decoder → List RibltSymbol
  pub local_symbols : Decoder → List RibltSymbol
  pub remote_symbols-new : remote_symbols new ≡ []
  pub remote_symbols-add_symbol :
      (s : RibltSymbol) (d : Decoder) → remote_symbols (add_symbol s d) ≡ remote_symbols d
  pub remote_symbols-add_coded_symbol :
      (c : RibltCodedSymbol) (d : Decoder)
      → remote_symbols (add_coded_symbol c d) ≡ remote_symbols d
  pub remote_symbols-try_decode :
      (d : Decoder)
      → (found : List RibltSymbol) × (remote_symbols (try_decode d) ≡ remote_symbols d ++ found)
