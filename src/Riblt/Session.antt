-- ===== src/Riblt/Session.antt =====
-- reconciliation/src/riblt_core/session.rs: the storage as a set of symbols, and one batch of coded
-- symbols through the decoder. The node's default storage is an argument, and a `HashSet` is a list
-- of its elements in some order.
pub mod Laws
use leopard.Prelude.{ℕ, min, Bool, List, [], ◌∷◌, map, length, drop, if◌then◌else◌}
use leopard.State.Dash.{DashMap}
use leopard.State.Storage.{DefaultDataStateItem, KeyValueDataStateStorage, items, save}
use leopard.Riblt.Symbols.{RibltSymbol, RibltCodedSymbol}
use leopard.Riblt.Decoder.{DecoderOps}

pub record IbltPeelResult : Type 0 where
  pub successful : Bool
  pub remote_symbols : List RibltSymbol
  pub remote_total : ℕ
  pub local_symbols : List RibltSymbol

module _ (D : DashMap) (L : Type 0) where
  unfoldable pub load_iblt_symbols : KeyValueDataStateStorage D L → List RibltSymbol
  load_iblt_symbols storage =
      map (λ (i : DefaultDataStateItem). record { key = i.key; value = i.value })
        (items D L storage)

  -- The storage after the stores; the listeners that each fires are those of `save`.
  unfoldable pub store_symbols :
      List RibltSymbol → KeyValueDataStateStorage D L → KeyValueDataStateStorage D L
  store_symbols [] storage = storage
  store_symbols (s ∷ symbols) storage =
      store_symbols symbols (save D L (record { key = s.key; value = s.value }) storage).0

module _ (R : DecoderOps) where
  open R use {Decoder}

  unfoldable pub add_coded_symbols : List RibltCodedSymbol → Decoder → Decoder
  add_coded_symbols [] d = d
  add_coded_symbols (c ∷ symbols) d = add_coded_symbols symbols (R.add_coded_symbol c d)

  -- `all_remote[remote_cursor.min(remote_total)..]`
  unfoldable pub peel_result : Decoder → ℕ → IbltPeelResult
  peel_result d remote_cursor =
      let all_remote = R.remote_symbols d in
      let remote_total = length all_remote in
      record {
        successful = R.decoded d;
        remote_symbols = drop (min remote_cursor remote_total) all_remote;
        remote_total = remote_total;
        local_symbols = if R.decoded d then R.local_symbols d else [];
      }

  unfoldable pub try_decode_blocking : Decoder → ℕ → Decoder × IbltPeelResult
  try_decode_blocking d remote_cursor =
      let d' = R.try_decode d in (d', peel_result d' remote_cursor)

  unfoldable pub process_batch_blocking :
      Decoder → List RibltCodedSymbol → ℕ → Decoder × IbltPeelResult
  process_batch_blocking d symbols remote_cursor =
      let d' = R.try_decode (add_coded_symbols symbols d) in (d', peel_result d' remote_cursor)

  add_symbols : List RibltSymbol → Decoder → Decoder
  add_symbols [] d = d
  add_symbols (s ∷ symbols) d = add_symbols symbols (R.add_symbol s d)

  unfoldable pub build_decoder_blocking : List RibltSymbol → Decoder
  unfolding add_symbols
  build_decoder_blocking symbols = add_symbols symbols R.new
