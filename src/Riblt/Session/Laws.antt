-- ===== src/Riblt/Session/Laws.antt =====
-- What a batch hands on: the symbols decoded since the last one, each once.
use leopard.Prelude.{
  min, ◌≡◌, refl, ap, ◌∙◌, List, [], ◌∷◌, ◌++◌, Text, length, length-append, drop-length-append,
  arith, map,
}
use leopard.Prelude.BTreeMap.Laws.{last_of}
use leopard.State.Dash.{DashMap}
use leopard.State.Storage.{DefaultDataStateItem, KeyValueDataStateStorage, save}
use leopard.State.Storage.Laws.{reads, save_lem}
use leopard.Riblt.Symbols.{RibltSymbol, RibltCodedSymbol}
use leopard.Riblt.Decoder.{DecoderOps}
use leopard.Riblt.Session.{
  store_symbols, add_coded_symbols, add_symbols, peel_result, process_batch_blocking,
  build_decoder_blocking,
}

module _ (D : DashMap) (L : Type 0) where
  -- After a batch is stored, a key of the batch reads as its last value there, and any other key
  -- as before.
  pub store_symbols_lem :
      (symbols : List RibltSymbol) (storage : KeyValueDataStateStorage D L) (j : Text)
      → reads D L j (store_symbols D L symbols storage)
        ≡ last_of j (map (λ (s : RibltSymbol). (s.key, s.value)) symbols) (reads D L j storage)
  unfolding store_symbols
  store_symbols_lem [] storage j = refl
  store_symbols_lem (s ∷ symbols) storage j =
      let item : DefaultDataStateItem = record { key = s.key; value = s.value } in
      store_symbols_lem symbols (save D L item storage).0 j
      ∙ ap (last_of j (map (λ (s : RibltSymbol). (s.key, s.value)) symbols))
          ((save_lem D L item storage).0 j)

module _ (R : DecoderOps) where
  open R use {Decoder}

  remote_symbols-add_coded_symbols :
      (cs : List RibltCodedSymbol) (d : Decoder)
      → R.remote_symbols (add_coded_symbols R cs d) ≡ R.remote_symbols d
  unfolding add_coded_symbols
  remote_symbols-add_coded_symbols [] d = refl
  remote_symbols-add_coded_symbols (c ∷ cs) d =
      remote_symbols-add_coded_symbols cs (R.add_coded_symbol c d)
      ∙ R.remote_symbols-add_coded_symbol c d

  remote_symbols-add_symbols :
      (ss : List RibltSymbol) (d : Decoder)
      → R.remote_symbols (add_symbols R ss d) ≡ R.remote_symbols d
  unfolding add_symbols
  remote_symbols-add_symbols [] d = refl
  remote_symbols-add_symbols (s ∷ ss) d =
      remote_symbols-add_symbols ss (R.add_symbol s d) ∙ R.remote_symbols-add_symbol s d

  -- A decoder that is only seeded has decoded nothing.
  pub remote_symbols-build_decoder_blocking :
      (ss : List RibltSymbol) → R.remote_symbols (build_decoder_blocking R ss) ≡ []
  unfolding build_decoder_blocking
  remote_symbols-build_decoder_blocking ss =
      remote_symbols-add_symbols ss R.new ∙ R.remote_symbols-new

  -- With the number of symbols decoded so far as the cursor, the batch's new symbols are exactly
  -- those that the decoder adds to them, and the new cursor is their number.
  pub process_batch_blocking_lem :
      (d : Decoder) (cs : List RibltCodedSymbol)
      → let r = process_batch_blocking R d cs (length (R.remote_symbols d)) in
        (R.remote_symbols r.0 ≡ R.remote_symbols d ++ r.1.remote_symbols)
        × (r.1.remote_total ≡ length (R.remote_symbols r.0))
  unfolding process_batch_blocking peel_result
  process_batch_blocking_lem d cs =
      let old = R.remote_symbols d in
      let added = R.remote_symbols-try_decode (add_coded_symbols R cs d) in
      let grown : R.remote_symbols (R.try_decode (add_coded_symbols R cs d)) ≡ old ++ added.0 =
        added.1 ∙ ap (λ xs. xs ++ added.0) (remote_symbols-add_coded_symbols cs d) in
      let cut : min (length old) (length (old ++ added.0)) ≡ length old =
        omega (arith, length-append old added.0) in
      (rw (grown, cut, drop-length-append old added.0) refl, refl)
