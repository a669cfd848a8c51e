-- ===== src/Riblt/Protocol/Stored.antt =====
-- riblt/mod.rs, `on_remote_symbols`: the storage of a receiver after a stream.
use leopard.Prelude.{
  ℕ, ◌≡◌, refl, sym, ◌∙◌, ap, ◌++◌, Option, some, List, [], ◌∷◌, map, Text, text_eq, if◌then◌else◌,
  All,
}
use leopard.Prelude.BTreeMap.Laws.{last_of}
use leopard.State.Dash.{DashMap}
use leopard.State.Storage.{KeyValueDataStateStorage}
use leopard.State.Storage.Laws.{reads}
use leopard.Riblt.Symbols.{RibltSymbol}
use leopard.Riblt.Decoder.{RatelessIblt, DecoderOps}
use leopard.Riblt.Session.{load_iblt_symbols, store_symbols, build_decoder_blocking}
use leopard.Riblt.Session.Laws.{store_symbols_lem}
use leopard.Riblt.Receiver.{
  Event, remote_found, finished, complete, request_more, run_receiver, start_receiving,
}
use leopard.Riblt.Receiver.InOrder.{delivered}
use leopard.Riblt.Sender.{RibltStreamEngine, start_send}
use leopard.Riblt.Sender.World.{Action, act_all, IsForeign}
use leopard.Riblt.EndToEnd.{deliver, stream_received}
use leopard.Riblt.Protocol.{on_event, on_events}

module _ (D : DashMap) (L : Type 0) where
  symbol_pairs : List RibltSymbol → List (Text × Text)
  symbol_pairs = map (λ (s : RibltSymbol). (s.key, s.value))

  last_of-symbol_pairs :
      (k : Text) (xs ys : List RibltSymbol) (d : Option Text)
      → last_of k (symbol_pairs (xs ++ ys)) d
        ≡ last_of k (symbol_pairs ys) (last_of k (symbol_pairs xs) d)
  unfolding symbol_pairs
  last_of-symbol_pairs k [] ys d = refl
  last_of-symbol_pairs k (x ∷ xs) ys d =
      last_of-symbol_pairs k xs ys (if text_eq x.key k then some x.value else d)

  reads-on_events :
      (session_id : Text) (events : List Event) (storage : KeyValueDataStateStorage D L) (k : Text)
      → reads D L k (on_events D L session_id events storage).0
        ≡ last_of k (symbol_pairs (delivered events)) (reads D L k storage)
  unfolding on_events on_event symbol_pairs
  reads-on_events session_id [] storage k = refl
  reads-on_events session_id (remote_found ss ∷ es) storage k =
      reads-on_events session_id es (store_symbols D L ss storage) k
      ∙ ap (last_of k (symbol_pairs (delivered es))) (store_symbols_lem D L ss storage k)
      ∙ sym (last_of-symbol_pairs k ss (delivered es) (reads D L k storage))
  reads-on_events session_id (finished ∷ es) storage k = reads-on_events session_id es storage k
  reads-on_events session_id (complete ss n t ∷ es) storage k =
      reads-on_events session_id es storage k
  reads-on_events session_id (request_more n ∷ es) storage k =
      reads-on_events session_id es storage k

-- The stream, with the storage at its receiving end: the seed of the decoder is the receiver's own data.
module _ (E : RatelessIblt) (R : DecoderOps) (D : DashMap) (L : Type 0) where
  -- The sender's session starts with `symbols` and runs under any sequence of turns and calls that
  -- starts no other session with the neighbour. Whatever places of its log the bursts then hold, the
  -- receiver's storage ends as it was, with the decoder's remote symbols stored over it in their order.
  pub stream_stored :
      (neighbor : Text) (symbols : List RibltSymbol) (session : Text) (e : RibltStreamEngine E)
      (actions : List (Action E)) (storage : KeyValueDataStateStorage D L) (bursts : List (List ℕ))
      (k : Text)
      → All (IsForeign E neighbor) actions
      → let w =
          act_all E neighbor actions
            (record { engine = start_send E neighbor symbols session e; sent = 0; log = [] }) in
        let seeded = build_decoder_blocking R (load_iblt_symbols D L storage) in
        let t = run_receiver R (map (deliver w.log) bursts) (start_receiving R seeded) in
        reads D L k (on_events D L session t.1 storage).0
        ≡ last_of k
            (map (λ (s : RibltSymbol). (s.key, s.value)) (R.remote_symbols t.0.decoder))
            (reads D L k storage)
  unfolding symbol_pairs
  stream_stored neighbor symbols session e actions storage bursts k g =
      let w =
        act_all E neighbor actions
          (record { engine = start_send E neighbor symbols session e; sent = 0; log = [] }) in
      let seeded = build_decoder_blocking R (load_iblt_symbols D L storage) in
      let t = run_receiver R (map (deliver w.log) bursts) (start_receiving R seeded) in
      reads-on_events D L session t.1 storage k
      ∙ ap (λ ss. last_of k (map (λ (s : RibltSymbol). (s.key, s.value)) ss) (reads D L k storage))
          ((stream_received E R neighbor symbols session e actions (load_iblt_symbols D L storage)
            bursts g).1)
