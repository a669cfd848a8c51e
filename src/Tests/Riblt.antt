-- ===== src/Tests/Riblt.antt =====
-- The theorems of the rateless reconciliation at a counting encoder and a decoder that reads one
-- symbol off each coded symbol, and a stream that is run.
use leopard.Prelude.{
  ℕ, zero, suc, All, ◌+◌, ◌≡◌, refl, Bool, some, List, [], ◌∷◌, ◌++◌, map, Text, codes, length, leb,
  arith,
}
use leopard.State.Storage.Laws.{reads}
use leopard.Riblt.Symbols.{
  RibltSymbol, RibltCodedSymbol, encode_symbol, decode_symbol, encode_coded, decode_coded,
}
use leopard.Riblt.Symbols.RoundTrip.{
  decode-encode_symbol, decode-encode_wrapped, decode-encode_coded,
}
use leopard.Riblt.Decoder.{RatelessIblt, DecoderOps}
use leopard.Riblt.Session.{
  peel_result, add_coded_symbols, store_symbols, process_batch_blocking, build_decoder_blocking,
}
use leopard.Riblt.Session.Laws.{store_symbols_lem, process_batch_blocking_lem}
use leopard.Riblt.Receiver.{
  remote_found, request_more, on_burst, insert_burst, reorder_insert, after_peel, Drained, drain,
  reorder_remove, run_receiver, start_receiving, Receiving, Event,
}
use leopard.Riblt.Receiver.Run.{Took, drain_lem}
use leopard.Riblt.Receiver.InOrder.{Fed, delivered}
use leopard.Riblt.Sender.{new_engine, start_send, sender_turn}
use leopard.Riblt.Sender.World.{IsForeign, Action, World, turn, more_requested, act_all, symbol_at}
use leopard.Riblt.Sender.Window.{IsStreaming, start_send-IsStreaming}
use leopard.Riblt.Sender.Turns.{Expected, sender_turn_lem}
use leopard.Riblt.EndToEnd.{deliver, stream_received}
use leopard.Riblt.Protocol.{on_events, reconciliation_mechanism}
use leopard.Riblt.Protocol.Stored.{stream_stored}
use leopard.Riblt.Protocol.Periodic.{reconciliation_mechanism_lem, session_after}
use leopard.Riblt.Session.{load_iblt_symbols}
use leopard.Prelude.BTreeMap.Laws.{last_of}
use leopard.Tests.Fixtures.{write_log, Listener, our_storage}

abbrev coded : ℕ → RibltCodedSymbol
coded i = record { sum = i ∷ []; hash = i; count = 1 }

abbrev counting : RatelessIblt
counting = record {
  Encoder = ℕ;
  new = λ symbols. length symbols;
  next_coded_symbol = λ i. (coded i, i + 1);
}

abbrev read_off : RibltCodedSymbol → RibltSymbol
read_off c = record { key = c.sum; value = [] }

abbrev reading : DecoderOps
reading = record {
  Decoder = List RibltCodedSymbol × List RibltSymbol;
  new = ([], []);
  add_symbol = λ s d. d;
  add_coded_symbol = λ c d. (d.0 ++ c ∷ [], d.1);
  try_decode = λ d. ([], d.1 ++ map read_off d.0);
  decoded = λ d. leb 40 (length d.1);
  remote_symbols = λ d. d.1;
  local_symbols = λ d. [];
  remote_symbols-new = refl;
  remote_symbols-add_symbol = λ s d. refl;
  remote_symbols-add_coded_symbol = λ c d. refl;
  remote_symbols-try_decode = λ d. (map read_off d.0, refl);
}

abbrev pair : RibltSymbol
pair = record { key = codes "a"; value = codes "17" }

decode-encode_symbol_example :
    (decode_symbol (λ x. x) (encode_symbol pair) ≡ pair) × (length (encode_symbol pair) ≡ 128)
decode-encode_symbol_example =
    decode-encode_symbol (λ x. x) pair (omega arith) (omega arith) refl refl

abbrev long_key : ℕ → Text
long_key zero = []
long_key (suc n) = 97 ∷ long_key n

abbrev long_pair : RibltSymbol
long_pair = record { key = long_key 256; value = codes "17" }

decode-encode_wrapped_example : (decode_symbol (λ x. x) (encode_symbol long_pair)).key ≡ []
decode-encode_wrapped_example = decode-encode_wrapped (λ x. x) long_pair refl

decode-encode_coded_example : decode_coded (encode_coded (coded 300)) ≡ some (coded 300)
decode-encode_coded_example = decode-encode_coded (coded 300) (omega arith) (omega arith)

store_symbols_lem_example :
    reads write_log Listener (codes "a") (store_symbols write_log Listener (pair ∷ []) our_storage)
    ≡ some (codes "17")
store_symbols_lem_example = store_symbols_lem write_log Listener (pair ∷ []) our_storage (codes "a")

process_batch_blocking_lem_example :
    let r = process_batch_blocking reading ([], pair ∷ []) (coded 4 ∷ coded 5 ∷ []) 1 in
    (r.0.1 ≡ pair ∷ r.1.remote_symbols) × (r.1.remote_total ≡ length r.0.1)
process_batch_blocking_lem_example =
    process_batch_blocking_lem reading ([], pair ∷ []) (coded 4 ∷ coded 5 ∷ [])

abbrev held : Drained
held = record {
  next_index = 2;
  batch = [];
  reorder =
      (5, coded 5 ∷ []) ∷ (3, coded 3 ∷ coded 4 ∷ []) ∷ (2, coded 2 ∷ []) ∷ (9, coded 9 ∷ []) ∷ [];
}

drain_lem_example : Took held (drain 4 held)
drain_lem_example = drain_lem 4 held (omega arith)

abbrev two_symbols : List RibltSymbol
two_symbols = pair ∷ read_off (coded 8) ∷ []

abbrev started : World counting
started = record {
  engine = start_send counting (codes "n") two_symbols (codes "s") (new_engine counting);
  sent = 0;
  log = [];
}

-- Three turns, with an acknowledgement between them.
abbrev actions : List (Action counting)
actions = turn ∷ turn ∷ more_requested (codes "n") (codes "s") 30 ∷ turn ∷ []

foreign : All (IsForeign counting (codes "n")) actions
foreign = (tt, (tt, (tt, (tt, tt))))

start_send-IsStreaming_example :
    IsStreaming counting (codes "n") 2 (act_all counting (codes "n") actions started)
start_send-IsStreaming_example =
    start_send-IsStreaming counting (codes "n") two_symbols (codes "s") (new_engine counting)
      actions foreign

sender_turn_lem_example : Expected counting 0 (started.engine.sending_states (codes "n")) (
  (sender_turn counting (codes "n") 0 started.engine).1,
  (sender_turn counting (codes "n") 0 started.engine).2,
)
sender_turn_lem_example = sender_turn_lem counting (codes "n") 0 started.engine

-- The second batch comes first, then both, the first once more, and one that never was sent.
abbrev bursts : List (List ℕ)
bursts = (1 ∷ []) ∷ (0 ∷ 1 ∷ 0 ∷ []) ∷ (7 ∷ 2 ∷ []) ∷ []

abbrev received : Receiving reading × List Event × Bool
received =
    run_receiver reading (map (deliver (act_all counting (codes "n") actions started).log) bursts)
      (start_receiving reading (build_decoder_blocking reading two_symbols))

-- The batch of index 1 waits for that of index 0.
reordered :
    (run_receiver reading
      (((1, coded 1 ∷ []) ∷ []) ∷ ((0, coded 0 ∷ []) ∷ []) ∷ [])
      (start_receiving reading ([], []))).1
    ≡ remote_found (read_off (coded 0) ∷ read_off (coded 1) ∷ []) ∷ request_more 2 ∷ []
unfolding run_receiver start_receiving on_burst drain insert_burst reorder_insert reorder_remove
    after_peel process_batch_blocking peel_result add_coded_symbols
reordered = refl

stream_received_example :
    Fed reading
      (symbol_at counting 2)
      (build_decoder_blocking reading two_symbols)
      received.0.decoder
      received.0.next_index
    × (delivered received.1 ≡ received.0.decoder.1)
stream_received_example =
    stream_received counting reading (codes "n") two_symbols (codes "s") (new_engine counting)
      actions two_symbols bursts foreign

abbrev received_with_ours : Receiving reading × List Event × Bool
received_with_ours =
    run_receiver reading (map (deliver (act_all counting (codes "n") actions started).log) bursts) (
      start_receiving reading
        (build_decoder_blocking reading (load_iblt_symbols write_log Listener our_storage)))

stream_stored_example :
    reads write_log Listener
      (codes "b")
      (on_events write_log Listener (codes "s") received_with_ours.1 our_storage).0
    ≡ last_of
        (codes "b")
        (map (λ (s : RibltSymbol). (s.key, s.value)) received_with_ours.0.decoder.1)
        (some (codes "7"))
stream_stored_example =
    stream_stored counting reading write_log Listener (codes "n") two_symbols (codes "s")
      (new_engine counting) actions our_storage bursts (codes "b") foreign

-- The first target has a session, the second is listed twice.
abbrev targets : List (Text × Text)
targets = (codes "n", codes "s1") ∷ (codes "o", codes "s2") ∷ (codes "o", codes "s3") ∷ []

reconciliation_mechanism_lem_example :
    let e =
      reconciliation_mechanism counting write_log Listener our_storage targets started.engine in
    (e.sending_states (codes "o")
      ≡ session_after counting write_log Listener our_storage targets
          (codes "o")
          (started.engine.sending_states (codes "o")))
    × (e.receiving_states ≡ started.engine.receiving_states)
reconciliation_mechanism_lem_example =
    reconciliation_mechanism_lem counting write_log Listener our_storage targets started.engine
      (codes "o")
