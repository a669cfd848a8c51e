-- ===== src/Riblt/Protocol.antt =====
-- reconciliation/src/riblt/mod.rs and receiver.rs: the standalone RIBLT protocol around the engine: its
-- messages, the dispatch of a received one, the adapters between the engine and the node, and the periodic
-- task. A target of the task comes with the fresh session id that would be drawn for it.
pub mod Stored
pub mod Periodic
use leopard.Prelude.{
  ℕ, ◌≡◌, refl, sym, ◌∙◌, ap, ◌++◌, Bool, true, false, Option, none, some, List, [], ◌∷◌, map, Text,
  text_eq, text_eq_iff, if◌then◌else◌, arith, All, Bool-cases, inl, inr,
}
use leopard.Prelude.BTreeMap.Laws.{last_of}
use leopard.State.Dash.{DashMap}
use leopard.State.Storage.{KeyValueDataStateStorage}
use leopard.State.Storage.Laws.{reads}
use leopard.Riblt.Symbols.{RibltSymbol, RibltCodedSymbol}
use leopard.Riblt.Decoder.{RatelessIblt, DecoderOps}
use leopard.Riblt.Session.{load_iblt_symbols, store_symbols, build_decoder_blocking}
use leopard.Riblt.Session.Laws.{store_symbols_lem}
use leopard.Riblt.Receiver.{
  Event, remote_found, finished, complete, request_more, run_receiver, start_receiving,
}
use leopard.Riblt.Receiver.InOrder.{delivered}
use leopard.Riblt.Sender.{
  Turn, stop, wait, send_symbols, put, RibltStreamEngine, SendingState, already_sending, start_send,
  on_symbols, on_finished, on_request_more,
}
use leopard.Riblt.Sender.World.{Action, act_all, IsForeign}
use leopard.Riblt.EndToEnd.{deliver, stream_received}

-- The three messages, each with its session first.
pub data RibltMessage : Type 0 where
  send_symbol : Text → ℕ → List RibltCodedSymbol → RibltMessage
  finished_decoding : Text → RibltMessage
  request_more_symbols : Text → ℕ → RibltMessage

-- `RibltTransport`, for a turn of the sender.
unfoldable pub turn_messages : Turn → List RibltMessage
turn_messages stop = []
turn_messages wait = []
turn_messages (send_symbols session_id start_index symbols) =
    send_symbol session_id start_index symbols ∷ []

module _ (D : DashMap) (L : Type 0) where
  -- `RibltTransport` and `RibltSink`, for what the receiver of the session does.
  unfoldable pub on_event :
      Text → Event → KeyValueDataStateStorage D L → KeyValueDataStateStorage D L × List RibltMessage
  on_event session_id (remote_found new_remote) storage = (store_symbols D L new_remote storage, [])
  on_event session_id finished storage = (storage, finished_decoding session_id ∷ [])
  on_event session_id (complete local_only difference trips) storage = (storage, [])
  on_event session_id (request_more received_count) storage =
      (storage, request_more_symbols session_id received_count ∷ [])

  unfoldable pub on_events :
      Text
      → List Event
      → KeyValueDataStateStorage D L
      → KeyValueDataStateStorage D L × List RibltMessage
  on_events session_id [] storage = (storage, [])
  on_events session_id (event ∷ events) storage =
      let head = on_event session_id event storage in
      let rest = on_events session_id events head.0 in (rest.0, head.1 ++ rest.1)

module _ (E : RatelessIblt) where
  -- `ReceiveNeighborSymbolsTask::run`
  unfoldable pub receive : RibltMessage → Text → RibltStreamEngine E → RibltStreamEngine E
  receive (send_symbol session_id start_index symbols) neighbor e =
      on_symbols E neighbor session_id start_index symbols e
  receive (finished_decoding session_id) neighbor e = (on_finished E neighbor session_id e).0
  receive (request_more_symbols session_id received_count) neighbor e =
      on_request_more E neighbor session_id received_count e

  module _ (D : DashMap) (L : Type 0) (storage : KeyValueDataStateStorage D L) where
    unfoldable pub reconciliation_mechanism :
        List (Text × Text) → RibltStreamEngine E → RibltStreamEngine E
    reconciliation_mechanism [] e = e
    reconciliation_mechanism ((info, session_id) ∷ targets) e = reconciliation_mechanism targets (
        if already_sending E info e
        then e
        else start_send E info (load_iblt_symbols D L storage) session_id e)
