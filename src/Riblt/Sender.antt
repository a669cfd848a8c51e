-- ===== src/Riblt/Sender.antt =====
-- reconciliation/src/riblt_core/stream.rs: the sessions of the engine, its handlers, and one turn of
-- the sender's loop. A neighbour is its address as a string; a `HashMap` over neighbours is a
-- function. `notified` is the permit that `notify_one` leaves and a wait takes, and a receiving session's `queue` what
-- its channel holds.
pub mod World
pub mod Window
pub mod Turns
use leopard.Prelude.{
  ℕ, zero, suc, ◌+◌, ◌-◌, ◌/◌, min, max, Bool, true, false, Option, none, some, List, [], ◌∷◌, ◌++◌,
  Text, text_eq, leb, ltb, not, ◌||◌, if◌then◌else◌,
}
use leopard.Riblt.Symbols.{RibltSymbol, RibltCodedSymbol}
use leopard.Riblt.Decoder.{RatelessIblt}

abbrev pub chunk_size : ℕ
chunk_size = 30

abbrev pub min_send_window : ℕ
min_send_window = 64

abbrev pub max_send_window : ℕ
max_send_window = 4096

abbrev pub send_window_growth_divisor : ℕ
send_window_growth_divisor = 4

-- `(sent / DIVISOR).clamp(MIN, MAX)`
unfoldable pub window_of : ℕ → ℕ
window_of sent = max min_send_window (min (sent / send_window_growth_divisor) max_send_window)

-- An entry of a map over neighbours, set or removed.
unfoldable pub put {ℓ} : {A : Type ℓ} → Text → Option A → (Text → Option A) → Text → Option A
put neighbor entry m other = if text_eq neighbor other then entry else m other

pub record ReceivingState : Type 0 where
  pub session_id : Text
  pub queue : List (ℕ × List RibltCodedSymbol)

-- What a turn of the sender does.
pub data Turn : Type 0 where
  stop : Turn
  wait : Turn
  send_symbols : Text → ℕ → List RibltCodedSymbol → Turn

module _ (E : RatelessIblt) where
  open E use {Encoder}

  pub record SendingState : Type 0 where
    pub local_iblt : Encoder
    pub session_id : Text
    pub notified : Bool
    pub acked : ℕ

  pub record RibltStreamEngine : Type 0 where
    pub sending_states : Text → Option SendingState
    pub receiving_states : Text → Option ReceivingState

  unfoldable pub new_engine : RibltStreamEngine
  new_engine = record { sending_states = λ n. none; receiving_states = λ n. none }

  unfoldable pub already_sending : Text → RibltStreamEngine → Bool
  already_sending neighbor e = elim (e.sending_states neighbor) [ some s ↦ true | none ↦ false ]

  unfoldable pub has_session : Text → RibltStreamEngine → Bool
  has_session neighbor e =
      already_sending neighbor e
      || elim (e.receiving_states neighbor) [ some s ↦ true | none ↦ false ]

  unfoldable pub clear : Text → RibltStreamEngine → RibltStreamEngine
  clear neighbor e = record {
    sending_states = put neighbor none e.sending_states;
    receiving_states = put neighbor none e.receiving_states;
  }

  unfoldable pub start_send : Text → List RibltSymbol → Text → RibltStreamEngine → RibltStreamEngine
  start_send neighbor symbols session_id e = record e {
    sending_states =
        put neighbor
          (some (record {
            local_iblt = E.new symbols;
            session_id = session_id;
            notified = false;
            acked = 0;
          }))
          e.sending_states;
  }

  -- An acknowledgement that is older than the last is not stored, but still wakes the sender.
  unfoldable pub on_request_more : Text → Text → ℕ → RibltStreamEngine → RibltStreamEngine
  on_request_more neighbor session_id received_count e = elim (e.sending_states neighbor) [
    | none ↦ e
    | some status ↦
        if text_eq status.session_id session_id
        then record e {
          sending_states =
              put neighbor
                (some (record status {
                  acked = if ltb status.acked received_count then received_count else status.acked;
                  notified = true;
                }))
                e.sending_states;
        }
        else e
  ]

  unfoldable pub on_finished : Text → Text → RibltStreamEngine → RibltStreamEngine × Bool
  on_finished neighbor session_id e = elim (e.sending_states neighbor) [
    | none ↦ (e, false)
    | some status ↦
        if text_eq status.session_id session_id
        then (record e { sending_states = put neighbor none e.sending_states }, true)
        else (e, false)
  ]

  -- A batch for the session that is there joins its queue; any other starts a session anew.
  unfoldable pub on_symbols :
      Text → Text → ℕ → List RibltCodedSymbol → RibltStreamEngine → RibltStreamEngine
  on_symbols neighbor session_id start_index symbols e =
      let fresh : ReceivingState = record {
        session_id = session_id;
        queue = (start_index, symbols) ∷ [];
      } in
      let entry : ReceivingState = elim (e.receiving_states neighbor) [
        | none ↦ fresh
        | some status ↦
            if text_eq status.session_id session_id
            then record status { queue = status.queue ++ (start_index, symbols) ∷ [] }
            else fresh
      ] in
      record e { receiving_states = put neighbor (some entry) e.receiving_states }

  -- `for _ in 0..budget { symbols.push(local_iblt.next_coded_symbol()) }`
  unfoldable pub next_coded_symbols : ℕ → Encoder → List RibltCodedSymbol × Encoder
  next_coded_symbols zero iblt = ([], iblt)
  next_coded_symbols (suc n) iblt =
      let head = E.next_coded_symbol iblt in
      let rest = next_coded_symbols n head.1 in (head.0 ∷ rest.0, rest.1)

  unfoldable pub send_batch :
      Text → ℕ → SendingState → RibltStreamEngine → RibltStreamEngine × ℕ × Turn
  send_batch neighbor sent status e =
      let in_flight = sent - status.acked in
      let window = window_of sent in
      if leb window in_flight
      then (
        record e {
          sending_states =
              put neighbor (some (record status { notified = false })) e.sending_states;
        },
        sent,
        wait,
      )
      else let budget = min (window - in_flight) chunk_size in
        let next = next_coded_symbols budget status.local_iblt in
        (
          record e {
            sending_states =
                put neighbor (some (record status { local_iblt = next.1 })) e.sending_states;
          },
          sent + budget,
          send_symbols status.session_id sent next.0,
        )

  -- One turn of the loop of `run_sender`, which holds `sent`: the engine and `sent` after it, and
  -- what the turn does.
  unfoldable pub sender_turn : Text → ℕ → RibltStreamEngine → RibltStreamEngine × ℕ × Turn
  sender_turn neighbor sent e = elim (e.sending_states neighbor) [
    | none ↦ (e, sent, stop)
    | some status ↦ send_batch neighbor sent status e
  ]
