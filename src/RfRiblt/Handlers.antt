-- ===== src/RfRiblt/Handlers.antt =====
-- reconciliation/src/rf_riblt/receiver.rs and protocols.rs: the handlers of the messages, the task that
-- starts a round and a turn of the task that sends coded symbols. A handler returns the state and what it
-- sends, in order; each runs without another one in between. Fresh session ids and seeds are arguments.
use leopard.Prelude.{
  ℕ, zero, suc, ◌+◌, Bool, true, false, not, ◌&&◌, ◌||◌, Option, none, some, List, [], ◌∷◌, ◌++◌,
  map, Text, text_eq, ◌==◌, if◌then◌else◌, contains,
}
use mathlib.Core.Option
use leopard.State.Storage.{DefaultDataStateItem, KeyValueDataStateStorage, items, get}
use leopard.Ribbon.Filter.{RibbonFilter}
use leopard.Ribbon.Filter.{contains as filter_contains}
use leopard.Riblt.Symbols.{RibltSymbol, RibltCodedSymbol}
use leopard.Riblt.Session.{
  add_coded_symbols, try_decode_blocking, store_symbols, build_decoder_blocking,
}
use leopard.Riblt.Sender.{put}
use leopard.RfRiblt.Wire.{build_filter_bytes, reconstruct_filter_from_bytes}
use leopard.RfRiblt.Protocol.{
  Libraries, sending_symbols, awaiting_confirmation, new_receiving, RfRibltFetchedEntry,
  RfRibltMessage, handshake, filter_chunk, filter_done, s_com_send_symbol, s_com_decoded_all,
  s_com_request_more_symbols, value_fetch_request, value_fetch_response, Sent, RfRibltProtocol,
  is_some, is_session_active, is_session_busy, clear_session_state, compute_local_fingerprint,
  update_last_reconciled_fingerprint,
}

abbrev pub riblt_batch_size : ℕ
riblt_batch_size = 5

-- `==` on optional numbers, where the second is there.
abbrev pub same_number : Option ℕ → ℕ → Bool
same_number none n = false
same_number (some m) n = m == n

-- The keys for which the test says true, and the others, both in order.
unfoldable pub partition : (Text → Bool) → List Text → List Text × List Text
partition test [] = ([], [])
partition test (k ∷ ks) =
    let rest = partition test ks in if test k then (k ∷ rest.0, rest.1) else (rest.0, k ∷ rest.1)

module _ (W : Libraries) where
  open W use {D, L, R, E, hash_one, scaled}

  abbrev pub State : Type 0
  State = RfRibltProtocol W

  unfoldable pub storage_keys : State → List Text
  storage_keys p = map (λ (i : DefaultDataStateItem). i.key) (items D L p.storage)

  -- The loop over `s_com`: each key with its value in the storage, the empty string where it has none.
  unfoldable pub symbols_of :
      List Text → KeyValueDataStateStorage D L → KeyValueDataStateStorage D L × List RibltSymbol
  symbols_of [] storage = (storage, [])
  symbols_of (key ∷ keys) storage =
      let read = get D L key storage in
      let rest = symbols_of keys read.0 in
      let value = Option.get_or (Option.map (λ (i : DefaultDataStateItem). i.value) read.1) [] in
      (rest.0, record { key = key; value = value } ∷ rest.1)

  -- The round's coded symbols are sent by `stream_turn`.
  unfoldable pub start_scom_phase : Text → Text → State → State
  start_scom_phase neighbor scom_session p = elim (p.filter_receiving_states neighbor) [
    | none ↦ p
    | some st ↦
        if st.riblt_started
        then p
        else let read = symbols_of st.s_com p.storage in
          record p {
            storage = read.0;
            filter_receiving_states =
                put neighbor (some (record st { riblt_started = true })) p.filter_receiving_states;
            captured_stn = put neighbor (some st.s_tn) p.captured_stn;
            scom_sending_states =
                put neighbor
                  (some (record {
                    state = sending_symbols;
                    local_iblt = W.E.new read.1;
                    session_id = scom_session;
                  }))
                  p.scom_sending_states;
          }
  ]

  -- A new session where there is none, or another one.
  unfoldable pub reset_receiving : Text → Text → State → State
  reset_receiving neighbor session_id p =
      let fresh = record p {
        filter_receiving_states =
            put neighbor (some (new_receiving session_id)) p.filter_receiving_states;
      } in
      elim (p.filter_receiving_states neighbor) [
        | none ↦ fresh
        | some st ↦ if text_eq st.session_id session_id then p else fresh
      ]

  -- The partition of the local keys by the neighbour's filter, kept in the session.
  unfoldable pub store_partition : Text → Text → RibbonFilter → State → State
  unfolding partition storage_keys
  store_partition neighbor session_id filter p =
      let parts = partition (λ k. filter_contains hash_one k filter) (storage_keys p) in
      elim (p.filter_receiving_states neighbor) [
        | none ↦ p
        | some st ↦
            if text_eq st.session_id session_id
            then record p {
              filter_receiving_states =
                  put neighbor (some (record st { s_com = parts.0; s_tn = parts.1 }))
                    p.filter_receiving_states;
            }
            else p
      ]

  unfoldable pub received_already : Text → Text → State → Bool
  received_already neighbor session_id p = elim (p.filter_receiving_states neighbor) [
    | none ↦ false
    | some st ↦ text_eq st.session_id session_id
  ]

  -- The filter that goes back, and whether the code returns before the end.
  unfoldable pub send_reverse : Bool → Text → ℕ → Text → State → Sent × Bool
  send_reverse should_send neighbor ribbon_seed reverse_session p =
      if should_send
      then elim (build_filter_bytes hash_one scaled ribbon_seed (storage_keys p)) [
        | none ↦ ([], true)
        | some (bytes, seed) ↦ ((neighbor, handshake reverse_session seed bytes) ∷ [], false)
      ]
      else ([], false)

  -- `seed`, `reverse_session` and `scom_session` are drawn where they are used.
  unfoldable pub process_handshake : Text → ℕ → Text → Text → Text → Text → State → State × Sent
  process_handshake session_id seed reverse_session scom_session filter_bytes neighbor p =
      if is_session_busy W neighbor p
        || same_number (p.last_reconciled_fingerprint neighbor) (compute_local_fingerprint W p)
      then (p, [])
      else let already_initiated = is_some (p.reconciliation_initiated_with neighbor) in
        let should_send_reverse =
          not (received_already neighbor session_id p) && not already_initiated in
        let p1 = reset_receiving neighbor session_id p in
        elim (reconstruct_filter_from_bytes filter_bytes) [
          | none ↦ (p1, [])
          | some filter ↦
              let p2 = store_partition neighbor session_id filter p1 in
              let back = send_reverse should_send_reverse neighbor seed reverse_session p2 in
              (
                if not back.1 && already_initiated
                    then start_scom_phase neighbor scom_session p2
                    else p2,
                back.0,
              )
        ]

  unfoldable pub init_scom_receiving_state_if_needed : Text → Text → State → State
  init_scom_receiving_state_if_needed neighbor session_id p =
      let s_com : List Text = elim (p.filter_receiving_states neighbor) [
        | none ↦ []
        | some st ↦ st.s_com
      ] in
      let read = symbols_of s_com p.storage in
      let fresh : State = record p {
        storage = read.0;
        scom_receiving_states =
            put neighbor
              (some (record { decoder = build_decoder_blocking R read.1; session_id = session_id }))
              p.scom_receiving_states;
      } in
      elim (p.scom_receiving_states neighbor) [
        | none ↦ fresh
        | some st ↦ if text_eq st.session_id session_id then p else fresh
      ]

  -- What is sent when the decoder is done, and the state then.
  unfoldable pub scom_decoded :
      Text → Text → List RibltSymbol → List RibltSymbol → State → State × Sent
  scom_decoded session_id neighbor remote_symbols local_symbols p =
      let s_tn : List Text = elim (p.filter_receiving_states neighbor) [
        | none ↦ []
        | some st ↦ st.s_tn
      ] in
      let keys_for_sender = map (λ (s : RibltSymbol). s.key) local_symbols ++ s_tn in
      let missing_keys = map (λ (s : RibltSymbol). s.key) remote_symbols in
      (
        record p {
          scom_receiving_states = put neighbor none p.scom_receiving_states;
          pending_value_fetch_sessions =
              put neighbor (some session_id) p.pending_value_fetch_sessions;
        },
        (neighbor, s_com_decoded_all session_id keys_for_sender)
            ∷ (neighbor, value_fetch_request session_id missing_keys)
            ∷ [],
      )

  -- The handler of a batch once there is a decoder.
  unfoldable pub add_batch : Text → List RibltCodedSymbol → Text → State → State × Sent
  add_batch session_id symbols neighbor p = elim (p.scom_receiving_states neighbor) [
    | none ↦ (p, [])
    | some st ↦
        let peeled = try_decode_blocking R (add_coded_symbols R symbols st.decoder) 0 in
        let kept : State = record p {
          scom_receiving_states =
              put neighbor
                (some (record st {
                  decoder = if text_eq st.session_id session_id then peeled.0 else R.new;
                }))
                p.scom_receiving_states;
        } in
        if peeled.1.successful
        then scom_decoded session_id neighbor peeled.1.remote_symbols peeled.1.local_symbols kept
        else (kept, (neighbor, s_com_request_more_symbols session_id) ∷ [])
  ]

  unfoldable pub handle_scom_send_symbols :
      Text → List RibltCodedSymbol → Text → State → State × Sent
  handle_scom_send_symbols session_id symbols neighbor p =
      add_batch session_id symbols neighbor
        (init_scom_receiving_state_if_needed neighbor session_id p)

  unfoldable pub handle_scom_decoded_all : Text → List Text → Text → State → State × Sent
  handle_scom_decoded_all session_id keys_for_sender neighbor p =
      elim (p.scom_sending_states neighbor) [
        | none ↦ (p, [])
        | some st ↦
            if text_eq st.session_id session_id
            then (
              record p {
                scom_sending_states = put neighbor none p.scom_sending_states;
                pending_value_fetch_sessions =
                    put neighbor (some session_id) p.pending_value_fetch_sessions;
              },
              (neighbor, value_fetch_request session_id keys_for_sender) ∷ [],
            )
            else (p, [])
      ]

  unfoldable pub handle_scom_request_more : Text → Text → State → State
  handle_scom_request_more session_id neighbor p = elim (p.scom_sending_states neighbor) [
    | none ↦ p
    | some st ↦
        if text_eq st.session_id session_id
        then record p {
          scom_sending_states =
              put neighbor (some (record st { state = sending_symbols })) p.scom_sending_states;
        }
        else p
  ]

  -- The entries whose key is wanted, or was found to be missing at the neighbour.
  unfoldable pub wanted_entries :
      List Text → List Text → List DefaultDataStateItem → List RfRibltFetchedEntry
  wanted_entries wanted s_tn_keys [] = []
  wanted_entries wanted s_tn_keys (item ∷ rest) =
      let entries = wanted_entries wanted s_tn_keys rest in
      if contains item.key wanted || contains item.key s_tn_keys
      then record { key = item.key; value = item.value } ∷ entries
      else entries

  unfoldable pub handle_value_fetch_request : Text → List Text → Text → State → Sent
  handle_value_fetch_request session_id keys neighbor p =
      (
        neighbor,
        value_fetch_response session_id (
            wanted_entries keys (Option.get_or (p.captured_stn neighbor) []) (items D L p.storage)),
      )
      ∷ []

  unfoldable pub handle_value_fetch_response :
      Text → List RfRibltFetchedEntry → Text → State → State
  handle_value_fetch_response session_id entries neighbor p =
      elim (p.pending_value_fetch_sessions neighbor) [
        | none ↦ p
        | some pending ↦
            let stored : State = record p {
              storage =
                  store_symbols D L
                    (map (λ (e : RfRibltFetchedEntry). record { key = e.key; value = e.value })
                      entries)
                    p.storage;
            } in
            if text_eq pending session_id
            then clear_session_state W neighbor
                (update_last_reconciled_fingerprint W neighbor stored)
            else p
      ]

  -- A value under `max` turns of the loop that reads coded symbols, and the encoder after them.
  unfoldable pub next_symbols : ℕ → ℕ → W.E.Encoder → List RibltCodedSymbol × W.E.Encoder
  next_symbols zero index encoder = ([], encoder)
  next_symbols (suc n) index encoder =
      let read = W.get_coded_symbol index encoder in
      let rest = next_symbols n (suc index) read.1 in (read.0 ∷ rest.0, rest.1)

  -- One turn of `stream_scom_symbols_to_neighbor` with its `current_index`; none is the end of the
  -- task, and a turn that waits changes nothing.
  unfoldable pub stream_turn : Text → ℕ → State → Option (ℕ × State × Sent)
  stream_turn neighbor index p = elim (p.scom_sending_states neighbor) [
    | none ↦ none
    | some st ↦ elim st.state [
      | awaiting_confirmation ↦ some (index, p, [])
      | sending_symbols ↦
          let batch = next_symbols riblt_batch_size index st.local_iblt in
          some (
            index + riblt_batch_size,
            record p {
              scom_sending_states =
                  put neighbor
                    (some (record st { local_iblt = batch.1; state = awaiting_confirmation }))
                    p.scom_sending_states;
            },
            (neighbor, s_com_send_symbol st.session_id batch.0) ∷ [],
          )
    ]
  ]

  -- One neighbour of the loop of `start_sending_filter`, where it is not passed over for its address.
  unfoldable pub start_sending_filter_to : Text → ℕ → Text → State → State × Sent
  start_sending_filter_to neighbor ribbon_seed session_id p =
      if is_session_active W neighbor p
      then (p, [])
      else elim (build_filter_bytes hash_one scaled ribbon_seed (storage_keys p)) [
        | none ↦ (p, [])
        | some (bytes, seed) ↦ (
          record p {
            reconciliation_initiated_with = put neighbor (some tt) p.reconciliation_initiated_with;
          },
          (neighbor, handshake session_id seed bytes) ∷ [],
        )
      ]

  -- `ReceiveRfRibltMessageTask::run`; `reverse_session`, `scom_session` and `seed` as above.
  unfoldable pub run : ℕ → Text → Text → RfRibltMessage → Text → State → State × Sent
  run seed reverse_session scom_session (handshake session_id ribbon_seed bytes) neighbor p =
      process_handshake session_id seed reverse_session scom_session bytes neighbor p
  run seed reverse_session scom_session (filter_chunk session_id index bytes) neighbor p = (p, [])
  run seed reverse_session scom_session (filter_done session_id) neighbor p = (p, [])
  run seed reverse_session scom_session (s_com_send_symbol session_id symbols) neighbor p =
      handle_scom_send_symbols session_id symbols neighbor p
  run seed reverse_session scom_session (s_com_decoded_all session_id keys) neighbor p =
      handle_scom_decoded_all session_id keys neighbor p
  run seed reverse_session scom_session (s_com_request_more_symbols session_id) neighbor p =
      (handle_scom_request_more session_id neighbor p, [])
  run seed reverse_session scom_session (value_fetch_request session_id keys) neighbor p =
      (p, handle_value_fetch_request session_id keys neighbor p)
  run seed reverse_session scom_session (value_fetch_response session_id entries) neighbor p =
      (handle_value_fetch_response session_id entries neighbor p, [])
