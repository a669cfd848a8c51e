-- ===== src/RfRiblt/Agree.antt =====
-- rf_riblt/receiver.rs, the end of a round: each handler's step in it, and what both nodes read after it.
use leopard.Prelude.{
  ◌≡◌, ◌≢◌, refl, ap, ◌∙◌, ◌⊎◌, inl, inr, ◌||◌, Bool, true, false, Option, none, some, List, [],
  ◌∷◌, ◌++◌, map, Text, text_eq, text_eq_iff, arith, if◌then◌else◌, contains, Bool-cases,
  contains-append,
}
use leopard.Prelude.Bytes.{text_eq_refl}
use mathlib.Core.Option
use leopard.State.Storage.{KeyValueDataStateStorage, items}
use leopard.State.Storage.Laws.{reads}
use leopard.Riblt.Symbols.{RibltSymbol, RibltCodedSymbol}
use leopard.Riblt.Sender.{put}
use leopard.Riblt.Session.{IbltPeelResult, add_coded_symbols, try_decode_blocking, store_symbols}
use leopard.RfRiblt.Protocol.{
  Libraries, s_com_send_symbol, s_com_decoded_all, value_fetch_request, RfRibltFetchedEntry,
  RfRibltProtocol, clear_session_state, update_last_reconciled_fingerprint,
}
use leopard.RfRiblt.Handlers.{
  run, handle_scom_send_symbols, add_batch, init_scom_receiving_state_if_needed, scom_decoded,
  handle_scom_decoded_all, handle_value_fetch_request, handle_value_fetch_response, wanted_entries,
}
use leopard.RfRiblt.Fetch.{or_else, asked, reads-answered}
use leopard.RfRiblt.Exchange.{deliver, exchange, Has, AreSymbols, Ready}

-- What a node reads after it has stored an answered fetch, when each value of the neighbour was asked for
-- or is its own too.
if_asked :
    (asked_for : Bool) (theirs mine : Option Text)
    → ((v : Text) → theirs ≡ some v → (asked_for ≡ true) ⊎ (mine ≡ some v))
    → (if asked_for then or_else theirs mine else mine) ≡ or_else theirs mine
if_asked true theirs mine h = refl
if_asked false none mine h = refl
if_asked false (some v) mine h = elim (h v refl) [ inl e ↦ ground arith | inr e ↦ e ]

abbrev keys_of : List RibltSymbol → List Text
keys_of = map (λ (s : RibltSymbol). s.key)

either : (b c : Bool) → (b ≡ true) ⊎ (c ≡ true) → (b || c) ≡ true
either true c h = refl
either false c (inl h) = ground arith
either false c (inr h) = h

-- A further list of wanted keys changes nothing for a key that is wanted already.
in_both :
    {P : Type 0}
    → (k : Text) (ks tn more : List Text) → (asked ks tn k ≡ true) ⊎ P
    → (asked (ks ++ tn) more k ≡ true) ⊎ P
in_both k ks tn more (inr p) = inr p
in_both k ks tn more (inl h) =
    inl (either (contains k (ks ++ tn)) (contains k more) (inl (contains-append k ks tn ∙ h)))

pending_put :
    (neighbor session : Text) (m : Text → Option Text)
    → put neighbor (some session) m neighbor ≡ some session
unfolding put
pending_put neighbor session m = rw (text_eq_refl neighbor) refl

Has-keys :
    (k v : Text) (symbols : List RibltSymbol)
    → Has k v symbols
    → contains k (map (λ (s : RibltSymbol). s.key) symbols) ≡ true
Has-keys k v [] h = elim h [ ]
Has-keys k v (s ∷ symbols) (inl (e, d)) = rw e (rw (text_eq_refl k) refl)
Has-keys k v (s ∷ symbols) (inr h) = ground (arith, Has-keys k v symbols h)

some_or_other : (o : Option Text) (v : Text) → (o ≡ some v) ⊎ (o ≢ some v)
some_or_other none v = inr (λ e. ground arith)
some_or_other (some u) v = elim (Bool-cases (text_eq u v)) [
  | inl e ↦ inl (ap some ((text_eq_iff u v).0 e))
  | inr e ↦ inr (λ h. grind (arith, text_eq_iff u v))
]

module _ (W : Libraries) where
  open W use {D, L}

  -- A value of `x` is among what was found to differ, or is not in its filter phase, or `y` has it too.
  module _ (x y : KeyValueDataStateStorage D L) (com_x com_y tn_x : List Text)
      (xs ys found : List RibltSymbol) (are_x : AreSymbols W com_x x xs)
      (are_y : AreSymbols W com_y y ys)
      (differs : (k v : Text) → Has k v xs → ¬ Has k v ys → Has k v found) where
    found_or_shared :
        (k v : Text)
        → reads D L k x ≡ some v
        → (contains k com_x ≡ true) ⊎ (contains k tn_x ≡ true)
        → (asked (map (λ (s : RibltSymbol). s.key) found) tn_x k ≡ true) ⊎ (reads D L k y ≡ some v)
    found_or_shared k v e (inr h) =
        inl (either (contains k (keys_of found)) (contains k tn_x) (inr h))
    found_or_shared k v e (inl h) = elim (some_or_other (reads D L k y) v) [
      | inl same ↦ inr same
      | inr other ↦ inl (
          either (contains k (keys_of found)) (contains k tn_x) (
            inl (
              Has-keys k v found
                (differs k v ((are_x k v).1 (h, e)) (λ has. other (((are_y k v).0 has).1))))))
    ]

  stored_step :
      (session neighbor : Text) (entries : List RfRibltFetchedEntry) (p : RfRibltProtocol W)
      → p.pending_value_fetch_sessions neighbor ≡ some session
      → (handle_value_fetch_response W session entries neighbor p).storage
        ≡ store_symbols D L
            (map (λ (e : RfRibltFetchedEntry). record { key = e.key; value = e.value }) entries)
            p.storage
  unfolding handle_value_fetch_response clear_session_state update_last_reconciled_fingerprint
  stored_step session neighbor entries p h =
      rw (h, handle_value_fetch_response)
        (rw (text_eq_refl session, handle_value_fetch_response) refl)

  module _ (name_a name_b session : Text) (batch : List RibltCodedSymbol) (a b : RfRibltProtocol W)
      (r : Ready W name_a name_b session batch a b) where
    abbrev peeled : W.R.Decoder × IbltPeelResult
    peeled = try_decode_blocking W.R (add_coded_symbols W.R batch r.receiving.decoder) 0

    abbrev b1 : RfRibltProtocol W
    b1 = record b {
      scom_receiving_states =
          put name_a none
            (put name_a (some (record r.receiving { decoder = peeled.0 })) b.scom_receiving_states);
      pending_value_fetch_sessions = put name_a (some session) b.pending_value_fetch_sessions;
    }

    abbrev for_sender : List Text
    for_sender = keys_of peeled.1.local_symbols ++ r.partition.s_tn

    abbrev missing : List Text
    missing = keys_of peeled.1.remote_symbols

    init_step : init_scom_receiving_state_if_needed W name_a session b ≡ b
    unfolding init_scom_receiving_state_if_needed
    init_step =
        rw (r.receiving_is, init_scom_receiving_state_if_needed)
          (rw (r.receiving_session, init_scom_receiving_state_if_needed) refl)

    batch_step : handle_scom_send_symbols W session batch name_a b ≡ (
      b1,
      (name_a, s_com_decoded_all session for_sender)
          ∷ (name_a, value_fetch_request session missing)
          ∷ [],
    )
    unfolding handle_scom_send_symbols add_batch scom_decoded
    batch_step = rw init_step (
        rw (r.receiving_is, add_batch)
          (rw (r.decoded, add_batch)
            (rw (r.receiving_session, add_batch) (rw (r.partition_is, scom_decoded) refl))))

    abbrev a1 : RfRibltProtocol W
    a1 = record a {
      scom_sending_states = put name_b none a.scom_sending_states;
      pending_value_fetch_sessions = put name_b (some session) a.pending_value_fetch_sessions;
    }

    decoded_step :
        handle_scom_decoded_all W session for_sender name_b a
        ≡ (a1, (name_b, value_fetch_request session for_sender) ∷ [])
    unfolding handle_scom_decoded_all
    decoded_step =
        rw (r.sending_is, handle_scom_decoded_all)
          (rw (r.sending_session, handle_scom_decoded_all) refl)

    abbrev stn_b : List Text
    stn_b = Option.get_or (b.captured_stn name_a) []

    abbrev from_a : List RfRibltFetchedEntry
    from_a = wanted_entries W missing r.s_tn (items D L a.storage)

    abbrev from_b : List RfRibltFetchedEntry
    from_b = wanted_entries W for_sender stn_b (items D L b.storage)

    exchange_step : exchange W name_a name_b (s_com_send_symbol session batch ∷ []) a b ≡ (
      handle_value_fetch_response W session from_b name_b a1,
      handle_value_fetch_response W session from_a name_a b1,
    )
    unfolding exchange deliver run handle_value_fetch_request
    exchange_step = rw batch_step (rw decoded_step (rw r.captured refl))

    -- After the batch that completes the decoder of the responder, where the decoder finds what differs
    -- between the keys of both filters, the messages that follow, each handled in the order in which it is
    -- sent, leave both nodes with every key that one of them has; where both have it, each reads the value
    -- that the other had.
    pub exchange_lem :
        (k : Text)
        → (reads D L k
              (exchange W name_a name_b (s_com_send_symbol session batch ∷ []) a b).0.storage
            ≡ or_else (reads D L k b.storage) (reads D L k a.storage))
          × (reads D L k
                (exchange W name_a name_b (s_com_send_symbol session batch ∷ []) a b).1.storage
              ≡ or_else (reads D L k a.storage) (reads D L k b.storage))
    exchange_lem k = (
      ap (λ e. reads D L k e.0.storage) exchange_step
          ∙ ap (reads D L k) (
              stored_step session name_b from_b a1
                (pending_put name_b session a.pending_value_fetch_sessions))
          ∙ reads-answered W for_sender stn_b b.storage a.storage k
          ∙ if_asked (asked for_sender stn_b k) (reads D L k b.storage) (reads D L k a.storage)
              (λ v e. in_both k (keys_of peeled.1.local_symbols) r.partition.s_tn stn_b (
                found_or_shared b.storage a.storage r.partition.s_com r.s_com r.partition.s_tn
                  r.symbols_b r.symbols_a peeled.1.local_symbols r.are_b r.are_a r.local k v e
                  (r.covered_b k v e))),
      ap (λ e. reads D L k e.1.storage) exchange_step
          ∙ ap (reads D L k) (
              stored_step session name_a from_a b1
                (pending_put name_a session b.pending_value_fetch_sessions))
          ∙ reads-answered W missing r.s_tn a.storage b.storage k
          ∙ if_asked (asked missing r.s_tn k) (reads D L k a.storage) (reads D L k b.storage)
              (λ v e.
                found_or_shared a.storage b.storage r.s_com r.partition.s_com r.s_tn r.symbols_a
                  r.symbols_b peeled.1.remote_symbols r.are_a r.are_b r.remote k v e
                  (r.covered_a k v e)),
    )
