-- ===== src/RfRiblt/Exchange.antt =====
-- rf_riblt/receiver.rs, the end of a round between two nodes: the batch that completes the responder's decoder,
-- and the messages until both have stored what they fetched, delivered in the order in which they are sent.
use leopard.Prelude.{◌≡◌, ◌↔◌, ◌⊎◌, true, some, List, [], ◌∷◌, ◌++◌, map, Text, text_eq, contains}
use leopard.State.Storage.{KeyValueDataStateStorage}
use leopard.State.Storage.Laws.{reads}
use leopard.Riblt.Symbols.{RibltSymbol, RibltCodedSymbol}
use leopard.Riblt.Session.{add_coded_symbols, try_decode_blocking}
use leopard.RfRiblt.Protocol.{
  Libraries, RfRibltMessage, RfRibltProtocol, RfFilterReceivingState, SComReceivingState,
  SComSendingState,
}
use leopard.RfRiblt.Handlers.{run}

-- A symbol is among them.
abbrev pub Has : Text → Text → List RibltSymbol → Type 0
Has k v [] = ⊥
Has k v (s ∷ ss) = ((s.key ≡ k) × (s.value ≡ v)) ⊎ Has k v ss

module _ (W : Libraries) where
  open W use {D, L, R}

  -- The node handles the messages in order; no handshake is among them, so no session or seed is drawn.
  unfoldable pub deliver :
      Text → List RfRibltMessage → RfRibltProtocol W → RfRibltProtocol W × List RfRibltMessage
  deliver neighbor [] p = (p, [])
  deliver neighbor (m ∷ ms) p =
      let step = run W 0 [] [] m neighbor p in
      let rest = deliver neighbor ms step.0 in
      (rest.0, map (λ (s : Text × RfRibltMessage). s.1) step.1 ++ rest.1)

  -- `b` has the batch, `a` handles what `b` sends, and so on until nothing is sent.
  unfoldable pub exchange :
      Text
      → Text
      → List RfRibltMessage
      → RfRibltProtocol W
      → RfRibltProtocol W
      → RfRibltProtocol W × RfRibltProtocol W
  exchange name_a name_b batch a b =
      let b1 = deliver name_a batch b in
      let a1 = deliver name_b b1.1 a in
      let b2 = deliver name_a a1.1 b1.0 in let a2 = deliver name_b b2.1 a1.0 in (a2.0, b2.0)

  -- The symbols of some keys of a storage, with their values.
  abbrev pub AreSymbols : List Text → KeyValueDataStateStorage D L → List RibltSymbol → Type 0
  AreSymbols s_com storage symbols =
      (k v : Text) → Has k v symbols ↔ ((contains k s_com ≡ true) × (reads D L k storage ≡ some v))

  -- Before the batch that completes the decoder: `a` sends, with the partition of its keys by the filter
  -- of `b`; `b` receives, with the partition of its own; and the decoder finds what differs.
  pub record Ready (name_a name_b session : Text) (batch : List RibltCodedSymbol)
      (a b : RfRibltProtocol W) : Type 0 where
    pub s_com : List Text
    pub s_tn : List Text
    pub sending : SComSendingState W
    pub sending_is : a.scom_sending_states name_b ≡ some sending
    pub sending_session : text_eq sending.session_id session ≡ true
    pub captured : a.captured_stn name_b ≡ some s_tn
    pub covered_a :
        (k v : Text)
        → reads D L k a.storage ≡ some v
        → (contains k s_com ≡ true) ⊎ (contains k s_tn ≡ true)
    pub receiving : SComReceivingState W
    pub receiving_is : b.scom_receiving_states name_a ≡ some receiving
    pub receiving_session : text_eq receiving.session_id session ≡ true
    pub partition : RfFilterReceivingState
    pub partition_is : b.filter_receiving_states name_a ≡ some partition
    pub covered_b :
        (k v : Text)
        → reads D L k b.storage ≡ some v
        → (contains k partition.s_com ≡ true) ⊎ (contains k partition.s_tn ≡ true)
    pub symbols_a : List RibltSymbol
    pub symbols_b : List RibltSymbol
    pub are_a : AreSymbols s_com a.storage symbols_a
    pub are_b : AreSymbols partition.s_com b.storage symbols_b
    pub decoded :
        (try_decode_blocking R (add_coded_symbols R batch receiving.decoder) 0).1.successful ≡ true
    pub remote :
        (k v : Text)
        → Has k v symbols_a
        → ¬ Has k v symbols_b
        → Has k v
            (try_decode_blocking R (add_coded_symbols R batch receiving.decoder) 0).1.remote_symbols
    pub local :
        (k v : Text)
        → Has k v symbols_b
        → ¬ Has k v symbols_a
        → Has k v
            (try_decode_blocking R (add_coded_symbols R batch receiving.decoder) 0).1.local_symbols
