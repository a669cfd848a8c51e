-- ===== src/Riblt/Sender/Window.antt =====
-- The sender of one session, under any interleaving with the handlers: what it has put on the wire,
-- and how far it is ahead of the acknowledgements.
use mathlib.Core.List.{append_assoc, append-nil}
use leopard.Prelude.{
  ◌<◌, ℕ, ◌+◌, ◌-◌, ◌≤◌, min, ◌≡◌, refl, sym, ap, ap₂, ◌∙◌, true, false, Option, none, some, List,
  [], ◌∷◌, ◌++◌, map, concat, Text, text_eq, text_eq_iff, leb, length, All, arith, Bool-cases,
  Option-cases, inl, inr,
}
use leopard.Prelude.Bytes.{text_eq_refl}
use leopard.Riblt.Symbols.{RibltSymbol, RibltCodedSymbol}
use leopard.Riblt.Decoder.{RatelessIblt}
use leopard.Riblt.Receiver.Batches.{slice, slice-append, length-slice, IsSound}
use leopard.Riblt.Sender.World.{
  advance, symbol_at, next_coded_symbols_lem, Action, World, turn, more_requested, was_finished,
  symbols_came, was_cleared, send_started, logged, act, act_all, IsForeign,
}
use leopard.Riblt.Sender.{
  SendingState, RibltStreamEngine, put, window_of, on_request_more, on_finished, on_symbols, clear,
  start_send, next_coded_symbols, send_batch, sender_turn,
}

pub lt_of_leb : (a b : ℕ) → leb a b ≡ false → b < a
lt_of_leb a b h = ground arith

window_of_le : (sent : ℕ) → window_of sent ≤ 4096
unfolding window_of
window_of_le sent = omega arith

All-append {ℓ κ} :
    {A : Type ℓ} (P : A → Type κ) (xs ys : List A) → All P xs → All P ys → All P (xs ++ ys)
All-append P [] ys h g = g
All-append P (x ∷ xs) ys h g = (h.0, All-append P xs ys h.1 g)

concat-snoc {ℓ} :
    {A : Type ℓ} (xs : List (ℕ × List A)) (s : ℕ) (v : List A)
    → concat (map (λ b. b.1) (xs ++ (s, v) ∷ [])) ≡ concat (map (λ b. b.1) xs) ++ v
concat-snoc [] s v = append-nil v
concat-snoc (x ∷ xs) s v =
    ap (λ u. x.1 ++ u) (concat-snoc xs s v) ∙ sym (append_assoc x.1 (concat (map (λ b. b.1) xs)) v)

module _ (E : RatelessIblt) where
  open E use {Encoder}

  module _ (neighbor : Text) (start : Encoder) where
    -- The session: its encoder has yielded `sent` symbols, at most 4096 of them not acknowledged.
    abbrev pub InWindow : ℕ → Option (SendingState E) → Type 0
    InWindow sent none = Unit
    InWindow sent (some status) =
        (status.local_iblt ≡ advance E sent start) × (sent ≤ status.acked + 4096)

    pub record IsStreaming (w : World E) : Type 0 where
      pub session : InWindow w.sent (w.engine.sending_states neighbor)
      pub batches : All (IsSound (symbol_at E start)) w.log
      pub in_order : concat (map (λ b. b.1) w.log) ≡ slice (symbol_at E start) 0 w.sent

    sound :
        (s n : ℕ) (v : List RibltCodedSymbol)
        → v ≡ slice (symbol_at E start) s n
        → IsSound (symbol_at E start) (s, v)
    sound s n v h =
        let size : length v ≡ n = ap length h ∙ length-slice (symbol_at E start) s n in
        h ∙ ap (slice (symbol_at E start) s) (sym size)

    put-InWindow :
        (n : Text) (entry : Option (SendingState E)) (m : Text → Option (SendingState E)) (sent : ℕ)
        → InWindow sent (m neighbor)
        → (text_eq n neighbor ≡ true → InWindow sent entry)
        → InWindow sent (put n entry m neighbor)
    unfolding put
    put-InWindow n entry m sent h g = elim (Bool-cases (text_eq n neighbor)) [
      | inl e ↦ rw e (g e)
      | inr e ↦ rw e h
    ]

    put_own :
        (entry : Option (SendingState E)) (m : Text → Option (SendingState E)) (sent : ℕ)
        → InWindow sent entry
        → InWindow sent (put neighbor entry m neighbor)
    unfolding put
    put_own entry m sent h = rw (text_eq_refl neighbor) h

    on_request_more-InWindow :
        (n session : Text) (count sent : ℕ) (e : RibltStreamEngine E)
        → InWindow sent (e.sending_states neighbor)
        → InWindow sent ((on_request_more E n session count e).sending_states neighbor)
    unfolding on_request_more
    on_request_more-InWindow n session count sent e h = elim (Option-cases (e.sending_states n)) [
      | inl f ↦ rw (f, on_request_more) h
      | inr (status, f) ↦ elim (Bool-cases (text_eq status.session_id session)) [
        | inl g ↦
            rw (f, g, on_request_more)
              (put-InWindow n _ e.sending_states sent h (λ same.
                let mine : e.sending_states neighbor ≡ some status =
                  ap e.sending_states (sym ((text_eq_iff n neighbor).0 same)) ∙ f in
                let held : InWindow sent (some status) = rw mine at h in
                (held.0, ground (arith, held.1))))
        | inr g ↦ rw (f, g, on_request_more) h
      ]
    ]

    on_finished-InWindow :
        (n session : Text) (sent : ℕ) (e : RibltStreamEngine E)
        → InWindow sent (e.sending_states neighbor)
        → InWindow sent ((on_finished E n session e).0.sending_states neighbor)
    unfolding on_finished
    on_finished-InWindow n session sent e h = elim (Option-cases (e.sending_states n)) [
      | inl f ↦ rw (f, on_finished) h
      | inr (status, f) ↦ elim (Bool-cases (text_eq status.session_id session)) [
        | inl g ↦ rw (f, g, on_finished) (put-InWindow n none e.sending_states sent h (λ same. tt))
        | inr g ↦ rw (f, g, on_finished) h
      ]
    ]

    send_batch-IsStreaming :
        (status : SendingState E) (w : World E)
        → w.engine.sending_states neighbor ≡ some status
        → IsStreaming w
        → let t = send_batch E neighbor w.sent status w.engine in
          IsStreaming (record { engine = t.0; sent = t.1; log = w.log ++ logged E t.2 })
    unfolding send_batch
    send_batch-IsStreaming status w f h =
        let F = w.sent - status.acked in
        let W = window_of w.sent in
        let held : InWindow w.sent (some status) = rw f at h.session in
        elim (Bool-cases (leb W F)) [
          | inl e ↦ rw e (record {
            session =
                put-InWindow neighbor _ w.engine.sending_states w.sent h.session (λ same. held);
            batches = rw (append-nil w.log) h.batches;
            in_order = rw (append-nil w.log) h.in_order;
          })
          | inr e ↦
              let b = min (W - F) 30 in
              let at_sent : w.sent ≡ 0 + w.sent = omega arith in
              let next = next_coded_symbols_lem E start b w.sent in
              let symbols : (next_coded_symbols E b status.local_iblt).0
                  ≡ slice (symbol_at E start) w.sent b =
                ap (λ i. (next_coded_symbols E b i).0) held.0 ∙ next.0 in
              let encoder : (next_coded_symbols E b status.local_iblt).1
                  ≡ advance E (w.sent + b) start =
                ap (λ i. (next_coded_symbols E b i).1) held.0 ∙ next.1 in
              rw e (record {
                session =
                    put_own _ w.engine.sending_states (w.sent + b)
                      (encoder, omega (arith, lt_of_leb W F e, window_of_le w.sent, held.1));
                batches =
                    All-append (IsSound (symbol_at E start)) w.log _ h.batches
                      (sound w.sent b _ symbols, tt);
                in_order =
                    concat-snoc w.log w.sent _
                    ∙ ap₂ ◌++◌ h.in_order
                        (symbols ∙ ap (λ k. slice (symbol_at E start) k b) at_sent)
                    ∙ sym (slice-append (symbol_at E start) 0 w.sent b);
              })
        ]

    turn-IsStreaming : (w : World E) → IsStreaming w → IsStreaming (act E neighbor turn w)
    unfolding act sender_turn
    turn-IsStreaming w h = elim (Option-cases (w.engine.sending_states neighbor)) [
      | inl e ↦
          rw (e, sender_turn)
            (record {
              session = h.session;
              batches = rw (append-nil w.log) h.batches;
              in_order = rw (append-nil w.log) h.in_order;
            })
      | inr (status, e) ↦ rw (e, sender_turn) (send_batch-IsStreaming status w e h)
    ]

    act-IsStreaming :
        (a : Action E) (w : World E)
        → IsForeign E neighbor a
        → IsStreaming w
        → IsStreaming (act E neighbor a w)
    unfolding act on_symbols clear start_send
    act-IsStreaming turn w g h = turn-IsStreaming w h
    act-IsStreaming (more_requested n session count) w g h = record {
      session = on_request_more-InWindow n session count w.sent w.engine h.session;
      batches = h.batches;
      in_order = h.in_order;
    }
    act-IsStreaming (was_finished n session) w g h = record {
      session = on_finished-InWindow n session w.sent w.engine h.session;
      batches = h.batches;
      in_order = h.in_order;
    }
    act-IsStreaming (symbols_came n session first symbols) w g h = record {
      session = h.session;
      batches = h.batches;
      in_order = h.in_order;
    }
    act-IsStreaming (was_cleared n) w g h = record {
      session = put-InWindow n none w.engine.sending_states w.sent h.session (λ same. tt);
      batches = h.batches;
      in_order = h.in_order;
    }
    act-IsStreaming (send_started n symbols session) w g h = record {
      session =
          put-InWindow n _ w.engine.sending_states w.sent h.session (λ same. absurd (cc (g, same)));
      batches = h.batches;
      in_order = h.in_order;
    }

    act_all-IsStreaming :
        (as' : List (Action E)) (w : World E)
        → All (IsForeign E neighbor) as'
        → IsStreaming w
        → IsStreaming (act_all E neighbor as' w)
    unfolding act_all
    act_all-IsStreaming [] w g h = h
    act_all-IsStreaming (a ∷ as') w g h =
        act_all-IsStreaming as' (act E neighbor a w) g.1 (act-IsStreaming a w g.0 h)

  -- A session that is started and then runs under any sequence of turns and calls, other sessions
  -- with the same neighbour excepted: the batches on the wire are the encoder's first `sent` symbols
  -- in order, each batch at its index, and while the session is there at most 4096 symbols are sent
  -- and not acknowledged.
  pub start_send-IsStreaming :
      (neighbor : Text) (symbols : List RibltSymbol) (session : Text) (e : RibltStreamEngine E)
      (as' : List (Action E))
      → All (IsForeign E neighbor) as'
      → IsStreaming neighbor (E.new symbols) (
          act_all E neighbor as'
            (record { engine = start_send E neighbor symbols session e; sent = 0; log = [] }))
  unfolding start_send
  start_send-IsStreaming neighbor symbols session e as' g =
      act_all-IsStreaming neighbor (E.new symbols) as' _ g (record {
        session = put_own neighbor (E.new symbols) _ e.sending_states 0 (refl, omega arith);
        batches = tt;
        in_order = refl;
      })
