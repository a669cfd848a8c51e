-- ===== src/Riblt/Sender/World.antt =====
-- The sender of one session among the other calls at the engine, as a sequence of actions.
use leopard.Prelude.{
  ℕ, zero, suc, ◌+◌, ◌≡◌, refl, ap, ◌∙◌, false, List, [], ◌∷◌, ◌++◌, Text, text_eq, arith,
}
use leopard.Riblt.Symbols.{RibltSymbol, RibltCodedSymbol}
use leopard.Riblt.Decoder.{RatelessIblt}
use leopard.Riblt.Receiver.Batches.{slice}
use leopard.Riblt.Sender.{
  RibltStreamEngine, on_request_more, on_finished, on_symbols, clear, start_send,
  next_coded_symbols, Turn, stop, wait, send_symbols, sender_turn,
}

module _ (E : RatelessIblt) where
  open E use {Encoder}

  -- The encoder after that many symbols.
  abbrev pub advance : ℕ → Encoder → Encoder
  advance zero i = i
  advance (suc n) i = advance n (E.next_coded_symbol i).1

  -- The symbol of an index.
  abbrev pub symbol_at : Encoder → ℕ → RibltCodedSymbol
  symbol_at i k = (E.next_coded_symbol (advance k i)).0

  advance-advance : (m n : ℕ) (i : Encoder) → advance n (advance m i) ≡ advance (m + n) i
  advance-advance zero n i = let size : n ≡ 0 + n = omega arith in ap (λ k. advance k i) size
  advance-advance (suc m) n i =
      let size : suc (m + n) ≡ suc m + n = omega arith in
      advance-advance m n (E.next_coded_symbol i).1 ∙ ap (λ k. advance k i) size

  pub next_coded_symbols_lem :
      (i : Encoder) (n s : ℕ)
      → ((next_coded_symbols E n (advance s i)).0 ≡ slice (symbol_at i) s n)
        × ((next_coded_symbols E n (advance s i)).1 ≡ advance (s + n) i)
  unfolding next_coded_symbols
  next_coded_symbols_lem i zero s =
      let same : s ≡ s + 0 = omega arith in (refl, ap (λ k. advance k i) same)
  next_coded_symbols_lem i (suc n) s =
      let one : s + 1 ≡ suc s = omega arith in
      let size : suc s + n ≡ s + suc n = omega arith in
      let next : (E.next_coded_symbol (advance s i)).1 ≡ advance (suc s) i =
        advance-advance s 1 i ∙ ap (λ k. advance k i) one in
      let rest = next_coded_symbols_lem i n (suc s) in
      (
        ap (λ e. symbol_at i s ∷ (next_coded_symbols E n e).0) next
            ∙ ap (◌∷◌ (symbol_at i s)) rest.0,
        ap (λ e. (next_coded_symbols E n e).1) next ∙ rest.1 ∙ ap (λ k. advance k i) size,
      )

  -- An event at the engine: a turn of the sender of `neighbor`, or a call of a handler.
  pub data Action : Type 0 where
    turn : Action
    more_requested : Text → Text → ℕ → Action
    was_finished : Text → Text → Action
    symbols_came : Text → Text → ℕ → List RibltCodedSymbol → Action
    was_cleared : Text → Action
    send_started : Text → List RibltSymbol → Text → Action

  -- The engine, the sender's `sent`, and the batches that it has put on the wire.
  pub record World : Type 0 where
    pub engine : RibltStreamEngine E
    pub sent : ℕ
    pub log : List (ℕ × List RibltCodedSymbol)

  abbrev pub logged : Turn → List (ℕ × List RibltCodedSymbol)
  logged stop = []
  logged wait = []
  logged (send_symbols session start symbols) = (start, symbols) ∷ []

  unfoldable pub act : Text → Action → World → World
  act neighbor turn w =
      let t = sender_turn E neighbor w.sent w.engine in
      record { engine = t.0; sent = t.1; log = w.log ++ logged t.2 }
  act neighbor (more_requested n session count) w = record w {
    engine = on_request_more E n session count w.engine;
  }
  act neighbor (was_finished n session) w = record w {
    engine = (on_finished E n session w.engine).0;
  }
  act neighbor (symbols_came n session start symbols) w = record w {
    engine = on_symbols E n session start symbols w.engine;
  }
  act neighbor (was_cleared n) w = record w { engine = clear E n w.engine }
  act neighbor (send_started n symbols session) w = record w {
    engine = start_send E n symbols session w.engine;
  }

  unfoldable pub act_all : Text → List Action → World → World
  act_all neighbor [] w = w
  act_all neighbor (a ∷ as') w = act_all neighbor as' (act neighbor a w)

  -- No other session with the neighbour is started.
  abbrev pub IsForeign : Text → Action → Type 0
  IsForeign neighbor (send_started n symbols session) = text_eq n neighbor ≡ false
  IsForeign neighbor _ = Unit
