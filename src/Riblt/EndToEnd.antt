-- ===== src/Riblt/EndToEnd.antt =====
-- reconciliation/src/riblt_core/stream.rs, both ends of one stream: the sender's batches come to the
-- receiver in bursts, in any order, some of them again and again and some never.
use leopard.Prelude.{
  ℕ, zero, suc, ◌≡◌, refl, Option, none, some, List, [], ◌∷◌, map, Text, get_elem?, All,
}
use leopard.Riblt.Symbols.{RibltSymbol}
use leopard.Riblt.Decoder.{RatelessIblt, DecoderOps}
use leopard.Riblt.Session.{build_decoder_blocking}
use leopard.Riblt.Session.Laws.{remote_symbols-build_decoder_blocking}
use leopard.Riblt.Receiver.{run_receiver, start_receiving}
use leopard.Riblt.Receiver.Batches.{IsSound}
use leopard.Riblt.Receiver.InOrder.{Fed, delivered, run_receiver_lem}
use leopard.Riblt.Sender.{RibltStreamEngine, start_send}
use leopard.Riblt.Sender.World.{Action, act_all, IsForeign, symbol_at}
use leopard.Riblt.Sender.Window.{start_send-IsStreaming}

module _ {ℓ} {A : Type ℓ} where
  abbrev pub with_entry : Option A → List A → List A
  with_entry none xs = xs
  with_entry (some b) xs = b ∷ xs

  -- The batches of the given places of the log; there is none at a place past its end.
  abbrev pub deliver : List A → List ℕ → List A
  deliver log [] = []
  deliver log (i ∷ is) = with_entry (get_elem? log i) (deliver log is)

module _ {ℓ κ} {A : Type ℓ} (P : A → Type κ) where
  All-get_elem? : (log : List A) (i : ℕ) (b : A) → All P log → get_elem? log i ≡ some b → P b
  All-get_elem? [] i b h e = cc
  All-get_elem? (x ∷ log) zero b h e = let same : x ≡ b = cc in rw (← same) h.0
  All-get_elem? (x ∷ log) (suc i) b h e = All-get_elem? log i b h.1 e

  All-with_entry :
      (o : Option A) (xs : List A)
      → ((b : A) → o ≡ some b → P b)
      → All P xs
      → All P (with_entry o xs)
  All-with_entry none xs h g = g
  All-with_entry (some b) xs h g = (h b refl, g)

  All-deliver : (log : List A) (is : List ℕ) → All P log → All P (deliver log is)
  All-deliver log [] h = tt
  All-deliver log (i ∷ is) h =
      All-with_entry (get_elem? log i) (deliver log is) (λ b. All-get_elem? log i b h)
        (All-deliver log is h)

  All-deliver_all :
      (log : List A) (bursts : List (List ℕ)) → All P log → All (All P) (map (deliver log) bursts)
  All-deliver_all log [] h = tt
  All-deliver_all log (is ∷ bursts) h = (All-deliver log is h, All-deliver_all log bursts h)

module _ (E : RatelessIblt) (R : DecoderOps) where
  -- The sender's session starts with `symbols` and runs under any sequence of turns and calls that
  -- starts no other session with the neighbour. Whatever places of its log the bursts then hold, the
  -- receiver has fed its decoder, seeded with the `local` set, exactly the first `next_index` coded
  -- symbols of `symbols` in order, and has handed on each symbol that it decoded once, in order.
  pub stream_received :
      (neighbor : Text) (symbols : List RibltSymbol) (session : Text) (e : RibltStreamEngine E)
      (actions : List (Action E)) (local : List RibltSymbol) (bursts : List (List ℕ))
      → All (IsForeign E neighbor) actions
      → let w =
          act_all E neighbor actions
            (record { engine = start_send E neighbor symbols session e; sent = 0; log = [] }) in
        let seeded = build_decoder_blocking R local in
        let t = run_receiver R (map (deliver w.log) bursts) (start_receiving R seeded) in
        Fed R (symbol_at E (E.new symbols)) seeded t.0.decoder t.0.next_index
        × (delivered t.1 ≡ R.remote_symbols t.0.decoder)
  stream_received neighbor symbols session e actions local bursts g =
      let w =
        act_all E neighbor actions
          (record { engine = start_send E neighbor symbols session e; sent = 0; log = [] }) in
      let at = symbol_at E (E.new symbols) in
      let streaming = start_send-IsStreaming E neighbor symbols session e actions g in
      run_receiver_lem R at (build_decoder_blocking R local) (map (deliver w.log) bursts)
        (All-deliver_all (IsSound at) w.log bursts streaming.batches)
        (remote_symbols-build_decoder_blocking R local)
