-- ===== src/Riblt/Receiver/InOrder.antt =====
-- The receiver against a peer that numbers its coded symbols: in whatever order the batches come,
-- and however often, the decoder is fed a prefix of the peer's sequence, in order.
use mathlib.Core.List.{append_assoc, append-nil}
use leopard.Prelude.{
  ℕ, ◌+◌, ◌≡◌, refl, sym, ap, ◌∙◌, Bool, List, [], ◌∷◌, ◌++◌, length, All, arith, Bool-cases, ◌⊎◌,
  inl, inr,
}
use leopard.Riblt.Symbols.{RibltSymbol, RibltCodedSymbol}
use leopard.Riblt.Decoder.{DecoderOps}
use leopard.Riblt.Session.{IbltPeelResult, add_coded_symbols, process_batch_blocking}
use leopard.Riblt.Session.Laws.{process_batch_blocking_lem}
use leopard.Riblt.Receiver.Batches.{
  slice, IsSound, insert_burst-IsSound, IsDrained, drain-IsDrained,
}
use leopard.Riblt.Receiver.{
  insert_burst, Drained, drain, Event, remote_found, finished, complete, request_more, tell_remote,
  Receiving, start_receiving, after_peel, on_burst, run_receiver,
}

-- The symbols that the host is handed.
abbrev pub delivered : List Event → List RibltSymbol
delivered [] = []
delivered (remote_found ss ∷ es) = ss ++ delivered es
delivered (finished ∷ es) = delivered es
delivered (complete ss n t ∷ es) = delivered es
delivered (request_more n ∷ es) = delivered es

List-cases {ℓ} : {A : Type ℓ} (xs : List A) → (xs ≡ []) ⊎ ((c : A) × (cs : List A) × (xs ≡ c ∷ cs))
List-cases [] = inl refl
List-cases (x ∷ xs) = inr (x, xs, refl)

delivered-append : (es fs : List Event) → delivered (es ++ fs) ≡ delivered es ++ delivered fs
delivered-append [] fs = refl
delivered-append (remote_found ss ∷ es) fs =
    ap (λ x. ss ++ x) (delivered-append es fs) ∙ sym (append_assoc ss (delivered es) (delivered fs))
delivered-append (finished ∷ es) fs = delivered-append es fs
delivered-append (complete ss n t ∷ es) fs = delivered-append es fs
delivered-append (request_more n ∷ es) fs = delivered-append es fs

delivered-tell_remote : (ss : List RibltSymbol) → delivered (tell_remote ss) ≡ ss
delivered-tell_remote [] = refl
delivered-tell_remote (s ∷ ss) = append-nil (s ∷ ss)

module _ (R : DecoderOps) (at : ℕ → RibltCodedSymbol) (seeded : R.Decoder) where
  open R use {Decoder}

  -- `Fed d n`: the decoder `d` is the seeded one after the first `n` symbols, in order, with a
  -- `try_decode` after each batch of them.
  pub data Fed : Decoder → ℕ → Type 0 where
    seed : Fed seeded 0
    batch :
        {d : Decoder} {n m : ℕ} (cs : List RibltCodedSymbol)
        → Fed d n
        → cs ≡ slice at n (length cs)
        → m ≡ n + length cs
        → Fed (R.try_decode (add_coded_symbols R cs d)) m

  pub record InOrder (r : Receiving R) : Type 0 where
    pub buffered : All (IsSound at) r.reorder
    pub fed : Fed r.decoder r.next_index
    pub cursor : r.stored_remote ≡ length (R.remote_symbols r.decoder)

  -- What a turn or a run leaves, and hands on, from the state `r`.
  abbrev pub Kept : Receiving R → Receiving R × List Event × Bool → Type 0
  Kept r t =
      InOrder t.0 × (R.remote_symbols t.0.decoder ≡ R.remote_symbols r.decoder ++ delivered t.1)

  peeled-Kept :
      (r : Receiving R) (d : Drained) (decoder : Decoder) (peel : IbltPeelResult) (trips : ℕ)
      → All (IsSound at) d.reorder
      → Fed decoder d.next_index
      → R.remote_symbols decoder ≡ R.remote_symbols r.decoder ++ peel.remote_symbols
      → peel.remote_total ≡ length (R.remote_symbols decoder)
      → Kept r (after_peel R d (decoder, peel) trips)
  unfolding after_peel
  peeled-Kept r d decoder peel trips sound fed grown total =
      let told = tell_remote peel.remote_symbols in
      let all : (rest : List Event)
          → delivered rest ≡ []
          → R.remote_symbols decoder ≡ R.remote_symbols r.decoder ++ delivered (told ++ rest) =
        λ rest none_left.
          grown
          ∙ ap (λ ss. R.remote_symbols r.decoder ++ ss)
              (sym (
                delivered-append told rest
                ∙ ap (λ ss. delivered told ++ ss) none_left
                ∙ append-nil (delivered told)
                ∙ delivered-tell_remote peel.remote_symbols)) in
      elim (Bool-cases peel.successful) [
        | inl e ↦ rw e (
          record { buffered = sound; fed = fed; cursor = total },
          all
              (finished
                ∷ complete peel.local_symbols (length peel.local_symbols + peel.remote_total) trips
                ∷ [])
              refl,
        )
        | inr e ↦ rw e (
          record { buffered = sound; fed = fed; cursor = total },
          all (request_more d.next_index ∷ []) refl,
        )
      ]

  after_batch-Kept :
      (r : Receiving R) (d : Drained) (cs : List RibltCodedSymbol)
      → InOrder r
      → IsDrained at r.next_index d
      → d.batch ≡ cs
      → Kept r
          (after_peel R d (process_batch_blocking R r.decoder cs r.stored_remote) r.round_trips)
  unfolding process_batch_blocking
  after_batch-Kept r d cs g h e =
      let grown = process_batch_blocking_lem R r.decoder cs in
      let fed : Fed (R.try_decode (add_coded_symbols R cs r.decoder)) d.next_index =
        batch cs g.fed (rw e at h.batch_eq) (rw e at h.next_index_eq) in
      rw g.cursor (
        peeled-Kept r d _
          (process_batch_blocking R r.decoder cs (length (R.remote_symbols r.decoder))).1
          r.round_trips h.sound fed grown.0 grown.1)

  on_burst-Kept :
      (burst : List (ℕ × List RibltCodedSymbol)) (r : Receiving R)
      → All (IsSound at) burst
      → InOrder r
      → Kept r (on_burst R burst r)
  unfolding on_burst
  on_burst-Kept burst r s g =
      let reorder = insert_burst burst r.reorder in
      let start : Drained = record { next_index = r.next_index; batch = []; reorder = reorder } in
      let d = drain (length reorder) start in
      let h : IsDrained at r.next_index d =
        drain-IsDrained at (length reorder) r.next_index start (record {
          next_index_eq = omega arith;
          batch_eq = refl;
          sound = insert_burst-IsSound at burst r.reorder s g.buffered;
        }) in
      elim (List-cases d.batch) [
        | inl e ↦
            let same : d.next_index ≡ r.next_index = omega (arith, h.next_index_eq, ap length e) in
            rw (e, on_burst)
              (
                record { buffered = h.sound; fed = rw same g.fed; cursor = g.cursor },
                sym (append-nil (R.remote_symbols r.decoder)),
              )
        | inr (c, cs, e) ↦ rw (e, on_burst) (after_batch-Kept r d (c ∷ cs) g h e)
      ]

  run_receiver-Kept :
      (bursts : List (List (ℕ × List RibltCodedSymbol))) (r : Receiving R)
      → All (All (IsSound at)) bursts
      → InOrder r
      → Kept r (run_receiver R bursts r)
  unfolding run_receiver
  run_receiver-Kept [] r s g = (g, sym (append-nil (R.remote_symbols r.decoder)))
  run_receiver-Kept (burst ∷ bursts) r s g =
      let turn = on_burst R burst r in
      let h = on_burst-Kept burst r s.0 g in
      let rest = run_receiver-Kept bursts turn.0 s.1 h.0 in
      elim (Bool-cases turn.2) [
        | inl e ↦ rw e h
        | inr e ↦ rw e (
          rest.0,
          rest.1
              ∙ ap (λ ss. ss ++ delivered (run_receiver R bursts turn.0).1) h.1
              ∙ append_assoc (R.remote_symbols r.decoder) (delivered turn.1) _
              ∙ ap (λ ss. R.remote_symbols r.decoder ++ ss) (sym (delivered-append turn.1 _)),
        )
      ]

  -- When every batch that comes holds the peer's symbols at its index, then whatever the order,
  -- the repeats and the gaps, the decoder has been fed exactly the peer's first `next_index`
  -- symbols in order, and the host has been handed each symbol that it decoded once, in order.
  pub run_receiver_lem :
      (bursts : List (List (ℕ × List RibltCodedSymbol)))
      → All (All (IsSound at)) bursts
      → R.remote_symbols seeded ≡ []
      → let t = run_receiver R bursts (start_receiving R seeded) in
        Fed t.0.decoder t.0.next_index × (delivered t.1 ≡ R.remote_symbols t.0.decoder)
  unfolding start_receiving
  run_receiver_lem bursts s fresh =
      let k =
        run_receiver-Kept bursts (start_receiving R seeded) s
          (record { buffered = tt; fed = seed; cursor = sym (ap length fresh) }) in
      (
        k.0.fed,
        sym (
            k.1
            ∙ ap (λ ss. ss ++ delivered (run_receiver R bursts (start_receiving R seeded)).1)
                fresh),
      )
