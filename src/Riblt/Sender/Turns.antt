-- ===== src/Riblt/Sender/Turns.antt =====
-- What one turn of the sender may be.
use leopard.Prelude.{
  ◌<◌, ℕ, zero, suc, ◌+◌, ◌-◌, ◌/◌, ◌≤◌, ◌⊎◌, min, max, ◌≡◌, refl, ap, Option, none, some, Text,
  leb, length, arith, Bool-cases, Option-cases, inl, inr,
}
use leopard.Riblt.Decoder.{RatelessIblt}
use leopard.Riblt.Sender.Window.{lt_of_leb}
use leopard.Riblt.Sender.{
  SendingState, RibltStreamEngine, window_of, next_coded_symbols, Turn, stop, wait, send_symbols,
  send_batch, sender_turn,
}

module _ (E : RatelessIblt) where
  open E use {Encoder}

  -- How many symbols may be on the way: a quarter of those sent, at least 64 and at most 4096.
  abbrev pub allowed : ℕ → ℕ
  allowed sent = max 64 (min (sent / 4) 4096)

  -- What a turn may be, given the session it finds.
  abbrev pub Expected : ℕ → Option (SendingState E) → ℕ × Turn → Type 0
  Expected sent none (sent', stop) = sent' ≡ sent
  Expected sent none (sent', wait) = ⊥
  Expected sent none (sent', send_symbols session start symbols) = ⊥
  Expected sent (some status) (sent', stop) = ⊥
  Expected sent (some status) (sent', wait) = (allowed sent ≤ sent - status.acked) × (sent' ≡ sent)
  Expected sent (some status) (sent', send_symbols session start symbols) =
      (sent - status.acked < allowed sent)
      × (0 < length symbols)
      × (start ≡ sent)
      × (sent' ≡ sent + length symbols)
      × (session ≡ status.session_id)
      × (sent - status.acked + length symbols ≤ allowed sent)
      × ((length symbols ≡ 30)
          ⊎ ((length symbols < 30) × (sent - status.acked + length symbols ≡ allowed sent)))

  length-next_coded_symbols : (n : ℕ) (i : Encoder) → length (next_coded_symbols E n i).0 ≡ n
  unfolding next_coded_symbols
  length-next_coded_symbols zero i = refl
  length-next_coded_symbols (suc n) i =
      ap suc (length-next_coded_symbols n (E.next_coded_symbol i).1)

  -- A batch of the size that `send_batch` chooses is of 30, or of fewer and fills the window.
  full_or_last :
      (w f : ℕ) → f < w → (min (w - f) 30 ≡ 30) ⊎ ((min (w - f) 30 < 30) × (f + min (w - f) 30 ≡ w))
  full_or_last w f h = elim (Bool-cases (leb 30 (w - f))) [
    | inl e ↦ inl (ground (arith, e))
    | inr e ↦ let small = lt_of_leb 30 (w - f) e in inr (omega (arith, small), omega (arith, small))
  ]

  -- A turn stops exactly where the session is gone, and waits exactly where as many symbols are on
  -- the way as are allowed: a quarter of those sent, at least 64 and at most 4096. Else it sends 30
  -- symbols of the session from the index `sent` on, or fewer, which then are all that is allowed.
  pub sender_turn_lem :
      (neighbor : Text) (sent : ℕ) (e : RibltStreamEngine E)
      → let t = sender_turn E neighbor sent e in
        Expected sent (e.sending_states neighbor) (t.1, t.2)
  unfolding sender_turn send_batch window_of
  sender_turn_lem neighbor sent e = elim (Option-cases (e.sending_states neighbor)) [
    | inl f ↦ rw (f, sender_turn) refl
    | inr (status, f) ↦
        let F = sent - status.acked in
        let W = window_of sent in
        elim (Bool-cases (leb W F)) [
          | inl g ↦ rw (f, sender_turn, g) (ground (arith, g), refl)
          | inr g ↦
              let size = length-next_coded_symbols (min (W - F) 30) status.local_iblt in
              let room = lt_of_leb W F g in
              rw (f, sender_turn, g, size)
                (
                  room,
                  omega (arith, room),
                  refl,
                  refl,
                  refl,
                  omega (arith, room),
                  full_or_last W F room,
                )
        ]
  ]
