-- ===== src/Riblt/Receiver.antt =====
-- reconciliation/src/riblt_core/stream.rs: `run_receiver`, the decode task of one session. A burst
-- is what one `recv` and the `try_recv`s after it take off the channel. What the task tells the
-- peer and the host is a list of events, in order; times are left out.
pub mod Batches
pub mod InOrder
pub mod Run
use leopard.Prelude.{
  ℕ, zero, suc, ◌+◌, Bool, true, false, Option, none, some, List, [], ◌∷◌, ◌++◌, length, ◌==◌,
  if◌then◌else◌,
}
use leopard.Riblt.Symbols.{RibltSymbol, RibltCodedSymbol}
use leopard.Riblt.Decoder.{DecoderOps}
use leopard.Riblt.Session.{IbltPeelResult, process_batch_blocking}

-- `reorder: BTreeMap<u64, Vec<RIBLTCodedSymbol>>`, of which only `insert` and `remove` are used.
abbrev pub Reorder : Type 0
Reorder = List (ℕ × List RibltCodedSymbol)

unfoldable pub reorder_insert : ℕ → List RibltCodedSymbol → Reorder → Reorder
reorder_insert s v [] = (s, v) ∷ []
reorder_insert s v ((t, u) ∷ r) = if s == t then (s, v) ∷ r else (t, u) ∷ reorder_insert s v r

unfoldable pub reorder_remove : ℕ → Reorder → Option (List RibltCodedSymbol × Reorder)
reorder_remove s [] = none
reorder_remove s ((t, u) ∷ r) =
    let rest = reorder_remove s r in
    if s == t then some (u, r) else elim rest [ some x ↦ some (x.0, (t, u) ∷ x.1) | none ↦ none ]

unfoldable pub insert_burst : List (ℕ × List RibltCodedSymbol) → Reorder → Reorder
insert_burst [] r = r
insert_burst ((s, v) ∷ burst) r = insert_burst burst (reorder_insert s v r)

pub record Drained : Type 0 where
  pub next_index : ℕ
  pub batch : List RibltCodedSymbol
  pub reorder : Reorder

-- `while let Some(chunk) = reorder.remove(&next_index)`: each turn takes an entry out, so the
-- number of entries is fuel enough.
unfoldable pub drain : ℕ → Drained → Drained
drain zero d = d
drain (suc f) d = elim (reorder_remove d.next_index d.reorder) [
  | none ↦ d
  | some x ↦
      drain f
        (record { next_index = d.next_index + length x.0; batch = d.batch ++ x.0; reorder = x.1 })
]

pub data Event : Type 0 where
  remote_found : List RibltSymbol → Event
  finished : Event
  complete : List RibltSymbol → ℕ → ℕ → Event
  request_more : ℕ → Event

abbrev pub tell_remote : List RibltSymbol → List Event
tell_remote [] = []
tell_remote (s ∷ symbols) = remote_found (s ∷ symbols) ∷ []

module _ (R : DecoderOps) where
  open R use {Decoder}

  pub record Receiving : Type 0 where
    pub decoder : Decoder
    pub stored_remote : ℕ
    pub reorder : Reorder
    pub next_index : ℕ
    pub round_trips : ℕ

  unfoldable pub start_receiving : Decoder → Receiving
  start_receiving seeded = record {
    decoder = seeded;
    stored_remote = 0;
    reorder = [];
    next_index = 0;
    round_trips = 1;
  }

  -- What follows the peeling of a batch: the events, and whether the task ends.
  unfoldable pub after_peel : Drained → Decoder × IbltPeelResult → ℕ → Receiving × List Event × Bool
  after_peel d (decoder, peel) trips =
      let told = tell_remote peel.remote_symbols in
      if peel.successful
      then (
        record {
          decoder = decoder;
          stored_remote = peel.remote_total;
          reorder = d.reorder;
          next_index = d.next_index;
          round_trips = trips;
        },
        told
            ++ finished
              ∷ complete peel.local_symbols (length peel.local_symbols + peel.remote_total) trips
              ∷ [],
        true,
      )
      else (
        record {
          decoder = decoder;
          stored_remote = peel.remote_total;
          reorder = d.reorder;
          next_index = d.next_index;
          round_trips = trips + 1;
        },
        told ++ request_more d.next_index ∷ [],
        false,
      )

  -- One turn of the outer loop.
  unfoldable pub on_burst :
      List (ℕ × List RibltCodedSymbol) → Receiving → Receiving × List Event × Bool
  on_burst burst r =
      let reorder = insert_burst burst r.reorder in
      let d =
        drain (length reorder)
          (record { next_index = r.next_index; batch = []; reorder = reorder }) in
      elim d.batch [
        | [] ↦ (record r { reorder = d.reorder; next_index = d.next_index }, [], false)
        | c ∷ cs ↦
            after_peel d (process_batch_blocking R r.decoder (c ∷ cs) r.stored_remote) r.round_trips
      ]

  -- The loop, over the bursts until the channel closes or the peeling is done.
  unfoldable pub run_receiver :
      List (List (ℕ × List RibltCodedSymbol)) → Receiving → Receiving × List Event × Bool
  run_receiver [] r = (r, [], false)
  run_receiver (burst ∷ bursts) r =
      let turn = on_burst burst r in
      let rest = run_receiver bursts turn.0 in
      if turn.2 then turn else (rest.0, turn.1 ++ rest.1, rest.2)
