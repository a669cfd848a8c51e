-- ===== src/RfRiblt/Protocol.antt =====
-- reconciliation/src/rf_riblt/mod.rs, messages.rs and the state of receiver.rs: what a node keeps for each
-- neighbour, and the messages. A neighbour is its address as a string, a `HashMap` or `HashSet` over
-- neighbours a function; the times of the rounds are left out. The default storage is there,
-- and a coded symbol is read at an index of the encoder. `hash_one`
-- is the `DefaultHasher` on a key, `hash_pairs` on `hash_storage_pairs`' argument, and `scaled` the
-- floating-point sizing of a filter.
use leopard.Prelude.{
  ℕ, Bool, true, false, ◌||◌, Option, none, some, List, [], ◌∷◌, map, Text, if◌then◌else◌,
}
use mathlib.Core.Option
use Prim.Native.Nat.Ordering.{lt, eq, gt}
use leopard.Prelude.Bytes.{cmp}
use leopard.State.Dash.{DashMap}
use leopard.State.Storage.{DefaultDataStateItem, KeyValueDataStateStorage, items}
use leopard.Riblt.Symbols.{RibltCodedSymbol}
use leopard.Riblt.Decoder.{DecoderOps, RatelessIblt}
use leopard.Riblt.Sender.{put}

-- The libraries that a node uses.
pub record Libraries : Type 1 where
  pub D : DashMap
  pub L : Type 0
  pub R : DecoderOps
  pub E : RatelessIblt
  pub get_coded_symbol : ℕ → RatelessIblt.Encoder E → RibltCodedSymbol × RatelessIblt.Encoder E
  pub hash_one : Text → ℕ
  pub hash_pairs : List (Text × Text) → ℕ
  pub scaled : ℕ → ℕ

pub data SComReconciliationState : Type 0 where
  sending_symbols : SComReconciliationState
  awaiting_confirmation : SComReconciliationState

pub record RfFilterReceivingState : Type 0 where
  pub session_id : Text
  pub s_com : List Text
  pub s_tn : List Text
  pub riblt_started : Bool

abbrev pub new_receiving : Text → RfFilterReceivingState
new_receiving session_id = record {
  session_id = session_id;
  s_com = [];
  s_tn = [];
  riblt_started = false;
}

pub record RfRibltFetchedEntry : Type 0 where
  pub key : Text
  pub value : Text

-- The messages that a handler reads, each with its session first.
pub data RfRibltMessage : Type 0 where
  handshake : Text → ℕ → Text → RfRibltMessage
  filter_chunk : Text → ℕ → Text → RfRibltMessage
  filter_done : Text → RfRibltMessage
  s_com_send_symbol : Text → List RibltCodedSymbol → RfRibltMessage
  s_com_decoded_all : Text → List Text → RfRibltMessage
  s_com_request_more_symbols : Text → RfRibltMessage
  value_fetch_request : Text → List Text → RfRibltMessage
  value_fetch_response : Text → List RfRibltFetchedEntry → RfRibltMessage

-- What a handler sends, in order.
abbrev pub Sent : Type 0
Sent = List (Text × RfRibltMessage)

module _ (W : Libraries) where
  open W use {D, L, R, E, hash_pairs}

  pub record SComSendingState : Type 0 where
    pub state : SComReconciliationState
    pub local_iblt : E.Encoder
    pub session_id : Text

  pub record SComReceivingState : Type 0 where
    pub decoder : R.Decoder
    pub session_id : Text

  pub record RfRibltProtocol : Type 0 where
    pub storage : KeyValueDataStateStorage D L
    pub filter_receiving_states : Text → Option RfFilterReceivingState
    pub scom_sending_states : Text → Option SComSendingState
    pub scom_receiving_states : Text → Option SComReceivingState
    pub pending_value_fetch_sessions : Text → Option Text
    pub last_reconciled_fingerprint : Text → Option ℕ
    pub reconciliation_initiated_with : Text → Option (Unit {0})
    pub captured_stn : Text → Option (List Text)

  unfoldable pub new : KeyValueDataStateStorage D L → RfRibltProtocol
  new storage = record {
    storage = storage;
    filter_receiving_states = λ n. none;
    scom_sending_states = λ n. none;
    scom_receiving_states = λ n. none;
    pending_value_fetch_sessions = λ n. none;
    last_reconciled_fingerprint = λ n. none;
    reconciliation_initiated_with = λ n. none;
    captured_stn = λ n. none;
  }

-- `contains_key`
abbrev pub is_some {ℓ} : {A : Type ℓ} → Option A → Bool
is_some none = false
is_some (some a) = true

module _ (W : Libraries) where
  open W use {D, L, R, E, hash_pairs}

  unfoldable pub is_session_active : Text → RfRibltProtocol W → Bool
  is_session_active neighbor p =
      is_some (p.filter_receiving_states neighbor)
      || is_some (p.scom_sending_states neighbor)
      || is_some (p.scom_receiving_states neighbor)
      || is_some (p.pending_value_fetch_sessions neighbor)

  unfoldable pub is_session_busy : Text → RfRibltProtocol W → Bool
  is_session_busy neighbor p =
      is_some (p.scom_sending_states neighbor)
      || is_some (p.scom_receiving_states neighbor)
      || is_some (p.pending_value_fetch_sessions neighbor)
      || Option.get_or
          (Option.map (λ (s : RfFilterReceivingState). s.riblt_started)
            (p.filter_receiving_states neighbor))
          false

  unfoldable pub clear_session_state : Text → RfRibltProtocol W → RfRibltProtocol W
  clear_session_state neighbor p = record p {
    pending_value_fetch_sessions = put neighbor none p.pending_value_fetch_sessions;
    scom_sending_states = put neighbor none p.scom_sending_states;
    scom_receiving_states = put neighbor none p.scom_receiving_states;
    filter_receiving_states = put neighbor none p.filter_receiving_states;
    captured_stn = put neighbor none p.captured_stn;
    reconciliation_initiated_with = put neighbor none p.reconciliation_initiated_with;
  }

-- `a.0.cmp(&b.0).then(a.1.cmp(&b.1))`, when the first pair is not the greater.
abbrev pub pair_le : Text × Text → Text × Text → Bool
pair_le a b = elim (cmp a.0 b.0) [
  | lt ↦ true
  | gt ↦ false
  | eq ↦ elim (cmp a.1 b.1) [ gt ↦ false | _ ↦ true ]
]

unfoldable pub insert_pair : Text × Text → List (Text × Text) → List (Text × Text)
unfolding cmp
insert_pair a [] = a ∷ []
insert_pair a (b ∷ bs) = let rest = insert_pair a bs in if pair_le a b then a ∷ b ∷ bs else b ∷ rest

-- `sort_unstable_by`: equal pairs cannot be told apart.
unfoldable pub sort_pairs : List (Text × Text) → List (Text × Text)
unfolding insert_pair
sort_pairs [] = []
sort_pairs (a ∷ as') = insert_pair a (sort_pairs as')

module _ (W : Libraries) where
  open W use {D, L, hash_pairs}

  unfoldable pub compute_local_fingerprint : RfRibltProtocol W → ℕ
  unfolding sort_pairs
  compute_local_fingerprint p =
      hash_pairs
        (sort_pairs (map (λ (i : DefaultDataStateItem). (i.key, i.value)) (items D L p.storage)))

  unfoldable pub update_last_reconciled_fingerprint : Text → RfRibltProtocol W → RfRibltProtocol W
  unfolding compute_local_fingerprint
  update_last_reconciled_fingerprint neighbor p = record p {
    last_reconciled_fingerprint =
        put neighbor (some (compute_local_fingerprint p)) p.last_reconciled_fingerprint;
  }
