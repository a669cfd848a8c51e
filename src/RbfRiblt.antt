-- ===== src/RbfRiblt.antt =====
-- reconciliation/src/rbf_riblt, its first phase: one node sends Bloom filters of its keys, packed into
-- bytes, and the other puts aside the keys that a filter rules out, until few of them are new. `hash`
-- is `hash_with_seed`, and the sizes in bits, a quotient by ln 2, are arguments. A message's encoding by
-- rkyv is left out, with its type and protocol id.
pub mod Negatives
pub mod Stops
pub mod Packing
use leopard.Prelude.{
  ℕ, zero, suc, ◌+◌, ◌-◌, ◌*◌, ◌%◌, ◌^◌, Bool, true, false, Option, none, some, List, [], ◌∷◌, ◌++◌,
  map, length, Text, text_eq, ltb, leb, if◌then◌else◌,
}
use Prim.Native.Nat.{bit_or}
use mathlib.Core.Option
use leopard.Prelude.Lists.{chunks}
use leopard.Bloom.{BloomFilter, contains, from_raw_parts_with_seeds, from_raw_bits, insert_each}
use leopard.RfRiblt.Handlers.{partition}

abbrev pub bloom_hashes : ℕ
bloom_hashes = 1

abbrev pub bloom_c_elem : ℕ
bloom_c_elem = 32

abbrev pub bloom_send_window : ℕ
bloom_send_window = 1

pub record BloomSendingState : Type 0 where
  pub session_id : Text
  pub next_slice_index : ℕ
  pub m_bits : ℕ
  pub acked : ℕ

abbrev pub new_sending : Text → ℕ → BloomSendingState
new_sending session_id m_bits = record {
  session_id = session_id;
  next_slice_index = 0;
  m_bits = m_bits;
  acked = 0;
}

pub record BloomReceivingState : Type 0 where
  pub session_id : Text
  pub m_bits : ℕ
  pub s_com : List Text
  pub s_tn : List Text
  pub riblt_started : Bool
  pub slices_received : ℕ

-- The state at the first slice of a session: every key of the storage may be common.
abbrev pub new_receiving : Text → ℕ → List Text → BloomReceivingState
new_receiving session_id m_bits keys = record {
  session_id = session_id;
  m_bits = m_bits;
  s_com = keys;
  s_tn = [];
  riblt_started = false;
  slices_received = 0;
}

abbrev pub should_stop_slicing : ℕ → BloomReceivingState → Bool
should_stop_slicing new_true_negatives st = ltb (new_true_negatives * bloom_c_elem) st.m_bits

-- An acknowledgement of the neighbour's session.
unfoldable pub on_bloom_slice_ack : Text → ℕ → BloomSendingState → BloomSendingState
on_bloom_slice_ack session_id processed_count s =
    if text_eq s.session_id session_id
    then record s { acked = if ltb s.acked processed_count then processed_count else s.acked }
    else s

-- The bits of one byte, from the place `i` on: `byte | (1 << i)` where the bit is set.
unfoldable pub fold_byte : ℕ → ℕ → List Bool → ℕ
fold_byte i byte [] = byte
fold_byte i byte (b ∷ bs) = fold_byte (suc i) (if b then bit_or byte (2 ^ i) else byte) bs

unfoldable pub pack_bits : List Bool → List ℕ
unfolding fold_byte
pack_bits bits = map (fold_byte 0 0) (chunks 8 bits)

pub record RbfRibltBloomFilterSliceMessage : Type 0 where
  pub session_id : Text
  pub slice_index : ℕ
  pub m : ℕ
  pub k : ℕ
  pub seeds : ℕ × ℕ
  pub bits : List ℕ

module _ (hash : ℕ → Text → ℕ) where
  -- The filter of a slice; none is the failed assertion of a size of zero.
  unfoldable pub slice : ℕ → ℕ → List Text → Option BloomFilter
  slice m_bits slice_index keys =
      Option.map (insert_each hash keys)
        (from_raw_parts_with_seeds m_bits bloom_hashes (slice_index, (slice_index + 1) % 2 ^ 64))

  -- `send_next_bloom_slice`, the message and the state after it.
  unfoldable pub send_next_bloom_slice :
      List Text → BloomSendingState → Option (BloomSendingState × RbfRibltBloomFilterSliceMessage)
  send_next_bloom_slice keys s =
      Option.map
        (λ (f : BloomFilter). (
          record s { next_slice_index = s.next_slice_index + 1 },
          record {
            session_id = s.session_id;
            slice_index = s.next_slice_index;
            m = s.m_bits;
            k = bloom_hashes;
            seeds = f.seeds;
            bits = pack_bits f.base;
          },
        ))
        (slice s.m_bits s.next_slice_index keys)

  -- A turn of `stream_fixed_slices_to_neighbor` where the session is there: the state after it, and the
  -- slice that is sent, unless the window is full.
  unfoldable pub slice_turn :
      List Text
      → BloomSendingState
      → Option (BloomSendingState × Option RbfRibltBloomFilterSliceMessage)
  slice_turn keys s =
      if leb bloom_send_window (s.next_slice_index - s.acked)
      then some (s, none)
      else Option.map (λ (r : BloomSendingState × RbfRibltBloomFilterSliceMessage). (r.0, some r.1))
          (send_next_bloom_slice keys s)

  -- The state after a slice, and whether it was the last one needed.
  unfoldable pub partition_into_state :
      BloomFilter → BloomReceivingState → BloomReceivingState × Bool
  partition_into_state filter st =
      let parts = partition (λ key. contains hash key filter) st.s_com in
      (
        record st {
          s_com = parts.0;
          s_tn = st.s_tn ++ parts.1;
          slices_received = st.slices_received + 1;
        },
        should_stop_slicing (length parts.1) st,
      )

  -- The slices of a session in the order in which they come, and for each whether it stopped the slicing.
  unfoldable pub receive_slices :
      List RbfRibltBloomFilterSliceMessage → BloomReceivingState → BloomReceivingState × List Bool
  receive_slices [] st = (st, [])
  receive_slices (msg ∷ msgs) st =
      let head = partition_into_state (from_raw_bits msg.m msg.k msg.bits msg.seeds) st in
      let rest = receive_slices msgs head.0 in (rest.0, head.1 ∷ rest.1)
