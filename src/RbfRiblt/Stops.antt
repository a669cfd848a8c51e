-- ===== src/RbfRiblt/Stops.antt =====
-- rbf_riblt/mod.rs, `should_stop_slicing`: how many slices a session takes.
use leopard.Prelude.{
  ℕ, suc, ◌+◌, ◌*◌, ◌<◌, ◌≤◌, ◌≡◌, inl, inr, refl, Bool, true, false, List, [], ◌∷◌, length, Text,
  ltb, arith, Bool-cases, if◌then◌else◌,
}
use leopard.Bloom.{contains, from_raw_bits}
use leopard.RfRiblt.Handlers.{partition}
use leopard.RbfRiblt.{
  BloomReceivingState, partition_into_state, receive_slices, new_receiving, should_stop_slicing,
  RbfRibltBloomFilterSliceMessage,
}

pub length-partition :
    (test : Text → Bool) (ks : List Text)
    → length (partition test ks).0 + length (partition test ks).1 ≡ length ks
unfolding partition
length-partition test [] = refl
length-partition test (k ∷ ks) = ground (arith, length-partition test ks)

-- Whether one of the slices stopped the slicing.
abbrev pub any_stop : List Bool → Bool
any_stop [] = false
any_stop (stopped ∷ rest) = if stopped then true else any_stop rest

not_stopped :
    (b : Bool) (rest : List Bool)
    → any_stop (b ∷ rest) ≡ false
    → (b ≡ false) × (any_stop rest ≡ false)
not_stopped true rest h = ground arith
not_stopped false rest h = (refl, h)

ltb-not : (a b : ℕ) → ltb a b ≡ false → b ≤ a
ltb-not a b h = ground arith

suc-mul : (n m : ℕ) → suc n * m ≡ m + n * m
suc-mul n m = omega arith

module _ (hash : ℕ → Text → ℕ) where
  -- Each slice that does not stop the slicing puts `m_bits / 32` keys aside.
  pays :
      (msgs : List RbfRibltBloomFilterSliceMessage) (st : BloomReceivingState)
      → any_stop (receive_slices hash msgs st).1 ≡ false
      → length msgs * st.m_bits ≤ 32 * length st.s_com
  unfolding receive_slices partition_into_state
  pays [] st h = omega arith
  pays (msg ∷ msgs) st h =
      let parts =
        partition (λ key. contains hash key (from_raw_bits msg.m msg.k msg.bits msg.seeds))
          st.s_com in
      let all =
        length-partition (λ key. contains hash key (from_raw_bits msg.m msg.k msg.bits msg.seeds))
          st.s_com in
      let no =
        not_stopped (should_stop_slicing (length parts.1) st)
          (receive_slices hash msgs
            (partition_into_state hash (from_raw_bits msg.m msg.k msg.bits msg.seeds) st).0).1
          h in
      let enough : st.m_bits ≤ length parts.1 * 32 = ltb-not (length parts.1 * 32) st.m_bits no.0 in
      let rest =
        pays msgs (partition_into_state hash (from_raw_bits msg.m msg.k msg.bits msg.seeds) st).0
          no.1 in
      let more : suc (length msgs) * st.m_bits ≡ st.m_bits + length msgs * st.m_bits =
        suc-mul (length msgs) st.m_bits in
      omega (arith, all, enough, rest, more)

  -- A session starts with the node's keys. Where its slices cost more bits than 32 for each key, one of
  -- them has stopped the slicing.
  pub receive_slices-stop :
      (msgs : List RbfRibltBloomFilterSliceMessage) (session : Text) (m_bits : ℕ) (keys : List Text)
      → 32 * length keys < length msgs * m_bits
      → any_stop (receive_slices hash msgs (new_receiving session m_bits keys)).1 ≡ true
  receive_slices-stop msgs session m_bits keys h =
      elim (Bool-cases
        (any_stop (receive_slices hash msgs (new_receiving session m_bits keys)).1)) [
          | inl e ↦ e
          | inr e ↦ absurd (omega (arith, pays msgs (new_receiving session m_bits keys) e))
        ]
