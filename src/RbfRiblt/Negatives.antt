-- ===== src/RbfRiblt/Negatives.antt =====
-- rbf_riblt/receiver.rs, `partition_into_state`: the keys that are put aside.
use leopard.Prelude.{
  ℕ, max, ◌+◌, ◌<◌, ◌≡◌, ◌||◌, ◌&&◌, ◌%◌, ◌^◌, ltb, if◌then◌else◌, inl, inr, refl, sym, ap, ap₂,
  Bool, true, false, Option, none, some, List, [], ◌∷◌, length, replicate, Text, text_eq,
  text_eq_iff, arith, Bool-cases, contains-append, ◌∙◌, All, length-replicate,
}
use leopard.Prelude.{contains as has_key}
use leopard.Bloom.{
  BloomFilter, contains, insert_each, from_raw_parts_with_seeds, from_raw_bits, read_bits,
}
use mathlib.Core.Option
use mathlib.Core.Path.{subst}
use leopard.Bloom.Laws.{insert_each_lem, insert_each_shape}
use leopard.RbfRiblt.Packing.{read_bits-pack_bits}
use leopard.RfRiblt.Handlers.{partition}
use leopard.RbfRiblt.{
  BloomReceivingState, partition_into_state, receive_slices, new_receiving, slice,
  BloomSendingState, RbfRibltBloomFilterSliceMessage, send_next_bloom_slice, pack_bits,
  bloom_hashes,
}

All-has_key : (P : Text → Type 0) (k : Text) (ks : List Text) → All P ks → has_key k ks ≡ true → P k
All-has_key P k [] h e = ground arith
All-has_key P k (x ∷ xs) h e = elim (Bool-cases (text_eq x k)) [
  | inl same ↦ let x_is_k = (text_eq_iff x k).0 same in rw (← x_is_k) h.0
  | inr other ↦ All-has_key P k xs h.1 (ground arith)
]

has_key-partition :
    (test : Text → Bool) (ks : List Text) (k : Text)
    → (has_key k (partition test ks).0 || has_key k (partition test ks).1) ≡ has_key k ks
unfolding partition
has_key-partition test [] k = refl
has_key-partition test (x ∷ xs) k = ground (arith, has_key-partition test xs k)

-- A key that passes the test is not among those that do not.
partition-passed :
    (test : Text → Bool) (ks : List Text) (k : Text)
    → test k ≡ true
    → has_key k (partition test ks).1 ≡ false
unfolding partition
partition-passed test [] k h = refl
partition-passed test (x ∷ xs) k h = grind (arith, partition-passed test xs k h, text_eq_iff x k)

-- A result that is mapped comes from a result.
of_map :
    {A B : Type 0} (make : A → B) (o : Option A) (y : B)
    → Option.map make o ≡ some y
    → (x : A) × (o ≡ some x) × (make x ≡ y)
of_map make none y h = cc
of_map make (some x) y h = (x, refl, cc)

of_asserted :
    {A : Type 0} (b : Bool) (g f : A) → (if b then some g else none) ≡ some f → (b ≡ true) × (g ≡ f)
of_asserted true g f h = (refl, cc)
of_asserted false g f h = cc

-- The filter that the receiver makes of a message.
abbrev filter_of : RbfRibltBloomFilterSliceMessage → BloomFilter
filter_of msg = from_raw_bits msg.m msg.k msg.bits msg.seeds

-- A filter of one hash comes back from its bits.
from_raw_bits-pack_bits :
    (m : ℕ) (f : BloomFilter)
    → length f.base ≡ m
    → f.hashes ≡ bloom_hashes
    → from_raw_bits m bloom_hashes (pack_bits f.base) f.seeds ≡ f
unfolding from_raw_bits
from_raw_bits-pack_bits m f size one =
    ap₂ (λ b h. record { base = b; seeds = f.seeds; hashes = h })
      (ap (λ n. read_bits n (pack_bits f.base)) (sym size) ∙ read_bits-pack_bits f.base) (sym one)

module _ (hash : ℕ → Text → ℕ) (theirs : List Text) where
  -- A message that the neighbour sends of its keys, whatever its state is.
  abbrev pub IsSlice : RbfRibltBloomFilterSliceMessage → Type 0
  IsSlice msg =
      (before : BloomSendingState) × (after : BloomSendingState) × (send_next_bloom_slice hash
          theirs before
        ≡ some (after, msg))

  slice-contains :
      (msg : RbfRibltBloomFilterSliceMessage)
      → IsSlice msg
      → All (λ k. contains hash k (filter_of msg) ≡ true) theirs
  unfolding send_next_bloom_slice slice from_raw_parts_with_seeds
  slice-contains msg s =
      let m = s.0.m_bits in
      let i = s.0.next_slice_index in
      let empty : BloomFilter = record {
        base = replicate (max m 1) false;
        seeds = (i, (i + 1) % 2 ^ 64);
        hashes = 1;
      } in
      let made = of_map _ (slice hash m i theirs) (s.1, msg) s.2 in
      let raw =
        of_map (insert_each hash theirs) (from_raw_parts_with_seeds m 1 (i, (i + 1) % 2 ^ 64))
          made.0 made.1 in
      let checked = of_asserted (ltb 0 m && ltb 0 1) empty raw.0 raw.1 in
      let from_empty : insert_each hash theirs empty ≡ made.0 =
        ap (insert_each hash theirs) checked.1 ∙ raw.2 in
      let shape = insert_each_shape hash theirs empty in
      let size : length made.0.base ≡ m =
        ap (λ (f : BloomFilter). length f.base) (sym from_empty)
        ∙ shape.0
        ∙ length-replicate (max m 1) false
        ∙ ground (arith, checked.0) in
      let one : made.0.hashes ≡ 1 = ap (λ (f : BloomFilter). f.hashes) (sym from_empty) ∙ shape.1 in
      let back : made.0 ≡ filter_of msg =
        sym (from_raw_bits-pack_bits m made.0 size one)
        ∙ ap (λ (r : BloomSendingState × RbfRibltBloomFilterSliceMessage). filter_of r.1) made.2 in
      let some_bit : 0 < length empty.base = omega (arith, length-replicate (max m 1) false) in
      subst (λ f. All (λ k. contains hash k f ≡ true) theirs) (from_empty ∙ back)
        (insert_each_lem hash theirs empty some_bit).0

  kept_apart :
      (msgs : List RbfRibltBloomFilterSliceMessage) (st : BloomReceivingState) (k : Text)
      → All IsSlice msgs
      → ((has_key k (receive_slices hash msgs st).0.s_com
            || has_key k (receive_slices hash msgs st).0.s_tn)
          ≡ (has_key k st.s_com || has_key k st.s_tn))
        × (has_key k theirs ≡ true
            → has_key k st.s_tn ≡ false
            → has_key k (receive_slices hash msgs st).0.s_tn ≡ false)
  unfolding receive_slices partition_into_state
  kept_apart [] st k h = (refl, λ a b. b)
  kept_apart (msg ∷ msgs) st k h =
      let test : Text → Bool = λ key. contains hash key (filter_of msg) in
      let parts = partition test st.s_com in
      let rest = kept_apart msgs (partition_into_state hash (filter_of msg) st).0 k h.1 in
      let both = contains-append k st.s_tn parts.1 in
      (
        rest.0 ∙ ground (arith, has_key-partition test st.s_com k, both),
        λ a b. rest.1 a (
            both
            ∙ ground (
              arith,
              b,
              partition-passed test st.s_com k (
                  All-has_key (λ k. contains hash k (filter_of msg) ≡ true) k theirs
                    (slice-contains msg h.0) a),
            )),
      )

  -- After any slices that a neighbour sends of its keys, packed into bytes and read back, whatever the
  -- state of its session at each, each of the node's keys is still common or put aside, and no key is put
  -- aside that the neighbour has.
  pub receive_slices-negatives :
      (msgs : List RbfRibltBloomFilterSliceMessage) (session : Text) (m_bits : ℕ) (keys : List Text)
      (k : Text)
      → All IsSlice msgs
      → let st = (receive_slices hash msgs (new_receiving session m_bits keys)).0 in
        ((has_key k st.s_com || has_key k st.s_tn) ≡ has_key k keys)
        × ((has_key k st.s_tn && has_key k theirs) ≡ false)
  receive_slices-negatives msgs session m_bits keys k h =
      let all = kept_apart msgs (new_receiving session m_bits keys) k h in
      (ground (arith, all.0), ground (arith, all.1))
