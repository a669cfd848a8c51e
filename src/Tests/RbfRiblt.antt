-- ===== src/Tests/RbfRiblt.antt =====
-- Slices of two keys, received by a node with three.
use leopard.Prelude.{
  ℕ, ◌+◌, ◌*◌, ◌≡◌, ◌||◌, ◌&&◌, refl, true, false, some, List, [], ◌∷◌, Text, codes, arith,
}
use leopard.Prelude.{contains as has_key}
use leopard.Prelude.Lists.{chunks, chunks_fuel}
use leopard.Bloom.{insert_each, insert, set_loop, set, from_raw_parts_with_seeds}
use leopard.RbfRiblt.{
  receive_slices, new_receiving, slice, new_sending, RbfRibltBloomFilterSliceMessage,
  send_next_bloom_slice, pack_bits, fold_byte,
}
use leopard.RbfRiblt.Negatives.{receive_slices-negatives}
use leopard.RbfRiblt.Stops.{receive_slices-stop, any_stop}

abbrev text_hash : ℕ → Text → ℕ
text_hash seed [] = seed + 5
text_hash seed (b ∷ bs) = b + 31 * text_hash seed bs

abbrev their_keys : List Text
their_keys = codes "b" ∷ codes "c" ∷ []

abbrev our_keys : List Text
our_keys = codes "a" ∷ codes "b" ∷ codes "d" ∷ []

abbrev first_slice : RbfRibltBloomFilterSliceMessage
first_slice = record {
  session_id = codes "s";
  slice_index = 0;
  m = 13;
  k = 1;
  seeds = (0, 1);
  bits = 192 ∷ 0 ∷ [];
}

first_sent :
    send_next_bloom_slice text_hash their_keys (new_sending (codes "s") 13)
    ≡ some (record (new_sending (codes "s") 13) { next_slice_index = 1 }, first_slice)
unfolding send_next_bloom_slice slice from_raw_parts_with_seeds insert_each insert set_loop set
    pack_bits fold_byte chunks chunks_fuel
first_sent = refl

receive_slices-negatives_example :
    let st =
      (receive_slices text_hash (first_slice ∷ []) (new_receiving (codes "s") 13 our_keys)).0 in
    ((has_key (codes "b") st.s_com || has_key (codes "b") st.s_tn) ≡ true)
    × ((has_key (codes "b") st.s_tn && true) ≡ false)
receive_slices-negatives_example =
    receive_slices-negatives text_hash their_keys (first_slice ∷ []) (codes "s") 13 our_keys
      (codes "b")
      (
        (
          new_sending (codes "s") 13,
          record (new_sending (codes "s") 13) { next_slice_index = 1 },
          first_sent,
        ),
        tt,
      )

receive_slices-stop_example :
    any_stop
      (receive_slices text_hash (first_slice ∷ []) (new_receiving (codes "s") 100 our_keys)).1
    ≡ true
receive_slices-stop_example =
    receive_slices-stop text_hash (first_slice ∷ []) (codes "s") 100 our_keys (omega arith)
