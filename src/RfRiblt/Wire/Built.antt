-- ===== src/RfRiblt/Wire/Built.antt =====
-- The bytes of the filter that a node builds from its keys, read back by the neighbour.
use Prim.Native.Nat.{bit_and}
use leopard.Prelude.{
  ℕ, suc, ◌-◌, ◌^◌, ◌<◌, ◌≡◌, max, true, refl, sym, ap, none, some, inr, List, [], ◌∷◌, Text,
  length, arith,
}
use mathlib.Core.Path.{subst}
use leopard.Prelude.Words
use leopard.Prelude.Lists.{All}
use leopard.Ribbon.Params.{Params, homogeneous, validate, with_seed, from_expected_items}
use leopard.Ribbon.Hashing.{mask_last, derive_attempt_seed}
use leopard.Ribbon.Filter.{RibbonFilter, contains, z_row}
use leopard.Ribbon.Builder.{build}
use leopard.Ribbon.Rows.{IsRow}
use leopard.Ribbon.Members.{Made}
use leopard.Ribbon.Total.{build-first, first_params}
use leopard.RfRiblt.Wire.{
  build_filter_bytes, filter_bytes, reconstruct_filter_from_bytes, rf_ribbon_width,
  rf_fingerprint_bits,
}
use leopard.RfRiblt.Wire.RoundTrip.{WordsFit}
use leopard.RfRiblt.Wire.Filter.{RowsFit, IsSent, reconstruct-filter_bytes}

-- A row of one word within eight bits.
row-WordsFit : (row : List ℕ) → IsRow 1 8 row → WordsFit 8 row
unfolding mask_last
row-WordsFit [] r = absurd (omega (arith, r.size))
row-WordsFit (word ∷ []) r =
    let kept : bit_and word (2 ^ 8 - 1) ≡ word = ap first r.masked in
    (omega arith, omega (arith, Words.bit_and_mask 8 word, kept), refl)
  where
    first : List ℕ → ℕ
    first [] = 0
    first (x ∷ xs) = x
row-WordsFit (word ∷ other ∷ row) r = absurd (omega (arith, r.size))

rows-RowsFit : (z : List (List ℕ)) → ((r : ℕ) → r < length z → IsRow 1 8 (z_row z r)) → RowsFit 8 z
rows-RowsFit [] h = tt
rows-RowsFit (row ∷ z) h =
    (row-WordsFit row (h 0 (omega arith)), rows-RowsFit z (λ r p. h (suc r) (omega arith)))

derive_attempt_seed-lt : (s i : ℕ) → derive_attempt_seed s i < 2 ^ 64
unfolding derive_attempt_seed
derive_attempt_seed-lt s i = omega arith

-- The parameters that a node sizes for its keys.
sized : (ℕ → ℕ) → ℕ → Params
sized scaled n = record {
  m = max (scaled n) 64;
  w = 64;
  r = 8;
  mode = homogeneous;
  seed = 0;
  retry_limit = 1;
  grow_limit = 0;
}

sized-valid : (scaled : ℕ → ℕ) (n seed : ℕ) → validate (with_seed seed (sized scaled n)) ≡ none
unfolding sized validate
sized-valid scaled n seed = ground arith

from_expected_items-sized :
    (scaled : ℕ → ℕ) (n : ℕ)
    → 0 < n
    → from_expected_items scaled n rf_ribbon_width rf_fingerprint_bits homogeneous
      ≡ inr (sized scaled n)
unfolding from_expected_items sized validate
from_expected_items-sized scaled n h = ground arith

module _ (hash_one : Text → ℕ) (scaled : ℕ → ℕ) (ribbon_seed : ℕ) (keys : List Text) where
  abbrev seeded : Params
  seeded = with_seed ribbon_seed (sized scaled (max (length keys) 1))

  built-IsSent :
      (f : RibbonFilter)
      → scaled (max (length keys) 1) < 2 ^ 64
      → Made hash_one (first_params hash_one seeded keys) keys f
      → IsSent f
  unfolding sized
  built-IsSent f h made =
      let p = first_params hash_one seeded keys in
      let fit : IsSent (record f { params = p }) = record {
        valid = sized-valid scaled (max (length keys) 1) (derive_attempt_seed ribbon_seed 0);
        retry_one = refl;
        grow_none = refl;
        stride = made.stride;
        size = made.size;
        rows = rows-RowsFit f.z (λ r q. made.rows r (omega (arith, made.size)));
        m_lt = omega arith;
        w_lt = omega arith;
        r_lt = omega arith;
        seed_lt = derive_attempt_seed-lt ribbon_seed 0;
        packed_lt = omega arith;
      } in
      subst (λ q. IsSent (record f { params = q })) (sym made.params) fit

  build_filter_bytes-built :
      (f : RibbonFilter)
      → build hash_one seeded keys ≡ some (inr f)
      → build_filter_bytes hash_one scaled ribbon_seed keys ≡ some (filter_bytes f, ribbon_seed)
  unfolding build_filter_bytes
  build_filter_bytes-built f e =
      rw (
        from_expected_items-sized scaled (max (length keys) 1) (omega arith),
        build_filter_bytes,
        e,
      )

  -- A node that sizes its filter below 2 ^ 64 rows always gets bytes to send; the neighbour reads them
  -- back as a filter, and that contains each of the node's keys.
  pub build_filter_bytes_lem :
      scaled (max (length keys) 1) < 2 ^ 64
      → (bytes : Text) × (f : RibbonFilter) × (build_filter_bytes hash_one scaled ribbon_seed keys
          ≡ some (bytes, ribbon_seed))
        × (reconstruct_filter_from_bytes bytes ≡ some f)
        × All (λ key. contains hash_one key f ≡ true) keys
  unfolding sized
  build_filter_bytes_lem h =
      let built =
        build-first hash_one seeded keys (sized-valid scaled (max (length keys) 1) ribbon_seed)
          refl in
      (
        filter_bytes built.0,
        built.0,
        build_filter_bytes-built built.0 built.1,
        reconstruct-filter_bytes built.0 (built-IsSent built.0 h built.2),
        built.2.found,
      )
