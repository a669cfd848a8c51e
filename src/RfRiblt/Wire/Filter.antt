-- ===== src/RfRiblt/Wire/Filter.antt =====
-- The bytes of a ribbon filter, read back: its rows, its header, and the filter that a node builds from
-- its keys.
use leopard.Prelude.{
  ℕ, suc, ◌+◌, ◌*◌, ◌/◌, ◌^◌, ◌<◌, ◌≤◌, ◌≡◌, false, refl, sym, ap, ◌∙◌, none, some, inr, List, [],
  ◌∷◌, ◌++◌, Text, length, length-append, ltb, ◌==◌, if◌then◌else◌, arith,
}
use mathlib.Core.Path.{subst}
use leopard.Prelude.Lists.{All}
use leopard.Ribbon.Params.{
  Params, Mode, standard, homogeneous, validate, fingerprint_words, with_seed,
}
use leopard.Ribbon.Params.{new as new_params}
use leopard.Ribbon.Filter.{RibbonFilter, new}
use leopard.RfRiblt.Wire.{
  to_le_bytes, pack_row, pack_rows, mode_byte, filter_bytes, read_u64, unpack_row, unpack_rows,
  read_body, reconstruct_filter_from_bytes,
}
use leopard.RfRiblt.Wire.RoundTrip.{
  WordsFit, unpack-pack_row, length-pack_row, length-WordsFit, read_u64-append, length-to_le_bytes,
}

abbrev pub RowsFit : ℕ → List (List ℕ) → Type 0
RowsFit r = All (WordsFit r)

unpack_rows-more :
    (r m : ℕ) (bytes row rest : Text) (rows : List (List ℕ))
    → unpack_row ((r + 63) / 64) r bytes ≡ some (row, rest)
    → unpack_rows r m rest ≡ some rows
    → unpack_rows r (suc m) bytes ≡ some (row ∷ rows)
unfolding unpack_rows
unpack_rows-more r m bytes row rest rows e h = rw (unpack_rows, e, h)

unpack-pack_rows :
    (r : ℕ) (z : List (List ℕ)) → RowsFit r z → unpack_rows r (length z) (pack_rows r z) ≡ some z
unfolding unpack_rows pack_rows
unpack-pack_rows r [] f = refl
unpack-pack_rows r (row ∷ z) f =
    unpack_rows-more r (length z) (pack_row r row ++ pack_rows r z) row (pack_rows r z) z
      (ap (λ n. unpack_row n r (pack_row r row ++ pack_rows r z)) (sym (length-WordsFit row r f.0))
        ∙ unpack-pack_row row r (pack_rows r z) f.0)
      (unpack-pack_rows r z f.1)

length-pack_rows :
    (r : ℕ) (z : List (List ℕ)) → RowsFit r z → length (pack_rows r z) ≡ length z * ((r + 7) / 8)
unfolding pack_rows
length-pack_rows r [] f = omega arith
length-pack_rows r (row ∷ z) f =
    length-append (pack_row r row) (pack_rows r z)
    ∙ omega (arith, length-pack_row row r f.0, length-pack_rows r z f.1)

-- A filter as `Params::new` and a construction make it, in numbers of 64 bits.
pub record IsSent (f : RibbonFilter) : Type 0 where
  pub valid : validate f.params ≡ none
  pub retry_one : f.params.retry_limit ≡ 1
  pub grow_none : f.params.grow_limit ≡ 0
  pub stride : f.stride_words ≡ fingerprint_words f.params
  pub size : length f.z ≡ f.params.m
  pub rows : RowsFit f.params.r f.z
  pub m_lt : f.params.m < 2 ^ 64
  pub w_lt : f.params.w < 2 ^ 64
  pub r_lt : f.params.r < 2 ^ 64
  pub seed_lt : f.params.seed < 2 ^ 64
  pub packed_lt : f.params.m * ((f.params.r + 7) / 8) < 2 ^ 64

new_params-valid :
    (p : Params)
    → validate p ≡ none
    → p.retry_limit ≡ 1
    → p.grow_limit ≡ 0
    → (q : Params) × (new_params p.m p.w p.r p.mode ≡ inr q) × (with_seed p.seed q ≡ p)
unfolding new_params validate
new_params-valid p v a b =
    (record p { seed = 0; retry_limit = 1; grow_limit = 0 }, ground arith, ground arith)

read_packed :
    (m w r seed mode_of packed_len : ℕ) (bytes packed : Text) (z : List (List ℕ)) (q : Params)
    → read_u64 bytes ≡ some (packed_len, packed)
    → ltb (length packed) packed_len ≡ false
    → unpack_rows r m packed ≡ some z
    → new_params m w r (if mode_of == 0 then standard else homogeneous) ≡ inr q
    → read_body m w r seed (mode_of ∷ bytes) ≡ some (new (with_seed seed q) z)
unfolding read_body
read_packed m w r seed mode_of packed_len bytes packed z q a b c d = rw (read_body, a, b, c, d)

read_header :
    (m w r seed : ℕ) (bytes b1 b2 b3 b4 : Text)
    → ltb (length bytes) (8 * 4 + 1 + 8) ≡ false
    → read_u64 bytes ≡ some (m, b1)
    → read_u64 b1 ≡ some (w, b2)
    → read_u64 b2 ≡ some (r, b3)
    → read_u64 b3 ≡ some (seed, b4)
    → reconstruct_filter_from_bytes bytes ≡ read_body m w r seed b4
unfolding reconstruct_filter_from_bytes
read_header m w r seed bytes b1 b2 b3 b4 long a b c d = rw (long, a, b, c, d)

mode_byte_back : (mode : Mode) → (if mode_byte mode == 0 then standard else homogeneous) ≡ mode
mode_byte_back standard = refl
mode_byte_back homogeneous = refl

module _ (f : RibbonFilter) (s : IsSent f) where
  abbrev packed : Text
  packed = pack_rows f.params.r f.z

  abbrev packed_len : ℕ
  packed_len = f.params.m * ((f.params.r + 7) / 8)

  read_body-filter :
      read_body f.params.m f.params.w f.params.r f.params.seed
        (mode_byte f.params.mode ∷ (to_le_bytes 8 packed_len ++ packed))
      ≡ some f
  unfolding new
  read_body-filter =
      let q = new_params-valid f.params s.valid s.retry_one s.grow_none in
      let l =
        length-pack_rows f.params.r f.z s.rows ∙ ap (λ n. n * ((f.params.r + 7) / 8)) s.size in
      let whole : ltb (length packed) packed_len ≡ false = ground (arith, l) in
      let rows : unpack_rows f.params.r f.params.m packed ≡ some f.z =
        subst (λ n. unpack_rows f.params.r n packed ≡ some f.z) s.size
          (unpack-pack_rows f.params.r f.z s.rows) in
      let mode = ap (new_params f.params.m f.params.w f.params.r) (mode_byte_back f.params.mode) in
      read_packed f.params.m f.params.w f.params.r f.params.seed (mode_byte f.params.mode)
        packed_len (to_le_bytes 8 packed_len ++ packed) packed f.z q.0
        (read_u64-append packed_len packed s.packed_lt) whole rows (mode ∙ q.1)
      ∙ ap (λ p. some (new p f.z)) q.2
      ∙ ap (λ t. some (record f { stride_words = t })) (sym s.stride)

  header_long :
      (body : Text)
      → 9 ≤ length body
      → ltb
          (length (
            to_le_bytes 8 f.params.m
            ++ (to_le_bytes 8 f.params.w
                ++ (to_le_bytes 8 f.params.r ++ (to_le_bytes 8 f.params.seed ++ body)))))
          (8 * 4 + 1 + 8)
        ≡ false
  header_long body h =
      let b3 = to_le_bytes 8 f.params.seed ++ body in
      let b2 = to_le_bytes 8 f.params.r ++ b3 in
      let b1 = to_le_bytes 8 f.params.w ++ b2 in
      ground (
        arith,
        length-append (to_le_bytes 8 f.params.m) b1,
        length-append (to_le_bytes 8 f.params.w) b2,
        length-append (to_le_bytes 8 f.params.r) b3,
        length-append (to_le_bytes 8 f.params.seed) body,
        length-to_le_bytes 8 f.params.m,
        length-to_le_bytes 8 f.params.w,
        length-to_le_bytes 8 f.params.r,
        length-to_le_bytes 8 f.params.seed,
      )

  -- The bytes of a filter that is well formed and was built with no retries are read back as the filter,
  -- parameters and all.
  pub reconstruct-filter_bytes : reconstruct_filter_from_bytes (filter_bytes f) ≡ some f
  unfolding filter_bytes
  reconstruct-filter_bytes =
      let body = mode_byte f.params.mode ∷ (to_le_bytes 8 packed_len ++ packed) in
      let long : 9 ≤ length body =
        omega (
          arith,
          length-append (to_le_bytes 8 packed_len) packed,
          length-to_le_bytes 8 packed_len,
        ) in
      read_header f.params.m f.params.w f.params.r f.params.seed _ _ _ _ body
        (header_long body long) (read_u64-append f.params.m _ s.m_lt)
        (read_u64-append f.params.w _ s.w_lt) (read_u64-append f.params.r _ s.r_lt)
        (read_u64-append f.params.seed body s.seed_lt)
      ∙ read_body-filter
