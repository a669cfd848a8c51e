-- ===== src/Ribbon/Total.antt =====
-- builder.rs with valid parameters: an attempt fails with an inconsistent equation or not at all, and in the
-- homogeneous mode the first attempt succeeds.
use Prim.Native.Nat.{bit_and}
use leopard.Prelude.{
  ℕ, zero, suc, ◌+◌, ◌-◌, ◌^◌, ◌<◌, ◌≤◌, ◌≡◌, true, false, refl, sym, ◌∙◌, List, [], ◌∷◌, length,
  Option, none, some, ◌⊎◌, inl, inr, Option-cases, arith, leb, set_at, replicate, length-replicate,
}
use mathlib.Core.Path.{subst}
use leopard.Prelude.Lists.{All}
use leopard.Ribbon.Params.{
  Params, ConstructionFailure, inconsistent_equation, out_of_bounds, is_homogeneous, validate,
  fingerprint_last_word_mask,
}
use leopard.Ribbon.Hashing.{for_each_set_bit, xor_words, mask_last}
use leopard.Ribbon.Filter.{RibbonFilter, z_row, contains}
use leopard.Ribbon.Builder.{
  Slot, slot_at, xor_rows, solve, place_each, build_once, initial_rows, build, retry_loop,
  attempt_params,
}
use leopard.Ribbon.Place.{AllSlots}
use leopard.Ribbon.Column.{xor_within, clear_lowest}
use leopard.Ribbon.Solve.{solve-done, solve-free, solve-row, summed}
use leopard.Ribbon.Keys.{placed, each-more, each-failed}
use leopard.Ribbon.Equation.{key_slot, key_start}
use leopard.Ribbon.Members.{
  Made, Attempt, build_once-Attempt, each, once-failed, once-solved, slot_at-replicate,
}
use leopard.Ribbon.Attempts.{retry-found, grow-found, build-valid}
use leopard.Ribbon.Bounds.{Fits}
use leopard.Ribbon.InBounds.{Sound, InBounds, place-InBounds}
use leopard.Ribbon.Offsets.{
  IsValidParams, validate-IsValidParams, for_each_set_bit-below, key_start-lt, key_slot-Sound,
}

xor_rows-inr :
    (m : ℕ) (z : List (List ℕ)) (i : ℕ) (os row : List ℕ)
    → i < m
    → All (λ o. o < m - i) os
    → (row' : List ℕ) × (xor_rows m z i os row ≡ inr row')
unfolding xor_rows
xor_rows-inr m z i [] row h a = (row, refl)
xor_rows-inr m z i (o ∷ os) row h a =
    let within : leb m (i + o) ≡ false = ground (arith, a.0) in
    let rest = xor_rows-inr m z i os (xor_words row (z_row z (i + o))) h a.1 in
    (rest.0, xor_within m z i o os row within ∙ rest.1)

module _ (p : Params) (slots : List (Option Slot)) (all : AllSlots (Sound p) slots) where
  summed-inr :
      (i : ℕ) (z : List (List ℕ)) (o : Slot) (taken : slot_at slots i ≡ some o)
      → i < p.m
      → (row : List ℕ) × (summed p slots i z o taken ≡ inr row)
  summed-inr i z o taken h =
      let s = all i o taken in
      let upper = bit_and o.coeff_lo (2 ^ 64 - 2) in
      let upper_le : upper ≤ o.coeff_lo = omega (arith, clear_lowest o.coeff_lo s.slot.lo_lt) in
      let fits : Fits (p.m - i) upper o.coeff_hi = record {
        low = λ a. let l = s.fits.low a in (omega (arith, l.0), l.1);
        high = s.fits.high;
      } in
      xor_rows-inr p.m z i (for_each_set_bit upper o.coeff_hi) o.rhs h (
        for_each_set_bit-below (p.m - i) upper o.coeff_hi (omega (arith, s.slot.lo_lt)) s.slot.hi_lt
          fits)

  solve-inr :
      (i : ℕ) (z : List (List ℕ)) → i ≤ p.m → (z' : List (List ℕ)) × (solve p i slots z ≡ inr z')
  solve-inr zero z h = (z, solve-done p slots z)
  solve-inr (suc i) z h = elim (Option-cases (slot_at slots i)) [
    | inl free ↦
        let rest = solve-inr i z (omega arith) in (rest.0, solve-free p slots i z free ∙ rest.1)
    | inr (o, taken) ↦
        let row = summed-inr i z o taken (omega arith) in
        let rest =
          solve-inr i (set_at i (mask_last (fingerprint_last_word_mask p) row.0) z) (omega arith) in
        (rest.0, solve-row p slots i z o taken row.0 row.1 ∙ rest.1)
  ]

-- What an attempt can end with.
abbrev pub Attempted : Params → Option (ConstructionFailure ⊎ RibbonFilter) → Type 0
Attempted p none = ⊥
Attempted p (some (inl (inconsistent_equation key_index row))) = is_homogeneous p.mode ≡ false
Attempted p (some (inl (out_of_bounds key_index row m))) = ⊥
Attempted p (some (inr filter)) = Unit

module _ {ℓ} {K : Type ℓ} (hash_one : K → ℕ) (p : Params) (valid : IsValidParams p) where
  place_each-InBounds :
      (keys : List K) (key_index : ℕ) (slots : List (Option Slot))
      → length slots ≡ p.m
      → AllSlots (Sound p) slots
      → InBounds p (place_each hash_one p key_index keys slots)
  unfolding place_each
  place_each-InBounds [] key_index slots l all = (l, all)
  place_each-InBounds (key ∷ keys) key_index slots l all =
      let start_lt = key_start-lt hash_one p valid key in
      let within : leb p.m (key_start hash_one p key) ≡ false = ground arith in
      go within (placed hash_one p key_index slots key keys within) refl
        (place-InBounds p key_index slots l all (suc p.m) (key_start hash_one p key)
          (key_slot hash_one p key) (omega arith) start_lt (key_slot-Sound hash_one p valid key))
        (place_each-InBounds keys (suc key_index))
    where
      go :
          (within : leb p.m (key_start hash_one p key) ≡ false)
          → (r : Option (ConstructionFailure ⊎ List (Option Slot)))
          → placed hash_one p key_index slots key keys within ≡ r
          → InBounds p r
          → ((more : List (Option Slot))
              → length more ≡ p.m
              → AllSlots (Sound p) more
              → InBounds p (place_each hash_one p (suc key_index) keys more))
          → InBounds p (place_each hash_one p key_index (key ∷ keys) slots)
      go within none e h ih = absurd h
      go within (some (inl f)) e h ih =
          subst (InBounds p) (sym (each-failed hash_one p key_index slots key keys within f e)) h
      go within (some (inr more)) e h ih =
          subst (InBounds p) (sym (each-more hash_one p key_index slots key keys within more e))
            (ih more h.0 h.1)

  pub build_once-Attempted : (keys : List K) → Attempted p (build_once hash_one p keys)
  build_once-Attempted keys = go (each hash_one p keys) refl (
      place_each-InBounds keys 0 (replicate p.m none) (length-replicate p.m none)
        (λ i o t. let clash : none ≡ some o = sym (slot_at-replicate p.m i) ∙ t in cc clash))
    where
      go :
          (r : Option (ConstructionFailure ⊎ List (Option Slot)))
          → each hash_one p keys ≡ r
          → InBounds p r
          → Attempted p (build_once hash_one p keys)
      go none e h = absurd h
      go (some (inl (inconsistent_equation key_index row))) e h =
          subst (Attempted p)
            (sym (once-failed hash_one p keys (inconsistent_equation key_index row) e)) h
      go (some (inl (out_of_bounds key_index row m))) e h = absurd h
      go (some (inr slots)) e h =
          let z = solve-inr p slots h.1 p.m (initial_rows p slots) (omega arith) in
          subst (Attempted p) (sym (once-solved hash_one p keys slots e z.0 z.1)) tt

module _ {ℓ} {K : Type ℓ} (hash_one : K → ℕ) (p : Params) (keys : List K) where
  first_attempt :
      IsValidParams p
      → is_homogeneous p.mode ≡ true
      → (filter : RibbonFilter) × (build_once hash_one (attempt_params hash_one p p.m 0 0) keys
          ≡ some (inr filter))
  first_attempt valid mode =
      let attempt = attempt_params hash_one p p.m 0 0 in
      let valid' : IsValidParams attempt = record {
        width = valid.width;
        width_le = valid.width_le;
        retries = valid.retries;
      } in
      go (build_once hash_one attempt keys) (build_once-Attempted hash_one attempt valid' keys)
    where
      go :
          (r : Option (ConstructionFailure ⊎ RibbonFilter))
          → Attempted (attempt_params hash_one p p.m 0 0) r
          → (filter : RibbonFilter) × (r ≡ some (inr filter))
      go none h = absurd h
      go (some (inl (inconsistent_equation key_index row))) h = let clash = sym mode ∙ h in cc clash
      go (some (inl (out_of_bounds key_index row m))) h = absurd h
      go (some (inr filter)) h = (filter, refl)

  retried :
      (n : ℕ) (filter : RibbonFilter)
      → 0 < n
      → build_once hash_one (attempt_params hash_one p p.m 0 0) keys ≡ some (inr filter)
      → retry_loop hash_one p keys p.m 0 n 0 (0, none) ≡ some (inr filter)
  retried zero filter h e = absurd (omega arith)
  retried (suc n) filter h e = retry-found hash_one p keys p.m 0 n 0 (0, none) filter e

  -- The attempt's parameters, whose number of rows is the builder's.
  abbrev pub first_params : Params
  first_params = attempt_params hash_one p p.m 0 0

  pub build-first :
      validate p ≡ none
      → is_homogeneous p.mode ≡ true
      → (filter : RibbonFilter) × (build hash_one p keys ≡ some (inr filter))
        × Made hash_one first_params keys filter
  build-first v mode =
      let valid = validate-IsValidParams p v in
      let first = first_attempt valid mode in
      let tries = retried p.retry_limit first.0 valid.retries first.1 in
      (
        first.0,
        build-valid hash_one p keys v
            ∙ grow-found hash_one p keys p.grow_limit 0 p.m (0, none) first.0 tries,
        subst (Attempt hash_one first_params keys) first.1
            (build_once-Attempt hash_one first_params keys),
      )

  -- With valid parameters in the homogeneous mode, whatever the keys and their hashes, the
  -- construction returns a filter, and the filter contains each of the keys.
  pub build_homogeneous :
      validate p ≡ none
      → is_homogeneous p.mode ≡ true
      → (filter : RibbonFilter) × (build hash_one p keys ≡ some (inr filter))
        × All (λ key. contains hash_one key filter ≡ true) keys
  build_homogeneous v mode = let made = build-first v mode in (made.0, made.1, made.2.found)
