-- ===== src/Ribbon/Builder.antt =====
-- reconciliation/src/algorithms/ribbon/builder.rs: the elimination, the back substitution and the
-- attempts with growing sizes. The fuel of the elimination is one more than the number of rows, since
-- each turn moves to a later row; without fuel the result is none. Sizes stay far below 2 ^ 64.
use Prim.Native.Nat.{bit_and, bit_or, bit_xor}
use leopard.Prelude.{
  ℕ, zero, suc, ◌+◌, ◌-◌, ◌*◌, ◌/◌, ◌%◌, ◌^◌, Bool, true, false, ◌&&◌, List, [], ◌∷◌, replicate,
  get_elem?, set_at, Option, none, some, ◌⊎◌, inl, inr, ltb, leb, ◌==◌, if◌then◌else◌,
}
use mathlib.Core.Option
use leopard.Ribbon.Params.{
  Params, ConstructionFailure, inconsistent_equation, out_of_bounds, BuildError, invalid_params,
  construction_failed, validate, fingerprint_words, fingerprint_last_word_mask, is_homogeneous,
}
use leopard.Ribbon.Hashing.{
  xor_words, trailing_zeros, for_each_set_bit, derive_attempt_seed, draw, mask_last,
  standard_equation,
}
use leopard.Ribbon.Filter.{RibbonFilter, new, z_row}

-- An occupied entry of the vectors of the elimination.
pub record Slot : Type 0 where
  pub coeff_lo : ℕ
  pub coeff_hi : ℕ
  pub rhs : List ℕ

abbrev pub slot_at : List (Option Slot) → ℕ → Option Slot
slot_at slots i = Option.get_or (get_elem? slots i) none

abbrev pub all_zero : List ℕ → Bool
all_zero [] = true
all_zero (x ∷ xs) = x == 0 && all_zero xs

abbrev pub shift_of : ℕ → ℕ → ℕ
shift_of c_lo c_hi = if c_lo == 0 then 64 + trailing_zeros 64 c_hi else trailing_zeros 64 c_lo

-- `(c_hi:c_lo) >> shift`
unfoldable pub shifted : ℕ → ℕ → ℕ → ℕ × ℕ
shifted shift c_lo c_hi =
    if leb 64 shift
    then (c_hi / 2 ^ (shift - 64), 0)
    else if ltb 0 shift
    then (bit_or (c_lo / 2 ^ shift) ((c_hi * 2 ^ (64 - shift)) % 2 ^ 64), c_hi / 2 ^ shift)
    else (c_lo, c_hi)

-- The `loop` for one key, with that much fuel.
unfoldable pub place :
    ℕ → ℕ → ℕ → List (Option Slot) → ℕ → Slot → Option (ConstructionFailure ⊎ List (Option Slot))
place zero key_index m slots i e = none
place (suc fuel) key_index m slots i e = elim (slot_at slots i) [
  | none ↦ some (inr (set_at i (some e) slots))
  | some o ↦
      let c_lo = bit_xor e.coeff_lo o.coeff_lo in
      let c_hi = bit_xor e.coeff_hi o.coeff_hi in
      let b = xor_words e.rhs o.rhs in
      elim (c_lo == 0 && c_hi == 0) [
        | true ↦ some (if all_zero b then inr slots else inl (inconsistent_equation key_index i))
        | false ↦
            let shift = shift_of c_lo c_hi in
            elim (leb m (i + shift)) [
              | true ↦ some (inl (out_of_bounds (some key_index) (i + shift) m))
              | false ↦
                  let c = shifted shift c_lo c_hi in
                  place fuel key_index m slots (i + shift)
                    (record { coeff_lo = c.0; coeff_hi = c.1; rhs = b })
            ]
      ]
]

module _ {ℓ} {K : Type ℓ} (hash_one : K → ℕ) where
  -- The loop over the keys, from the index of the first on.
  unfoldable pub place_each :
      Params → ℕ → List K → List (Option Slot) → Option (ConstructionFailure ⊎ List (Option Slot))
  place_each p key_index [] slots = some (inr slots)
  place_each p key_index (key ∷ keys) slots =
      let eq = standard_equation hash_one key p.seed p in
      elim (leb p.m eq.0.start) [
        | true ↦ some (inl (out_of_bounds (some key_index) eq.0.start p.m))
        | false ↦
            elim (place (suc p.m) key_index p.m slots eq.0.start
              (record { coeff_lo = eq.0.coeff_lo; coeff_hi = eq.0.coeff_hi; rhs = eq.1 })) [
                | none ↦ none
                | some (inl failure) ↦ some (inl failure)
                | some (inr more) ↦ place_each p (suc key_index) keys more
              ]
      ]

-- The rows that the homogeneous mode fills at random; `s` is the generator's state.
unfoldable pub free_rows : Params → List (Option Slot) → ℕ → List (List ℕ)
free_rows p [] s = []
free_rows p (none ∷ slots) s =
    let d = draw (fingerprint_words p) s in
    mask_last (fingerprint_last_word_mask p) d.0 ∷ free_rows p slots d.1
free_rows p (some o ∷ slots) s = replicate (fingerprint_words p) 0 ∷ free_rows p slots s

unfoldable pub initial_rows : Params → List (Option Slot) → List (List ℕ)
initial_rows p slots =
    if is_homogeneous p.mode
    then free_rows p slots (bit_xor p.seed 0xD1B54A32D192ED03)
    else replicate p.m (replicate (fingerprint_words p) 0)

-- The loop over the offsets of row `i`, whose new value is the last argument.
unfoldable pub xor_rows : ℕ → List (List ℕ) → ℕ → List ℕ → List ℕ → ConstructionFailure ⊎ List ℕ
xor_rows m z i [] row = inr row
xor_rows m z i (offset ∷ offsets) row = elim (leb m (i + offset)) [
  | true ↦ inl (out_of_bounds none (i + offset) m)
  | false ↦ xor_rows m z i offsets (xor_words row (z_row z (i + offset)))
]

-- The rows below that index, from the last one down.
unfoldable pub solve :
    Params → ℕ → List (Option Slot) → List (List ℕ) → ConstructionFailure ⊎ List (List ℕ)
solve p zero slots z = inr z
solve p (suc i) slots z = elim (slot_at slots i) [
  | none ↦ solve p i slots z
  | some o ↦
      let upper_lo = bit_and o.coeff_lo (2 ^ 64 - 2) in
      elim (xor_rows p.m z i (for_each_set_bit upper_lo o.coeff_hi) o.rhs) [
        | inl failure ↦ inl failure
        | inr row ↦ solve p i slots (set_at i (mask_last (fingerprint_last_word_mask p) row) z)
      ]
]

-- `(current_m * (w + 1)).div_ceil(w)`
abbrev pub grown : ℕ → ℕ → ℕ
grown w m = ((m * (w + 1) + w) - 1) / w

module _ {ℓ} {K : Type ℓ} (hash_one : K → ℕ) where
  -- `p` is the builder's with the attempt's `m` and `seed`.
  unfoldable pub build_once : Params → List K → Option (ConstructionFailure ⊎ RibbonFilter)
  build_once p keys = elim (place_each hash_one p 0 keys (replicate p.m none)) [
    | none ↦ none
    | some (inl failure) ↦ some (inl failure)
    | some (inr slots) ↦ elim (solve p p.m slots (initial_rows p slots)) [
      | inl failure ↦ some (inl failure)
      | inr z ↦ some (inr (new p z))
    ]
  ]

  abbrev pub attempt_params : Params → ℕ → ℕ → ℕ → Params
  attempt_params p m grow_step retry_step =
      let index = bit_or ((grow_step * 2 ^ 32) % 2 ^ 64) retry_step in
      record p { m = m; seed = derive_attempt_seed p.seed index }

  -- `n` turns of the loop over the retries, from `retry_step` on, with the last failure so far. A
  -- left result is the last failure and the number of attempts.
  unfoldable pub retry_loop :
      Params
      → List K
      → ℕ
      → ℕ
      → ℕ
      → ℕ
      → ℕ × Option ConstructionFailure
      → Option ((ℕ × Option ConstructionFailure) ⊎ RibbonFilter)
  retry_loop p keys m grow_step zero retry_step so_far = some (inl so_far)
  retry_loop p keys m grow_step (suc n) retry_step so_far =
      elim (build_once (attempt_params p m grow_step retry_step) keys) [
        | none ↦ none
        | some (inr filter) ↦ some (inr filter)
        | some (inl failure) ↦ elim (is_homogeneous p.mode) [
          | true ↦ some (inl (suc so_far.0, some failure))
          | false ↦ retry_loop p keys m grow_step n (suc retry_step) (suc so_far.0, some failure)
        ]
      ]

  abbrev pub give_up : ℕ → ℕ × Option ConstructionFailure → BuildError
  give_up m so_far =
      construction_failed m so_far.0 (Option.get_or so_far.1 (inconsistent_equation 0 0))

  -- `n` turns of the loop over the sizes, from `grow_step` on.
  unfoldable pub grow_loop :
      Params
      → List K
      → ℕ
      → ℕ
      → ℕ
      → ℕ × Option ConstructionFailure
      → Option (BuildError ⊎ RibbonFilter)
  grow_loop p keys zero grow_step m so_far = some (inl (give_up m so_far))
  grow_loop p keys (suc n) grow_step m so_far =
      elim (retry_loop p keys m grow_step p.retry_limit 0 so_far) [
        | none ↦ none
        | some (inr filter) ↦ some (inr filter)
        | some (inl failed) ↦ elim (is_homogeneous p.mode) [
          | true ↦ some (inl (give_up m failed))
          | false ↦
              grow_loop p keys n (suc grow_step)
                (if ltb grow_step p.grow_limit then grown p.w m else m) failed
        ]
      ]

  unfoldable pub build : Params → List K → Option (BuildError ⊎ RibbonFilter)
  build p keys = elim (validate p) [
    | some error ↦ some (inl (invalid_params error))
    | none ↦ grow_loop p keys (suc p.grow_limit) 0 p.m (0, none)
  ]
