-- ===== src/Ribbon/Params.antt =====
-- reconciliation/src/algorithms/ribbon/params.rs and error.rs: the parameters, their validation and
-- the errors. The constructor that sizes a filter by a floating-point overhead takes that product as a
-- parameter, for an overhead in range; the two errors on rates out of range are left out.
use leopard.Prelude.{
  max, ◌⊎◌, inl, inr, ℕ, ◌+◌, ◌-◌, ◌/◌, ◌%◌, ◌^◌, Bool, true, false, Option, none, some, ltb, ◌==◌,
  if◌then◌else◌,
}

pub data Mode : Type 0 where
  standard : Mode
  homogeneous : Mode

abbrev pub is_homogeneous : Mode → Bool
is_homogeneous standard = false
is_homogeneous homogeneous = true

pub record Params : Type 0 where
  pub m : ℕ
  pub w : ℕ
  pub r : ℕ
  pub mode : Mode
  pub seed : ℕ
  pub retry_limit : ℕ
  pub grow_limit : ℕ

pub data ParamError : Type 0 where
  zero_m : ParamError
  zero_n : ParamError
  zero_width : ParamError
  width_too_large : ℕ → ℕ → ParamError
  zero_fingerprint_bits : ParamError
  zero_retry_limit : ParamError
  width_exceeds_m : ℕ → ℕ → ParamError

-- A key's index where there is one, the row, and the number of rows.
pub data ConstructionFailure : Type 0 where
  inconsistent_equation : ℕ → ℕ → ConstructionFailure
  out_of_bounds : Option ℕ → ℕ → ℕ → ConstructionFailure

-- The last number of rows, the attempts and the last failure.
pub data BuildError : Type 0 where
  invalid_params : ParamError → BuildError
  construction_failed : ℕ → ℕ → ConstructionFailure → BuildError

abbrev pub max_w : ℕ
max_w = 128

-- None is `Ok(())`.
unfoldable pub validate : Params → Option ParamError
validate p =
    if p.m == 0
    then some zero_m
    else if p.w == 0
    then some zero_width
    else if ltb max_w p.w
    then some (width_too_large p.w max_w)
    else if p.r == 0
    then some zero_fingerprint_bits
    else if p.retry_limit == 0
    then some zero_retry_limit
    else if ltb p.m p.w
    then some (width_exceeds_m p.m p.w)
    else none

-- `r.div_ceil(64)`
abbrev pub fingerprint_words : Params → ℕ
fingerprint_words p = (p.r + 63) / 64

abbrev pub mask_bits : Params → ℕ
mask_bits p = if p.r % 64 == 0 then 64 else p.r % 64

abbrev pub fingerprint_last_word_mask : Params → ℕ
fingerprint_last_word_mask p = 2 ^ mask_bits p - 1

unfoldable pub new : ℕ → ℕ → ℕ → Mode → ParamError ⊎ Params
unfolding validate
new m w r mode =
    let params : Params = record {
      m = m;
      w = w;
      r = r;
      mode = mode;
      seed = 0;
      retry_limit = 1;
      grow_limit = 0;
    } in
    elim (validate params) [ some error ↦ inl error | none ↦ inr params ]

abbrev pub with_seed : ℕ → Params → Params
with_seed seed p = record p { seed = seed }

-- `scaled n` stands for `((n as f64) * (1.0 + overhead)).ceil() as usize`, for an overhead in range.
unfoldable pub from_expected_items : (ℕ → ℕ) → ℕ → ℕ → ℕ → Mode → ParamError ⊎ Params
unfolding new
from_expected_items scaled n w r mode =
    if n == 0 then inl zero_n else new (max (scaled n) w) w r mode
