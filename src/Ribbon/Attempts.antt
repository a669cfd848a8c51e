-- ===== src/Ribbon/Attempts.antt =====
-- builder.rs, the loops over retries and sizes: what one attempt promises holds of the whole
-- construction.
use leopard.Prelude.{
  ℕ, zero, suc, ◌≡◌, ◌≢◌, true, false, refl, sym, List, Option, none, some, ◌⊎◌, inl, inr,
  Bool-cases, Option-cases, ltb, if◌then◌else◌,
}
use mathlib.Core.Path.{subst}
use leopard.Prelude.Lists.{All}
use leopard.Ribbon.Params.{
  Params, ParamError, ConstructionFailure, is_homogeneous, validate, invalid_params,
}
use leopard.Ribbon.Filter.{RibbonFilter, contains}
use leopard.Ribbon.Builder.{
  build_once, retry_loop, grow_loop, grown, give_up, build, attempt_params,
}
use leopard.Ribbon.Members.{Finds, build_once-Finds}

module _ {ℓ} {K : Type ℓ} (hash_one : K → ℕ) (p : Params) (keys : List K) where
  module _ (m grow_step n retry_step : ℕ) (so_far : ℕ × Option ConstructionFailure) where
    abbrev pub once : Option (ConstructionFailure ⊎ RibbonFilter)
    once = build_once hash_one (attempt_params hash_one p m grow_step retry_step) keys

    pub retry-found :
        (filter : RibbonFilter)
        → once ≡ some (inr filter)
        → retry_loop hash_one p keys m grow_step (suc n) retry_step so_far ≡ some (inr filter)
    unfolding retry_loop
    retry-found filter e = rw (retry_loop, e)

    retry-ended :
        (f : ConstructionFailure)
        → once ≡ some (inl f)
        → is_homogeneous p.mode ≡ true
        → retry_loop hash_one p keys m grow_step (suc n) retry_step so_far
          ≡ some (inl (suc so_far.0, some f))
    unfolding retry_loop
    retry-ended f e h = rw (retry_loop, e, h)

    retry-again :
        (f : ConstructionFailure)
        → once ≡ some (inl f)
        → is_homogeneous p.mode ≡ false
        → retry_loop hash_one p keys m grow_step (suc n) retry_step so_far
          ≡ retry_loop hash_one p keys m grow_step n (suc retry_step) (suc so_far.0, some f)
    unfolding retry_loop
    retry-again f e h = rw (retry_loop, e, h)

  retry_loop-Finds :
      (m grow_step n retry_step : ℕ) (so_far : ℕ × Option ConstructionFailure)
      → Finds hash_one keys (retry_loop hash_one p keys m grow_step n retry_step so_far)
  unfolding retry_loop
  retry_loop-Finds m grow_step zero retry_step so_far = tt
  retry_loop-Finds m grow_step (suc n) retry_step so_far =
      go (once m grow_step n retry_step so_far) refl
        (build_once-Finds hash_one (attempt_params hash_one p m grow_step retry_step) keys)
        (retry_loop-Finds m grow_step n (suc retry_step))
    where
      go :
          (r : Option (ConstructionFailure ⊎ RibbonFilter))
          → once m grow_step n retry_step so_far ≡ r
          → Finds hash_one keys r
          → ((t : ℕ × Option ConstructionFailure)
              → Finds hash_one keys (retry_loop hash_one p keys m grow_step n (suc retry_step) t))
          → Finds hash_one keys (retry_loop hash_one p keys m grow_step (suc n) retry_step so_far)
      go none e h ih = absurd h
      go (some (inr filter)) e h ih =
          subst (Finds hash_one keys) (sym (retry-found m grow_step n retry_step so_far filter e)) h
      go (some (inl f)) e h ih = elim (Bool-cases (is_homogeneous p.mode)) [
        | inl t ↦
            subst (Finds hash_one keys) (sym (retry-ended m grow_step n retry_step so_far f e t)) tt
        | inr t ↦
            subst (Finds hash_one keys) (sym (retry-again m grow_step n retry_step so_far f e t))
              (ih (suc so_far.0, some f))
      ]

  module _ (n grow_step m : ℕ) (so_far : ℕ × Option ConstructionFailure) where
    abbrev pub tries : Option ((ℕ × Option ConstructionFailure) ⊎ RibbonFilter)
    tries = retry_loop hash_one p keys m grow_step p.retry_limit 0 so_far

    pub grow-found :
        (filter : RibbonFilter)
        → tries ≡ some (inr filter)
        → grow_loop hash_one p keys (suc n) grow_step m so_far ≡ some (inr filter)
    unfolding grow_loop
    grow-found filter e = rw (grow_loop, e)

    grow-ended :
        (failed : ℕ × Option ConstructionFailure)
        → tries ≡ some (inl failed)
        → is_homogeneous p.mode ≡ true
        → grow_loop hash_one p keys (suc n) grow_step m so_far
          ≡ some (inl (give_up hash_one m failed))
    unfolding grow_loop
    grow-ended failed e h = rw (grow_loop, e, h)

    grow-again :
        (failed : ℕ × Option ConstructionFailure)
        → tries ≡ some (inl failed)
        → is_homogeneous p.mode ≡ false
        → grow_loop hash_one p keys (suc n) grow_step m so_far
          ≡ grow_loop hash_one p keys n
              (suc grow_step)
              (if ltb grow_step p.grow_limit then grown p.w m else m)
              failed
    unfolding grow_loop
    grow-again failed e h = rw (grow_loop, e, h)

  grow_loop-Finds :
      (n grow_step m : ℕ) (so_far : ℕ × Option ConstructionFailure)
      → Finds hash_one keys (grow_loop hash_one p keys n grow_step m so_far)
  unfolding grow_loop
  grow_loop-Finds zero grow_step m so_far = tt
  grow_loop-Finds (suc n) grow_step m so_far =
      go (tries n grow_step m so_far) refl (retry_loop-Finds m grow_step p.retry_limit 0 so_far)
        (grow_loop-Finds n (suc grow_step) (if ltb grow_step p.grow_limit then grown p.w m else m))
    where
      go :
          (r : Option ((ℕ × Option ConstructionFailure) ⊎ RibbonFilter))
          → tries n grow_step m so_far ≡ r
          → Finds hash_one keys r
          → ((t : ℕ × Option ConstructionFailure)
              → Finds hash_one keys (
                  grow_loop hash_one p keys n
                    (suc grow_step)
                    (if ltb grow_step p.grow_limit then grown p.w m else m)
                    t))
          → Finds hash_one keys (grow_loop hash_one p keys (suc n) grow_step m so_far)
      go none e h ih = absurd h
      go (some (inr filter)) e h ih =
          subst (Finds hash_one keys) (sym (grow-found n grow_step m so_far filter e)) h
      go (some (inl failed)) e h ih = elim (Bool-cases (is_homogeneous p.mode)) [
        | inl t ↦ subst (Finds hash_one keys) (sym (grow-ended n grow_step m so_far failed e t)) tt
        | inr t ↦
            subst (Finds hash_one keys) (sym (grow-again n grow_step m so_far failed e t))
              (ih failed)
      ]

  build-invalid :
      (error : ParamError)
      → validate p ≡ some error
      → build hash_one p keys ≡ some (inl (invalid_params error))
  unfolding build
  build-invalid error e = rw (build, e)

  pub build-valid :
      validate p ≡ none
      → build hash_one p keys ≡ grow_loop hash_one p keys (suc p.grow_limit) 0 p.m (0, none)
  unfolding build
  build-valid e = rw (build, e)

  build-Finds : Finds hash_one keys (build hash_one p keys)
  build-Finds = elim (Option-cases (validate p)) [
    | inl valid ↦
        subst (Finds hash_one keys) (sym (build-valid valid))
          (grow_loop-Finds (suc p.grow_limit) 0 p.m (0, none))
    | inr (error, e) ↦ subst (Finds hash_one keys) (sym (build-invalid error e)) tt
  ]

  -- Whatever the keys, their hashes and the parameters, the construction returns, and if it returns a
  -- filter then that contains each of the keys.
  pub build_lem :
      (build hash_one p keys ≢ none)
      × ((filter : RibbonFilter)
          → build hash_one p keys ≡ some (inr filter)
          → All (λ key. contains hash_one key filter ≡ true) keys)
  build_lem = (
    λ e. subst (Finds hash_one keys) e build-Finds,
    λ filter e. subst (Finds hash_one keys) e build-Finds,
  )
