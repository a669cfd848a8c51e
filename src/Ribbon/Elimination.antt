-- ===== src/Ribbon/Elimination.antt =====
-- builder.rs, the elimination: a solution of the rows after a key satisfies the rows before it and the
-- key's own equation, and one more turn than there are rows is enough.
use Prim.Native.Nat.{bit_xor}
use leopard.Prelude.{
  ℕ, zero, suc, ◌+◌, ◌<◌, ◌≡◌, true, false, sym, ap, ◌∙◌, List, length, set_at, Option, none, some,
  ◌⊎◌, inl, inr, ◌==◌, ◌&&◌, leb, Bool-cases, Option-cases, arith, if◌then◌else◌,
}
use mathlib.Core.Path.{subst}
use leopard.Ribbon.Params.{ConstructionFailure, inconsistent_equation, out_of_bounds}
use leopard.Ribbon.Hashing.{xor_words}
use leopard.Ribbon.Builder.{Slot, slot_at, place, shifted, shift_of, all_zero}
use leopard.Ribbon.SetBits.{dot2}
use leopard.Ribbon.Place.{
  IsSlot, AllSlots, PlaceResult, fill-Placed, skip-Placed, move-Placed, Reduced-IsSlot, differences,
}

-- One turn of the loop, branch by branch.
module _ (fuel key_index m i : ℕ) (slots : List (Option Slot)) (e : Slot) where
  pub place-free :
      slot_at slots i ≡ none
      → place (suc fuel) key_index m slots i e ≡ some (inr (set_at i (some e) slots))
  unfolding place
  place-free free = rw (free, place)

  module _ (o : Slot) (taken : slot_at slots i ≡ some o) where
    pub place-implied :
        (bit_xor e.coeff_lo o.coeff_lo == 0 && bit_xor e.coeff_hi o.coeff_hi == 0) ≡ true
        → place (suc fuel) key_index m slots i e
          ≡ some (
              if all_zero (xor_words e.rhs o.rhs)
              then inr slots
              else inl (inconsistent_equation key_index i))
    unfolding place
    place-implied same = rw (taken, place, same)

    place-past :
        (bit_xor e.coeff_lo o.coeff_lo == 0 && bit_xor e.coeff_hi o.coeff_hi == 0) ≡ false
        → leb m (i + shift_of (bit_xor e.coeff_lo o.coeff_lo) (bit_xor e.coeff_hi o.coeff_hi))
          ≡ true
        → (f : ConstructionFailure) × (place (suc fuel) key_index m slots i e ≡ some (inl f))
    unfolding place
    place-past other past = (
      out_of_bounds (some key_index)
          (i + shift_of (bit_xor e.coeff_lo o.coeff_lo) (bit_xor e.coeff_hi o.coeff_hi)) m,
      rw (taken, place, other, past),
    )

    pub place-move :
        let c_lo = bit_xor e.coeff_lo o.coeff_lo in
        let c_hi = bit_xor e.coeff_hi o.coeff_hi in
        let s = shift_of c_lo c_hi in
        let c = shifted s c_lo c_hi in
        (c_lo == 0 && c_hi == 0) ≡ false
        → leb m (i + s) ≡ false
        → place (suc fuel) key_index m slots i e
          ≡ place fuel key_index m slots
              (i + s)
              (record { coeff_lo = c.0; coeff_hi = c.1; rhs = xor_words e.rhs o.rhs })
    unfolding place
    place-move other within = rw (taken, place, other, within)

module _ (n k key_index m : ℕ) (slots : List (Option Slot))
    (valid : AllSlots (λ o j. IsSlot n k o) slots) where
  move-PlaceResult :
      (i s c_lo c_hi : ℕ) (e o : Slot)
      → slot_at slots i ≡ some o
      → IsSlot n k e
      → ((v : ℕ → ℕ)
          → dot2 v (bit_xor e.coeff_lo o.coeff_lo) (bit_xor e.coeff_hi o.coeff_hi) i
            ≡ dot2 v c_lo c_hi (s + i))
      → (r : Option (ConstructionFailure ⊎ List (Option Slot)))
      → PlaceResult n k slots
          (s + i)
          (record { coeff_lo = c_lo; coeff_hi = c_hi; rhs = xor_words e.rhs o.rhs })
          r
      → PlaceResult n k slots i e r
  move-PlaceResult i s c_lo c_hi e o taken own same none h = h
  move-PlaceResult i s c_lo c_hi e o taken own same (some (inl failure)) h = h
  move-PlaceResult i s c_lo c_hi e o taken own same (some (inr slots')) h =
      move-Placed n k slots i e valid o taken own s c_lo c_hi slots' same h

  implied :
      (fuel i : ℕ) (e o : Slot)
      → slot_at slots i ≡ some o
      → IsSlot n k e
      → (bit_xor e.coeff_lo o.coeff_lo == 0 && bit_xor e.coeff_hi o.coeff_hi == 0) ≡ true
      → PlaceResult n k slots i e (place (suc fuel) key_index m slots i e)
  implied fuel i e o taken own same =
      let out = place-implied fuel key_index m i slots e o taken same in
      let lo : bit_xor e.coeff_lo o.coeff_lo ≡ 0 = ground (arith, same) in
      let hi : bit_xor e.coeff_hi o.coeff_hi ≡ 0 = ground (arith, same) in
      elim (Bool-cases (all_zero (xor_words e.rhs o.rhs))) [
        | inl b ↦
            subst (PlaceResult n k slots i e)
              (sym (
                out
                ∙ ap (λ t. some (if t then inr slots else inl (inconsistent_equation key_index i)))
                    b))
              (skip-Placed n k slots i e valid o taken own lo hi b)
        | inr b ↦
            subst (PlaceResult n k slots i e)
              (sym (
                out
                ∙ ap (λ t. some (if t then inr slots else inl (inconsistent_equation key_index i)))
                    b))
              tt
      ]

  pub place_lem :
      (fuel i : ℕ) (e : Slot)
      → m < fuel + i
      → i < m
      → length slots ≡ m
      → IsSlot n k e
      → PlaceResult n k slots i e (place fuel key_index m slots i e)
  place_lem zero i e f h l own = absurd (omega arith)
  place_lem (suc fuel) i e f h l own = elim (Option-cases (slot_at slots i)) [
    | inl free ↦
        subst (PlaceResult n k slots i e) (sym (place-free fuel key_index m i slots e free))
          (fill-Placed n k slots i e valid free (omega arith) own)
    | inr (o, taken) ↦
        let c_lo = bit_xor e.coeff_lo o.coeff_lo in
        let c_hi = bit_xor e.coeff_hi o.coeff_hi in
        elim (Bool-cases (c_lo == 0 && c_hi == 0)) [
          | inl same ↦ implied fuel i e o taken own same
          | inr other ↦
              let r = differences n k e o own (valid i o taken) other in
              let s = shift_of c_lo c_hi in
              let c = shifted s c_lo c_hi in
              let places : i + s ≡ s + i = omega arith in
              elim (Bool-cases (leb m (i + s))) [
                | inl past ↦
                    let out = place-past fuel key_index m i slots e o taken other past in
                    subst (PlaceResult n k slots i e) (sym out.1) tt
                | inr within ↦
                    let e' : Slot = record {
                      coeff_lo = c.0;
                      coeff_hi = c.1;
                      rhs = xor_words e.rhs o.rhs;
                    } in
                    let inside : i + s < m = ground arith in
                    let own' = Reduced-IsSlot n k e o s c r own (valid i o taken) in
                    let ih = place_lem fuel (i + s) e' (omega (arith, r.moves)) inside l own' in
                    subst (PlaceResult n k slots i e)
                      (sym (place-move fuel key_index m i slots e o taken other within))
                      (move-PlaceResult i s c.0 c.1 e o taken own (λ v. r.same v i)
                        (place fuel key_index m slots (i + s) e')
                        (subst
                          (λ t.
                            PlaceResult n k slots t e' (place fuel key_index m slots (i + s) e'))
                          places ih))
              ]
        ]
  ]
