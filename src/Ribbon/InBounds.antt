-- ===== src/Ribbon/InBounds.antt =====
-- builder.rs, the elimination with valid parameters: no equation leaves the rows, and in the homogeneous
-- mode none contradicts the others.
use Prim.Native.Nat.{bit_xor}
use leopard.Prelude.{
  ℕ, zero, suc, ◌+◌, ◌-◌, ◌<◌, ◌≡◌, true, false, refl, sym, ◌∙◌, List, [], ◌∷◌, length,
  length-set_at, Option, none, some, ◌⊎◌, inl, inr, Bool-cases, Option-cases, arith, if◌then◌else◌,
  ◌==◌, ◌&&◌, leb,
}
use mathlib.Core.Path.{subst}
use leopard.Prelude.Words
use leopard.Ribbon.Params.{
  Params, ConstructionFailure, inconsistent_equation, out_of_bounds, fingerprint_words, mask_bits,
  is_homogeneous,
}
use leopard.Ribbon.Hashing.{xor_words}
use leopard.Ribbon.Builder.{Slot, slot_at, place, shifted, shift_of, all_zero}
use leopard.Ribbon.Place.{IsSlot, AllSlots, AllSlots-set_at, Reduced-IsSlot, differences}
use leopard.Ribbon.Elimination.{place-free, place-implied, place-move}
use leopard.Ribbon.Bounds.{Fits, Fits-bit_xor, shifted-Fits}

all_zero-xor_words :
    (a b : List ℕ) → all_zero a ≡ true → all_zero b ≡ true → all_zero (xor_words a b) ≡ true
unfolding xor_words
all_zero-xor_words [] b h g = refl
all_zero-xor_words (x ∷ a) [] h g = h
all_zero-xor_words (x ∷ a) (y ∷ b) h g =
    let ex : x ≡ 0 = ground arith in
    let ey : y ≡ 0 = ground arith in
    rw (ex, ey) (all_zero-xor_words a b (ground arith) (ground arith))

module _ (p : Params) where
  -- An equation at row `i` that ends within the rows, with nothing on the right in the homogeneous mode.
  pub record Sound (e : Slot) (i : ℕ) : Type 0 where
    pub slot : IsSlot (fingerprint_words p) (mask_bits p) e
    pub fits : Fits (p.m - i) e.coeff_lo e.coeff_hi
    pub nothing : is_homogeneous p.mode ≡ true → all_zero e.rhs ≡ true

  abbrev pub InBounds : Option (ConstructionFailure ⊎ List (Option Slot)) → Type 0
  InBounds none = ⊥
  InBounds (some (inl (inconsistent_equation key_index row))) = is_homogeneous p.mode ≡ false
  InBounds (some (inl (out_of_bounds key_index row m))) = ⊥
  InBounds (some (inr slots)) = (length slots ≡ p.m) × AllSlots Sound slots

  module _ (key_index : ℕ) (slots : List (Option Slot)) (l : length slots ≡ p.m)
      (all : AllSlots Sound slots) where
    implied-InBounds :
        (i : ℕ) (e o : Slot)
        → Sound e i
        → Sound o i
        → InBounds (
            some (
              if all_zero (xor_words e.rhs o.rhs)
              then inr slots
              else inl (inconsistent_equation key_index i)))
    implied-InBounds i e o s t = elim (Bool-cases (all_zero (xor_words e.rhs o.rhs))) [
      | inl b ↦ rw b (l, all)
      | inr b ↦ rw b (elim (Bool-cases (is_homogeneous p.mode)) [
        | inl h ↦
            let clash = sym b ∙ all_zero-xor_words e.rhs o.rhs (s.nothing h) (t.nothing h) in
            cc clash
        | inr h ↦ h
      ])
    ]

    pub place-InBounds :
        (fuel i : ℕ) (e : Slot)
        → p.m < fuel + i
        → i < p.m
        → Sound e i
        → InBounds (place fuel key_index p.m slots i e)
    place-InBounds zero i e f h s = absurd (omega arith)
    place-InBounds (suc fuel) i e f h s = elim (Option-cases (slot_at slots i)) [
      | inl free ↦
          subst InBounds (sym (place-free fuel key_index p.m i slots e free)) (
            length-set_at i (some e) slots ∙ l,
            AllSlots-set_at Sound i e slots (omega arith) s all,
          )
      | inr (o, taken) ↦
          let t = all i o taken in
          let c_lo = bit_xor e.coeff_lo o.coeff_lo in
          let c_hi = bit_xor e.coeff_hi o.coeff_hi in
          elim (Bool-cases (c_lo == 0 && c_hi == 0)) [
            | inl same ↦
                subst InBounds (sym (place-implied fuel key_index p.m i slots e o taken same))
                  (implied-InBounds i e o s t)
            | inr other ↦
                let r = differences (fingerprint_words p) (mask_bits p) e o s.slot t.slot other in
                let shift = shift_of c_lo c_hi in
                let c = shifted shift c_lo c_hi in
                let fit =
                  shifted-Fits (p.m - i) c_lo c_hi
                    (Words.bit_xor_lt 64 e.coeff_lo o.coeff_lo s.slot.lo_lt t.slot.lo_lt)
                    (Words.bit_xor_lt 64 e.coeff_hi o.coeff_hi s.slot.hi_lt t.slot.hi_lt)
                    (Fits-bit_xor (p.m - i) e.coeff_lo e.coeff_hi o.coeff_lo o.coeff_hi s.fits
                      t.fits)
                    (omega
                      (arith, Words.bit_xor_parity e.coeff_lo o.coeff_lo, s.slot.odd, t.slot.odd))
                    other in
                let left : p.m - i - shift ≡ p.m - (i + shift) = omega arith in
                let within : leb p.m (i + shift) ≡ false = ground (arith, fit.0) in
                let e' : Slot = record {
                  coeff_lo = c.0;
                  coeff_hi = c.1;
                  rhs = xor_words e.rhs o.rhs;
                } in
                let s' : Sound e' (i + shift) = record {
                  slot =
                      Reduced-IsSlot (fingerprint_words p) (mask_bits p) e o shift c r s.slot
                        t.slot;
                  fits = subst (λ b. Fits b c.0 c.1) left fit.1;
                  nothing = λ z. all_zero-xor_words e.rhs o.rhs (s.nothing z) (t.nothing z);
                } in
                subst InBounds (sym (place-move fuel key_index p.m i slots e o taken other within))
                  (place-InBounds fuel (i + shift) e' (omega (arith, r.moves))
                    (omega (arith, fit.0)) s')
          ]
    ]
