-- ===== src/Ribbon/Keys.antt =====
-- builder.rs, the loop over the keys: it never runs out of turns, and a solution of the rows that it ends
-- with satisfies the equation of every key.
use leopard.Prelude.{
  ℕ, suc, ◌≡◌, true, false, refl, sym, ◌∙◌, List, [], ◌∷◌, length, Option, none, some, ◌⊎◌, inl,
  inr, leb, Bool-cases, arith,
}
use mathlib.Core.Path.{subst}
use leopard.Prelude.Lists.{All}
use leopard.Ribbon.Params.{Params, ConstructionFailure, out_of_bounds, fingerprint_words, mask_bits}
use leopard.Ribbon.Builder.{Slot, place, place_each}
use leopard.Ribbon.Place.{IsSlot, Holds, AllSlots, Placed, PlaceResult}
use leopard.Ribbon.Elimination.{place_lem}
use leopard.Ribbon.Equation.{key_slot, key_start, key_slot-IsSlot}

module _ {ℓ} {K : Type ℓ} (hash_one : K → ℕ) (p : Params) where
  pub record PlacedEach (slots : List (Option Slot)) (keys : List K) (slots' : List (Option Slot))
      : Type 0 where
    pub size : length slots' ≡ length slots
    pub valid : AllSlots (λ o j. IsSlot (fingerprint_words p) (mask_bits p) o) slots'
    pub old :
        (z : ℕ → ℕ → ℕ)
        → AllSlots (Holds (fingerprint_words p) (mask_bits p) z) slots'
        → AllSlots (Holds (fingerprint_words p) (mask_bits p) z) slots
    pub own :
        (z : ℕ → ℕ → ℕ)
        → AllSlots (Holds (fingerprint_words p) (mask_bits p) z) slots'
        → All
            (λ key.
              Holds
                (fingerprint_words p)
                (mask_bits p)
                z
                (key_slot hash_one p key)
                (key_start hash_one p key))
            keys

  abbrev pub EachResult :
      List (Option Slot) → List K → Option (ConstructionFailure ⊎ List (Option Slot)) → Type 0
  EachResult slots keys none = ⊥
  EachResult slots keys (some (inl failure)) = Unit
  EachResult slots keys (some (inr slots')) = PlacedEach slots keys slots'

  module _ (key_index : ℕ) (slots : List (Option Slot)) (key : K) (keys : List K) where
    pub each-past :
        leb p.m (key_start hash_one p key) ≡ true
        → (f : ConstructionFailure) × (place_each hash_one p key_index (key ∷ keys) slots
            ≡ some (inl f))
    unfolding place_each
    each-past past =
        (out_of_bounds (some key_index) (key_start hash_one p key) p.m, rw (past, place_each))

    module _ (within : leb p.m (key_start hash_one p key) ≡ false) where
      abbrev pub placed : Option (ConstructionFailure ⊎ List (Option Slot))
      placed =
          place (suc p.m) key_index p.m slots (key_start hash_one p key) (key_slot hash_one p key)

      pub each-failed :
          (f : ConstructionFailure)
          → placed ≡ some (inl f)
          → place_each hash_one p key_index (key ∷ keys) slots ≡ some (inl f)
      unfolding place_each
      each-failed f e = rw (within, place_each, e)

      pub each-more :
          (more : List (Option Slot))
          → placed ≡ some (inr more)
          → place_each hash_one p key_index (key ∷ keys) slots
            ≡ place_each hash_one p (suc key_index) keys more
      unfolding place_each
      each-more more e = rw (within, place_each, e)

  then_each :
      (slots more : List (Option Slot)) (key : K) (keys : List K)
      → Placed
          (fingerprint_words p)
          (mask_bits p)
          slots
          (key_start hash_one p key)
          (key_slot hash_one p key)
          more
      → (r : Option (ConstructionFailure ⊎ List (Option Slot))) → EachResult more keys r
      → EachResult slots (key ∷ keys) r
  then_each slots more key keys one none h = h
  then_each slots more key keys one (some (inl failure)) h = h
  then_each slots more key keys one (some (inr slots')) h = record {
    size = h.size ∙ one.size;
    valid = h.valid;
    old = λ z all. one.old z (h.old z all);
    own = λ z all. (one.own z (h.old z all), h.own z all);
  }

  pub place_each_lem :
      (keys : List K) (key_index : ℕ) (slots : List (Option Slot))
      → length slots ≡ p.m
      → AllSlots (λ o j. IsSlot (fingerprint_words p) (mask_bits p) o) slots
      → EachResult slots keys (place_each hash_one p key_index keys slots)
  unfolding place_each
  place_each_lem [] key_index slots l valid = record {
    size = refl;
    valid = valid;
    old = λ z all. all;
    own = λ z all. tt;
  }
  place_each_lem (key ∷ keys) key_index slots l valid =
      elim (Bool-cases (leb p.m (key_start hash_one p key))) [
        | inl past ↦
            subst (EachResult slots (key ∷ keys)) (sym (each-past key_index slots key keys past).1)
              tt
        | inr within ↦
            go within (placed key_index slots key keys within) refl
              (place_lem (fingerprint_words p) (mask_bits p) key_index p.m slots valid (suc p.m)
                (key_start hash_one p key) (key_slot hash_one p key) (omega arith) (ground arith) l
                (key_slot-IsSlot hash_one p key))
              (place_each_lem keys (suc key_index))
      ]
    where
      go :
          (within : leb p.m (key_start hash_one p key) ≡ false)
          → (r : Option (ConstructionFailure ⊎ List (Option Slot)))
          → placed key_index slots key keys within ≡ r
          → PlaceResult
              (fingerprint_words p)
              (mask_bits p)
              slots
              (key_start hash_one p key)
              (key_slot hash_one p key)
              r
          → ((more : List (Option Slot))
              → length more ≡ p.m
              → AllSlots (λ o j. IsSlot (fingerprint_words p) (mask_bits p) o) more
              → EachResult more keys (place_each hash_one p (suc key_index) keys more))
          → EachResult slots (key ∷ keys) (place_each hash_one p key_index (key ∷ keys) slots)
      go within none e h ih = absurd h
      go within (some (inl f)) e h ih =
          subst (EachResult slots (key ∷ keys))
            (sym (each-failed key_index slots key keys within f e)) tt
      go within (some (inr more)) e h ih =
          subst (EachResult slots (key ∷ keys))
            (sym (each-more key_index slots key keys within more e))
            (then_each slots more key keys h _ (ih more (h.size ∙ l) h.valid))
