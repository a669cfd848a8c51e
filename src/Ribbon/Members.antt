-- ===== src/Ribbon/Members.antt =====
-- builder.rs, one attempt: it ends within its turns, and the filter that it returns contains each key.
use leopard.Prelude.{
  ℕ, zero, suc, ◌<◌, ◌≤◌, ◌≡◌, true, refl, sym, ap, ◌∙◌, List, [], ◌∷◌, length, Option, none, some,
  ◌⊎◌, inl, inr, Bool-cases, arith, replicate, length-replicate,
}
use mathlib.Core.Option
use mathlib.Core.Path.{subst}
use leopard.Prelude.Lists.{All}
use leopard.Ribbon.Params.{
  Params, ConstructionFailure, fingerprint_words, mask_bits, fingerprint_last_word_mask,
  is_homogeneous,
}
use leopard.Ribbon.Hashing.{draw, mask_last}
use leopard.Ribbon.Filter.{RibbonFilter, z_row, contains, new}
use leopard.Ribbon.Builder.{Slot, slot_at, free_rows, initial_rows, place_each, solve, build_once}
use leopard.Ribbon.Rows.{IsRow, mask_last-IsRow, zeros-IsRow}
use leopard.Ribbon.Keys.{PlacedEach, EachResult, place_each_lem}
use leopard.Ribbon.Equation.{length-draw}
use leopard.Ribbon.Column.{column}
use leopard.Ribbon.Solve.{Solved, SolveResult, solve-Solved}
use leopard.Ribbon.Lookup.{get_elem-past, contains-Holds}

z_row-replicate : (n r : ℕ) (row : List ℕ) → r < n → z_row (replicate n row) r ≡ row
z_row-replicate zero r row h = absurd (omega arith)
z_row-replicate (suc n) zero row h = refl
z_row-replicate (suc n) (suc r) row h = z_row-replicate n r row (omega arith)

pub slot_at-replicate : (n i : ℕ) → slot_at (replicate n none) i ≡ none
slot_at-replicate zero i = refl
slot_at-replicate (suc n) zero = refl
slot_at-replicate (suc n) (suc i) = slot_at-replicate n i

length-free_rows :
    (p : Params) (slots : List (Option Slot)) (s : ℕ) → length (free_rows p slots s) ≡ length slots
unfolding free_rows
length-free_rows p [] s = refl
length-free_rows p (none ∷ slots) s = ap suc (length-free_rows p slots _)
length-free_rows p (some o ∷ slots) s = ap suc (length-free_rows p slots s)

free_rows-IsRow :
    (p : Params) (slots : List (Option Slot)) (s r : ℕ)
    → r < length slots
    → IsRow (fingerprint_words p) (mask_bits p) (z_row (free_rows p slots s) r)
unfolding free_rows
free_rows-IsRow p [] s r h = absurd (omega arith)
free_rows-IsRow p (none ∷ slots) s zero h =
    subst
      (λ n.
        IsRow n (mask_bits p)
          (mask_last (fingerprint_last_word_mask p) (draw (fingerprint_words p) s).0))
      (length-draw (fingerprint_words p) s)
      (mask_last-IsRow (mask_bits p) (draw (fingerprint_words p) s).0)
free_rows-IsRow p (none ∷ slots) s (suc r) h =
    free_rows-IsRow p slots (draw (fingerprint_words p) s).1 r (omega arith)
free_rows-IsRow p (some o ∷ slots) s zero h = zeros-IsRow (mask_bits p) (fingerprint_words p)
free_rows-IsRow p (some o ∷ slots) s (suc r) h = free_rows-IsRow p slots s r (omega arith)

initial_rows-Solved :
    (p : Params) (slots : List (Option Slot))
    → length slots ≡ p.m
    → Solved p slots p.m (initial_rows p slots)
unfolding initial_rows
initial_rows-Solved p slots l = elim (Bool-cases (is_homogeneous p.mode)) [
  | inl e ↦ rw e (record {
    size = length-free_rows p slots _ ∙ l;
    rows = λ r h. free_rows-IsRow p slots _ r (omega arith);
    above = λ r o h t. absurd (past r o h t);
  })
  | inr e ↦ rw e (record {
    size = length-replicate p.m (replicate (fingerprint_words p) 0);
    rows = λ r h.
        subst (IsRow (fingerprint_words p) (mask_bits p))
          (sym (z_row-replicate p.m r (replicate (fingerprint_words p) 0) h))
          (zeros-IsRow (mask_bits p) (fingerprint_words p));
    above = λ r o h t. absurd (past r o h t);
  })
]
  where
    past : (r : ℕ) (o : Slot) → p.m ≤ r → slot_at slots r ≡ some o → ⊥
    past r o h t =
        let clash : none ≡ some o =
          sym (ap (λ u. Option.get_or u none) (get_elem-past slots r (omega arith))) ∙ t in
        cc clash

map-All {ℓ κ μ} :
    {A : Type ℓ} {P : A → Type κ} {Q : A → Type μ} (xs : List A)
    → ((a : A) → P a → Q a)
    → All P xs
    → All Q xs
map-All [] f h = tt
map-All (x ∷ xs) f h = (f x h.0, map-All xs f h.1)

module _ {ℓ} {K : Type ℓ} (hash_one : K → ℕ) where
  -- A construction that ends, and a filter, where there is one, that contains each key.
  abbrev pub Finds {κ} : {E : Type κ} → List K → Option (E ⊎ RibbonFilter) → Type 0
  Finds keys none = ⊥
  Finds keys (some (inl failure)) = Unit
  Finds keys (some (inr filter)) = All (λ key. contains hash_one key filter ≡ true) keys

  -- What the filter of one attempt is.
  pub record Made (p : Params) (keys : List K) (filter : RibbonFilter) : Type 0 where
    pub params : filter.params ≡ p
    pub stride : filter.stride_words ≡ fingerprint_words p
    pub size : length filter.z ≡ p.m
    pub rows : (r : ℕ) → r < p.m → IsRow (fingerprint_words p) (mask_bits p) (z_row filter.z r)
    pub found : All (λ key. contains hash_one key filter ≡ true) keys

  module _ (p : Params) (keys : List K) where
    abbrev pub Attempt : Option (ConstructionFailure ⊎ RibbonFilter) → Type 0
    Attempt none = ⊥
    Attempt (some (inl failure)) = Unit
    Attempt (some (inr filter)) = Made p keys filter

    abbrev pub each : Option (ConstructionFailure ⊎ List (Option Slot))
    each = place_each hash_one p 0 keys (replicate p.m none)

    pub once-failed :
        (f : ConstructionFailure) → each ≡ some (inl f) → build_once hash_one p keys ≡ some (inl f)
    unfolding build_once
    once-failed f e = rw (build_once, e)

    module _ (slots : List (Option Slot)) (placed : each ≡ some (inr slots)) where
      pub once-unsolved :
          (f : ConstructionFailure)
          → solve p p.m slots (initial_rows p slots) ≡ inl f
          → build_once hash_one p keys ≡ some (inl f)
      unfolding build_once
      once-unsolved f e = rw (build_once, placed, e)

      pub once-solved :
          (z : List (List ℕ))
          → solve p p.m slots (initial_rows p slots) ≡ inr z
          → build_once hash_one p keys ≡ some (inr (new p z))
      unfolding build_once
      once-solved z e = rw (build_once, placed, e)

      solved_once :
          (r : ConstructionFailure ⊎ List (List ℕ))
          → solve p p.m slots (initial_rows p slots) ≡ r
          → PlacedEach hash_one p (replicate p.m none) keys slots
          → SolveResult p slots r
          → Attempt (build_once hash_one p keys)
      unfolding new
      solved_once (inl f) e placed_each s = subst Attempt (sym (once-unsolved f e)) tt
      solved_once (inr z) e placed_each s = subst Attempt (sym (once-solved z e)) (record {
        params = refl;
        stride = refl;
        size = s.size;
        rows = s.rows;
        found =
            map-All keys (λ key held. contains-Holds hash_one p z key s.size held)
              (placed_each.own (column z) (λ i o t. s.above i o (omega arith) t));
      })

    pub build_once-Attempt : Attempt (build_once hash_one p keys)
    build_once-Attempt = go each refl (
        place_each_lem hash_one p keys 0 (replicate p.m none) (length-replicate p.m none)
          (λ i o t. let clash : none ≡ some o = sym (slot_at-replicate p.m i) ∙ t in cc clash))
      where
        go :
            (r : Option (ConstructionFailure ⊎ List (Option Slot)))
            → each ≡ r
            → EachResult hash_one p (replicate p.m none) keys r
            → Attempt (build_once hash_one p keys)
        go none e h = absurd h
        go (some (inl f)) e h = subst Attempt (sym (once-failed f e)) tt
        go (some (inr slots)) e h =
            let l : length slots ≡ p.m = h.size ∙ length-replicate p.m none in
            solved_once slots e (solve p p.m slots (initial_rows p slots)) refl h (
              solve-Solved p slots h.valid p.m (initial_rows p slots) (omega arith)
                (initial_rows-Solved p slots l))

    pub build_once-Finds : Finds keys (build_once hash_one p keys)
    build_once-Finds = go (build_once hash_one p keys) build_once-Attempt
      where
        go : (r : Option (ConstructionFailure ⊎ RibbonFilter)) → Attempt r → Finds keys r
        go none h = h
        go (some (inl f)) h = tt
        go (some (inr filter)) h = h.found
