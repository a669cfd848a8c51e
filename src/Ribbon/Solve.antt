-- ===== src/Ribbon/Solve.antt =====
-- builder.rs, the back substitution: the rows from the last one down get values that satisfy their
-- equations, and a later turn writes none of the rows that an equation reads.
use Prim.Native.Nat.{bit_and, bit_xor}
use leopard.Prelude.{
  ℕ, zero, suc, ◌-◌, ◌^◌, ◌<◌, ◌≤◌, ◌≡◌, ◌≢◌, refl, sym, ap, ◌∙◌, List, [], length, Option, none,
  some, ◌⊎◌, inl, inr, Bool-cases, Option-cases, arith, set_at, length-set_at, get_elem-set_at_own,
  get_elem-set_at_other, ==_iff, ◌==◌,
}
use mathlib.Core.Path.{subst, subst₂}
use mathlib.Core.Option
use mathlib.Core.Option.{some-injective}
use leopard.Ribbon.Params.{
  Params, ConstructionFailure, fingerprint_words, mask_bits, fingerprint_last_word_mask,
}
use leopard.Ribbon.Hashing.{for_each_set_bit, mask_last}
use leopard.Ribbon.Filter.{z_row}
use leopard.Ribbon.Builder.{Slot, slot_at, xor_rows, solve}
use leopard.Ribbon.SetBits.{sum_at-for_each_set_bit}
use leopard.Ribbon.Rows.{word, IsRow}
use leopard.Ribbon.Place.{IsSlot, Holds, AllSlots}
use leopard.Ribbon.Column.{column, clear_lowest, dot2_agree, dot2_odd, XorResult, xor_rows_lem}

z_row-set_at_own :
    (i : ℕ) (row : List ℕ) (z : List (List ℕ)) → i < length z → z_row (set_at i row z) i ≡ row
z_row-set_at_own i row z h = ap (λ t. Option.get_or t []) (get_elem-set_at_own i row z h)

z_row-set_at_other :
    (i j : ℕ) (row : List ℕ) (z : List (List ℕ)) → i ≢ j → z_row (set_at i row z) j ≡ z_row z j
z_row-set_at_other i j row z h = ap (λ t. Option.get_or t []) (get_elem-set_at_other i j row z h)

module _ (p : Params) (slots : List (Option Slot)) where
  -- One turn of the loop, branch by branch.
  pub solve-free :
      (i : ℕ) (z : List (List ℕ))
      → slot_at slots i ≡ none
      → solve p (suc i) slots z ≡ solve p i slots z
  unfolding solve
  solve-free i z free = rw (free, solve)

  pub solve-done : (z : List (List ℕ)) → solve p 0 slots z ≡ inr z
  unfolding solve
  solve-done z = refl

  module _ (i : ℕ) (z : List (List ℕ)) (o : Slot) (taken : slot_at slots i ≡ some o) where
    abbrev pub summed : ConstructionFailure ⊎ List ℕ
    summed = xor_rows p.m z i (for_each_set_bit (bit_and o.coeff_lo (2 ^ 64 - 2)) o.coeff_hi) o.rhs

    solve-failed : (f : ConstructionFailure) → summed ≡ inl f → solve p (suc i) slots z ≡ inl f
    unfolding solve
    solve-failed f e = rw (taken, solve, e)

    pub solve-row :
        (row : List ℕ)
        → summed ≡ inr row
        → solve p (suc i) slots z
          ≡ solve p i slots (set_at i (mask_last (fingerprint_last_word_mask p) row) z)
    unfolding solve
    solve-row row e = rw (taken, solve, e)

  abbrev n : ℕ
  n = fingerprint_words p

  abbrev k : ℕ
  k = mask_bits p

  -- The rows from `i` on are solved.
  pub record Solved (i : ℕ) (z : List (List ℕ)) : Type 0 where
    pub size : length z ≡ p.m
    pub rows : (r : ℕ) → r < p.m → IsRow n k (z_row z r)
    pub above : (r : ℕ) (o : Slot) → i ≤ r → slot_at slots r ≡ some o → Holds n k (column z) o r

  abbrev pub SolveResult : ConstructionFailure ⊎ List (List ℕ) → Type 0
  SolveResult (inl f) = Unit
  SolveResult (inr z') = Solved 0 z'

  module _ (valid : AllSlots (λ o r. IsSlot n k o) slots) where
    -- The value that a turn writes solves the equation of its row, ...
    written-Holds :
        (i : ℕ) (z : List (List ℕ)) (o : Slot) (row : List ℕ)
        → i < length z
        → slot_at slots i ≡ some o
        → XorResult n k z i
            (for_each_set_bit (bit_and o.coeff_lo (2 ^ 64 - 2)) o.coeff_hi)
            o.rhs
            (inr row)
        → Holds n k (column (set_at i row z)) o i
    written-Holds i z o row h taken sum j q =
        let e = valid i o taken in
        let upper = bit_and o.coeff_lo (2 ^ 64 - 2) in
        let upper_lt : upper < 2 ^ 64 = omega (arith, clear_lowest o.coeff_lo e.lo_lt, e.lo_lt) in
        dot2_odd (column z j) (column (set_at i row z) j) o.coeff_lo o.coeff_hi i (word j o.rhs)
          e.odd e.lo_lt (λ r a. ap (word j) (sym (z_row-set_at_other i r row z (omega arith))))
          (ap (word j) (z_row-set_at_own i row z h)
            ∙ sum.1 j q
            ∙ ap (bit_xor (word j o.rhs))
                (sum_at-for_each_set_bit (column z j) upper o.coeff_hi i upper_lt e.hi_lt))

    -- ... and no equation of a later row reads it.
    later-Holds :
        (i r : ℕ) (z : List (List ℕ)) (o : Slot) (row : List ℕ)
        → suc i ≤ r
        → Holds n k (column z) o r
        → Holds n k (column (set_at i row z)) o r
    later-Holds i r z o row h held j q =
        dot2_agree (column (set_at i row z) j) (column z j) o.coeff_lo o.coeff_hi r
          (λ t a. ap (word j) (z_row-set_at_other i t row z (omega arith)))
        ∙ held j q

    solve_row-Solved :
        (i : ℕ) (z : List (List ℕ)) (o : Slot) (row : List ℕ)
        → i < p.m
        → slot_at slots i ≡ some o
        → Solved (suc i) z
        → XorResult n k z i
            (for_each_set_bit (bit_and o.coeff_lo (2 ^ 64 - 2)) o.coeff_hi)
            o.rhs
            (inr row)
        → Solved i (set_at i row z)
    solve_row-Solved i z o row h taken s sum = record {
      size = length-set_at i row z ∙ s.size;
      rows = λ r a. elim (Bool-cases (i == r)) [
        | inl same ↦
            let ir = (==_iff i r).0 same in
            subst (IsRow n k)
              (sym (
                ap (z_row (set_at i row z)) (sym ir)
                ∙ z_row-set_at_own i row z (omega (arith, s.size))))
              sum.0
        | inr other ↦
            subst (IsRow n k) (sym (z_row-set_at_other i r row z (ground arith))) (s.rows r a)
      ];
      above = λ r o' a t. elim (Bool-cases (i == r)) [
        | inl same ↦
            let ir = (==_iff i r).0 same in
            let it = some-injective o o' (sym taken ∙ ap (slot_at slots) ir ∙ t) in
            subst₂ (Holds n k (column (set_at i row z))) it ir
              (written-Holds i z o row (omega (arith, s.size)) taken sum)
        | inr other ↦
            let after : suc i ≤ r = ground arith in
            later-Holds i r z o' row after (s.above r o' after t)
      ];
    }

    pub solve-Solved :
        (i : ℕ) (z : List (List ℕ)) → i ≤ p.m → Solved i z → SolveResult (solve p i slots z)
    solve-Solved zero z h s = subst SolveResult (sym (solve-done z)) s
    solve-Solved (suc i) z h s = elim (Option-cases (slot_at slots i)) [
      | inl free ↦
          let s' : Solved i z = record {
            size = s.size;
            rows = s.rows;
            above = λ r o a t. elim (Bool-cases (i == r)) [
              | inl same ↦
                  let clash : none ≡ some o =
                    sym free ∙ ap (slot_at slots) ((==_iff i r).0 same) ∙ t in
                  cc clash
              | inr other ↦ s.above r o (ground arith) t
            ];
          } in
          subst SolveResult (sym (solve-free i z free)) (solve-Solved i z (omega arith) s')
      | inr (o, taken) ↦
          go o taken (summed i z o taken) refl
            (xor_rows_lem n k p.m z i
              (for_each_set_bit (bit_and o.coeff_lo (2 ^ 64 - 2)) o.coeff_hi) o.rhs s.rows
              (valid i o taken).row)
            (λ z'. solve-Solved i z' (omega arith))
    ]
      where
        go :
            (o : Slot) (taken : slot_at slots i ≡ some o) (r : ConstructionFailure ⊎ List ℕ)
            → summed i z o taken ≡ r
            → XorResult n k z i
                (for_each_set_bit (bit_and o.coeff_lo (2 ^ 64 - 2)) o.coeff_hi)
                o.rhs
                r
            → ((z' : List (List ℕ)) → Solved i z' → SolveResult (solve p i slots z'))
            → SolveResult (solve p (suc i) slots z)
        go o taken (inl f) e sum ih = subst SolveResult (sym (solve-failed i z o taken f e)) tt
        go o taken (inr row) e sum ih =
            subst SolveResult
              (sym (
                solve-row i z o taken row e
                ∙ ap (λ t. solve p i slots (set_at i t z)) sum.0.masked))
              (ih (set_at i row z) (solve_row-Solved i z o row (omega arith) taken s sum))
