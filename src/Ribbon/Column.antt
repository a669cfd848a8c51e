-- ===== src/Ribbon/Column.antt =====
-- builder.rs, one row of the back substitution: the sum of the rows that its equation reads, word by
-- word, and the value that solves an odd equation.
use Prim.Native.Nat.{bit_and, bit_xor}
use leopard.Prelude.{
  ℕ, zero, suc, ◌+◌, ◌-◌, ◌*◌, ◌/◌, ◌%◌, ◌^◌, ◌<◌, ◌≤◌, ◌≡◌, true, false, refl, sym, ap, ap₂, ◌∙◌,
  List, [], ◌∷◌, none, ◌⊎◌, inl, inr, leb, Bool-cases, arith, if◌then◌else◌, ◌==◌,
}
use mathlib.Core.Path.{subst}
use leopard.Prelude.Words
use leopard.Ribbon.Params.{ConstructionFailure, out_of_bounds}
use leopard.Ribbon.Hashing.{xor_words}
use leopard.Ribbon.Filter.{z_row}
use leopard.Ribbon.Builder.{xor_rows}
use leopard.Ribbon.Dot.{dot}
use leopard.Ribbon.SetBits.{dot2, sum_at}
use leopard.Ribbon.Rows.{word, IsRow, xor_words-IsRow, word-xor_words}

-- Word `j` of each row.
abbrev pub column : List (List ℕ) → ℕ → ℕ → ℕ
column z j i = word j (z_row z i)

-- Values below the first position do not count.
dot_agree : (v v' : ℕ → ℕ) (n c i : ℕ) → ((r : ℕ) → i ≤ r → v r ≡ v' r) → dot v n c i ≡ dot v' n c i
unfolding dot
dot_agree v v' zero c i h = refl
dot_agree v v' (suc n) c i h =
    ap₂ bit_xor (ap (λ t. if c % 2 == 1 then t else 0) (h i (omega arith)))
      (dot_agree v v' n (c / 2) (suc i) (λ r p. h r (omega arith)))

pub dot2_agree :
    (v v' : ℕ → ℕ) (lo hi i : ℕ) → ((r : ℕ) → i ≤ r → v r ≡ v' r) → dot2 v lo hi i ≡ dot2 v' lo hi i
unfolding dot2
dot2_agree v v' lo hi i h =
    ap₂ bit_xor (dot_agree v v' 64 lo i h)
      (dot_agree v v' 64 hi (64 + i) (λ r p. h r (omega arith)))

dot_odd :
    (v : ℕ → ℕ) (n c i : ℕ)
    → c % 2 ≡ 1
    → dot v (suc n) c i ≡ bit_xor (v i) (dot v n (c / 2) (suc i))
unfolding dot
dot_odd v n c i e = rw e refl

dot_even : (v : ℕ → ℕ) (n c i : ℕ) → c % 2 ≡ 0 → dot v (suc n) c i ≡ dot v n (c / 2) (suc i)
unfolding dot
dot_even v n c i e = rw e (Words.bit_xor_zero_left _)

-- `lo & !1`
pub clear_lowest : (lo : ℕ) → lo < 2 ^ 64 → bit_and lo (2 ^ 64 - 2) ≡ 2 * (lo / 2)
clear_lowest lo h =
    omega (arith, Words.bit_and_step lo (2 ^ 64 - 2), Words.bit_and_mask 63 (lo / 2))

-- `((b ^ (d ^ h)) ^ d) ^ h`
add_back : (b d h : ℕ) → bit_xor (bit_xor (bit_xor b (bit_xor d h)) d) h ≡ b
add_back b d h =
    Words.bit_xor_assoc (bit_xor b (bit_xor d h)) d h
    ∙ Words.bit_xor_assoc b (bit_xor d h) (bit_xor d h)
    ∙ ap (bit_xor b) (Words.bit_xor_self (bit_xor d h))
    ∙ Words.bit_xor_zero_right b

-- An odd equation, solved for the value at its own row.
pub dot2_odd :
    (v v' : ℕ → ℕ) (lo hi i b : ℕ)
    → lo % 2 ≡ 1
    → lo < 2 ^ 64
    → ((r : ℕ) → suc i ≤ r → v r ≡ v' r)
    → v' i ≡ bit_xor b (dot2 v (bit_and lo (2 ^ 64 - 2)) hi i)
    → dot2 v' lo hi i ≡ b
unfolding dot2
dot2_odd v v' lo hi i b odd small agree value =
    let d = dot v 63 (lo / 2) (suc i) in
    let h = dot v 64 hi (64 + i) in
    let even : 2 * (lo / 2) % 2 ≡ 0 = omega arith in
    let half : 2 * (lo / 2) / 2 ≡ lo / 2 = omega arith in
    let upper =
      ap (λ c. dot v 64 c i) (clear_lowest lo small)
      ∙ dot_even v 63 (2 * (lo / 2)) i even
      ∙ ap (λ c. dot v 63 c (suc i)) half in
    ap₂ bit_xor
      (dot_odd v' 63 lo i odd
        ∙ ap₂ bit_xor (value ∙ ap (λ t. bit_xor b (bit_xor t h)) upper)
            (sym (dot_agree v v' 63 (lo / 2) (suc i) agree)))
      (sym (dot_agree v v' 64 hi (64 + i) (λ r p. agree r (omega arith))))
    ∙ add_back b d h

module _ (m : ℕ) (z : List (List ℕ)) (i o : ℕ) (os row : List ℕ) where
  xor_past : leb m (i + o) ≡ true → xor_rows m z i (o ∷ os) row ≡ inl (out_of_bounds none (i + o) m)
  unfolding xor_rows
  xor_past past = rw (past, xor_rows)

  pub xor_within :
      leb m (i + o) ≡ false
      → xor_rows m z i (o ∷ os) row ≡ xor_rows m z i os (xor_words row (z_row z (i + o)))
  unfolding xor_rows
  xor_within within = rw (within, xor_rows)

module _ (n k : ℕ) where
  -- The loop over the offsets adds up the rows there.
  abbrev pub XorResult : List (List ℕ) → ℕ → List ℕ → List ℕ → ConstructionFailure ⊎ List ℕ → Type 0
  XorResult z i os row (inl failure) = Unit
  XorResult z i os row (inr row') =
      IsRow n k row'
      × ((j : ℕ) → j < n → word j row' ≡ bit_xor (word j row) (sum_at (column z j) os i))

  pub xor_rows_lem :
      (m : ℕ) (z : List (List ℕ)) (i : ℕ) (os row : List ℕ)
      → ((r : ℕ) → r < m → IsRow n k (z_row z r))
      → IsRow n k row
      → XorResult z i os row (xor_rows m z i os row)
  unfolding sum_at xor_rows
  xor_rows_lem m z i [] row rows own = (own, λ j h. sym (Words.bit_xor_zero_right (word j row)))
  xor_rows_lem m z i (o ∷ os) row rows own = elim (Bool-cases (leb m (i + o))) [
    | inl past ↦ subst (XorResult z i (o ∷ os) row) (sym (xor_past m z i o os row past)) tt
    | inr within ↦
        let at_o = rows (i + o) (ground arith) in
        subst (XorResult z i (o ∷ os) row) (sym (xor_within m z i o os row within)) (
          go _ (
            xor_rows_lem m z i os (xor_words row (z_row z (i + o))) rows
              (xor_words-IsRow k row (z_row z (i + o)) own at_o)))
  ]
    where
      go :
          (r : ConstructionFailure ⊎ List ℕ)
          → XorResult z i os (xor_words row (z_row z (i + o))) r
          → XorResult z i (o ∷ os) row r
      go (inl f) h = tt
      go (inr row') h = (
        h.0,
        λ j p.
            h.1 j p
            ∙ ap (λ t. bit_xor t (sum_at (column z j) os i))
                (word-xor_words j row (z_row z (i + o)) (omega (arith, own.size)))
            ∙ Words.bit_xor_assoc _ _ _,
      )
