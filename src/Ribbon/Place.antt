-- ===== src/Ribbon/Place.antt =====
-- builder.rs, one turn of the elimination: what a row and a candidate solution of it are, and that each
-- outcome of the turn keeps to them.
use Prim.Native.Nat.{bit_xor}
use leopard.Prelude.{
  ℕ, ◌+◌, ◌%◌, ◌^◌, ◌<◌, ◌≡◌, true, false, refl, sym, ap, ap₂, ◌∙◌, List, length, set_at,
  length-set_at, get_elem-set_at_own, get_elem-set_at_other, Option, none, some, ◌⊎◌, inl, inr,
  ◌==◌, ◌&&◌, Bool-cases, ==_iff, arith,
}
use mathlib.Core.Option
use mathlib.Core.Option.{some-injective}
use mathlib.Core.Path.{subst₂}
use leopard.Prelude.Words
use leopard.Ribbon.Params.{ConstructionFailure}
use leopard.Ribbon.Hashing.{xor_words}
use leopard.Ribbon.Builder.{Slot, slot_at, shifted, shift_of, all_zero}
use leopard.Ribbon.Dot.{dot-bit_xor, dot_zero}
use leopard.Ribbon.SetBits.{dot2}
use leopard.Ribbon.Reduce.{Reduced, shifted-Reduced}
use leopard.Ribbon.Rows.{word, IsRow, xor_words-IsRow, word-xor_words, word-all_zero}

dot2-bit_xor :
    (v : ℕ → ℕ) (a b a' b' i : ℕ)
    → dot2 v (bit_xor a a') (bit_xor b b') i ≡ bit_xor (dot2 v a b i) (dot2 v a' b' i)
unfolding dot2
dot2-bit_xor v a b a' b' i =
    ap₂ bit_xor (dot-bit_xor v 64 a a' i) (dot-bit_xor v 64 b b' (64 + i))
    ∙ Words.bit_xor_interchange _ _ _ _

dot2_zero : (v : ℕ → ℕ) (i : ℕ) → dot2 v 0 0 i ≡ 0
unfolding dot2
dot2_zero v i = ap₂ bit_xor (dot_zero v 64 i) (dot_zero v 64 (64 + i))

-- What is added to both sides goes away.
xor_same : (a b c d : ℕ) → bit_xor a c ≡ bit_xor b d → c ≡ d → a ≡ b
xor_same a b c d e f =
    sym (Words.bit_xor_cancel c a)
    ∙ ap₂ bit_xor f (Words.bit_xor_comm c a ∙ e ∙ Words.bit_xor_comm b d)
    ∙ Words.bit_xor_cancel d b

-- Of each occupied row and its number.
abbrev pub AllSlots : (Slot → ℕ → Type 0) → List (Option Slot) → Type 0
AllSlots P slots = (i : ℕ) (o : Slot) → slot_at slots i ≡ some o → P o i

slot_at-set_at_own :
    (i : ℕ) (x : Option Slot) (slots : List (Option Slot))
    → i < length slots
    → slot_at (set_at i x slots) i ≡ x
slot_at-set_at_own i x slots h = ap (λ t. Option.get_or t none) (get_elem-set_at_own i x slots h)

slot_at-set_at_other :
    (i j : ℕ) (x : Option Slot) (slots : List (Option Slot))
    → (i == j) ≡ false
    → slot_at (set_at i x slots) j ≡ slot_at slots j
slot_at-set_at_other i j x slots h =
    ap (λ t. Option.get_or t none) (get_elem-set_at_other i j x slots (ground arith))

-- A row that is written is one more of which it has to hold.
pub AllSlots-set_at :
    (P : Slot → ℕ → Type 0) (i : ℕ) (e : Slot) (slots : List (Option Slot))
    → i < length slots
    → P e i
    → AllSlots P slots
    → AllSlots P (set_at i (some e) slots)
AllSlots-set_at P i e slots h own all j o q = elim (Bool-cases (i == j)) [
  | inl same ↦
      let ij = (==_iff i j).0 same in
      let it : some e ≡ some o =
        sym
          (ap (slot_at (set_at i (some e) slots)) (sym ij) ∙ slot_at-set_at_own i (some e) slots h)
        ∙ q in
      subst₂ P (some-injective e o it) ij own
  | inr other ↦ all j o (sym (slot_at-set_at_other i j (some e) slots other) ∙ q)
]

-- `n` words to a row and `k` bits in the last.
module _ (n k : ℕ) where
  pub record IsSlot (e : Slot) : Type 0 where
    pub odd : e.coeff_lo % 2 ≡ 1
    pub lo_lt : e.coeff_lo < 2 ^ 64
    pub hi_lt : e.coeff_hi < 2 ^ 64
    pub row : IsRow n k e.rhs

  -- `z j` gives word `j` of each row of a candidate solution.
  abbrev pub Holds : (ℕ → ℕ → ℕ) → Slot → ℕ → Type 0
  Holds z e i = (j : ℕ) → j < n → dot2 (z j) e.coeff_lo e.coeff_hi i ≡ word j e.rhs

  pub record Placed (slots : List (Option Slot)) (i : ℕ) (e : Slot) (slots' : List (Option Slot))
      : Type 0 where
    pub size : length slots' ≡ length slots
    pub valid : AllSlots (λ o j. IsSlot o) slots'
    pub old : (z : ℕ → ℕ → ℕ) → AllSlots (Holds z) slots' → AllSlots (Holds z) slots
    pub own : (z : ℕ → ℕ → ℕ) → AllSlots (Holds z) slots' → Holds z e i

  -- Running out of turns is no outcome.
  abbrev pub PlaceResult :
      List (Option Slot) → ℕ → Slot → Option (ConstructionFailure ⊎ List (Option Slot)) → Type 0
  PlaceResult slots i e none = ⊥
  PlaceResult slots i e (some (inl failure)) = Unit
  PlaceResult slots i e (some (inr slots')) = Placed slots i e slots'

  -- The difference of two equations of one row, moved on by its shift.
  Holds-reduce :
      (z : ℕ → ℕ → ℕ) (e o : Slot) (i s c_lo c_hi : ℕ)
      → IsRow n k e.rhs
      → Holds z o i
      → ((v : ℕ → ℕ)
          → dot2 v (bit_xor e.coeff_lo o.coeff_lo) (bit_xor e.coeff_hi o.coeff_hi) i
            ≡ dot2 v c_lo c_hi (s + i))
      → Holds z (record { coeff_lo = c_lo; coeff_hi = c_hi; rhs = xor_words e.rhs o.rhs }) (s + i)
      → Holds z e i
  Holds-reduce z e o i s c_lo c_hi row held same new j h =
      xor_same _ _ _ _
        (sym (dot2-bit_xor (z j) e.coeff_lo e.coeff_hi o.coeff_lo o.coeff_hi i)
          ∙ same (z j)
          ∙ new j h
          ∙ word-xor_words j e.rhs o.rhs (omega (arith, row.size)))
        (held j h)

  module _ (slots : List (Option Slot)) (i : ℕ) (e : Slot)
      (valid : AllSlots (λ o j. IsSlot o) slots) where
    -- The key's equation takes a free row.
    pub fill-Placed :
        slot_at slots i ≡ none
        → i < length slots
        → IsSlot e
        → Placed slots i e (set_at i (some e) slots)
    fill-Placed free h own = record {
      size = length-set_at i (some e) slots;
      valid = AllSlots-set_at (λ o j. IsSlot o) i e slots h own valid;
      old = λ z all j o q. elim (Bool-cases (i == j)) [
        | inl same ↦
            let ij = (==_iff i j).0 same in
            let clash : none ≡ some o = sym free ∙ ap (slot_at slots) ij ∙ q in cc clash
        | inr other ↦ all j o (slot_at-set_at_other i j (some e) slots other ∙ q)
      ];
      own = λ z all. all i e (slot_at-set_at_own i (some e) slots h);
    }

    module _ (o : Slot) (taken : slot_at slots i ≡ some o) (own : IsSlot e) where
      -- The key's equation is one that the rows imply already.
      pub skip-Placed :
          bit_xor e.coeff_lo o.coeff_lo ≡ 0
          → bit_xor e.coeff_hi o.coeff_hi ≡ 0
          → all_zero (xor_words e.rhs o.rhs) ≡ true
          → Placed slots i e slots
      skip-Placed lo hi b = record {
        size = refl;
        valid = valid;
        old = λ z all. all;
        own = λ z all j h.
            xor_same _ _ _ _
              (sym (dot2-bit_xor (z j) e.coeff_lo e.coeff_hi o.coeff_lo o.coeff_hi i)
                ∙ ap₂ (λ s t. dot2 (z j) s t i) lo hi
                ∙ dot2_zero (z j) i
                ∙ sym (word-all_zero j (xor_words e.rhs o.rhs) b)
                ∙ word-xor_words j e.rhs o.rhs (omega (arith, own.row.size)))
              (all i o taken j h);
      }

      -- The key's equation moves on.
      pub move-Placed :
          (s c_lo c_hi : ℕ) (slots' : List (Option Slot))
          → ((v : ℕ → ℕ)
              → dot2 v (bit_xor e.coeff_lo o.coeff_lo) (bit_xor e.coeff_hi o.coeff_hi) i
                ≡ dot2 v c_lo c_hi (s + i))
          → Placed slots
              (s + i)
              (record { coeff_lo = c_lo; coeff_hi = c_hi; rhs = xor_words e.rhs o.rhs })
              slots'
          → Placed slots i e slots'
      move-Placed s c_lo c_hi slots' same p = record {
        size = p.size;
        valid = p.valid;
        old = p.old;
        own = λ z all.
            Holds-reduce z e o i s c_lo c_hi own.row (p.old z all i o taken) same (p.own z all);
      }

  pub Reduced-IsSlot :
      (e o : Slot) (s : ℕ) (c : ℕ × ℕ)
      → Reduced (bit_xor e.coeff_lo o.coeff_lo) (bit_xor e.coeff_hi o.coeff_hi) s c
      → IsSlot e
      → IsSlot o
      → IsSlot (record { coeff_lo = c.0; coeff_hi = c.1; rhs = xor_words e.rhs o.rhs })
  Reduced-IsSlot e o s c r p q = record {
    odd = r.odd;
    lo_lt = r.lo_lt;
    hi_lt = r.hi_lt;
    row = xor_words-IsRow k e.rhs o.rhs p.row q.row;
  }

  pub differences :
      (e o : Slot)
      → IsSlot e
      → IsSlot o
      → (bit_xor e.coeff_lo o.coeff_lo == 0 && bit_xor e.coeff_hi o.coeff_hi == 0) ≡ false
      → let c_lo = bit_xor e.coeff_lo o.coeff_lo in
        let c_hi = bit_xor e.coeff_hi o.coeff_hi in
        Reduced c_lo c_hi (shift_of c_lo c_hi) (shifted (shift_of c_lo c_hi) c_lo c_hi)
  differences e o p q d =
      shifted-Reduced (bit_xor e.coeff_lo o.coeff_lo) (bit_xor e.coeff_hi o.coeff_hi)
        (Words.bit_xor_lt 64 e.coeff_lo o.coeff_lo p.lo_lt q.lo_lt)
        (Words.bit_xor_lt 64 e.coeff_hi o.coeff_hi p.hi_lt q.hi_lt)
        (omega (arith, Words.bit_xor_parity e.coeff_lo o.coeff_lo, p.odd, q.odd)) d
