-- ===== src/Ribbon/Lookup.antt =====
-- filter.rs, the membership test against the columns of the solution: a key whose equation holds is
-- found.
use Prim.Native.Nat.{bit_xor}
use leopard.Prelude.{
  ℕ, zero, suc, ◌+◌, ◌<◌, ◌≤◌, ◌≡◌, true, refl, sym, ap, ◌∙◌, List, [], ◌∷◌, length, none,
  Bool-cases, inl, inr, arith, replicate, length-replicate, ltb, get_elem?, text_eq_iff,
}
use mathlib.Core.Option
use leopard.Prelude.Words
use leopard.Ribbon.Params.{Params, fingerprint_words, mask_bits}
use leopard.Ribbon.Hashing.{for_each_set_bit, xor_words}
use leopard.Ribbon.Filter.{z_row, accumulate, contains, new}
use leopard.Ribbon.SetBits.{sum_at, sum_at-for_each_set_bit}
use leopard.Ribbon.Rows.{word, word-xor_words, length-xor_words, word-replicate, row_ext}
use leopard.Ribbon.Place.{Holds}
use leopard.Ribbon.Equation.{key_slot, key_start, key_slot-IsSlot}
use leopard.Ribbon.Column.{column}

pub get_elem-past {ℓ} : {A : Type ℓ} (xs : List A) (i : ℕ) → length xs ≤ i → get_elem? xs i ≡ none
get_elem-past [] i h = refl
get_elem-past (x ∷ xs) zero h = absurd (omega arith)
get_elem-past (x ∷ xs) (suc i) h = get_elem-past xs i (omega arith)

length-accumulate :
    (m : ℕ) (z : List (List ℕ)) (start : ℕ) (os acc : List ℕ)
    → length (accumulate m z start os acc) ≡ length acc
unfolding accumulate
length-accumulate m z start [] acc = refl
length-accumulate m z start (o ∷ os) acc = elim (Bool-cases (ltb (start + o) m)) [
  | inl e ↦ rw e (
      length-accumulate m z start os (xor_words acc (z_row z (start + o)))
      ∙ length-xor_words acc (z_row z (start + o)))
  | inr e ↦ rw e (length-accumulate m z start os acc)
]

-- Rows past the end count as 0, so the test of the bound changes no sum.
word-accumulate :
    (z : List (List ℕ)) (start j : ℕ) (os acc : List ℕ)
    → j < length acc
    → word j (accumulate (length z) z start os acc)
      ≡ bit_xor (word j acc) (sum_at (column z j) os start)
unfolding accumulate sum_at
word-accumulate z start j [] acc h = sym (Words.bit_xor_zero_right (word j acc))
word-accumulate z start j (o ∷ os) acc h = elim (Bool-cases (ltb (start + o) (length z))) [
  | inl e ↦ rw e (
      word-accumulate z start j os (xor_words acc (z_row z (start + o)))
        (omega (arith, length-xor_words acc (z_row z (start + o))))
      ∙ ap (λ t. bit_xor t (sum_at (column z j) os start))
          (word-xor_words j acc (z_row z (start + o)) h)
      ∙ Words.bit_xor_assoc (word j acc) (column z j (start + o)) _)
  | inr e ↦
      let gone = get_elem-past z (start + o) (ground arith) in
      let nothing : column z j (start + o) ≡ 0 = ap (λ t. word j (Option.get_or t [])) gone in
      rw (e, nothing)
        (word-accumulate z start j os acc h
          ∙ ap (bit_xor (word j acc)) (sym (Words.bit_xor_zero_left _)))
]

module _ {ℓ} {K : Type ℓ} (hash_one : K → ℕ) (p : Params) (z : List (List ℕ)) where
  pub contains-Holds :
      (key : K)
      → length z ≡ p.m
      → Holds
          (fingerprint_words p)
          (mask_bits p)
          (column z)
          (key_slot hash_one p key)
          (key_start hash_one p key)
      → contains hash_one key (new p z) ≡ true
  unfolding contains new
  contains-Holds key size held =
      let e = key_slot hash_one p key in
      let start = key_start hash_one p key in
      let own = key_slot-IsSlot hash_one p key in
      let os = for_each_set_bit e.coeff_lo e.coeff_hi in
      let zeros : List ℕ = replicate (fingerprint_words p) 0 in
      let lz : length zeros ≡ fingerprint_words p = length-replicate (fingerprint_words p) 0 in
      let l = length-accumulate p.m z start os zeros ∙ lz in
      (text_eq_iff (accumulate p.m z start os zeros) e.rhs).1 (
        row_ext _ _ (l ∙ sym own.row.size) (λ j h.
          ap (λ m. word j (accumulate m z start os zeros)) (sym size)
          ∙ word-accumulate z start j os zeros (omega (arith, l, lz))
          ∙ ap (λ t. bit_xor t (sum_at (column z j) os start))
              (word-replicate j (fingerprint_words p))
          ∙ Words.bit_xor_zero_left _
          ∙ sum_at-for_each_set_bit (column z j) e.coeff_lo e.coeff_hi start own.lo_lt own.hi_lt
          ∙ held j (omega (arith, l))))
