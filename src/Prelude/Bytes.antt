-- ===== src/Prelude/Bytes.antt =====
-- Rust's `String` and `Vec<u8>` as lists of bytes: the byte-wise order of `str`, and `split`.
use Prim.Native.Nat.{ℕ, compare, Ordering}
use Prim.Native.Nat.Ordering.{lt, eq, gt}
use Prim.Native.Char.{code}
use Prim.Native.String.{String}
use mathlib.Core.Path.{◌≡◌, refl, ◌∙◌}
use mathlib.Core.Logic.{◌↔◌}
use mathlib.Core.Bool.{Bool, true, false, ◌||◌}
use mathlib.Core.List.{List, [], ◌∷◌, ◌++◌, append_assoc, append-nil}
use native.Mathlib.Omega.{arith}
use leopard.Prelude.Tests.{◌==◌, if◌then◌else◌}

abbrev pub Text : Type 0
Text = List ℕ

-- The bytes of an ASCII literal.
abbrev pub codes : String → Text
codes String.[] = []
codes (String.◌∷◌ c s) = code c ∷ codes s

abbrev pub text_eq : Text → Text → Bool
text_eq [] [] = true
text_eq [] (y ∷ ys) = false
text_eq (x ∷ xs) [] = false
text_eq (x ∷ xs) (y ∷ ys) = if x == y then text_eq xs ys else false

pub text_eq_refl : (a : Text) → text_eq a a ≡ true
text_eq_refl [] = refl
text_eq_refl (x ∷ xs) = ground (arith, text_eq_refl xs)

pub eq_of_text_eq : (a b : Text) → text_eq a b ≡ true → a ≡ b
eq_of_text_eq [] [] h = refl
eq_of_text_eq [] (y ∷ ys) h = cc
eq_of_text_eq (x ∷ xs) [] h = cc
eq_of_text_eq (x ∷ xs) (y ∷ ys) h = ground (arith, eq_of_text_eq xs ys)

pub text_eq_iff : (a b : Text) → (text_eq a b ≡ true) ↔ (a ≡ b)
text_eq_iff a b = (eq_of_text_eq a b, λ e. rw e (text_eq_refl b))

-- `str::cmp`: lexicographic on bytes.
unfoldable pub cmp : Text → Text → Ordering
cmp [] [] = eq
cmp [] (y ∷ ys) = lt
cmp (x ∷ xs) [] = gt
cmp (x ∷ xs) (y ∷ ys) = elim (compare x y) [ lt ↦ lt | eq ↦ cmp xs ys | gt ↦ gt ]

pub cmp_refl : (a : Text) → cmp a a ≡ eq
unfolding cmp
cmp_refl [] = refl
cmp_refl (x ∷ xs) = ground (arith, cmp_refl xs)

pub eq_of_cmp : (a b : Text) → cmp a b ≡ eq → a ≡ b
unfolding cmp
eq_of_cmp [] [] h = refl
eq_of_cmp [] (y ∷ ys) h = cc
eq_of_cmp (x ∷ xs) [] h = cc
eq_of_cmp (x ∷ xs) (y ∷ ys) h = ground (arith, eq_of_cmp xs ys)

pub lt_of_cmp-gt : (a b : Text) → cmp a b ≡ gt → cmp b a ≡ lt
unfolding cmp
lt_of_cmp-gt [] [] h = cc
lt_of_cmp-gt [] (y ∷ ys) h = cc
lt_of_cmp-gt (x ∷ xs) [] h = refl
lt_of_cmp-gt (x ∷ xs) (y ∷ ys) h = ground (arith, lt_of_cmp-gt xs ys)

pub gt_of_cmp-lt : (a b : Text) → cmp a b ≡ lt → cmp b a ≡ gt
unfolding cmp
gt_of_cmp-lt [] [] h = cc
gt_of_cmp-lt [] (y ∷ ys) h = refl
gt_of_cmp-lt (x ∷ xs) [] h = cc
gt_of_cmp-lt (x ∷ xs) (y ∷ ys) h = ground (arith, gt_of_cmp-lt xs ys)

pub cmp-lt_trans : (a b c : Text) → cmp a b ≡ lt → cmp b c ≡ lt → cmp a c ≡ lt
unfolding cmp
cmp-lt_trans [] [] c h k = k
cmp-lt_trans [] (y ∷ ys) [] h k = cc
cmp-lt_trans [] (y ∷ ys) (z ∷ zs) h k = refl
cmp-lt_trans (x ∷ xs) [] c h k = cc
cmp-lt_trans (x ∷ xs) (y ∷ ys) [] h k = cc
cmp-lt_trans (x ∷ xs) (y ∷ ys) (z ∷ zs) h k = ground (arith, cmp-lt_trans xs ys zs)

-- `str::split(sep)`: the pieces between the separators, at least one.
split_onto : ℕ → Text → Text → List Text
split_onto sep piece [] = piece ∷ []
split_onto sep piece (x ∷ xs) =
    let cut = split_onto sep [] xs in
    let grown = split_onto sep (piece ++ x ∷ []) xs in if x == sep then piece ∷ cut else grown

unfoldable pub split : ℕ → Text → List Text
unfolding split_onto
split sep s = split_onto sep [] s

abbrev pub Without : ℕ → Text → Type 0
Without sep [] = Unit
Without sep (x ∷ xs) = ((x == sep) ≡ false) × Without sep xs

split_onto-append :
    (sep : ℕ) (piece s t : Text)
    → split_onto sep piece (s ++ sep ∷ t) ≡ split_onto sep piece s ++ split_onto sep [] t
unfolding split_onto
split_onto-append sep piece [] t = ground arith
split_onto-append sep piece (x ∷ xs) t =
    ground (arith, split_onto-append sep [] xs t, split_onto-append sep (piece ++ x ∷ []) xs t)

pub split-append : (sep : ℕ) (s t : Text) → split sep (s ++ sep ∷ t) ≡ split sep s ++ split sep t
unfolding split
split-append sep s t = split_onto-append sep [] s t

split_onto-Without :
    (sep : ℕ) (piece t : Text) → Without sep t → split_onto sep piece t ≡ (piece ++ t) ∷ []
unfolding split_onto
split_onto-Without sep piece [] h = rw append-nil
split_onto-Without sep piece (x ∷ xs) h =
    rw h.0 (split_onto-Without sep (piece ++ x ∷ []) xs h.1 ∙ rw append_assoc)

pub split-Without : (sep : ℕ) (t : Text) → Without sep t → split sep t ≡ t ∷ []
unfolding split
split-Without sep t h = split_onto-Without sep [] t h

abbrev pub contains : Text → List Text → Bool
contains k [] = false
contains k (x ∷ xs) = text_eq x k || contains k xs

pub contains-append :
    (k : Text) (xs ys : List Text) → contains k (xs ++ ys) ≡ (contains k xs || contains k ys)
contains-append k [] ys = refl
contains-append k (x ∷ xs) ys = ground (arith, contains-append k xs ys)
