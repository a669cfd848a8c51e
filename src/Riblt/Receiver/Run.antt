-- ===== src/Riblt/Receiver/Run.antt =====
-- The draining of the receiver's buffer, whatever the batches in it: which entries it takes, and which
-- it leaves.
use mathlib.Core.List.{Perm, append_assoc, append-nil}
use mathlib.Core.List.Perm
use mathlib.Core.Option.{some-injective}
use leopard.Prelude.{
  ℕ, zero, suc, ◌+◌, ◌≤◌, ◌≡◌, ◌≢◌, refl, sym, ap, ◌∙◌, none, some, List, [], ◌∷◌, ◌++◌, length,
  length-append, concat, All, false, ◌==◌, ==_iff, arith, Bool-cases, Option-cases, inl, inr,
}
use leopard.Riblt.Symbols.{RibltCodedSymbol}
use leopard.Riblt.Receiver.{Reorder, reorder_remove, Drained, drain}

reorder_remove-length :
    (s : ℕ) (r : Reorder) (x : List RibltCodedSymbol × Reorder)
    → reorder_remove s r ≡ some x
    → length r ≡ suc (length x.1)
unfolding reorder_remove
reorder_remove-length s [] x h = cc
reorder_remove-length s ((t, u) ∷ r) x h = elim (Bool-cases (s == t)) [
  | inl e ↦
      let same : (u, r) ≡ x = some-injective _ _ (rw e at h) in
      ap (λ (y : List RibltCodedSymbol × Reorder). suc (length y.1)) same
  | inr e ↦ elim (Option-cases (reorder_remove s r)) [
    | inl f ↦ cc (rw (e, f) at h)
    | inr (y, f) ↦
        let same : (y.0, (t, u) ∷ y.1) ≡ x = some-injective _ _ (rw (e, f) at h) in
        ap suc (reorder_remove-length s r y f)
        ∙ ap (λ (z : List RibltCodedSymbol × Reorder). suc (length z.1)) same
  ]
]

reorder_remove-perm :
    (s : ℕ) (r : Reorder) (x : List RibltCodedSymbol × Reorder)
    → reorder_remove s r ≡ some x
    → Perm r ((s, x.0) ∷ x.1)
unfolding reorder_remove
reorder_remove-perm s [] x h = cc
reorder_remove-perm s ((t, u) ∷ r) x h = elim (Bool-cases (s == t)) [
  | inl e ↦
      let same : (u, r) ≡ x = some-injective _ _ (rw e at h) in
      rw (← same) (rw (← (==_iff s t).0 e) Perm.rfl)
  | inr e ↦ elim (Option-cases (reorder_remove s r)) [
    | inl f ↦ cc (rw (e, f) at h)
    | inr (y, f) ↦
        let same : (y.0, (t, u) ∷ y.1) ≡ x = some-injective _ _ (rw (e, f) at h) in
        rw (← same) (
          Perm.trans (Perm.cons (t, u) (reorder_remove-perm s r y f))
            (Perm.swap (s, y.0) (t, u) y.1))
  ]
]

different : (s t : ℕ) → (s == t) ≡ false → s ≢ t
different s t e same = cc (e, (==_iff s t).1 same)

reorder_remove-none :
    (s : ℕ) (r : Reorder)
    → reorder_remove s r ≡ none
    → All (λ (b : ℕ × List RibltCodedSymbol). b.0 ≢ s) r
unfolding reorder_remove
reorder_remove-none s [] h = tt
reorder_remove-none s ((t, u) ∷ r) h = elim (Bool-cases (s == t)) [
  | inl e ↦ cc (rw e at h)
  | inr e ↦ elim (Option-cases (reorder_remove s r)) [
    | inl f ↦ (λ same. absurd (different s t e (sym same)), reorder_remove-none s r f)
    | inr (y, f) ↦ cc (rw (e, f) at h)
  ]
]

-- Batches with an index each, the first at `n` and each of the others where the one before it ends.
abbrev pub run_from : ℕ → List (List RibltCodedSymbol) → Reorder
run_from n [] = []
run_from n (c ∷ cs) = (n, c) ∷ run_from (n + length c) cs

-- From `d` to `d'` the batches `taken` went from the buffer to the batch: they and what is left are the
-- entries that were there, and no entry is left at the next index.
pub record Took (d d' : Drained) : Type 0 where
  pub taken : List (List RibltCodedSymbol)
  pub entries : Perm d.reorder (run_from d.next_index taken ++ d'.reorder)
  pub batch_eq : d'.batch ≡ d.batch ++ concat taken
  pub next_eq : d'.next_index ≡ d.next_index + length (concat taken)
  pub none_left : All (λ (b : ℕ × List RibltCodedSymbol). b.0 ≢ d'.next_index) d'.reorder

Took-none : (d : Drained) → reorder_remove d.next_index d.reorder ≡ none → Took d d
Took-none d h = record {
  taken = [];
  entries = Perm.rfl;
  batch_eq = sym (append-nil d.batch);
  next_eq = omega arith;
  none_left = reorder_remove-none d.next_index d.reorder h;
}

-- With as much fuel as there are batches held, the draining takes the batches that follow one
-- another from the next index on, in that order and each as a whole; it moves the index past
-- them, keeps every other batch, and leaves none at the new index.
pub drain_lem : (f : ℕ) (d : Drained) → length d.reorder ≤ f → Took d (drain f d)
unfolding drain reorder_remove
drain_lem zero d h = Took-none d (empty d.reorder (omega arith))
  where
    empty : (r : Reorder) → length r ≡ 0 → reorder_remove d.next_index r ≡ none
    empty [] e = refl
    empty (x ∷ r) e = absurd (omega arith)
drain_lem (suc f) d h = elim (Option-cases (reorder_remove d.next_index d.reorder)) [
  | inl e ↦ rw (e, drain) (Took-none d e)
  | inr (x, e) ↦
      let smaller = reorder_remove-length d.next_index d.reorder x e in
      let rest =
        drain_lem f
          (record { next_index = d.next_index + length x.0; batch = d.batch ++ x.0; reorder = x.1 })
          (omega (arith, smaller)) in
      rw (e, drain)
        (record {
          taken = x.0 ∷ rest.taken;
          entries =
              Perm.trans (reorder_remove-perm d.next_index d.reorder x e)
                (Perm.cons _ rest.entries);
          batch_eq = rest.batch_eq ∙ append_assoc d.batch x.0 (concat rest.taken);
          next_eq = omega (arith, rest.next_eq, length-append x.0 (concat rest.taken));
          none_left = rest.none_left;
        })
]
