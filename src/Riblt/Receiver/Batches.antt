-- ===== src/Riblt/Receiver/Batches.antt =====
-- The batches that the receiver holds and drains, against a peer that numbers its coded symbols.
use leopard.Prelude.{
  ℕ, zero, suc, ◌+◌, ◌≡◌, refl, sym, ap, ap₂, ◌∙◌, Option, none, some, List, [], ◌∷◌, ◌++◌, length,
  length-append, All, ◌==◌, ==_iff, arith, Bool-cases, Option-cases, inl, inr,
}
use leopard.Riblt.Symbols.{RibltCodedSymbol}
use leopard.Riblt.Receiver.{Reorder, reorder_insert, reorder_remove, insert_burst, Drained, drain}

module _ (at : ℕ → RibltCodedSymbol) where
  -- The symbols from an index on, that many.
  abbrev pub slice : ℕ → ℕ → List RibltCodedSymbol
  slice s zero = []
  slice s (suc n) = at s ∷ slice (suc s) n

  pub slice-append : (s m n : ℕ) → slice s (m + n) ≡ slice s m ++ slice (s + m) n
  slice-append s zero n =
      let size : 0 + n ≡ n = omega arith in
      let start : s ≡ s + 0 = omega arith in ap (slice s) size ∙ ap (λ k. slice k n) start
  slice-append s (suc m) n =
      let size : suc m + n ≡ suc (m + n) = omega arith in
      let start : suc s + m ≡ s + suc m = omega arith in
      ap (slice s) size
      ∙ ap (◌∷◌ (at s)) (slice-append (suc s) m n ∙ ap (λ k. slice (suc s) m ++ slice k n) start)

  pub length-slice : (s n : ℕ) → length (slice s n) ≡ n
  length-slice s zero = refl
  length-slice s (suc n) = ap suc (length-slice (suc s) n)

  -- A batch holds the symbols at its place.
  abbrev pub IsSound : ℕ × List RibltCodedSymbol → Type 0
  IsSound (s, v) = v ≡ slice s (length v)

  reorder_insert-IsSound :
      (s : ℕ) (v : List RibltCodedSymbol) (r : Reorder)
      → IsSound (s, v)
      → All IsSound r
      → All IsSound (reorder_insert s v r)
  unfolding reorder_insert
  reorder_insert-IsSound s v [] h g = (h, tt)
  reorder_insert-IsSound s v ((t, u) ∷ r) h g = elim (Bool-cases (s == t)) [
    | inl e ↦ rw e (h, g.1)
    | inr e ↦ rw e (g.0, reorder_insert-IsSound s v r h g.1)
  ]

  pub insert_burst-IsSound :
      (burst : List (ℕ × List RibltCodedSymbol)) (r : Reorder)
      → All IsSound burst
      → All IsSound r
      → All IsSound (insert_burst burst r)
  unfolding insert_burst
  insert_burst-IsSound [] r h g = g
  insert_burst-IsSound ((s, v) ∷ burst) r h g =
      insert_burst-IsSound burst (reorder_insert s v r) h.1 (reorder_insert-IsSound s v r h.0 g)

  Removed : ℕ → Option (List RibltCodedSymbol × Reorder) → Type 0
  Removed s none = Unit
  Removed s (some x) = IsSound (s, x.0) × All IsSound x.1

  kept_entry :
      (s t : ℕ) (u : List RibltCodedSymbol) (o : Option (List RibltCodedSymbol × Reorder))
      → IsSound (t, u)
      → Removed s o
      → Removed s (elim o [ some x ↦ some (x.0, (t, u) ∷ x.1) | none ↦ none ])
  unfolding Removed
  kept_entry s t u none h g = tt
  kept_entry s t u (some x) h g = (g.0, (h, g.1))

  reorder_remove-IsSound : (s : ℕ) (r : Reorder) → All IsSound r → Removed s (reorder_remove s r)
  unfolding reorder_remove Removed
  reorder_remove-IsSound s [] g = tt
  reorder_remove-IsSound s ((t, u) ∷ r) g = elim (Bool-cases (s == t)) [
    | inl e ↦ rw e (rw (← (==_iff s t).0 e) at g.0, g.1)
    | inr e ↦ rw e (kept_entry s t u (reorder_remove s r) g.0 (reorder_remove-IsSound s r g.1))
  ]

  -- What is drained from an index on: the symbols there, and a buffer that stays sound.
  pub record IsDrained (n : ℕ) (d : Drained) : Type 0 where
    pub next_index_eq : d.next_index ≡ n + length d.batch
    pub batch_eq : d.batch ≡ slice n (length d.batch)
    pub sound : All IsSound d.reorder

  drain_one :
      (n : ℕ) (d : Drained) (x : List RibltCodedSymbol × Reorder)
      → IsDrained n d
      → IsSound (d.next_index, x.0)
      → All IsSound x.1
      → IsDrained n
          (record { next_index = d.next_index + length x.0; batch = d.batch ++ x.0; reorder = x.1 })
  drain_one n d x h g s = record {
    next_index_eq = omega (arith, h.next_index_eq, length-append d.batch x.0);
    batch_eq =
        ap₂ ◌++◌ h.batch_eq (g ∙ ap (λ k. slice k (length x.0)) h.next_index_eq)
        ∙ sym (slice-append n (length d.batch) (length x.0))
        ∙ ap (slice n) (sym (length-append d.batch x.0));
    sound = s;
  }

  pub drain-IsDrained : (f n : ℕ) (d : Drained) → IsDrained n d → IsDrained n (drain f d)
  unfolding drain Removed
  drain-IsDrained zero n d h = h
  drain-IsDrained (suc f) n d h =
      let removed = reorder_remove-IsSound d.next_index d.reorder h.sound in
      elim (Option-cases (reorder_remove d.next_index d.reorder)) [
        | inl e ↦ rw (e, drain) h
        | inr (x, e) ↦
            let both : Removed d.next_index (some x) = rw e at removed in
            rw (e, drain) (drain-IsDrained f n _ (drain_one n d x h both.0 both.1))
      ]
