-- ===== src/State/Checker/Laws.antt =====
-- The check says "reconciled" exactly when the replicas hold the same pairs.
use leopard.Prelude.{
  ◌≡◌, refl, ap, ◌∙◌, true, false, Option, none, some, List, [], ◌∷◌, map, Text, text_eq,
  text_eq_iff, contains, contains-append, arith, ◌↔◌, All, concat, Bool-cases, inl, inr,
}
use leopard.Prelude.Bytes.{eq_of_cmp}
use leopard.Prelude.BTreeMap
use leopard.Prelude.BTreeMap.{get}
use leopard.Prelude.BTreeMap.Laws.{last_of, get-collect}
use leopard.State.Checker.{
  ReconciliationMismatch, Snapshot, reconciled, not_reconciled, value_eq, any_other, disagree,
  dedup, all_keys, mismatches, check,
}

value_eq_iff : (a b : Option Text) → (value_eq a b ≡ true) ↔ (a ≡ b)
value_eq_iff none none = (λ h. refl, λ h. refl)
value_eq_iff none (some y) = (λ h. cc, λ h. cc)
value_eq_iff (some x) none = (λ h. cc, λ h. cc)
value_eq_iff (some x) (some y) =
    (λ h. ap some ((text_eq_iff x y).0 h), λ h. (text_eq_iff x y).1 (ground arith))

-- All the values of a list are its first.
abbrev pub AllEqual : List (Option Text) → Type 0
AllEqual [] = Unit
AllEqual (v ∷ vs) = All (λ u. u ≡ v) vs

any_other_iff :
    (v : Option Text) (vs : List (Option Text)) → (any_other v vs ≡ false) ↔ All (λ u. u ≡ v) vs
unfolding any_other
any_other_iff v [] = (λ h. tt, λ h. refl)
any_other_iff v (u ∷ us) = (
  λ h. ((value_eq_iff u v).0 (ground arith), (any_other_iff v us).0 (ground arith)),
  λ h. ground (arith, (value_eq_iff u v).1 h.0, (any_other_iff v us).1 h.1),
)

disagree_iff : (vs : List (Option Text)) → (disagree vs ≡ false) ↔ AllEqual vs
unfolding disagree
disagree_iff [] = (λ h. tt, λ h. refl)
disagree_iff (v ∷ vs) =
    (λ h. ((any_other_iff v (v ∷ vs)).0 h).1, λ h. (any_other_iff v (v ∷ vs)).1 (refl, h))

contains-dedup : (k : Text) (ks : List Text) → contains k (dedup ks) ≡ contains k ks
unfolding dedup
contains-dedup k [] = refl
contains-dedup k (j ∷ ks) =
    ground (arith, contains-dedup k ks, contains-dedup j ks, text_eq_iff j k)

get_none : (k : Text) (s : Snapshot) → contains k (map (λ e. e.0) s) ≡ false → get k s ≡ none
unfolding get
get_none k [] h = refl
get_none k ((j, v) ∷ s) h = ground (arith, get_none k s, eq_of_cmp k j, text_eq_iff j k)

no_values :
    (k : Text) (snaps : List Snapshot)
    → contains k (concat (map (map (λ e. e.0)) snaps)) ≡ false
    → All (λ u. u ≡ none) (map (get k) snaps)
no_values k [] h = tt
no_values k (s ∷ snaps) h =
    let parts = contains-append k (map (λ e. e.0) s) (concat (map (map (λ e. e.0)) snaps)) in
    (get_none k s (ground (arith, parts)), no_values k snaps (ground (arith, parts)))

All_none-AllEqual : (vs : List (Option Text)) → All (λ u. u ≡ none) vs → AllEqual vs
All_none-AllEqual [] h = tt
All_none-AllEqual (v ∷ vs) h = rw h.0 h.1

mismatches_none :
    (snaps : List Snapshot) (ks : List Text)
    → mismatches snaps ks ≡ []
    → (k : Text) → contains k ks ≡ true
    → disagree (map (get k) snaps) ≡ false
unfolding mismatches
mismatches_none snaps [] h k m = cc
mismatches_none snaps (j ∷ ks) h k m = elim (Bool-cases (disagree (map (get j) snaps))) [
  | inl e ↦ cc (rw e at h)
  | inr e ↦
      let rest = mismatches_none snaps ks (rw e at h) k in
      elim (Bool-cases (text_eq j k)) [
        | inl f ↦ rw (← (text_eq_iff j k).0 f) e
        | inr f ↦ rest (rw f at m)
      ]
]

none_mismatched :
    (snaps : List Snapshot) (ks : List Text)
    → ((k : Text) → AllEqual (map (get k) snaps))
    → mismatches snaps ks ≡ []
unfolding mismatches
none_mismatched snaps [] h = refl
none_mismatched snaps (j ∷ ks) h =
    rw ((disagree_iff (map (get j) snaps)).1 (h j)) (none_mismatched snaps ks h)

collected :
    (k : Text) (nodes : List (List (Text × Text)))
    → map (get k) (map BTreeMap.collect nodes) ≡ map (λ n. last_of k n none) nodes
collected k [] = refl
collected k (n ∷ nodes) = rw (get-collect k n, collected k nodes)

result_iff :
    (ms : List ReconciliationMismatch)
    → ((elim ms [ [] ↦ reconciled | n ∷ ns ↦ not_reconciled (n ∷ ns) ]) ≡ reconciled) ↔ (ms ≡ [])
result_iff [] = (λ h. refl, λ h. refl)
result_iff (m ∷ ms) = (λ h. cc, λ h. cc)

snaps_iff :
    (snaps : List Snapshot)
    → (mismatches snaps (all_keys snaps) ≡ []) ↔ ((k : Text) → AllEqual (map (get k) snaps))
unfolding all_keys
snaps_iff snaps =
    let pairs = concat (map (map (λ (e : Text × Text). e.0)) snaps) in
    (
      λ h k. elim (Bool-cases (contains k pairs)) [
        | inl e ↦
            (disagree_iff (map (get k) snaps)).0
              (mismatches_none snaps (dedup pairs) h k (contains-dedup k pairs ∙ e))
        | inr e ↦ All_none-AllEqual (map (get k) snaps) (no_values k snaps e)
      ],
      λ h. none_mismatched snaps (dedup pairs) h,
    )

-- The check over any number of nodes says "reconciled" exactly when every key has one value, or
-- none, at all of them.
pub check_iff :
    (nodes : List (List (Text × Text)))
    → (check nodes ≡ reconciled) ↔ ((k : Text) → AllEqual (map (λ n. last_of k n none) nodes))
unfolding check
check_iff nodes =
    let snaps = map BTreeMap.collect nodes in
    let a = result_iff (mismatches snaps (all_keys snaps)) in
    let b = snaps_iff snaps in
    (
      λ h k. rw (collected k nodes) at (b.0 (a.0 h) k),
      λ h. a.1 (b.1 (λ k. rw (collected k nodes) (h k))),
    )
