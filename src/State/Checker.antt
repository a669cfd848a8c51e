-- ===== src/State/Checker.antt =====
-- state/src/checker/local.rs: the check that all replicas hold the same pairs. A node enters by its
-- snapshot, the pairs that its `items()` yields; `all_keys` is a set, so each key is visited once.
pub mod Laws
use leopard.Prelude.{
  ◌≡◌, ◌≢◌, refl, ap, ◌∙◌, sym, Bool, true, false, ◌||◌, ◌&&◌, not, Option, none, some, List, [],
  ◌∷◌, ◌++◌, map, Text, text_eq, text_eq_iff, contains, contains-append, if◌then◌else◌, arith, ◌↔◌,
  All, concat, Bool-cases, inl, inr,
}
use leopard.Prelude.BTreeMap
use leopard.Prelude.BTreeMap.{get}

pub record ReconciliationMismatch : Type 0 where
  pub key : Text
  pub node_values : List (Option Text)

pub data ReconciliationCheckResult : Type 0 where
  reconciled : ReconciliationCheckResult
  not_reconciled : List ReconciliationMismatch → ReconciliationCheckResult

abbrev pub Snapshot : Type 0
Snapshot = List (Text × Text)

abbrev pub value_eq : Option Text → Option Text → Bool
value_eq none none = true
value_eq none (some y) = false
value_eq (some x) none = false
value_eq (some x) (some y) = text_eq x y

-- `any(|v| v != first)`
unfoldable pub any_other : Option Text → List (Option Text) → Bool
any_other first [] = false
any_other first (v ∷ vs) = not (value_eq v first) || any_other first vs

-- `node_values[0]` is there: a key is only visited if some node has it.
unfoldable pub disagree : List (Option Text) → Bool
disagree [] = false
disagree (v ∷ vs) = any_other v (v ∷ vs)

unfoldable pub dedup : List Text → List Text
dedup [] = []
dedup (k ∷ ks) = let rest = dedup ks in if contains k rest then rest else k ∷ rest

unfoldable pub all_keys : List Snapshot → List Text
all_keys snaps = dedup (concat (map (map (λ e. e.0)) snaps))

unfoldable pub mismatches : List Snapshot → List Text → List ReconciliationMismatch
mismatches snaps [] = []
mismatches snaps (k ∷ ks) =
    let node_values = map (get k) snaps in
    let rest = mismatches snaps ks in
    if disagree node_values then record { key = k; node_values = node_values } ∷ rest else rest

-- Each node's items collected into a map, then the keys of all of them compared.
unfoldable pub check : List (List (Text × Text)) → ReconciliationCheckResult
check nodes =
    let snaps = map BTreeMap.collect nodes in
    elim (mismatches snaps (all_keys snaps)) [ [] ↦ reconciled | m ∷ ms ↦ not_reconciled (m ∷ ms) ]
