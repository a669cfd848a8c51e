-- ===== src/Membership/Targets.antt =====
-- Which neighbours a node may connect to once it has taken them from its configuration.
use mathlib.Core.List.{append_assoc, append-nil}
use leopard.Prelude.{
  ◌≡◌, refl, sym, ap, ◌∙◌, List, [], ◌∷◌, ◌++◌, All, arith, Bool-cases, inl, inr, ◌==◌, text_eq,
  if◌then◌else◌,
}
use leopard.Membership.{
  NodeAddress, address_eq, tainted, DefaultMembershipNeighbor, add_taint, any_tainted,
  DefaultMembership, add_neighbor, valid_connection_targets, taint_local, init_neighbors,
}

-- The addresses of the neighbours other than the given one.
abbrev pub others : NodeAddress → List DefaultMembershipNeighbor → List NodeAddress
others a [] = []
others a (n ∷ ns) =
    if address_eq a n.connection_info then others a ns else n.connection_info ∷ others a ns

valid_connection_targets-append :
    (ms ns : DefaultMembership)
    → valid_connection_targets (ms ++ ns)
      ≡ valid_connection_targets ms ++ valid_connection_targets ns
unfolding valid_connection_targets
valid_connection_targets-append [] ns = refl
valid_connection_targets-append (m ∷ ms) ns = elim (Bool-cases (any_tainted m.taints)) [
  | inl e ↦ rw e (valid_connection_targets-append ms ns)
  | inr e ↦ rw e (ap (◌∷◌ m.connection_info) (valid_connection_targets-append ms ns))
]

taint_local_lem :
    (a : NodeAddress) (n : DefaultMembershipNeighbor)
    → n.taints ≡ []
    → valid_connection_targets (taint_local a n ∷ []) ≡ others a (n ∷ [])
unfolding valid_connection_targets taint_local add_taint any_tainted tainted address_eq
taint_local_lem a n e = elim (Bool-cases (a.port == n.connection_info.port)) [
  | inl f ↦ elim (Bool-cases (text_eq a.host n.connection_info.host)) [
    | inl g ↦ rw (f, e, any_tainted) (ground (arith, f, g))
    | inr g ↦ rw (f, e, any_tainted) (ground (arith, f, g))
  ]
  | inr f ↦ elim (Bool-cases (text_eq a.host n.connection_info.host)) [
    | inl g ↦ rw (f, e, any_tainted) (ground (arith, f, g))
    | inr g ↦ rw (f, e, any_tainted) (ground (arith, f, g))
  ]
]

-- Where the configured neighbours carry no taint yet, the node may then connect to just those whose
-- address is not its own, host and port, in the order of the configuration, after those that it
-- could connect to before.
pub init_neighbors_lem :
    (a : NodeAddress) (ns : List DefaultMembershipNeighbor) (m : DefaultMembership)
    → All (λ (n : DefaultMembershipNeighbor). n.taints ≡ []) ns
    → valid_connection_targets (init_neighbors a ns m) ≡ valid_connection_targets m ++ others a ns
unfolding init_neighbors add_neighbor
init_neighbors_lem a [] m h = sym (append-nil (valid_connection_targets m))
init_neighbors_lem a (n ∷ ns) m h =
    init_neighbors_lem a ns (m ++ taint_local a n ∷ []) h.1
    ∙ ap (λ ts. ts ++ others a ns) (valid_connection_targets-append m (taint_local a n ∷ []))
    ∙ ap (λ ts. (valid_connection_targets m ++ ts) ++ others a ns) (taint_local_lem a n h.0)
    ∙ append_assoc (valid_connection_targets m) (others a (n ∷ [])) (others a ns)
    ∙ ap (λ ts. valid_connection_targets m ++ ts) (split_others a n ns)
  where
    split_others :
        (a : NodeAddress) (n : DefaultMembershipNeighbor) (ns : List DefaultMembershipNeighbor)
        → others a (n ∷ []) ++ others a ns ≡ others a (n ∷ ns)
    split_others a n ns = elim (Bool-cases (address_eq a n.connection_info)) [
      | inl e ↦ rw e refl
      | inr e ↦ rw e refl
    ]
