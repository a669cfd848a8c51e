-- ===== src/Membership.antt =====
-- membership/src/lib.rs, taints/src/lib.rs, connection/src/node/port.rs and `init_neighbors` of
-- state/src/node/mod.rs: the neighbours of a node, and those that it may connect to.
pub mod Targets
use leopard.Prelude.{
  ℕ, Bool, true, false, ◌&&◌, ◌||◌, List, [], ◌∷◌, ◌++◌, Text, text_eq, ◌==◌, if◌then◌else◌,
}

pub record NodeAddress : Type 0 where
  pub host : Text
  pub port : ℕ

-- The derived equality.
unfoldable pub address_eq : NodeAddress → NodeAddress → Bool
address_eq a b = text_eq a.host b.host && (a.port == b.port)

pub record NodeAddressTaint : Type 0 where
  pub port : NodeAddress
  pub other_port : NodeAddress

unfoldable pub tainted : NodeAddressTaint → Bool
tainted t = address_eq t.port t.other_port

pub record DefaultMembershipNeighbor : Type 0 where
  pub id : Text
  pub connection_info : NodeAddress
  pub taints : List NodeAddressTaint

unfoldable pub add_taint : NodeAddressTaint → DefaultMembershipNeighbor → DefaultMembershipNeighbor
add_taint t n = record n { taints = n.taints ++ t ∷ [] }

unfoldable pub any_tainted : List NodeAddressTaint → Bool
any_tainted [] = false
any_tainted (t ∷ ts) = tainted t || any_tainted ts

-- The neighbours of a `DefaultMembership`, in the order of their addition.
abbrev pub DefaultMembership : Type 0
DefaultMembership = List DefaultMembershipNeighbor

unfoldable pub add_neighbor : DefaultMembershipNeighbor → DefaultMembership → DefaultMembership
add_neighbor n m = m ++ n ∷ []

unfoldable pub add_multiple_neighbors :
    List DefaultMembershipNeighbor → DefaultMembership → DefaultMembership
add_multiple_neighbors [] m = m
add_multiple_neighbors (n ∷ ns) m = add_multiple_neighbors ns (add_neighbor n m)

unfoldable pub valid_connection_targets : DefaultMembership → List NodeAddress
valid_connection_targets [] = []
valid_connection_targets (n ∷ ns) =
    let rest = valid_connection_targets ns in
    if any_tainted n.taints then rest else n.connection_info ∷ rest

-- One turn of the loop of `init_neighbors`, before the neighbour is added.
unfoldable pub taint_local : NodeAddress → DefaultMembershipNeighbor → DefaultMembershipNeighbor
taint_local local_info n =
    if local_info.port == n.connection_info.port
    then add_taint (record { port = local_info; other_port = n.connection_info }) n
    else n

unfoldable pub init_neighbors :
    NodeAddress → List DefaultMembershipNeighbor → DefaultMembership → DefaultMembership
init_neighbors local_info [] m = m
init_neighbors local_info (n ∷ ns) m =
    init_neighbors local_info ns (add_neighbor (taint_local local_info n) m)
