-- ===== src/Tests/Membership.antt =====
-- A node among its configured neighbours, itself one of them.
use leopard.Prelude.{◌≡◌, refl, List, [], ◌∷◌, ◌++◌, codes}
use leopard.Membership.{
  NodeAddress, address_eq, DefaultMembershipNeighbor, valid_connection_targets, init_neighbors,
}
use leopard.Membership.Targets.{init_neighbors_lem}

abbrev here : NodeAddress
here = record { host = codes "a"; port = 8000 }

abbrev same_port : NodeAddress
same_port = record { host = codes "b"; port = 8000 }

abbrev configured : List DefaultMembershipNeighbor
configured =
    record { id = codes "1"; connection_info = here; taints = [] }
    ∷ record { id = codes "2"; connection_info = same_port; taints = [] }
    ∷ []

init_neighbors_lem_example :
    valid_connection_targets (init_neighbors here configured [])
    ≡ valid_connection_targets [] ++ same_port ∷ []
unfolding address_eq
init_neighbors_lem_example = init_neighbors_lem here configured [] (refl, (refl, tt))
