-- ===== src/Tests/Routes.antt =====
-- A table with one route, and the registration of another.
use leopard.Prelude.{ℕ, List, [], ◌∷◌, codes}
use leopard.Membership.{NodeAddress}
use leopard.Routes.{NodeSocketRouteIdInfo, add_route}
use leopard.Routes.Laws.{Stored, add_route_lem}

abbrev address : NodeAddress
address = record { host = codes "a"; port = 8000 }

abbrev table : List (NodeSocketRouteIdInfo × ℕ)
table = (record { port = address; protocol = 1 }, 11) ∷ []

abbrev second : NodeSocketRouteIdInfo
second = record { port = address; protocol = 2 }

add_route_lem_example : Stored second 22 table (add_route second 22 table)
add_route_lem_example = add_route_lem second 22 table
