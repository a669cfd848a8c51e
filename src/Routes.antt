-- ===== src/Routes.antt =====
-- connection/src/route/default.rs: the table of routes, and the dispatch of a request. A route is
-- its task.
pub mod Laws
use mathlib.Core.Option
use leopard.Prelude.{ℕ, Bool, ◌&&◌, Option, none, some, List, [], ◌∷◌, Text, ◌==◌, if◌then◌else◌}
use leopard.Membership.{NodeAddress, address_eq}

pub record NodeSocketRouteIdInfo : Type 0 where
  pub port : NodeAddress
  pub protocol : ℕ

unfoldable pub id_eq : NodeSocketRouteIdInfo → NodeSocketRouteIdInfo → Bool
id_eq a b = address_eq a.port b.port && (a.protocol == b.protocol)

module _ {ℓ} {R : Type ℓ} where
  -- The table of a new handler.
  unfoldable pub new_routes : List (NodeSocketRouteIdInfo × R)
  new_routes = []

  unfoldable pub get_route : NodeSocketRouteIdInfo → List (NodeSocketRouteIdInfo × R) → Option R
  get_route id [] = none
  get_route id ((k, r) ∷ storage) =
      let rest = get_route id storage in if id_eq k id then some r else rest

  -- None is the error, which leaves the table as it is.
  unfoldable pub store :
      NodeSocketRouteIdInfo
      → R
      → List (NodeSocketRouteIdInfo × R)
      → Option (List (NodeSocketRouteIdInfo × R))
  store key value storage = elim (get_route key storage) [
    | some r ↦ none
    | none ↦ some ((key, value) ∷ storage)
  ]

  unfoldable pub add_route :
      NodeSocketRouteIdInfo
      → R
      → List (NodeSocketRouteIdInfo × R)
      → Option (List (NodeSocketRouteIdInfo × R))
  add_route id route storage = store id route storage

  -- The task that runs, with the request and the sender; none where there is no route.
  unfoldable pub dispatch :
      Text
      → ℕ
      → NodeAddress
      → NodeAddress
      → List (NodeSocketRouteIdInfo × R)
      → Option (R × Text × NodeAddress)
  dispatch request protocol local_address sender_address storage =
      Option.map (λ r. (r, request, sender_address))
        (get_route (record { port = local_address; protocol = protocol }) storage)
