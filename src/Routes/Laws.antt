-- ===== src/Routes/Laws.antt =====
-- Which task a request runs after routes are registered.
use leopard.Prelude.{
  ℕ, ◌≡◌, refl, ap, true, Option, none, some, List, ◌∷◌, Text, text_eq_iff, ==_iff, arith,
  Bool-cases, Option-cases, inl, inr, if◌then◌else◌,
}
use leopard.Membership.{NodeAddress, address_eq}
use leopard.Routes.{NodeSocketRouteIdInfo, id_eq, get_route, store, add_route, dispatch}

id_eq_sound : (a b : NodeSocketRouteIdInfo) → id_eq a b ≡ true → a ≡ b
unfolding id_eq address_eq
id_eq_sound a b h =
    let hosts : a.port.host ≡ b.port.host =
      (text_eq_iff a.port.host b.port.host).0 (ground (arith, h)) in
    let ports : a.port.port ≡ b.port.port =
      (==_iff a.port.port b.port.port).0 (ground (arith, h)) in
    let protocols : a.protocol ≡ b.protocol =
      (==_iff a.protocol b.protocol).0 (ground (arith, h)) in
    λ i. record { port = record { host = hosts i; port = ports i }; protocol = protocols i }

module _ {ℓ} {R : Type ℓ} where
  -- What a registration may give.
  abbrev pub Stored :
      NodeSocketRouteIdInfo
      → R
      → List (NodeSocketRouteIdInfo × R)
      → Option (List (NodeSocketRouteIdInfo × R))
      → Type ℓ
  Stored key value storage none = (r : R) × (get_route key storage ≡ some r)
  Stored key value storage (some after) =
      (get_route key storage ≡ none)
      × ((request : Text) (protocol : ℕ) (here sender : NodeAddress)
          → dispatch request protocol here sender after ≡ (
              if id_eq key (record { port = here; protocol = protocol })
              then some (value, request, sender)
              else dispatch request protocol here sender storage))
      × ((id : NodeSocketRouteIdInfo) (r : R)
          → get_route id storage ≡ some r
          → get_route id after ≡ some r)

  dispatch_new :
      (key : NodeSocketRouteIdInfo) (value : R) (storage : List (NodeSocketRouteIdInfo × R))
      (request : Text) (protocol : ℕ) (here sender : NodeAddress)
      → dispatch request protocol here sender ((key, value) ∷ storage) ≡ (
          if id_eq key (record { port = here; protocol = protocol })
          then some (value, request, sender)
          else dispatch request protocol here sender storage)
  unfolding dispatch get_route
  dispatch_new key value storage request protocol here sender =
      elim (Bool-cases (id_eq key (record { port = here; protocol = protocol }))) [
        | inl e ↦ rw (e, get_route) refl
        | inr e ↦ rw (e, get_route) refl
      ]

  kept :
      (key : NodeSocketRouteIdInfo) (value : R) (storage : List (NodeSocketRouteIdInfo × R))
      (id : NodeSocketRouteIdInfo) (r : R)
      → get_route key storage ≡ none
      → get_route id storage ≡ some r
      → get_route id ((key, value) ∷ storage) ≡ some r
  unfolding get_route
  kept key value storage id r h g = elim (Bool-cases (id_eq key id)) [
    | inl e ↦
        let same : get_route key storage ≡ get_route id storage =
          ap (λ k. get_route k storage) (id_eq_sound key id e) in
        absurd (cc (h, g, same))
    | inr e ↦ rw (e, get_route) g
  ]

  -- Registering a route fails only where its id has one. Where it succeeds its id had none, requests
  -- to that id run the new task, requests to any other id run what they ran before, and no route is
  -- lost.
  pub add_route_lem :
      (key : NodeSocketRouteIdInfo) (value : R) (storage : List (NodeSocketRouteIdInfo × R))
      → Stored key value storage (add_route key value storage)
  unfolding store add_route
  add_route_lem key value storage = elim (Option-cases (get_route key storage)) [
    | inl e ↦
        rw (e, add_route, store)
          (e, dispatch_new key value storage, λ id r. kept key value storage id r e)
    | inr (r, e) ↦ rw (e, add_route, store) (r, e)
  ]
