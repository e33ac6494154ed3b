-- ===== src/Api/Listed.antt =====
-- Which routes the listing of src/api.rs shows.
use pingora_reverse_proxy.Prelude.{
  ◌≡◌, refl, true, false, Option, none, some, Text, ok, [], ◌∷◌, arith, ltb, if◌then◌else◌,
}
use pingora_reverse_proxy.Map.{Map, get}
use pingora_reverse_proxy.Map.Order.{text_ord}
use pingora_reverse_proxy.Map.Laws.{IsSorted, Above, get-eq-none}
use pingora_reverse_proxy.Route.{RouteKey, RouteData, Instant}
use pingora_reverse_proxy.RouteTable.Registry
use pingora_reverse_proxy.Api.Requests.{inactive_since}
use pingora_reverse_proxy.Api.State.{
  ApiState, Surroundings, Request, Handled, all_routes, get_all_routes, registry_unavailable,
  retain, retained,
}
use pingora_reverse_proxy.Api.Handlers.{is_authorized, guarded, listed, handle, completed}

-- `filter` with the test of the listing.
abbrev pub older : {X : Type 0} → Instant → Option (RouteData X) → Option (RouteData X)
older timestamp none = none
older timestamp (some route) = if ltb route.last_activity timestamp then some route else none

Above-retain :
    {X : Type 0} (k : RouteKey) (timestamp : Instant) (routes : Map RouteKey (RouteData X))
    → Above k routes
    → Above k (retain timestamp routes)
unfolding retain
Above-retain k timestamp [] h = tt
Above-retain k timestamp ((j, r) ∷ routes) (p, h) =
    ground (arith, Above-retain k timestamp routes h)

pub retain-IsSorted :
    {X : Type 0} (timestamp : Instant) (routes : Map RouteKey (RouteData X))
    → IsSorted routes
    → IsSorted (retain timestamp routes)
unfolding retain
retain-IsSorted timestamp [] h = tt
retain-IsSorted timestamp ((j, r) ∷ routes) (p, h) =
    ground (arith, retain-IsSorted timestamp routes h, Above-retain j timestamp routes p)

module _ {X : Type 0} (k : RouteKey) (timestamp : Instant) where
  get-retain :
      (routes : Map RouteKey (RouteData X))
      → IsSorted routes
      → get k (retain timestamp routes) ≡ older timestamp (get k routes)
  unfolding retain get
  get-retain [] h = refl
  get-retain ((j, r) ∷ routes) (p, h) =
      let ih = get-retain routes h in
      let absent = get-eq-none j (retain timestamp routes) (Above-retain j timestamp routes p) in
      ground (arith, ih, absent, text_ord.eq_of_cmp k j)

-- Whether a route is to be shown, by the instant that the query asks for.
abbrev pub shown : {X : Type 0} → Option Instant → Option (RouteData X) → Option (RouteData X)
shown none route = route
shown (some timestamp) route = older timestamp route

get-retained :
    {X : Type 0} (inactive : Option Instant) (routes : Map RouteKey (RouteData X)) (k : RouteKey)
    → IsSorted routes
    → get k (retained inactive routes) ≡ shown inactive (get k routes)
get-retained none routes k h = refl
get-retained (some timestamp) routes k h = get-retain k timestamp routes h

module _ {S X V : Type 0} (around : Surroundings S X V) (state : ApiState S X) where
  -- A response of 200 that shows of each key what the snapshot holds, if it is old enough.
  pub record Lists (inactive : Option Instant) (handled : Handled S X) : Type 0 where
    pub routes : Map RouteKey (RouteData X)
    pub response : handled.0 ≡ record { status = 200; body = all_routes routes }
    pub sound :
        (k : RouteKey) → get k routes ≡ shown inactive (get k state.registry.snapshot.routes.by_key)
    pub registry : handled.1.registry ≡ state.registry

  all-eq-by_key :
      registry_unavailable state ≡ false
      → Registry.all state.registry ≡ state.registry.snapshot.routes.by_key
  unfolding Registry.all registry_unavailable
  all-eq-by_key up = ground arith

  listed-Lists :
      (inactive : Option Instant)
      → registry_unavailable state ≡ false
      → IsSorted state.registry.snapshot.routes.by_key
      → Lists inactive (completed around (listed around state (ok inactive)))
  listed-Lists inactive up sorted = record {
    routes = retained inactive (Registry.all state.registry);
    response = refl;
    sound = λ k.
        rw (all-eq-by_key up)
          (get-retained inactive state.registry.snapshot.routes.by_key k sorted);
    registry = refl;
  }

  guarded-allowed :
      (request : Request) (handled : Handled S X)
      → is_authorized around request state ≡ true
      → registry_unavailable state ≡ false
      → guarded around request state handled ≡ handled
  unfolding guarded
  guarded-allowed request handled a u = rw (a, u) refl

  -- A request for the listing that carries the token, while the registry is available and its
  -- snapshot's keys ascend, gets 200 and a map that has of each key the route of the snapshot, if
  -- the query asks for no instant or the route's last activity is earlier, and nothing otherwise;
  -- and the registry is as it was.
  pub handle-Lists :
      (request : Request) (query : Option Text) (inactive : Option Instant)
      → request.endpoint ≡ get_all_routes query
      → inactive_since around.crates query ≡ ok inactive
      → is_authorized around request state ≡ true
      → registry_unavailable state ≡ false
      → IsSorted state.registry.snapshot.routes.by_key
      → Lists inactive (handle around request state)
  unfolding handle
  handle-Lists request query inactive endpoint parsed allowed up sorted =
      rw
        (
          endpoint,
          guarded-allowed request (listed around state (inactive_since around.crates query)) allowed
              up,
          parsed,
        )
        (listed-Lists inactive up sorted)
