-- ===== src/Api/Refused.antt =====
-- What a caller without the token, or of a registry that is unavailable, gets from the handlers of
-- src/api.rs.
use pingora_reverse_proxy.Prelude.{
  ◌≡◌, refl, ap, ◌∷◌, ◌⊎◌, inl, inr, Bool, true, false, Option, none, some, Result, ok, err, Text,
  ◌≤◌, arith, not, if◌then◌else◌,
}
use pingora_reverse_proxy.Map.{Map}
use pingora_reverse_proxy.Map.Order.{text_ord}
use pingora_reverse_proxy.Route.{RouteKey}
use pingora_reverse_proxy.Api.Requests.{RoutePathError, bad_request, not_found, route_key_from_uri}
use pingora_reverse_proxy.Api.State.{
  MetricCall, Body, ApiState, Surroundings, Endpoint, Request, Handled, empty_body, plain,
  one_route, all_routes, get_all_routes, get_one_route, delete_one_route, post_one_route,
  post_root_route, delete_root_route, method_not_allowed, no_such_path, into_response,
  registry_unavailable, empty,
}
use pingora_reverse_proxy.Api.Handlers.{
  is_authorized, guarded, post_route, delete_route, handle, handle_endpoint, posted, post_body,
  with_key,
}

-- The body carries no route.
abbrev pub IsBare : {X : Type 0} → Body X → Type 0
IsBare empty_body = Unit
IsBare (plain t) = Unit
IsBare (one_route route) = ⊥
IsBare (all_routes routes) = ⊥

-- The handler did nothing: an error status, no route in the answer, and the same state.
pub record Refuses {S X : Type 0} (state : ApiState S X) (handled : Handled S X) : Type 0 where
  pub status : 400 ≤ handled.0.status
  pub body : IsBare handled.0.body
  pub kept : handled.1 ≡ state

module _ {S X V : Type 0} (around : Surroundings S X V) (request : Request)
    (state : ApiState S X) where
  -- The request is refused whatever it asks.
  abbrev pub IsRefused : Type 0
  IsRefused = (is_authorized around request state ≡ false) ⊎ (registry_unavailable state ≡ true)

  refuse : (error : RoutePathError) → Refuses state (into_response error, state)
  unfolding into_response
  refuse bad_request = record { status = ground arith; body = tt; kept = refl }
  refuse not_found = record { status = ground arith; body = tt; kept = refl }

  choose :
      (a u : Bool) (handled : Handled S X)
      → (a ≡ false) ⊎ (u ≡ true)
      → Refuses state
          (if not a then (empty 403, state) else (if u then (empty 503, state) else handled))
  choose false u handled h = record { status = ground arith; body = tt; kept = refl }
  choose true true handled h = record { status = ground arith; body = tt; kept = refl }
  choose true false handled (inl e) = cc
  choose true false handled (inr e) = cc

  guarded-Refuses :
      (handled : Handled S X) → IsRefused → Refuses state (guarded around request state handled)
  unfolding guarded
  guarded-Refuses handled h =
      choose (is_authorized around request state) (registry_unavailable state) handled h

  posted-Refuses :
      (key : RouteKey) (value : Result Text (Option (Map Text V)))
      → IsRefused
      → Refuses state (posted around request key value state)
  posted-Refuses key (err error) h = record { status = ground arith; body = tt; kept = refl }
  posted-Refuses key (ok value) h = guarded-Refuses _ h

  post_body-Refuses :
      (key : RouteKey) (body : Option Text)
      → IsRefused
      → Refuses state (post_body around request key body state)
  post_body-Refuses key none h = record { status = ground arith; body = tt; kept = refl }
  post_body-Refuses key (some body) h = posted-Refuses key (around.from_slice body) h

  post_route-Refuses :
      (key : RouteKey) → IsRefused → Refuses state (post_route around request key state)
  unfolding post_route
  post_route-Refuses key h = post_body-Refuses key request.body h

  delete_route-Refuses :
      (key : RouteKey) → IsRefused → Refuses state (delete_route around request key state)
  unfolding delete_route
  delete_route-Refuses key h = guarded-Refuses _ h

  with_key-Refuses :
      (key : Result RoutePathError RouteKey) (handler : RouteKey → ApiState S X → Handled S X)
      → ((k : RouteKey) → Refuses state (handler k state))
      → Refuses state (with_key around key handler state)
  with_key-Refuses (err error) handler h = refuse error
  with_key-Refuses (ok key) handler h = h key

  handle_endpoint-Refuses :
      (endpoint : Endpoint)
      → IsRefused
      → Refuses state (handle_endpoint around request endpoint state)
  handle_endpoint-Refuses (get_all_routes query) h = guarded-Refuses _ h
  handle_endpoint-Refuses (get_one_route path) h = guarded-Refuses _ h
  handle_endpoint-Refuses post_root_route h = post_route-Refuses _ h
  handle_endpoint-Refuses (post_one_route path) h =
      with_key-Refuses (route_key_from_uri around.crates path 2) (post_route around request)
        (λ k. post_route-Refuses k h)
  handle_endpoint-Refuses delete_root_route h = delete_route-Refuses _ h
  handle_endpoint-Refuses (delete_one_route path) h =
      with_key-Refuses (route_key_from_uri around.crates path 1) (delete_route around request)
        (λ k. delete_route-Refuses k h)
  handle_endpoint-Refuses method_not_allowed h = record {
    status = ground arith;
    body = tt;
    kept = refl;
  }
  handle_endpoint-Refuses no_such_path h = record { status = ground arith; body = tt; kept = refl }

  -- Whatever the endpoint, the path and the body: if the request does not carry the configured
  -- token, or the registry is unavailable, the response has a status from 400 on and no route in
  -- its body, and the registry is as it was; only the request itself is counted.
  pub handle-Refused :
      IsRefused
      → (400 ≤ (handle around request state).0.status)
        × IsBare (handle around request state).0.body
        × ((handle around request state).1.registry ≡ state.registry)
        × ((handle around request state).1.metrics
            ≡ MetricCall.api_request (handle around request state).0.status ∷ state.metrics)
  unfolding handle
  handle-Refused h =
      let r = handle_endpoint-Refuses request.endpoint h in
      (
        r.status,
        r.body,
        ap (λ s. s.registry) r.kept,
        ap
            (λ s.
              MetricCall.api_request
                (handle_endpoint around request request.endpoint state).0.status
              ∷ s.metrics)
            r.kept,
      )
