-- ===== src/Api/State.antt =====
-- The requests, the responses and the state of src/api.rs. A request's body is `none` if it cannot be
-- read within its limit; serde_json gives the fields of an object, `none` for another value, or an
-- error that comes with its diagnosis in the words of JavaScript.
use pingora_reverse_proxy.Prelude.{
  ℕ, Bool, true, false, ◌||◌, Option, none, some, List, [], ◌∷◌, Result, ltb, Text, text,
  if◌then◌else◌, is_empty,
}
use pingora_reverse_proxy.Map.{Map}
use pingora_reverse_proxy.Map.Order.{text_ord}
use pingora_reverse_proxy.Route.{RouteKey, RouteData, Instant}
use pingora_reverse_proxy.Store.{StoreError, Store}
use pingora_reverse_proxy.Store.Contract.{is_indeterminate}
use pingora_reverse_proxy.RouteTable.Registry.{
  RouteRegistry, consistent, indeterminate, consistency_status,
}
use pingora_reverse_proxy.Api.Requests.{Crates, RoutePathError, bad_request, not_found}

pub data MetricCall : Type 0 where
  api_request : ℕ → MetricCall
  api_route_get api_route_add api_route_delete last_activity_update : MetricCall

pub data Body (X : Type 0) : Type 0 where
  empty_body : Body X
  plain : Text → Body X
  one_route : RouteData X → Body X
  all_routes : Map RouteKey (RouteData X) → Body X

pub record Response (X : Type 0) : Type 0 where
  pub status : ℕ
  pub body : Body X

abbrev pub empty : {X : Type 0} → ℕ → Response X
empty status = record { status = status; body = empty_body }

abbrev pub plain_text : {X : Type 0} → ℕ → Text → Response X
plain_text status t = record { status = status; body = plain t }

-- `RoutePathError::into_response`.
unfoldable pub into_response : {X : Type 0} → RoutePathError → Response X
into_response bad_request = plain_text 400 (text "Bad Request")
into_response not_found = plain_text 404 (text "Not Found")

pub record ApiState (S X : Type 0) : Type 0 where
  pub registry : RouteRegistry S X
  pub auth_token : Option Text
  pub metrics : List MetricCall

-- `ApiState::new`: an empty token is no token.
abbrev pub nonempty_token : Option Text → Option Text
nonempty_token none = none
nonempty_token (some token) = if is_empty token then none else some token

unfoldable pub new : {S X : Type 0} → RouteRegistry S X → Option Text → ApiState S X
new registry auth_token = record {
  registry = registry;
  auth_token = nonempty_token auth_token;
  metrics = [];
}

-- What a handler asks of its surroundings: the crates, and the backend, clock, caller and other
-- tasks of a mutation.
pub record Surroundings (S X V : Type 0) : Type 0 where
  pub crates : Crates
  pub first_char : Text → Option ℕ
  pub constant_time_eq : Text → Text → Bool
  pub from_slice : Text → Result Text (Option (Map Text V))
  pub as_string : V → Option Text
  pub extra_of : Map Text V → X
  pub backend : Store S X
  pub now : Instant
  pub detached : Bool
  pub before : RouteRegistry S X → RouteRegistry S X
  pub after : RouteRegistry S X → RouteRegistry S X

pub data Endpoint : Type 0 where
  get_all_routes : Option Text → Endpoint
  get_one_route delete_one_route post_one_route : Text → Endpoint
  post_root_route delete_root_route method_not_allowed no_such_path : Endpoint

pub record Request : Type 0 where
  pub endpoint : Endpoint
  pub authorization : Option Text
  pub body : Option Text

abbrev pub Handled : Type 0 → Type 0 → Type 0
Handled S X = Response X × ApiState S X

abbrev pub counted : {S X : Type 0} → MetricCall → ApiState S X → ApiState S X
counted call state = record state { metrics = call ∷ state.metrics }

-- `routes.retain(|_, route| route.last_activity < timestamp)`.
unfoldable pub retain :
    {X : Type 0} → Instant → Map RouteKey (RouteData X) → Map RouteKey (RouteData X)
retain timestamp [] = []
retain timestamp ((key, route) ∷ routes) =
    let rest = retain timestamp routes in
    if ltb route.last_activity timestamp then (key, route) ∷ rest else rest

abbrev pub retained :
    {X : Type 0} → Option Instant → Map RouteKey (RouteData X) → Map RouteKey (RouteData X)
retained none routes = routes
retained (some timestamp) routes = retain timestamp routes

unfoldable pub registry_unavailable : {S X : Type 0} → ApiState S X → Bool
unfolding consistency_status
registry_unavailable state = elim (consistency_status state.registry) [
  | indeterminate ↦ true
  | consistent ↦ false
]

unfoldable pub mutation_failure : {S X : Type 0} → ApiState S X → StoreError → Response X
unfolding registry_unavailable
mutation_failure state error =
    if is_indeterminate error || registry_unavailable state
    then empty 503
    else plain_text 500 (text "Internal Server Error")
