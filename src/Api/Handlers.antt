-- ===== src/Api/Handlers.antt =====
-- The handlers of src/api.rs. The registry's mutations run while other tasks may change the registry,
-- before the task and after it.
use pingora_reverse_proxy.Prelude.{
  ℕ, Bool, true, not, Option, none, some, [], ◌++◌, Result, ok, err, Text, text, if◌then◌else◌,
}
use pingora_reverse_proxy.Map.{Map, get, remove}
use pingora_reverse_proxy.Map.Order.{text_ord}
use pingora_reverse_proxy.Route.{RouteKey, RouteData, Instant, normalize}
use pingora_reverse_proxy.Store.{StoreError}
use pingora_reverse_proxy.RouteTable.Registry
use pingora_reverse_proxy.RouteTable.Registry.{
  RouteRegistry, Mutation, Committed, ConsistencyStatus, consistent, indeterminate,
  consistency_status,
}
use pingora_reverse_proxy.RouteTable.Registry.Run.{run_mutation}
use pingora_reverse_proxy.Api.{authorized}
use pingora_reverse_proxy.Api.Requests.{RoutePathError, route_key_from_uri, inactive_since}
use pingora_reverse_proxy.Api.State.{
  api_request, api_route_get, api_route_add, api_route_delete, last_activity_update, one_route,
  all_routes, empty, plain_text, into_response, ApiState, Surroundings, Endpoint, get_all_routes,
  get_one_route, delete_one_route, post_one_route, post_root_route, delete_root_route,
  method_not_allowed, no_such_path, Request, Handled, counted, retain, retained,
  registry_unavailable, mutation_failure,
}

module _ {S X V : Type 0} (around : Surroundings S X V) where
  unfoldable pub is_authorized : Request → ApiState S X → Bool
  unfolding authorized
  is_authorized request state =
      authorized around.first_char around.constant_time_eq state.auth_token request.authorization

  -- The two checks that stand before every use of the registry.
  unfoldable pub guarded : Request → ApiState S X → Handled S X → Handled S X
  unfolding is_authorized registry_unavailable
  guarded request state handled =
      if not (is_authorized request state)
      then (empty 403, state)
      else (if registry_unavailable state then (empty 503, state) else handled)

  abbrev pub listed : ApiState S X → Result Text (Option Instant) → Handled S X
  listed state (err value) = (plain_text 400 value, state)
  listed state (ok inactive) = (
    record { status = 200; body = all_routes (retained inactive (Registry.all state.registry)) },
    counted api_route_get state,
  )

  abbrev pub found : ApiState S X → Option (RouteData X) → Handled S X
  found state none = (empty 404, state)
  found state (some route) = (record { status = 200; body = one_route route }, state)

  abbrev pub got_key : ApiState S X → Result RoutePathError RouteKey → Handled S X
  got_key state (err error) = (into_response error, state)
  got_key state (ok key) = found state (Registry.get key state.registry)

  -- `run_mutation` under the handler, with what other tasks do around it.
  unfoldable pub mutate : Mutation X → ApiState S X → Result StoreError (Committed X) × ApiState S X
  unfolding run_mutation
  mutate mutation state =
      let (result, registry) =
        run_mutation around.backend true around.now around.detached mutation
          (around.before state.registry) in
      (result, record state { registry = around.after registry })

  abbrev pub added : Result StoreError (Committed X) × ApiState S X → Handled S X
  added (err error, state) = (mutation_failure state error, state)
  added (ok committed, state) =
      (empty 201, counted api_route_add (counted last_activity_update state))

  abbrev pub with_target : RouteKey → Map Text V → Option Text → ApiState S X → Handled S X
  with_target key object none state =
      (plain_text 400 (text "Must specify 'target' as string"), state)
  with_target key object (some target) state = added (
      mutate (Mutation.add key target (around.extra_of (remove (text "last_activity") object)))
        state)

  abbrev pub string_of : Option V → Option Text
  string_of none = none
  string_of (some value) = around.as_string value

  abbrev pub object_of : Option (Map Text V) → Map Text V
  object_of none = []
  object_of (some object) = object

  abbrev pub posted :
      Request → RouteKey → Result Text (Option (Map Text V)) → ApiState S X → Handled S X
  posted request key (err error) state =
      (plain_text 400 (text "Body not valid JSON: " ++ error), state)
  posted request key (ok value) state = guarded request state (
      with_target key (remove (text "target") (object_of value))
        (string_of (get (text "target") (object_of value))) state)

  abbrev pub post_body : Request → RouteKey → Option Text → ApiState S X → Handled S X
  post_body request key none state = (empty 413, state)
  post_body request key (some body) state = posted request key (around.from_slice body) state

  unfoldable pub post_route : Request → RouteKey → ApiState S X → Handled S X
  unfolding guarded mutate mutation_failure
  post_route request key state = post_body request key request.body state

  abbrev pub deleted_status : Option (RouteData X) → ℕ
  deleted_status none = 404
  deleted_status (some route) = 204

  abbrev pub deleted : Result StoreError (Committed X) × ApiState S X → Handled S X
  deleted (err error, state) = (mutation_failure state error, state)
  deleted (ok committed, state) =
      (empty (deleted_status committed.deleted), counted api_route_delete state)

  unfoldable pub delete_route : Request → RouteKey → ApiState S X → Handled S X
  unfolding guarded mutate mutation_failure
  delete_route request key state =
      guarded request state (deleted (mutate (Mutation.delete key) state))

  abbrev pub with_key :
      Result RoutePathError RouteKey
      → (RouteKey → ApiState S X → Handled S X)
      → ApiState S X
      → Handled S X
  with_key (err error) handler state = (into_response error, state)
  with_key (ok key) handler state = handler key state

  abbrev pub handle_endpoint : Request → Endpoint → ApiState S X → Handled S X
  handle_endpoint request (get_all_routes query) state =
      guarded request state (listed state (inactive_since around.crates query))
  handle_endpoint request (get_one_route path) state =
      guarded request state (got_key state (route_key_from_uri around.crates path 2))
  handle_endpoint request post_root_route state = post_route request (normalize (text "/")) state
  handle_endpoint request (post_one_route path) state =
      with_key (route_key_from_uri around.crates path 2) (post_route request) state
  handle_endpoint request delete_root_route state =
      delete_route request (normalize (text "/")) state
  handle_endpoint request (delete_one_route path) state =
      with_key (route_key_from_uri around.crates path 1) (delete_route request) state
  handle_endpoint request method_not_allowed state =
      (plain_text 405 (text "Method not supported"), state)
  handle_endpoint request no_such_path state = (plain_text 404 (text "Not Found"), state)

  abbrev pub completed : Handled S X → Handled S X
  completed (response, state) = (response, counted (api_request response.status) state)

  -- The router and its middleware.
  unfoldable pub handle : Request → ApiState S X → Handled S X
  unfolding guarded post_route delete_route route_key_from_uri inactive_since retain into_response
      Registry.get Registry.all normalize
  handle request state = completed (handle_endpoint request request.endpoint state)
