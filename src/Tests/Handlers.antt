-- ===== src/Tests/Handlers.antt =====
-- The management API over the memory store. A body is the target, a query is the date, a byte.
use pingora_reverse_proxy.Prelude.{
  ℕ, ◌≡◌, ◌≤◌, refl, inl, false, Option, none, some, [], ◌∷◌, ok, Text, text, text_eq,
}
use pingora_reverse_proxy.Map.Order.{text_ord}
use pingora_reverse_proxy.Route.{Instant}
use pingora_reverse_proxy.Store.Memory.{MemoryStore, memory_store}
use pingora_reverse_proxy.RouteTable.Registry.Run.{run_mutation}
use pingora_reverse_proxy.RouteTable.Snapshot.{from_routes}
use pingora_reverse_proxy.RouteTable.Tracker
use pingora_reverse_proxy.Api.Requests.{Crates, inactive_since}
use pingora_reverse_proxy.Api.State.{
  ApiState, Surroundings, Request, all_routes, get_all_routes, delete_one_route, api_request,
  api_route_delete, new, registry_unavailable,
}
use pingora_reverse_proxy.Api.Handlers.{is_authorized, handle}
use pingora_reverse_proxy.Api.Listed.{Lists, handle-Lists}
use pingora_reverse_proxy.Api.Refused.{IsBare, handle-Refused}
use pingora_reverse_proxy.Tests.Data.{helpers, registry, stored-IsSorted, hub, root_key}

abbrev byte : Text → Option Instant
byte [] = none
byte (b ∷ bs) = some b

abbrev crates : Crates
crates = record {
  pathname = some;
  from_utf8 = some;
  form_urlencoded = λ query. (text "inactiveSince", query) ∷ [];
  rfc3339 = λ raw. none;
  date = byte;
  rfc2822 = λ raw. none;
  spaced = λ raw. none;
}

abbrev around : Surroundings (MemoryStore ℕ) ℕ Text
around = record {
  crates = crates;
  first_char = byte;
  constant_time_eq = text_eq;
  from_slice = λ body. ok (some ((text "target", body) ∷ []));
  as_string = some;
  extra_of = λ object. 7;
  backend = memory_store ℕ;
  now = 30;
  detached = false;
  before = λ r. r;
  after = λ r. r;
}

abbrev state : ApiState (MemoryStore ℕ) ℕ
state = new registry (some (text "abc"))

abbrev asked : Request
asked = record {
  endpoint = get_all_routes (some (20 ∷ []));
  authorization = some (text "token abc");
  body = none;
}

abbrev removal : Request
removal = record {
  endpoint = delete_one_route (text "/api/routes/user/a/");
  authorization = some (text "token abc");
  body = none;
}

abbrev unknown : Request
unknown = record removal { authorization = some (text "token abd") }

-- The route that was used at 20 is not older than that.
asked_test :
    (handle around asked state).0
    ≡ record { status = 200; body = all_routes ((root_key, hub) ∷ []) }
unfolding handle helpers new Tracker.default is_authorized from_routes
asked_test = refl

removal_test : (handle around removal state).1.metrics ≡ api_request 204 ∷ api_route_delete ∷ []
unfolding handle helpers new Tracker.default is_authorized from_routes run_mutation memory_store
removal_test = refl

handle-Lists_example : Lists around state (some 20) (handle around asked state)
unfolding new helpers Tracker.default inactive_since is_authorized from_routes registry_unavailable
handle-Lists_example =
    handle-Lists around state asked (some (20 ∷ [])) (some 20) refl refl refl refl stored-IsSorted

handle-Refused_example :
    (400 ≤ (handle around unknown state).0.status)
    × IsBare (handle around unknown state).0.body
    × ((handle around unknown state).1.registry ≡ state.registry)
    × ((handle around unknown state).1.metrics
        ≡ api_request (handle around unknown state).0.status ∷ state.metrics)
unfolding is_authorized helpers new Tracker.default
handle-Refused_example = handle-Refused around unknown state (inl refl)
