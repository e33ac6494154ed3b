-- ===== src/Store/Sidecar/Update.antt =====
-- `update_activity` and `delete` of src/store/sidecar.rs.
use pingora_reverse_proxy.Prelude.{
  Option, none, some, [], Result, ok, err, ◌==◌, if◌then◌else◌, Text, text,
}
use pingora_reverse_proxy.Map.{Map}
use pingora_reverse_proxy.Route.{RouteKey, RouteData, Instant}
use pingora_reverse_proxy.Store.{StoreError, indeterminate, corrupt_data}
use pingora_reverse_proxy.Store.Sidecar.Decode.{JsonReader, decode_route}
use pingora_reverse_proxy.Store.Sidecar.Mutation.{Attempt, mutation_request}
use pingora_reverse_proxy.Store.Sidecar.Operations.{JsonWriter, route_endpoint, forget}
use pingora_reverse_proxy.Store.Sidecar.Request
use pingora_reverse_proxy.Store.Sidecar.Request.{
  Sidecar, SidecarStore, HttpReply, MutationAcknowledgment, empty_ack, delete_ack, Run,
}

module _ {W V : Type 0} (sidecar : Sidecar W) (writer : JsonWriter V) (store : SidecarStore) where
  -- A closure without a state.
  abbrev pub constant : Option Text → Attempt W (Unit {0}) (Unit {0})
  constant body m w = (ok (body, tt), m)

  abbrev pub patched : Option Text → Result StoreError Text → W → Run W (HttpReply × Unit {0})
  patched none url w = (err (corrupt_data (text "update_activity") (text "<outgoing>")), w)
  patched (some body) (err e) w = (err e, w)
  patched (some body) (ok url) w =
      mutation_request sidecar store (text "update_activity") Request.patch url empty_ack
        (constant (some body)) tt w

  unfoldable pub update_activity : RouteKey → Instant → W → Run W (Unit {0})
  unfolding route_endpoint mutation_request
  update_activity key at w = forget sidecar writer store (
      patched
        (writer.activity_to_vec
          (record { version = text "v1"; last_activity = sidecar.chp_timestamp at }))
        (route_endpoint sidecar writer store key (text "/activity")) w)

  abbrev pub prior_of :
      Option (RouteData (Map Text V)) → Result StoreError (Option (RouteData (Map Text V)))
  prior_of none = err (indeterminate (text "delete"))
  prior_of (some route) = ok (some route)

  abbrev pub deleted :
      JsonReader V → Run W (HttpReply × Unit {0}) → Run W (Option (RouteData (Map Text V)))
  deleted json (err e, w) = (err e, w)
  deleted json (ok (reply, value), w) = (
    if reply.status == 404
        then ok none
        else (if reply.status == 200
            then prior_of (decode_route sidecar json reply.body)
            else err (indeterminate (text "delete"))),
    w,
  )

  abbrev pub removed :
      JsonReader V → Result StoreError Text → W → Run W (Option (RouteData (Map Text V)))
  removed json (err e) w = (err e, w)
  removed json (ok url) w = deleted json (
      mutation_request sidecar store (text "delete") Request.delete url delete_ack (constant none)
        tt w)

  unfoldable pub delete : JsonReader V → RouteKey → W → Run W (Option (RouteData (Map Text V)))
  unfolding route_endpoint mutation_request decode_route
  delete json key w = removed json (route_endpoint sidecar writer store key []) w
