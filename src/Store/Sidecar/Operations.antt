-- ===== src/Store/Sidecar/Operations.antt =====
-- The operations of src/store/sidecar.rs. The floor of a mutation is read from the world before each
-- attempt. What the code asks of serde_json to write, and of the url crate, is a parameter.
use pingora_reverse_proxy.Prelude.{
  Bool, true, false, ◌||◌, Option, none, some, [], ◌++◌, Result, ok, err, if◌then◌else◌, Text, text,
}
use pingora_reverse_proxy.Map.{Map, get, insert}
use pingora_reverse_proxy.Map.Order.{text_ord}
use pingora_reverse_proxy.Route.{RouteKey, RouteData, Instant}
use pingora_reverse_proxy.Store.{StoreError, backend, indeterminate, corrupt_data}
use pingora_reverse_proxy.Store.Memory.{raised_to}
use pingora_reverse_proxy.Store.Sidecar.{SidecarConfig}
use pingora_reverse_proxy.Store.Sidecar.Mutation.{Attempt, mutation_request}
use pingora_reverse_proxy.Store.Sidecar.Request
use pingora_reverse_proxy.Store.Sidecar.Request.{
  Sidecar, SidecarStore, HttpReply, MutationAcknowledgment, put_ack, empty_ack, delete_ack, Run,
  get_request,
}
use pingora_reverse_proxy.Store.Sidecar.Segment.{encode_segment}

pub record PutEnvelope (V : Type 0) : Type 0 where
  pub version : Text
  pub operation : Text
  pub route : V
  pub activity_floor : Text

pub record ActivityEnvelope : Type 0 where
  pub version : Text
  pub last_activity : Text

pub record Health : Type 0 where
  pub version : Text
  pub status : Text

pub record Url : Type 0 where
  pub scheme : Text
  pub has_host : Bool
  pub username : Text
  pub has_password : Bool
  pub has_query : Bool
  pub has_fragment : Bool
  pub path : Text
  pub as_str : Text

pub record JsonWriter (V : Type 0) : Type 0 where
  pub object : Map Text V → V
  pub string : Text → V
  pub put_to_vec : PutEnvelope V → Option Text
  pub activity_to_vec : ActivityEnvelope → Option Text

-- `client`, whose default headers are those of the configuration: whether they can be made.
pub record Connector : Type 0 where
  pub parse : Text → Option Url
  pub is_header_value : Text → Bool
  pub builds : SidecarConfig → Bool
  pub health_of : Text → Option Health

abbrev pub contains_key : {V : Type 0} → Text → Map Text V → Bool
contains_key key object = elim (get key object) [ none ↦ false | some value ↦ true ]

-- The floor at the commit boundary, as the world has it.
abbrev pub Floor : Type 0 → Type 0
Floor W = W → Option Instant

module _ {W V : Type 0} (sidecar : Sidecar W) (writer : JsonWriter V) (store : SidecarStore) where
  unfoldable pub endpoint : Text → Result StoreError Text
  endpoint relative = elim (sidecar.join store.base_url relative) [
    | none ↦ err (backend (text "connect"))
    | some url ↦ ok url
  ]

  unfoldable pub route_endpoint : RouteKey → Text → Result StoreError Text
  unfolding endpoint encode_segment
  route_endpoint key suffix = endpoint (text "v1/routes/" ++ (encode_segment key ++ suffix))

  unfoldable pub encode_route : Text → RouteData (Map Text V) → Result StoreError V
  unfolding get insert
  encode_route operation data_ =
      if contains_key (text "target") data_.extra || contains_key (text "last_activity") data_.extra
      then err (corrupt_data operation (text "<outgoing>"))
      else ok (
          writer.object (
            insert (text "last_activity")
              (writer.string (sidecar.chp_timestamp data_.last_activity))
              (insert (text "target") (writer.string data_.target) data_.extra)))

  abbrev pub envelope : Text → V → Instant → PutEnvelope V
  envelope protocol_operation route floor = record {
    version = text "v1";
    operation = protocol_operation;
    route = route;
    activity_floor = sidecar.chp_timestamp floor;
  }

  abbrev pub or_outgoing : Text → Option Text → Result StoreError (Option Text × Unit {0})
  or_outgoing operation none = err (corrupt_data operation (text "<outgoing>"))
  or_outgoing operation (some body) = ok (some body, tt)

  -- The closure of `put_envelope`, whose state is the latest floor that was sent.
  abbrev pub put_attempt : Text → Text → V → Floor W → Attempt W Instant (Unit {0})
  put_attempt error_operation protocol_operation route floor sent_floor w =
      let sent = raised_to (floor w) sent_floor in
      (
        or_outgoing error_operation (writer.put_to_vec (envelope protocol_operation route sent)),
        sent,
      )

  abbrev pub dated :
      Text → RouteData (Map Text V) → Option Instant → Result StoreError (RouteData (Map Text V))
  dated operation data_ none = err (indeterminate operation)
  dated operation data_ (some at) = ok (record data_ { last_activity = at })

  abbrev pub put_done :
      Text → RouteData (Map Text V) → Run W (HttpReply × Unit {0}) → Run W (RouteData (Map Text V))
  put_done operation data_ (err e, w) = (err e, w)
  put_done operation data_ (ok (reply, value), w) = (dated operation data_ reply.last_activity, w)

  abbrev pub put_to :
      Text
      → Text
      → RouteData (Map Text V)
      → Floor W
      → Result StoreError V
      → Result StoreError Text
      → W
      → Run W (RouteData (Map Text V))
  put_to error_operation protocol_operation data_ floor (err e) url w = (err e, w)
  put_to error_operation protocol_operation data_ floor (ok route) (err e) w = (err e, w)
  put_to error_operation protocol_operation data_ floor (ok route) (ok url) w =
      put_done error_operation data_ (
        mutation_request sidecar store error_operation Request.put url put_ack
          (put_attempt error_operation protocol_operation route floor) data_.last_activity w)

  unfoldable pub put_envelope :
      Text → Text → RouteKey → RouteData (Map Text V) → Floor W → W → Run W (RouteData (Map Text V))
  unfolding encode_route route_endpoint mutation_request
  put_envelope error_operation protocol_operation key data_ floor w =
      put_to error_operation protocol_operation data_ floor (encode_route error_operation data_)
        (route_endpoint key []) w

  unfoldable pub add :
      Instant → RouteKey → Text → Map Text V → Floor W → W → Run W (RouteData (Map Text V))
  unfolding put_envelope
  add now key target extra floor w =
      put_envelope (text "add") (text "add") key
        (record { target = target; last_activity = now; extra = extra }) floor w

  abbrev pub forget : {A : Type 0} → Run W A → Run W (Unit {0})
  forget (err e, w) = (err e, w)
  forget (ok a, w) = (ok tt, w)

  unfoldable pub put : RouteKey → RouteData (Map Text V) → W → Run W (Unit {0})
  unfolding put_envelope
  put key data_ w = forget (put_envelope (text "put") (text "put") key data_ (λ _. none) w)

  unfoldable pub put_preserving_activity :
      RouteKey → RouteData (Map Text V) → Floor W → W → Run W (RouteData (Map Text V))
  unfolding put_envelope
  put_preserving_activity key data_ floor w =
      put_envelope (text "put") (text "put_preserving_activity") key data_ floor w
