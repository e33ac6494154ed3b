-- ===== src/Store/Sidecar/Connect.antt =====
-- `connect`, `validate_base_url` and `snapshot` of src/store/sidecar.rs.
use pingora_reverse_proxy.Prelude.{
  Bool, true, false, not, ◌||◌, ◌&&◌, Option, none, some, ◌++◌, Result, ok, err, ◌==◌,
  if◌then◌else◌, is_empty, Text, text, text_eq,
}
use pingora_reverse_proxy.Map.{Map}
use pingora_reverse_proxy.Route.{RouteKey, RouteData}
use pingora_reverse_proxy.Store.{StoreError, backend}
use pingora_reverse_proxy.Store.Sidecar.{SidecarConfig}
use pingora_reverse_proxy.Store.Sidecar.Decode.{JsonReader, decode_snapshot}
use pingora_reverse_proxy.Store.Sidecar.Operations.{JsonWriter, Connector, Health, Url, endpoint}
use pingora_reverse_proxy.Store.Sidecar.Request.{Sidecar, SidecarStore, HttpReply, Run, get_request}

module _ (connector : Connector) where
  abbrev pub is_base : Url → Bool
  is_base url =
      (text_eq url.scheme (text "http") || text_eq url.scheme (text "https"))
      && (url.has_host
          && (is_empty url.username
              && (not url.has_password
                  && (not url.has_query && (not url.has_fragment && text_eq url.path (text "/"))))))

  -- The path is `/` already when it is set.
  unfoldable pub validate_base_url : Text → Result StoreError Text
  unfolding text_eq
  validate_base_url raw = elim (connector.parse raw) [
    | none ↦ err (backend (text "connect"))
    | some url ↦ if is_base url then ok url.as_str else err (backend (text "connect"))
  ]

  abbrev pub has_headers : Option Text → Bool
  has_headers none = true
  has_headers (some token) = connector.is_header_value (text "Bearer " ++ token)

  module _ {W V : Type 0} (sidecar : Sidecar W) (writer : JsonWriter V) where
    abbrev pub is_healthy : Option Health → Bool
    is_healthy none = false
    is_healthy (some health) =
        text_eq health.version (text "v1") && text_eq health.status (text "ok")

    abbrev pub checked : SidecarStore → Run W HttpReply → Run W SidecarStore
    checked store (err e, w) = (err e, w)
    checked store (ok reply, w) =
        if (reply.status == 200) && is_healthy (connector.health_of reply.body)
        then (ok store, w)
        else (err (backend (text "connect")), w)

    abbrev pub probed : SidecarStore → Result StoreError Text → W → Run W SidecarStore
    probed store (err e) w = (err e, w)
    probed store (ok url) w = checked store (get_request sidecar store (text "connect") url w)

    abbrev pub store_of : SidecarConfig → Text → SidecarStore
    store_of config base_url = record {
      base_url = base_url;
      max_attempts = config.max_attempts;
      initial_backoff = config.initial_backoff;
      max_backoff = config.max_backoff;
      connect_timeout = config.connect_timeout;
      request_timeout = config.request_timeout;
    }

    abbrev pub built : SidecarConfig → Result StoreError Text → W → Run W SidecarStore
    built config (err e) w = (err e, w)
    built config (ok base_url) w =
        if has_headers config.bearer_token && connector.builds config
        then probed (store_of config base_url)
            (endpoint sidecar writer (store_of config base_url) (text "v1/health")) w
        else (err (backend (text "connect")), w)

    unfoldable pub connect : SidecarConfig → W → Run W SidecarStore
    unfolding validate_base_url endpoint get_request
    connect config w = built config (validate_base_url config.base_url) w

module _ {W V : Type 0} (sidecar : Sidecar W) (writer : JsonWriter V) (json : JsonReader V) where
  abbrev pub loaded : Run W HttpReply → Run W (Map RouteKey (RouteData (Map Text V)))
  loaded (err e, w) = (err e, w)
  loaded (ok reply, w) = (
    if reply.status == 200
        then decode_snapshot sidecar json reply.body
        else err (backend (text "snapshot")),
    w,
  )

  abbrev pub fetched :
      SidecarStore → Result StoreError Text → W → Run W (Map RouteKey (RouteData (Map Text V)))
  fetched store (err e) w = (err e, w)
  fetched store (ok url) w = loaded (get_request sidecar store (text "snapshot") url w)

  unfoldable pub snapshot : SidecarStore → W → Run W (Map RouteKey (RouteData (Map Text V)))
  unfolding endpoint get_request decode_snapshot
  snapshot store w = fetched store (endpoint sidecar writer store (text "v1/routes")) w
