-- ===== src/Store/Sidecar/Decode.antt =====
-- The strict decoders of src/store/sidecar.rs. serde's `MapAccess` is the list of an object's
-- entries, in which `none` is an entry that cannot be read.
use pingora_reverse_proxy.Prelude.{
  Option, none, some, List, [], ◌∷◌, Result, ok, err, Text, text, text_eq, if◌then◌else◌,
}
use pingora_reverse_proxy.Map.{Map, get, insert}
use pingora_reverse_proxy.Map.Order.{text_ord}
use pingora_reverse_proxy.Route.{RouteKey, RouteData, Instant}
use pingora_reverse_proxy.Store.{StoreError, corrupt_data}
use pingora_reverse_proxy.Store.Redis.Keys
use pingora_reverse_proxy.Store.Sidecar.Request.{Sidecar, parse_timestamp}

abbrev pub Entries : Type 0 → Type 0
Entries V = List (Option (Text × V))

-- What the decoders ask of serde_json: the entries of a body that is an object of the kind that is
-- read and nothing more, and the text of a string.
pub record JsonReader (V : Type 0) : Type 0 where
  pub as_string : V → Option Text
  pub route_of : Text → Option (Entries V)
  pub snapshot_of : Text → Option (Entries (Entries V))

abbrev pub and_then : {A B : Type 0} → Option A → (A → Option B) → Option B
and_then none f = none
and_then (some a) f = f a

-- A field that must not have been there.
abbrev pub unless_some : {A B : Type 0} → Option A → Option B → Option B
unless_some none b = b
unless_some (some a) b = none

module _ {W V : Type 0} (sidecar : Sidecar W) (json : JsonReader V) where
  abbrev pub finished : Option Text → Option Instant → Map Text V → Option (RouteData (Map Text V))
  finished none last_activity extra = none
  finished (some target) none extra = none
  finished (some target) (some at) extra =
      some (record { target = target; last_activity = at; extra = extra })

  -- `RouteDataVisitor::visit_map`.
  unfoldable pub visit_route :
      Option Text → Option Instant → Map Text V → Entries V → Option (RouteData (Map Text V))
  unfolding parse_timestamp text_eq get insert
  visit_route target last_activity extra [] = finished target last_activity extra
  visit_route target last_activity extra (none ∷ entries) = none
  visit_route target last_activity extra (some (field, value) ∷ entries) =
      if text_eq field (text "target")
      then unless_some target (
          and_then (json.as_string value)
            (λ raw. visit_route (some raw) last_activity extra entries))
      else (if text_eq field (text "last_activity")
          then unless_some last_activity (
              and_then (json.as_string value) (λ raw.
                and_then (parse_timestamp sidecar raw)
                  (λ at. visit_route target (some at) extra entries)))
          else unless_some (get field extra)
              (visit_route target last_activity (insert field value extra) entries))

  abbrev pub key_of : Result StoreError RouteKey → Option RouteKey
  key_of (err e) = none
  key_of (ok key) = some key

  -- `SnapshotVisitor::visit_map`.
  unfoldable pub visit_snapshot :
      Map RouteKey (RouteData (Map Text V))
      → Entries (Entries V)
      → Option (Map RouteKey (RouteData (Map Text V)))
  unfolding Keys.decode_key visit_route
  visit_snapshot routes [] = some routes
  visit_snapshot routes (none ∷ entries) = none
  visit_snapshot routes (some (raw_key, fields) ∷ entries) =
      and_then (key_of (Keys.decode_key raw_key)) (λ key.
        and_then (visit_route none none [] fields) (λ data_.
          unless_some (get key routes) (visit_snapshot (insert key data_ routes) entries)))

  abbrev pub or_corrupt : {A : Type 0} → Option A → Result StoreError A
  or_corrupt none = err (corrupt_data (text "snapshot") (text "<response>"))
  or_corrupt (some a) = ok a

  unfoldable pub decode_snapshot : Text → Result StoreError (Map RouteKey (RouteData (Map Text V)))
  unfolding visit_snapshot
  decode_snapshot body = or_corrupt (and_then (json.snapshot_of body) (visit_snapshot []))

  unfoldable pub decode_route : Text → Option (RouteData (Map Text V))
  unfolding visit_route
  decode_route body = and_then (json.route_of body) (visit_route none none [])
