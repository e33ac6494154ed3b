-- ===== src/Upstream/Headers.antt =====
-- The header policy of src/upstream.rs. The header map, names and values of the http crate are a
-- parameter, with the laws of reads after writes that the code relies on.
use pingora_reverse_proxy.Prelude.{
  ℕ, ◌+◌, ◌≡◌, Bool, true, false, not, ◌&&◌, ◌||◌, Option, none, some, List, [], ◌∷◌, ◌++◌, map,
  any, leb, ◌==◌, if◌then◌else◌, Result, ok, err, Text, text, text_eq, split, is_empty,
}
use pingora_reverse_proxy.Map.{Map}
use pingora_reverse_proxy.Config.{ProxyOptions}
use pingora_reverse_proxy.Upstream.{Target, target_authority}

-- `HeaderMap`, `HeaderName::from_bytes`, and `to_str`, `from_str`, `from_static` of `HeaderValue`.
pub record HttpHeaders (HeaderMap HeaderValue : Type 0) : Type 0 where
  pub get_all : Text → HeaderMap → List HeaderValue
  pub insert : Text → HeaderValue → HeaderMap → HeaderMap
  pub remove : Text → HeaderMap → HeaderMap
  pub from_bytes : Text → Option Text
  pub to_str : HeaderValue → Option Text
  pub from_str : Text → Option HeaderValue
  pub from_static : Text → HeaderValue
  pub get_all-insert :
      (j k : Text) (v : HeaderValue) (h : HeaderMap)
      → get_all j (insert k v h) ≡ (if text_eq j k then v ∷ [] else get_all j h)
  pub get_all-remove :
      (j k : Text) (h : HeaderMap)
      → get_all j (remove k h) ≡ (if text_eq j k then [] else get_all j h)

pub data ProxyRequestError : Type 0 where
  invalid_custom_header_name invalid_custom_header_value : Text → ProxyRequestError
  invalid_location : ProxyRequestError

pub record ForwardedContext : Type 0 where
  pub client_address : Text
  pub port : ℕ
  pub protocol : Text

abbrev pub connection : Text
connection = text "connection"

abbrev pub upgrade : Text
upgrade = text "upgrade"

abbrev pub host_header : Text
host_header = text "host"

abbrev pub forwarded_host : Text
forwarded_host = text "x-forwarded-host"

-- The names that are removed whatever the request says.
abbrev pub hop_names : List Text
hop_names =
    text "keep-alive"
    ∷ text "proxy-connection"
    ∷ text "proxy-authorization"
    ∷ text "proxy-authenticate"
    ∷ text "te"
    ∷ text "trailer"
    ∷ text "transfer-encoding"
    ∷ []

abbrev pub head {ℓ} : {A : Type ℓ} → List A → Option A
head [] = none
head (x ∷ xs) = some x

abbrev pub filter_map {ℓ κ} : {A : Type ℓ} {B : Type κ} → (A → Option B) → List A → List B
filter_map f [] = []
filter_map f (x ∷ xs) = elim (f x) [ none ↦ filter_map f xs | some y ↦ y ∷ filter_map f xs ]

abbrev pub filter {ℓ} : {A : Type ℓ} → (A → Bool) → List A → List A
filter p [] = []
filter p (x ∷ xs) = elim (p x) [ true ↦ x ∷ filter p xs | false ↦ filter p xs ]

abbrev pub concat {ℓ} : {A : Type ℓ} → List (List A) → List A
concat [] = []
concat (x ∷ xs) = x ++ concat xs

abbrev pub to_lower : ℕ → ℕ
to_lower b = if leb 65 b && leb b 90 then b + 32 else b

unfoldable pub eq_ignore_ascii_case : Text → Text → Bool
unfolding text_eq
eq_ignore_ascii_case s t = text_eq (map to_lower s) (map to_lower t)

abbrev is_blank : ℕ → Bool
is_blank b = b == 32 || b == 9

unfoldable pub trim_left : Text → Text
trim_left [] = []
trim_left (x ∷ xs) = elim (is_blank x) [ true ↦ trim_left xs | false ↦ x ∷ xs ]

unfoldable pub trim_right : Text → Text
trim_right [] = []
trim_right (x ∷ xs) =
    let rest = trim_right xs in if is_blank x && is_empty rest then [] else x ∷ rest

-- `trim` on the text of a header value, whose whitespace is spaces and tabs.
unfoldable pub trim : Text → Text
unfolding trim_left trim_right
trim s = trim_right (trim_left s)

module _ {H V : Type 0} (http : HttpHeaders H V) where
  unfoldable pub connection_tokens : H → List Text
  unfolding trim split
  connection_tokens headers =
      filter (λ token. not (is_empty token))
        (map trim
          (concat (map (split 44) (filter_map http.to_str (http.get_all connection headers)))))

  abbrev pub header_text : Option V → Option Text
  header_text none = none
  header_text (some value) = http.to_str value

  abbrev pub is_text : Text → Option Text → Bool
  is_text expected none = false
  is_text expected (some value) = eq_ignore_ascii_case value expected

  unfoldable pub is_websocket_upgrade : H → Bool
  unfolding connection_tokens eq_ignore_ascii_case
  is_websocket_upgrade headers =
      is_text (text "websocket") (header_text (head (http.get_all upgrade headers)))
      && any (λ token. eq_ignore_ascii_case token upgrade) (connection_tokens headers)

  unfoldable pub remove_all : List Text → H → H
  remove_all [] headers = headers
  remove_all (name ∷ names) headers = remove_all names (http.remove name headers)

  -- The headers that the `Connection` header names.
  unfoldable pub named : Bool → H → List Text
  unfolding connection_tokens eq_ignore_ascii_case
  named websocket headers = filter_map http.from_bytes (
      filter (λ token. not (websocket && eq_ignore_ascii_case token upgrade))
        (connection_tokens headers))

  unfoldable pub remove_hop_by_hop : Bool → H → H
  unfolding named remove_all
  remove_hop_by_hop websocket headers =
      let rest = remove_all hop_names (remove_all (named websocket headers) headers) in
      if websocket
      then http.insert connection (http.from_static upgrade) rest
      else http.remove upgrade (http.remove connection rest)

  abbrev pub parse_value :
      Text → Text → Option Text → Option V → Result ProxyRequestError (Text × V)
  parse_value name value none v = err (invalid_custom_header_name name)
  parse_value name value (some n) none = err (invalid_custom_header_value name)
  parse_value name value (some n) (some v) = ok (n, v)

  abbrev pub cons_header :
      Result ProxyRequestError (Text × V)
      → Result ProxyRequestError (List (Text × V))
      → Result ProxyRequestError (List (Text × V))
  cons_header (err e) rest = err e
  cons_header (ok x) (err e) = err e
  cons_header (ok x) (ok xs) = ok (x ∷ xs)

  -- The loop over the custom headers, which stops at the first one that is invalid.
  unfoldable pub parse_custom : Map Text Text → Result ProxyRequestError (List (Text × V))
  parse_custom [] = ok []
  parse_custom ((name, value) ∷ rest) =
      cons_header (parse_value name value (http.from_bytes name) (http.from_str value))
        (parse_custom rest)

  abbrev pub required : Text → Option V → Result ProxyRequestError (Option V)
  required name none = err (invalid_custom_header_value name)
  required name (some v) = ok (some v)

  unfoldable pub origin_host : Target → ProxyOptions → Result ProxyRequestError (Option V)
  unfolding target_authority
  origin_host target options =
      if options.change_origin
      then required host_header (http.from_str (target_authority target))
      else ok none

  unfoldable pub insert_all : List (Text × V) → H → H
  insert_all [] headers = headers
  insert_all ((name, value) ∷ rest) headers = insert_all rest (http.insert name value headers)

  abbrev pub insert_some : Text → Option V → H → H
  insert_some name none headers = headers
  insert_some name (some value) headers = http.insert name value headers

  abbrev pub with_upgrade : Option V → H → H
  with_upgrade none headers = headers
  with_upgrade (some value) headers =
      http.insert upgrade value (http.insert connection (http.from_static upgrade) headers)

  -- `is_websocket_upgrade(headers).then(|| headers[UPGRADE].clone())`.
  unfoldable pub websocket_upgrade : H → Option V
  unfolding is_websocket_upgrade
  websocket_upgrade headers =
      if is_websocket_upgrade headers then head (http.get_all upgrade headers) else none

  abbrev pub is_some {ℓ} : {A : Type ℓ} → Option A → Bool
  is_some none = false
  is_some (some a) = true

  abbrev pub keep_host : ProxyOptions → H → H → H
  keep_host options original headers =
      if options.x_forward && is_empty (http.get_all forwarded_host headers)
      then insert_some forwarded_host (head (http.get_all host_header original)) headers
      else headers

  -- The changes of `apply_request_headers`, which follow its checks.
  unfoldable pub transform : ProxyOptions → Option V → List (Text × V) → H → H
  unfolding websocket_upgrade remove_hop_by_hop insert_all
  transform options origin custom headers =
      let websocket = websocket_upgrade headers in
      let kept = keep_host options headers (remove_hop_by_hop (is_some websocket) headers) in
      let extended = insert_all custom (insert_some host_header origin kept) in
      with_upgrade websocket (remove_hop_by_hop false extended)

  abbrev pub transformed :
      ProxyOptions
      → H
      → Result ProxyRequestError (Option V)
      → Result ProxyRequestError (List (Text × V))
      → Result ProxyRequestError (Unit {0}) × H
  transformed options headers (err e) custom = (err e, headers)
  transformed options headers (ok origin) (err e) = (err e, headers)
  transformed options headers (ok origin) (ok custom) =
      (ok tt, transform options origin custom headers)

  unfoldable pub apply_request_headers :
      H → Target → ProxyOptions → Result ProxyRequestError (Unit {0}) × H
  unfolding origin_host parse_custom transform
  apply_request_headers headers target options =
      transformed options headers (origin_host target options) (parse_custom options.custom_headers)
