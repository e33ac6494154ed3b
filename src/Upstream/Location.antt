-- ===== src/Upstream/Location.antt =====
-- `rewrite_location` of src/upstream.rs. The parse, the setters and the text of a `Url` are a
-- parameter, as are the header maps.
use pingora_reverse_proxy.Prelude.{
  ℕ, ◌+◌, ◌-◌, ◌*◌, ◌≡◌, ◌⊎◌, Bool, true, false, not, ◌&&◌, ◌||◌, Option, none, some, [], ◌∷◌, any,
  all, foldl, ltb, ◌==◌, if◌then◌else◌, Result, ok, err, Text, text, text_eq, strip_prefix,
  split_once, rsplit_once, is_empty,
}
use pingora_reverse_proxy.Config.{ProxyOptions}
use pingora_reverse_proxy.Upstream.{Target, target_authority, Url, authority}
use pingora_reverse_proxy.Upstream.Paths.{host_name, whatwg_scheme, is_digit}
use pingora_reverse_proxy.Upstream.Headers.{
  HttpHeaders, ProxyRequestError, invalid_location, head, host_header,
}

-- `parse::<u16>`, which takes a plus sign.
abbrev unsigned : Text → Text
unsigned [] = []
unsigned (x ∷ xs) = if x == 43 then xs else x ∷ xs

unfoldable pub parse_u16 : Text → Option ℕ
parse_u16 s =
    let n = foldl (λ acc b. acc * 10 + (b - 48)) 0 (unsigned s) in
    if all is_digit (unsigned s) && (not (is_empty (unsigned s)) && ltb n 65536)
    then some n
    else none

abbrev port_after : Option (Text × Text) → Option ℕ
port_after none = none
port_after (some (host, port)) = parse_u16 port

abbrev bracketed_port : Option (Text × Text) → Option ℕ
bracketed_port none = none
bracketed_port (some (host, rest)) = elim (strip_prefix (text ":") rest) [
  | none ↦ none
  | some port ↦ parse_u16 port
]

unfoldable pub host_port : Text → Option ℕ
unfolding parse_u16 split_once rsplit_once
host_port authority = elim (strip_prefix (text "[") authority) [
  | some bracketed ↦ bracketed_port (split_once 93 bracketed)
  | none ↦ port_after (rsplit_once 58 authority)
]

unfoldable pub is_redirect_rewrite_status : ℕ → Bool
is_redirect_rewrite_status status = any (λ s. status == s) (201 ∷ 301 ∷ 302 ∷ 307 ∷ 308 ∷ [])

abbrev is_set : Option Text → Bool
is_set none = false
is_set (some t) = true

abbrev pub location : Text
location = text "location"

-- `Url::parse`, what the code reads of the result, its setters and its text. A scheme that cannot
-- be set leaves the `Url` as it is.
pub record UrlCrate (U : Type 0) : Type 0 where
  pub parse : Text → Option U
  pub view : U → Url
  pub set_host : Text → U → Option U
  pub set_port : ℕ → U → Option U
  pub set_scheme : Text → U → U
  pub as_str : U → Text

module _ {H V U : Type 0} (http : HttpHeaders H V) (urls : UrlCrate U) (is_ipv6 : Text → Bool) where
  abbrev required : Option U → Result ProxyRequestError U
  required none = err invalid_location
  required (some url) = ok url

  unfoldable pub url_host : U → Option Text
  unfolding authority
  url_host url = elim ((urls.view url).host_str) [
    | none ↦ none
    | some host ↦ some (authority is_ipv6 (λ bytes. none) (urls.view url) host)
  ]

  abbrev with_port : Option ℕ → U → Result ProxyRequestError U
  with_port none url = ok url
  with_port (some port) url = required (urls.set_port port url)

  abbrev with_host_text : Text → Option U → Result ProxyRequestError U
  with_host_text host none = err invalid_location
  with_host_text host (some url) = with_port (host_port host) url

  abbrev with_host_value : Option Text → U → Result ProxyRequestError U
  with_host_value none url = err invalid_location
  with_host_value (some host) url = with_host_text host (urls.set_host (host_name host) url)

  -- The request's host in the `Location`, under `auto_rewrite`.
  unfoldable pub with_request_host : Bool → Option V → U → Result ProxyRequestError U
  unfolding host_port host_name
  with_request_host auto_rewrite none url = ok url
  with_request_host false (some value) url = ok url
  with_request_host true (some value) url = with_host_value (http.to_str value) url

  abbrev with_scheme : Option Text → U → U
  with_scheme none url = url
  with_scheme (some scheme) url = urls.set_scheme scheme url

  unfoldable pub with_protocol : Option Text → U → U
  unfolding whatwg_scheme
  with_protocol none url = url
  with_protocol (some protocol) url = with_scheme (whatwg_scheme protocol) url

  abbrev header_value : Option V → Result ProxyRequestError (Option V)
  header_value none = err invalid_location
  header_value (some value) = ok (some value)

  abbrev printed : Option Text → Result ProxyRequestError U → Result ProxyRequestError (Option V)
  printed protocol (err e) = err e
  printed protocol (ok url) =
      header_value (http.from_str (urls.as_str (with_protocol protocol url)))

  abbrev is_host : Text → Option Text → Bool
  is_host expected none = false
  is_host expected (some host) = text_eq host expected

  abbrev rewritten : H → Target → ProxyOptions → Option U → Result ProxyRequestError (Option V)
  rewritten request target options none = ok none
  rewritten request target options (some url) =
      if is_host (target_authority target) (url_host url)
      then printed options.protocol_rewrite
          (with_request_host options.auto_rewrite (head (http.get_all host_header request)) url)
      else ok none

  abbrev parsed : H → Target → ProxyOptions → Option Text → Result ProxyRequestError (Option V)
  parsed request target options none = err invalid_location
  parsed request target options (some text) = rewritten request target options (urls.parse text)

  -- The new `Location`, if there is one.
  unfoldable pub new_location :
      ℕ → Option V → H → Target → ProxyOptions → Result ProxyRequestError (Option V)
  unfolding is_redirect_rewrite_status target_authority url_host with_request_host with_protocol
  new_location status none request target options = ok none
  new_location status (some value) request target options =
      if not (is_redirect_rewrite_status status)
        || (not options.auto_rewrite && not (is_set options.protocol_rewrite))
      then ok none
      else parsed request target options (http.to_str value)

  abbrev pub replaced :
      H → Result ProxyRequestError (Option V) → Result ProxyRequestError (Unit {0}) × H
  replaced headers (err e) = (err e, headers)
  replaced headers (ok none) = (ok tt, headers)
  replaced headers (ok (some value)) = (ok tt, http.insert location value headers)

  unfoldable pub rewrite_location :
      ℕ → H → H → Target → ProxyOptions → Result ProxyRequestError (Unit {0}) × H
  unfolding new_location
  rewrite_location status headers request target options =
      replaced headers
        (new_location status (head (http.get_all location headers)) request target options)

  abbrev pub IsRewritten : ℕ → Type 0
  IsRewritten status =
      (status ≡ 201) ⊎ (status ≡ 301) ⊎ (status ≡ 302) ⊎ (status ≡ 307) ⊎ (status ≡ 308)

  abbrev pub Ported : Option ℕ → U → U → Type 0
  Ported none url after = after ≡ url
  Ported (some port) url after = urls.set_port port url ≡ some after

  -- The request's host and port, where `auto_rewrite` is on and the request has a host.
  abbrev pub HasRequestHost : Bool → Option V → U → U → Type 0
  HasRequestHost auto_rewrite none url after = after ≡ url
  HasRequestHost false (some value) url after = after ≡ url
  HasRequestHost true (some value) url after =
      (host : Text) × (http.to_str value ≡ some host)
      × ((u : U) × (urls.set_host (host_name host) url ≡ some u) × Ported (host_port host) u after)

  abbrev pub Schemed : Option Text → U → U → Type 0
  Schemed none url after = after ≡ url
  Schemed (some protocol) url after =
      ((whatwg_scheme protocol ≡ none) × (after ≡ url))
      ⊎ ((scheme : Text) × (whatwg_scheme protocol ≡ some scheme)
          × (after ≡ urls.set_scheme scheme url))

  -- The text of a `Location` that points to the target, and the url that replaces it.
  pub record Moves (value : V) (request : H) (target : Target) (options : ProxyOptions) (after : V)
      : Type 0 where
    pub old : Text
    pub url : U
    pub renamed : U
    pub schemed : U
    pub is_text : http.to_str value ≡ some old
    pub is_parsed : urls.parse old ≡ some url
    pub is_target : url_host url ≡ some (target_authority target)
    pub is_renamed :
        HasRequestHost options.auto_rewrite (head (http.get_all host_header request)) url renamed
    pub is_schemed : Schemed options.protocol_rewrite renamed schemed
    pub is_printed : http.from_str (urls.as_str schemed) ≡ some after

  -- The response's `Location` is to be replaced, by `after`.
  abbrev pub Replaces : ℕ → Option V → H → Target → ProxyOptions → V → Type 0
  Replaces status value request target options after =
      IsRewritten status
      × ((options.auto_rewrite ≡ true) ⊎ (is_set options.protocol_rewrite ≡ true))
      × ((v : V) × (value ≡ some v) × Moves v request target options after)

  -- A refusal leaves the headers alone. Otherwise the `Location` alone is replaced, or nothing is
  -- and nothing was to be.
  abbrev pub Rewritten :
      ℕ → H → H → Target → ProxyOptions → Result ProxyRequestError (Unit {0}) → H → Type 0
  Rewritten status before request target options (err e) after = after ≡ before
  Rewritten status before request target options (ok _) after =
      ((after ≡ before)
        × ((v : V)
            → ¬ Replaces status (head (http.get_all location before)) request target options v))
      ⊎ ((v : V) × Replaces status (head (http.get_all location before)) request target options v
          × (after ≡ http.insert location v before))

  -- The printed url, and where it comes from.
  abbrev Prints : Option Text → Result ProxyRequestError U → V → Type 0
  Prints protocol r v =
      (u : U) × (r ≡ ok u) × (http.from_str (urls.as_str (with_protocol protocol u)) ≡ some v)
