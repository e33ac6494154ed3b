-- ===== src/Tests/Upstream.antt =====
-- Targets, paths and headers. The header map is a function from names to values.
use pingora_reverse_proxy.Prelude.{
  ℕ, ◌≡◌, ◌++◌, refl, Bool, true, false, Option, none, some, List, [], ◌∷◌, all, if◌then◌else◌, ltb,
  ok, Text, text, text_eq, split, split_once, arith,
}
use pingora_reverse_proxy.Config.{ProxyOptions}
use pingora_reverse_proxy.Upstream.{Target, tcp, Url, parse, authority, target_path, is_tls}
use pingora_reverse_proxy.Upstream.Paths.{url_join, percent_decode}
use pingora_reverse_proxy.Upstream.Join.{
  slashed, both_queries, url_join_lem, escaped, percent_decode-escaped,
}
use pingora_reverse_proxy.Upstream.Validated.{IsAddressable, parse-IsAddressable}
use pingora_reverse_proxy.Upstream.Headers.{
  HttpHeaders, ForwardedContext, connection, upgrade, websocket_upgrade,
}
use pingora_reverse_proxy.Upstream.Forwarded.{
  IsForwarded, apply_forwarded_headers, apply_forwarded_headers-IsForwarded,
}
use pingora_reverse_proxy.Upstream.Location.{UrlCrate, location}

url_join_test : url_join (text "/api?x=1") (text "/v1?y=2") ≡ text "/api/v1?x=1&y=2"
unfolding url_join split_once
url_join_test = refl

url_join_lem_example :
    url_join (text "/api/?x") (text "/v1?y")
    ≡ slashed (text "/api/") (text "/v1") ++ both_queries (some (text "x")) (some (text "y"))
url_join_lem_example =
    url_join_lem (text "/api/") (text "/v1") (some (text "x")) (some (text "y")) (omega arith)
      (omega arith)

-- ASCII is valid.
abbrev ascii : List ℕ → Option Text
ascii bs = if all (λ b. ltb b 128) bs then some bs else none

abbrev socket : Text
socket = text "/run/a"

percent_decode_test : percent_decode ascii (escaped socket) ≡ ascii socket
percent_decode_test = percent_decode-escaped ascii socket (omega arith)

abbrev never_ipv6 : Text → Bool
never_ipv6 host = false

abbrev service_url : Url
service_url = record {
  scheme = text "https";
  host_str = some (text "hub");
  port = some 8081;
  port_or_known_default = some 8081;
  path = text "/";
  query = none;
  host_text = text "hub:8081";
}

abbrev service : Target
service = tcp (text "hub") 8081 (text "hub:8081") (text "/") true

service-parse : parse never_ipv6 ascii service_url ≡ ok service
unfolding parse text_eq authority target_path
service-parse = refl

parse-IsAddressable_example :
    IsAddressable service × (is_tls service ≡ text_eq service_url.scheme (text "https"))
parse-IsAddressable_example = parse-IsAddressable never_ipv6 ascii service_url service service-parse

abbrev Headers : Type 0
Headers = Text → List Text

abbrev http : HttpHeaders Headers Text
http = record {
  get_all = λ j h. h j;
  insert = λ k v h j. if text_eq j k then v ∷ [] else h j;
  remove = λ k h j. if text_eq j k then [] else h j;
  from_bytes = λ name. some name;
  to_str = λ value. some value;
  from_str = λ value. some value;
  from_static = λ value. value;
  get_all-insert = λ j k v h. refl;
  get_all-remove = λ j k h. refl;
}

-- A websocket request.
abbrev request : Headers
request name =
    if text_eq name connection
    then text "keep-alive, Upgrade" ∷ []
    else (if text_eq name upgrade
        then text "websocket" ∷ []
        else (if text_eq name (text "host") then text "proxy" ∷ [] else []))

abbrev options : ProxyOptions
options = record {
  x_forward = true;
  prepend_path = true;
  include_prefix = true;
  verify_upstream_tls = true;
  host_routing = false;
  timeout_ms = none;
  proxy_timeout_ms = none;
  keep_alive_timeout_ms = some 5000;
  change_origin = true;
  auto_rewrite = true;
  protocol_rewrite = none;
  custom_headers = (text "te", text "trailers") ∷ [];
}

websocket_test : websocket_upgrade http request ≡ some (text "websocket")
unfolding websocket_upgrade text_eq split
websocket_test = refl

abbrev client : ForwardedContext
client = record { client_address = text "10.0.0.1"; port = 8000; protocol = text "http" }

forwarded_ok :
    apply_forwarded_headers http request client options
    ≡ (ok tt, (apply_forwarded_headers http request client options).1)
unfolding apply_forwarded_headers text_eq
forwarded_ok = refl

apply_forwarded_headers-IsForwarded_example :
    IsForwarded http client request (apply_forwarded_headers http request client options).1
apply_forwarded_headers-IsForwarded_example =
    apply_forwarded_headers-IsForwarded http request client options
      (apply_forwarded_headers http request client options).1 refl forwarded_ok

abbrev urls : UrlCrate Url
urls = record {
  parse = λ t. some service_url;
  view = λ url. url;
  set_host = λ host url. some (record url { host_str = some host });
  set_port = λ port url. some (record url { port = some port });
  set_scheme = λ scheme url. record url { scheme = scheme };
  as_str = λ url. url.path;
}

abbrev redirect : Headers
redirect name = if text_eq name location then text "https://hub:8081/" ∷ [] else []
