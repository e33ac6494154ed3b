-- ===== src/Tests/Sidecar.antt =====
-- A sidecar that answers 503 a number of times, and then commits each request.
use pingora_reverse_proxy.Prelude.{
  ℕ, zero, suc, ◌-◌, ◌≡◌, ◌≤◌, ◌<◌, ◌⊎◌, ◌↔◌, inl, inr, refl, sym, ◌∙◌, ap, false, Option, none,
  some, List, [], ◌∷◌, ◌++◌, length, if◌then◌else◌, ok, Text, text, text_eq, arith,
}
use pingora_reverse_proxy.Map.{Map, get}
use pingora_reverse_proxy.Map.Order.{text_ord, compare_text}
use pingora_reverse_proxy.Route.{RouteData}
use pingora_reverse_proxy.Store.Sidecar.{
  HeaderMap, Response, bounded_body, is_longer, max_response_bytes,
}
use pingora_reverse_proxy.Store.Sidecar.Bounded.{gathered, bounded_body_iff}
use pingora_reverse_proxy.Store.Sidecar.Decode.{Entries, JsonReader, decode_snapshot}
use pingora_reverse_proxy.Store.Sidecar.Ends.{IsSidecar, IsSuccess}
use pingora_reverse_proxy.Store.Sidecar.Floors.{Puts, put_envelope-Puts}
use pingora_reverse_proxy.Store.Sidecar.Loaded.{named, decode_snapshot-Shown}
use pingora_reverse_proxy.Store.Sidecar.Operations.{JsonWriter, put_envelope}
use pingora_reverse_proxy.Store.Sidecar.Removed.{Deletes, delete-Deletes}
use pingora_reverse_proxy.Store.Sidecar.Update.{delete}
use pingora_reverse_proxy.Store.Sidecar.Request
use pingora_reverse_proxy.Store.Sidecar.Request.{Method, Sidecar, SidecarRequest, SidecarStore, Run}

abbrev World : Type 0
World = ℕ × List SidecarRequest

abbrev values : Text → List Text
values name =
    if text_eq name (text "x-store-protocol")
    then text "v1" ∷ []
    else (if text_eq name (text "x-store-last-activity") then (30 ∷ []) ∷ [] else [])

abbrev headers : HeaderMap
headers = record { get_all = values; iter = []; len = 2 }

abbrev response : ℕ → Response
response status = record { status = status; headers = headers; content_length = none; chunks = [] }

abbrev accepts : Method → ℕ
accepts Request.get = 200
accepts Request.put = 204
accepts Request.patch = 204
accepts Request.delete = 200

abbrev commits : Method → SidecarRequest → List SidecarRequest → List SidecarRequest
commits Request.get q log = log
commits Request.put q log = q ∷ log
commits Request.patch q log = q ∷ log
commits Request.delete q log = q ∷ log

abbrev sends : SidecarRequest → World → Option Response × World
sends q (suc n, log) = (some (response 503), (n, log))
sends q (zero, log) = (some (response (accepts q.method)), (zero, commits q.method q log))

-- A timestamp is one byte.
abbrev parse_byte : Text → Option ℕ
parse_byte [] = none
parse_byte (b ∷ bs) = some b

abbrev sidecar : Sidecar World
sidecar = record {
  send = sends;
  sleep = λ n w. w;
  committed = λ w. w.1;
  to_str = some;
  parse_from_rfc3339 = parse_byte;
  chp_timestamp = λ at. at ∷ [];
  join = λ base relative. some (base ++ relative);
}

abbrev status_of : Option Response → ℕ
status_of none = 0
status_of (some r) = r.status

absurd : {A : Type 0} → ⊥ → A
absurd h = elim h [ ]

reads_keep_log :
    (m : Method) (q : SidecarRequest) (log : List SidecarRequest)
    → m ≡ Request.get
    → commits m q log ≡ log
reads_keep_log Request.get q log h = refl
reads_keep_log Request.put q log h = cc
reads_keep_log Request.patch q log h = cc
reads_keep_log Request.delete q log h = cc

growth_of_log :
    (m : Method) (q : SidecarRequest) (log : List SidecarRequest)
    → (commits m q log ≡ log) ⊎ (commits m q log ≡ q ∷ log)
growth_of_log Request.get q log = inl refl
growth_of_log Request.put q log = inr refl
growth_of_log Request.patch q log = inr refl
growth_of_log Request.delete q log = inr refl

success_grows_log :
    (m : Method) (q : SidecarRequest) (log : List SidecarRequest) (status : ℕ)
    → IsSuccess m status
    → commits m q log ≡ q ∷ log
success_grows_log Request.get q log status h = elim h [ ]
success_grows_log Request.put q log status h = refl
success_grows_log Request.patch q log status h = refl
success_grows_log Request.delete q log status h = refl

success_low : (m : Method) (status : ℕ) → IsSuccess m status → status < 300
success_low Request.get status h = elim h [ ]
success_low Request.put status h = omega (arith, h)
success_low Request.patch status h = omega (arith, h)
success_low Request.delete status h = omega (arith, h)

accepts_low : (m : Method) → accepts m < 300
accepts_low Request.get = omega arith
accepts_low Request.put = omega arith
accepts_low Request.patch = omega arith
accepts_low Request.delete = omega arith

get_lem : (q : SidecarRequest) (w : World) → q.method ≡ Request.get → (sends q w).1.1 ≡ w.1
get_lem q (zero, log) h = reads_keep_log q.method q log h
get_lem q (suc n, log) h = refl

once_lem : (q : SidecarRequest) (w : World) → ((sends q w).1.1 ≡ w.1) ⊎ ((sends q w).1.1 ≡ q ∷ w.1)
once_lem q (zero, log) = growth_of_log q.method q log
once_lem q (suc n, log) = inl refl

refused_lem :
    (q : SidecarRequest) (w : World) → 400 ≤ status_of (sends q w).0 → (sends q w).1.1 ≡ w.1
refused_lem q (zero, log) h = absurd (omega (arith, h, accepts_low q.method))
refused_lem q (suc n, log) h = refl

success_lem :
    (q : SidecarRequest) (w : World)
    → IsSuccess q.method (status_of (sends q w).0)
    → (sends q w).1.1 ≡ q ∷ w.1
success_lem q (zero, log) h = success_grows_log q.method q log _ h
success_lem q (suc n, log) h = absurd (omega (arith, success_low q.method 503 h))

sidecar-IsSidecar : IsSidecar sidecar
sidecar-IsSidecar = record {
  sleep_committed = λ n w. refl;
  get_committed = get_lem;
  once = once_lem;
  refused = λ q w w' r (e, p) low high.
      sym (ap (λ x. x.1.1) e) ∙ (refused_lem q w (omega (arith, low, ap (λ x. status_of x.0) e)));
  acknowledged = λ q w w' r (e, p) h.
      sym (ap (λ x. x.1.1) e) ∙ success_lem q w (rw (ap (λ x. status_of x.0) e) h);
}

abbrev writer : JsonWriter Text
writer = record {
  object = λ fields. [];
  string = λ s. s;
  put_to_vec = λ e. some e.activity_floor;
  activity_to_vec = λ e. some e.last_activity;
}

abbrev fields : Entries Text
fields = some (text "last_activity", 9 ∷ []) ∷ some (text "target", text "a") ∷ []

abbrev json : JsonReader Text
json = record {
  as_string = some;
  route_of = λ body. some fields;
  snapshot_of = λ body. some (some (text "/user/", fields) ∷ some (text "/user", fields) ∷ []);
}

abbrev store : SidecarStore
store = record {
  base_url = text "http://s/";
  max_attempts = 3;
  initial_backoff = 25;
  max_backoff = 200;
  connect_timeout = 1000;
  request_timeout = 2000;
}

abbrev route : RouteData (Map Text Text)
route = record { target = text "a"; last_activity = 9; extra = [] }

-- The first attempt fails, and the floor rises before the second.
abbrev floor : World → Option ℕ
floor (n, log) = some (20 - n)

put_test :
    put_envelope sidecar writer store (text "add") (text "add") (text "/u") route floor (1, []) ≡ (
      ok (record route { last_activity = 30 }),
      (
        0,
        record { method = Request.put; url = text "http://s/v1/routes/%2Fu"; body = some (20 ∷ []) }
            ∷ [],
      ),
    )
unfolding put_envelope text_eq compare_text
put_test = refl

put_envelope-Puts_example :
    Puts sidecar writer store
      (text "add")
      (text "add")
      route
      floor
      (text "/u")
      []
      (put_envelope sidecar writer store (text "add") (text "add") (text "/u") route floor (1, []))
put_envelope-Puts_example =
    put_envelope-Puts sidecar writer store (text "add") (text "add") route floor (text "/u") (1, [])
      sidecar-IsSidecar

delete-Deletes_example :
    Deletes sidecar writer store json
      (text "/u")
      []
      (delete sidecar writer store json (text "/u") (1, []))
delete-Deletes_example =
    delete-Deletes sidecar writer store json (text "/u") (1, []) sidecar-IsSidecar

abbrev chunked : Response
chunked = record {
  status = 200;
  headers = headers;
  content_length = some 3;
  chunks = some (text "a") ∷ some (text "bc") ∷ [];
}

bounded_body_iff_example : (bounded_body chunked ≡ ok (text "abc")) ↔ (
    (is_longer chunked.content_length ≡ false)
    × (gathered chunked.chunks ≡ some (text "abc"))
    × (length (text "abc") ≤ max_response_bytes))
bounded_body_iff_example = bounded_body_iff chunked (text "abc")

abbrev loaded : Map Text (RouteData (Map Text Text))
loaded = (text "/user", route) ∷ (text "/user/", route) ∷ []

decode_snapshot-Shown_example :
    (entries : Entries (Entries Text)) × (json.snapshot_of [] ≡ some entries)
    × ((k : Text) → get k loaded ≡ named sidecar json k entries)
    × (length loaded ≡ length entries)
unfolding decode_snapshot text_eq compare_text
decode_snapshot-Shown_example = decode_snapshot-Shown sidecar json [] loaded refl
