-- ===== src/Store/Sidecar/Floors.antt =====
-- The floors and the results of the mutations of src/store/sidecar.rs.
use pingora_reverse_proxy.Prelude.{
  ◌≡◌, ◌≤◌, refl, true, sym, ap, ◌∙◌, Bool-cases, inl, inr, text_eq, eq_of_text_eq, Option, none,
  some, List, ◌∷◌, [], Result, ok, err, Text, text, arith,
}
use pingora_reverse_proxy.Map.{Map}
use pingora_reverse_proxy.Route.{RouteKey, RouteData, Instant}
use pingora_reverse_proxy.Store.{StoreError}
use pingora_reverse_proxy.Store.Contract.{is_indeterminate}
use pingora_reverse_proxy.Store.Memory.{raised_to}
use pingora_reverse_proxy.Store.Sidecar.Ends.{IsSidecar, IsAnswer}
use pingora_reverse_proxy.Store.Sidecar.{Response, BodyReadError, only, single_header, bounded_body}
use pingora_reverse_proxy.Store.Sidecar.Mutation.{mutation_request}
use pingora_reverse_proxy.Store.Sidecar.Committed.{
  Ends, MadeBy, ends, failed, in_doubt, absent, committed_once, mutation_request-Ends,
}
use pingora_reverse_proxy.Store.Sidecar.Operations.{
  JsonWriter, Floor, encode_route, route_endpoint, envelope, or_outgoing, put_attempt, dated,
  put_done, put_to, put_envelope,
}
use pingora_reverse_proxy.Store.Sidecar.Request
use pingora_reverse_proxy.Store.Sidecar.Request.{
  Sidecar, SidecarStore, SidecarRequest, HttpReply, put_ack, Run, canonical, parse_timestamp,
  timestamp_of, read_mutation_body, is_unexpected, acknowledge,
}

abbrev last_of : Result StoreError HttpReply → Option Instant
last_of (err e) = none
last_of (ok reply) = reply.last_activity

module _ {W V : Type 0} (sidecar : Sidecar W) (writer : JsonWriter V) (store : SidecarStore)
    (operation protocol_operation : Text) (data_ : RouteData (Map Text V)) (floor : Floor W) where
  -- A body that an attempt may send: the route's envelope with a floor from its own activity on.
  pub record IsBody (route : V) (body : Option Text) : Type 0 where
    pub sent : Instant
    pub above : data_.last_activity ≤ sent
    pub encoded :
        writer.put_to_vec (envelope sidecar writer store protocol_operation route sent) ≡ body

  -- One `PUT` of such an envelope of the route, and nothing else.
  pub record Writes (key : RouteKey) (l l' : List SidecarRequest) : Type 0 where
    pub route : V
    pub url : Text
    pub body : Option Text
    pub encodes : encode_route sidecar writer store operation data_ ≡ ok route
    pub addressed : route_endpoint sidecar writer store key [] ≡ ok url
    pub is_body : IsBody route body
    pub log : l' ≡ record { method = Request.put; url = url; body = body } ∷ l

  -- The activity that an answer carries in its one header of that name, in canonical form.
  pub record IsDated (response : Response) (at : Instant) : Type 0 where
    pub value : Text
    pub raw : Text
    pub single : response.headers.get_all (text "x-store-last-activity") ≡ value ∷ []
    pub readable : sidecar.to_str value ≡ some raw
    pub parsed : sidecar.parse_from_rfc3339 raw ≡ some at
    pub canonical : sidecar.chp_timestamp at ≡ raw

  -- The last answer, which leads to `w`, carries that activity.
  pub record Carries (w : W) (at : Instant) : Type 0 where
    pub request : SidecarRequest
    pub before : W
    pub response : Response
    pub answer : IsAnswer sidecar request before response w
    pub dated : IsDated response at

  -- How `put_envelope` may end, from a log `l` of the sidecar.
  pub data Puts (key : RouteKey) (l : List SidecarRequest)
      : Run W (RouteData (Map Text V)) → Type 0 where
    refused : {e : StoreError} {w : W} → sidecar.committed w ≡ l → Puts key l (err e, w)
    doubted :
        {e : StoreError} {w : W}
        → is_indeterminate e ≡ true
        → Writes key l (sidecar.committed w)
        → Puts key l (err e, w)
    stored :
        {kept : RouteData (Map Text V)} {w : W}
        → kept.target ≡ data_.target
        → kept.extra ≡ data_.extra
        → Carries w kept.last_activity
        → Writes key l (sidecar.committed w)
        → Puts key l (ok kept, w)

  canonical-IsDated :
      (response : Response) (value raw : Text) (o : Option Instant) (at : Instant)
      → response.headers.get_all (text "x-store-last-activity") ≡ value ∷ []
      → sidecar.to_str value ≡ some raw
      → sidecar.parse_from_rfc3339 raw ≡ o
      → canonical sidecar raw o ≡ some at
      → IsDated response at
  canonical-IsDated response value raw none at s r p h = cc (h)
  canonical-IsDated response value raw (some parsed) at s r p h =
      elim (Bool-cases (text_eq (sidecar.chp_timestamp parsed) raw)) [
        | inl e ↦
            let same : parsed ≡ at = cc (rw (e) at h) in
            record {
              value = value;
              raw = raw;
              single = s;
              readable = r;
              parsed = p ∙ ap some same;
              canonical = ap sidecar.chp_timestamp (sym same) ∙ eq_of_text_eq _ raw e;
            }
        | inr e ↦ cc (rw (e) at h)
      ]

  text-IsDated :
      (response : Response) (value : Text) (o : Option Text) (at : Instant)
      → response.headers.get_all (text "x-store-last-activity") ≡ value ∷ []
      → sidecar.to_str value ≡ o
      → timestamp_of sidecar o ≡ some at
      → IsDated response at
  unfolding parse_timestamp
  text-IsDated response value none at s r h = cc (h)
  text-IsDated response value (some raw) at s r h =
      canonical-IsDated response value raw (sidecar.parse_from_rfc3339 raw) at s r refl h

  values-IsDated :
      (response : Response) (values : List Text) (at : Instant)
      → response.headers.get_all (text "x-store-last-activity") ≡ values
      → timestamp_of sidecar (only sidecar.to_str values) ≡ some at
      → IsDated response at
  values-IsDated response [] at s h = cc (h)
  values-IsDated response (value ∷ []) at s h =
      text-IsDated response value (sidecar.to_str value) at s refl h
  values-IsDated response (value ∷ other ∷ values) at s h = cc (h)

  header-IsDated :
      (response : Response) (at : Instant)
      → timestamp_of sidecar
          (single_header sidecar.to_str response.headers (text "x-store-last-activity"))
        ≡ some at
      → IsDated response at
  unfolding single_header
  header-IsDated response at h =
      values-IsDated response (response.headers.get_all (text "x-store-last-activity")) at refl h

  -- What an acknowledged `PUT` takes for its activity is the header's.
  read-IsDated :
      (response : Response) (o : Option Instant) (body : Result BodyReadError Text)
      (reply : HttpReply) (at : Instant)
      → timestamp_of sidecar
          (single_header sidecar.to_str response.headers (text "x-store-last-activity"))
        ≡ o
      → Request.dated sidecar operation response.status o
          (read_mutation_body sidecar operation body)
        ≡ ok reply
      → reply.last_activity ≡ some at
      → IsDated response at
  read-IsDated response none body reply at t h l = cc (h)
  read-IsDated response (some x) (err e) reply at t h l = cc (h)
  read-IsDated response (some x) (ok []) reply at t h l =
      header-IsDated response at (t ∙ cc (ap last_of h, l))
  read-IsDated response (some x) (ok (b ∷ bs)) reply at t h l = cc (h)

  acknowledge-IsDated :
      (response : Response) (reply : HttpReply) (at : Instant)
      → acknowledge sidecar operation put_ack response ≡ ok reply
      → reply.last_activity ≡ some at
      → IsDated response at
  unfolding acknowledge
  acknowledge-IsDated response reply at h l =
      elim (Bool-cases (is_unexpected sidecar 204 response)) [
        | inl e ↦ cc (rw (e) at h)
        | inr e ↦ read-IsDated response _ (bounded_body response) reply at refl (rw (e) at h) l
      ]

  raised-above : (at : Option Instant) (m : Instant) → m ≤ raised_to at m
  raised-above none m = omega arith
  raised-above (some at) m = omega arith

  module _ (route : V) where
    -- The closure keeps the floor from falling.
    outgoing-Made :
        (sent : Instant) (body : Option Text)
        → data_.last_activity ≤ sent
        → writer.put_to_vec (envelope sidecar writer store protocol_operation route sent) ≡ body
        → MadeBy sidecar store operation
            (text "")
            put_ack
            (put_attempt sidecar writer store operation protocol_operation route floor)
            (λ body value. IsBody route body)
            (λ m. data_.last_activity ≤ m)
            (or_outgoing sidecar writer store operation body, sent)
    outgoing-Made sent none h e = tt
    outgoing-Made sent (some body) h e = (record { sent = sent; above = h; encoded = e }, h)

    put_attempt-Made :
        (m : Instant) (w : W)
        → data_.last_activity ≤ m
        → MadeBy sidecar store operation
            (text "")
            put_ack
            (put_attempt sidecar writer store operation protocol_operation route floor)
            (λ body value. IsBody route body)
            (λ m. data_.last_activity ≤ m)
            (put_attempt sidecar writer store operation protocol_operation route floor m w)
    put_attempt-Made m w h =
        outgoing-Made (raised_to (floor w) m) _ (omega (arith, h, raised-above (floor w) m)) refl

    module _ (key : RouteKey) (url : Text) (l : List SidecarRequest)
        (encodes : encode_route sidecar writer store operation data_ ≡ ok route)
        (addressed : route_endpoint sidecar writer store key [] ≡ ok url) where
      abbrev Sent : Run W (HttpReply × Unit {0}) → Type 0
      Sent r =
          Ends sidecar store operation url put_ack
            (put_attempt sidecar writer store operation protocol_operation route floor)
            (λ body value. IsBody route body) (λ m. data_.last_activity ≤ m) l r

      writes :
          (body : Option Text) (l' : List SidecarRequest)
          → IsBody route body
          → l' ≡ record { method = Request.put; url = url; body = body } ∷ l
          → Writes key l l'
      writes body l' b e = record {
        route = route;
        url = url;
        body = body;
        encodes = encodes;
        addressed = addressed;
        is_body = b;
        log = e;
      }

      dated-Puts :
          (at : Option Instant) (w : W)
          → Writes key l (sidecar.committed w)
          → ((a : Instant) → at ≡ some a → Carries w a)
          → Puts key l (dated sidecar writer store operation data_ at, w)
      dated-Puts none w h c = doubted refl h
      dated-Puts (some at) w h c = stored refl refl (c at refl) h

      put_done-Puts :
          (r : Run W (HttpReply × Unit {0}))
          → Sent r
          → Puts key l (put_done sidecar writer store operation data_ r)
      put_done-Puts (err e, w) (ends (failed h)) = refused h
      put_done-Puts (err e, w) (ends (in_doubt body value b d h)) = doubted d (writes body _ b h)
      put_done-Puts (ok (reply, value), w) (ends (absent d s h)) = cc (d)
      put_done-Puts (ok (reply, value), w) (ends (committed_once body b s a h)) =
          dated-Puts reply.last_activity w (writes body _ b h) (λ at l. record {
            request = record { method = Request.put; url = url; body = body };
            before = a.before;
            response = a.response;
            answer = a.answer;
            dated = acknowledge-IsDated a.response reply at a.taken_as l;
          })

  put_to-Puts :
      (key : RouteKey) (w : W) (route : Result StoreError V) (url : Result StoreError Text)
      → IsSidecar sidecar
      → encode_route sidecar writer store operation data_ ≡ route
      → route_endpoint sidecar writer store key [] ≡ url
      → Puts key
          (sidecar.committed w)
          (put_to sidecar writer store operation protocol_operation data_ floor route url w)
  put_to-Puts key w (err e) url law r u = refused refl
  put_to-Puts key w (ok route) (err e) law r u = refused refl
  put_to-Puts key w (ok route) (ok url) law r u =
      put_done-Puts route key url (sidecar.committed w) r u
        (mutation_request sidecar store operation Request.put url put_ack
          (put_attempt sidecar writer store operation protocol_operation route floor)
          data_.last_activity w)
        (mutation_request-Ends sidecar store operation url put_ack
          (put_attempt sidecar writer store operation protocol_operation route floor)
          (λ body value. IsBody route body) (λ m. data_.last_activity ≤ m) data_.last_activity w law
          (λ m v h. put_attempt-Made route m v h) (omega arith))

  -- Against a sidecar that keeps the protocol, whatever the network does and however often the
  -- request is sent: a success returns the route with the activity that the last
  -- answer carries in its one header of that name, and the sidecar has
  -- committed one PUT of the route's envelope under its key, with a floor from the route's own
  -- activity on, and nothing else; after an ordinary error it has committed nothing, and after an
  -- indeterminate one nothing or one such PUT.
  pub put_envelope-Puts :
      (key : RouteKey) (w : W)
      → IsSidecar sidecar
      → Puts key
          (sidecar.committed w)
          (put_envelope sidecar writer store operation protocol_operation key data_ floor w)
  unfolding put_envelope
  put_envelope-Puts key w law =
      put_to-Puts key w (encode_route sidecar writer store operation data_)
        (route_endpoint sidecar writer store key []) law refl refl
