-- ===== src/Store/Sidecar/Removed.antt =====
-- `delete` of src/store/sidecar.rs: what its results say of the sidecar.
use pingora_reverse_proxy.Prelude.{
  not, ap, Bool-cases, inl, inr, ℕ, ◌≡◌, ◌<◌, refl, sym, true, false, Option, none, some, List, [],
  ◌∷◌, Result, ok, err, ◌==◌, if-Holds, Text, text, arith,
}
use pingora_reverse_proxy.Map.{Map}
use pingora_reverse_proxy.Route.{RouteKey, RouteData}
use pingora_reverse_proxy.Store.{StoreError}
use pingora_reverse_proxy.Store.Contract.{is_indeterminate}
use pingora_reverse_proxy.Store.Sidecar.Ends.{IsSidecar, IsAnswer}
use pingora_reverse_proxy.Store.Sidecar.{
  Response, BodyReadError, has_exact_content_type, bounded_body,
}
use pingora_reverse_proxy.Store.Sidecar.Bounded.{gathered, bounded_body_iff}
use pingora_reverse_proxy.Store.Sidecar.Mutation.{mutation_request}
use pingora_reverse_proxy.Store.Sidecar.Committed.{
  Ends, ends, failed, in_doubt, absent, committed_once, mutation_request-Ends,
}
use pingora_reverse_proxy.Store.Sidecar.Decode.{JsonReader, decode_route}
use pingora_reverse_proxy.Store.Sidecar.Operations.{JsonWriter, route_endpoint}
use pingora_reverse_proxy.Store.Sidecar.Update.{constant, prior_of, deleted, removed, delete}
use pingora_reverse_proxy.Store.Sidecar.Request
use pingora_reverse_proxy.Store.Sidecar.Request.{
  Sidecar, SidecarStore, SidecarRequest, HttpReply, delete_ack, Run, read_mutation_body, replied,
  emptied, is_unexpected, acknowledge,
}

found : (status : ℕ) → status < 300 → (status == 404) ≡ false
found status h = ground arith

abbrev body_of : Result StoreError HttpReply → Text
body_of (err e) = []
body_of (ok reply) = reply.body

module _ {W : Type 0} (sidecar : Sidecar W) (operation : Text) where
  replied-body :
      (status : ℕ) (body : Result BodyReadError Text) (reply : HttpReply)
      → replied sidecar status none (read_mutation_body sidecar operation body) ≡ ok reply
      → body ≡ ok reply.body
  replied-body status (err e) reply h = cc (h)
  replied-body status (ok body) reply h = ap ok (ap body_of h)

  emptied-body :
      (status : ℕ) (body : Result BodyReadError Text) (reply : HttpReply)
      → emptied sidecar operation status none (read_mutation_body sidecar operation body) ≡ ok reply
      → body ≡ ok reply.body
  emptied-body status (err e) reply h = cc (h)
  emptied-body status (ok []) reply h = ap ok (ap body_of h)
  emptied-body status (ok (b ∷ bs)) reply h = cc (h)

  acknowledge-body :
      (response : Response) (reply : HttpReply)
      → acknowledge sidecar operation delete_ack response ≡ ok reply
      → bounded_body response ≡ ok reply.body
  unfolding acknowledge
  acknowledge-body response reply h = elim (Bool-cases (response.status == 200)) [
    | inl e ↦
        elim (Bool-cases (
          not (has_exact_content_type sidecar.to_str response.headers (text "application/json")))) [
            | inl f ↦ cc (rw (e, f) at h)
            | inr f ↦ replied-body response.status (bounded_body response) reply (rw (e, f) at h)
          ]
    | inr e ↦ elim (Bool-cases (is_unexpected sidecar 404 response)) [
      | inl f ↦ cc (rw (e, f) at h)
      | inr f ↦ emptied-body response.status (bounded_body response) reply (rw (e, f) at h)
    ]
  ]

  acknowledge-whole :
      (response : Response) (reply : HttpReply)
      → acknowledge sidecar operation delete_ack response ≡ ok reply
      → gathered response.chunks ≡ some reply.body
  acknowledge-whole response reply h =
      ((bounded_body_iff response reply.body).0 (acknowledge-body response reply h)).1

module _ {W V : Type 0} (sidecar : Sidecar W) (writer : JsonWriter V) (store : SidecarStore)
    (json : JsonReader V) (key : RouteKey) (l : List SidecarRequest) where
  -- One `DELETE` of the key, and nothing else.
  pub record Removes (l' : List SidecarRequest) : Type 0 where
    pub url : Text
    pub addressed : route_endpoint sidecar writer store key [] ≡ ok url
    pub log : l' ≡ record { method = Request.delete; url = url; body = none } ∷ l

  -- The body of the last answer, which leads to `w`: all its chunks.
  pub record Carries (w : W) (body : Text) : Type 0 where
    pub request : SidecarRequest
    pub before : W
    pub response : Response
    pub answer : IsAnswer sidecar request before response w
    pub whole : gathered response.chunks ≡ some body

  -- How `delete` may end, from a log `l` of the sidecar.
  pub data Deletes : Run W (Option (RouteData (Map Text V))) → Type 0 where
    refused : {e : StoreError} {w : W} → sidecar.committed w ≡ l → Deletes (err e, w)
    doubted :
        {e : StoreError} {w : W}
        → is_indeterminate e ≡ true
        → Removes (sidecar.committed w)
        → Deletes (err e, w)
    missing : {w : W} → sidecar.committed w ≡ l → Deletes (ok none, w)
    returned :
        {w : W} (route : RouteData (Map Text V)) (body : Text)
        → Carries w body
        → decode_route sidecar json body ≡ some route
        → Removes (sidecar.committed w)
        → Deletes (ok (some route), w)

  prior_of-Deletes :
      (body : Text) (prior : Option (RouteData (Map Text V))) (w : W)
      → Removes (sidecar.committed w)
      → Carries w body
      → decode_route sidecar json body ≡ prior
      → Deletes (prior_of sidecar writer store prior, w)
  prior_of-Deletes body none w h c e = doubted refl h
  prior_of-Deletes body (some route) w h c e = returned route body c e h

  module _ (url : Text) (addressed : route_endpoint sidecar writer store key [] ≡ ok url) where
    abbrev Sent : Run W (HttpReply × Unit {0}) → Type 0
    Sent r =
        Ends sidecar store (text "delete") url delete_ack (constant sidecar writer store none)
          (λ body value. body ≡ none) (λ m. Unit {0}) l r

    removes :
        (body : Option Text) (w : W)
        → body ≡ none
        → sidecar.committed w ≡ record { method = Request.delete; url = url; body = body } ∷ l
        → Removes (sidecar.committed w)
    removes body w b h = record { url = url; addressed = addressed; log = rw (b) at h }

    deleted-Deletes :
        (r : Run W (HttpReply × Unit {0})) → Sent r → Deletes (deleted sidecar writer store json r)
    deleted-Deletes (err e, w) (ends (failed h)) = refused h
    deleted-Deletes (err e, w) (ends (in_doubt body value b d h)) = doubted d (removes body w b h)
    deleted-Deletes (ok (reply, value), w) (ends (absent d s h)) = rw (s) (missing h)
    deleted-Deletes (ok (reply, value), w) (ends (committed_once body b s a h)) =
        let gone = removes body w b h in
        let carried : Carries w reply.body = record {
          request = record { method = Request.delete; url = url; body = body };
          before = a.before;
          response = a.response;
          answer = a.answer;
          whole = acknowledge-whole sidecar (text "delete") a.response reply a.taken_as;
        } in
        rw (found reply.status s) (
          if-Holds (λ r. Deletes (r, w)) (reply.status == 200)
            (λ _.
              prior_of-Deletes reply.body (decode_route sidecar json reply.body) w gone carried
                refl)
            (λ _. doubted refl gone))

  removed-Deletes :
      (w : W) (url : Result StoreError Text)
      → IsSidecar sidecar
      → route_endpoint sidecar writer store key [] ≡ url
      → sidecar.committed w ≡ l
      → Deletes (removed sidecar writer store json url w)
  removed-Deletes w (err e) law u h = refused h
  removed-Deletes w (ok url) law u h =
      deleted-Deletes url u
        (mutation_request sidecar store (text "delete") Request.delete url delete_ack
          (constant sidecar writer store none) tt w)
        (rw (sym h) (
          mutation_request-Ends sidecar store (text "delete") url delete_ack
            (constant sidecar writer store none) (λ body value. body ≡ none) (λ m. Unit {0}) tt w
            law (λ m v k. (refl, tt)) tt))

-- Against a sidecar that keeps the protocol: a success with a route has committed one DELETE of the
-- key and returns what the whole body of the
-- last answer decodes to, a success without one has committed nothing, and so has an
-- ordinary error; after an indeterminate error one such DELETE, or nothing, has been committed.
pub delete-Deletes :
    {W V : Type 0} (sidecar : Sidecar W) (writer : JsonWriter V) (store : SidecarStore)
    (json : JsonReader V) (key : RouteKey) (w : W)
    → IsSidecar sidecar
    → Deletes sidecar writer store json key
        (sidecar.committed w)
        (delete sidecar writer store json key w)
unfolding delete
delete-Deletes sidecar writer store json key w law =
    removed-Deletes sidecar writer store json key (sidecar.committed w) w
      (route_endpoint sidecar writer store key []) law refl refl
