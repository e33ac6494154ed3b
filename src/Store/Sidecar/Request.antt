-- ===== src/Store/Sidecar/Request.antt =====
-- The requests of src/store/sidecar.rs and their retries. The world of the sidecar, its other
-- clients and the network is a parameter, and what the code asks of chrono and url.
use pingora_reverse_proxy.Prelude.{
  ℕ, zero, suc, ◌+◌, Bool, true, false, not, ◌||◌, ◌&&◌, Option, none, some, List, [], Result, ok,
  err, ltb, leb, ◌==◌, if◌then◌else◌, length, is_empty, Text, text, text_eq,
}
use pingora_reverse_proxy.Route.{Instant}
use pingora_reverse_proxy.Store.{StoreError, backend, indeterminate, corrupt_data}
use pingora_reverse_proxy.Store.Sidecar.{
  Response, HeaderMap, BodyReadError, transport, too_large, max_mutation_request_bytes, retry_delay,
  headers_within_limits, has_exact_protocol_header, has_exact_content_type, single_header,
  contains_key, has_nonempty_or_ambiguous_body_framing, bounded_body,
}

pub data Method : Type 0 where
  get put patch delete : Method

pub record SidecarRequest : Type 0 where
  pub method : Method
  pub url : Text
  pub body : Option Text

-- A request is answered, or `none`: its connection or its reply is lost. `committed` is what the
-- sidecar has committed for this client, the latest first.
pub record Sidecar (W : Type 0) : Type 0 where
  pub send : SidecarRequest → W → Option Response × W
  pub sleep : ℕ → W → W
  pub committed : W → List SidecarRequest
  pub to_str : Text → Option Text
  pub parse_from_rfc3339 : Text → Option Instant
  pub chp_timestamp : Instant → Text
  pub join : Text → Text → Option Text

pub record SidecarStore : Type 0 where
  pub base_url : Text
  pub max_attempts : ℕ
  pub initial_backoff : ℕ
  pub max_backoff : ℕ
  pub connect_timeout : ℕ
  pub request_timeout : ℕ

pub record HttpReply : Type 0 where
  pub status : ℕ
  pub body : Text
  pub last_activity : Option Instant

pub data MutationAcknowledgment : Type 0 where
  put_ack empty_ack delete_ack : MutationAcknowledgment

abbrev pub is_server_error : ℕ → Bool
is_server_error status = leb 500 status && ltb status 600

abbrev pub is_client_error : ℕ → Bool
is_client_error status = leb 400 status && ltb status 500

abbrev pub is_oversized : Option Text → Bool
is_oversized none = false
is_oversized (some body) = ltb max_mutation_request_bytes (length body)

abbrev pub is_delete : MutationAcknowledgment → Bool
is_delete put_ack = false
is_delete empty_ack = false
is_delete delete_ack = true

abbrev pub Run : Type 0 → Type 0 → Type 0
Run W A = Result StoreError A × W

module _ {W : Type 0} (sidecar : Sidecar W) where
  abbrev pub canonical : Text → Option Instant → Option Instant
  canonical raw none = none
  canonical raw (some parsed) =
      if text_eq (sidecar.chp_timestamp parsed) raw then some parsed else none

  unfoldable pub parse_timestamp : Text → Option Instant
  parse_timestamp raw = canonical raw (sidecar.parse_from_rfc3339 raw)

  abbrev pub timestamp_of : Option Text → Option Instant
  timestamp_of none = none
  timestamp_of (some raw) = parse_timestamp raw

  abbrev pub is_loud : HeaderMap → Bool
  is_loud headers =
      contains_key headers (text "content-type") || has_nonempty_or_ambiguous_body_framing headers

  -- An answer whose status is not the expected one, or that is not plainly empty.
  abbrev pub is_unexpected : ℕ → Response → Bool
  is_unexpected expected response = not (response.status == expected) || is_loud response.headers

  -- `read_mutation_body`.
  abbrev pub read_mutation_body : Text → Result BodyReadError Text → Result StoreError Text
  read_mutation_body operation (ok body) = ok body
  read_mutation_body operation (err e) = err (indeterminate operation)

  abbrev pub replied : ℕ → Option Instant → Result StoreError Text → Result StoreError HttpReply
  replied status last_activity (err e) = err e
  replied status last_activity (ok body) =
      ok (record { status = status; body = body; last_activity = last_activity })

  abbrev pub emptied :
      Text → ℕ → Option Instant → Result StoreError Text → Result StoreError HttpReply
  emptied operation status last_activity (err e) = err e
  emptied operation status last_activity (ok body) =
      if is_empty body
      then ok (record { status = status; body = body; last_activity = last_activity })
      else err (indeterminate operation)

  abbrev pub dated :
      Text → ℕ → Option Instant → Result StoreError Text → Result StoreError HttpReply
  dated operation status none body = err (indeterminate operation)
  dated operation status (some at) body = emptied operation status (some at) body

  -- The match on the acknowledgment and what follows it.
  unfoldable pub acknowledge :
      Text → MutationAcknowledgment → Response → Result StoreError HttpReply
  unfolding parse_timestamp bounded_body has_exact_content_type single_header
      has_nonempty_or_ambiguous_body_framing
  acknowledge operation put_ack response =
      if is_unexpected 204 response
      then err (indeterminate operation)
      else dated operation response.status
          (timestamp_of
            (single_header sidecar.to_str response.headers (text "x-store-last-activity")))
          (read_mutation_body operation (bounded_body response))
  acknowledge operation empty_ack response =
      if is_unexpected 204 response
      then err (indeterminate operation)
      else emptied operation response.status none
          (read_mutation_body operation (bounded_body response))
  acknowledge operation delete_ack response =
      if response.status == 200
      then (if not
            (has_exact_content_type sidecar.to_str response.headers (text "application/json"))
          then err (indeterminate operation)
          else replied response.status none (read_mutation_body operation (bounded_body response)))
      else (if is_unexpected 404 response
          then err (indeterminate operation)
          else emptied operation response.status none
              (read_mutation_body operation (bounded_body response)))

  abbrev pub is_unusable : HeaderMap → Bool
  is_unusable headers =
      not (headers_within_limits headers) || not (has_exact_protocol_header sidecar.to_str headers)

  module _ (store : SidecarStore) (operation : Text) where
    abbrev pub has_more : ℕ → Bool
    has_more attempt = ltb (attempt + 1) store.max_attempts

    -- `sleep_before_retry` and the next attempt, if there is one.
    abbrev pub retried : {A : Type 0} → Bool → ℕ → (W → Run W A) → W → Run W A
    retried true attempt next w =
        next (sidecar.sleep (retry_delay store.initial_backoff store.max_backoff attempt) w)
    retried false attempt next w = (err (backend operation), w)

    abbrev pub got_body :
        ℕ → (W → Run W HttpReply) → ℕ → Result BodyReadError Text → W → Run W HttpReply
    got_body attempt next status (ok body) w =
        (ok (record { status = status; body = body; last_activity = none }), w)
    got_body attempt next status (err too_large) w = (
      err (
          if text_eq operation (text "snapshot")
          then corrupt_data (text "snapshot") (text "<response>")
          else backend operation),
      w,
    )
    got_body attempt next status (err transport) w = retried (has_more attempt) attempt next w

    abbrev pub got : ℕ → (W → Run W HttpReply) → Option Response × W → Run W HttpReply
    got attempt next (none, w) = retried (has_more attempt) attempt next w
    got attempt next (some response, w) =
        if is_unusable response.headers
        then (err (backend operation), w)
        else (if is_server_error response.status
            then retried (has_more attempt) attempt next w
            else (if not (response.status == 200)
                then (ok (record { status = response.status; body = []; last_activity = none }), w)
                else (if not (
                      has_exact_content_type sidecar.to_str response.headers
                        (text "application/json"))
                    then (err (backend operation), w)
                    else got_body attempt next response.status (bounded_body response) w)))

    -- The loop over the attempts: how many are left, and the number of the next.
    unfoldable pub get_loop : Text → ℕ → ℕ → W → Run W HttpReply
    unfolding headers_within_limits has_exact_protocol_header has_exact_content_type bounded_body
        retry_delay
    get_loop url zero attempt w = (err (backend operation), w)
    get_loop url (suc left) attempt w =
        got attempt (get_loop url left (suc attempt))
          (sidecar.send (record { method = get; url = url; body = none }) w)

    unfoldable pub get_request : Text → W → Run W HttpReply
    unfolding get_loop
    get_request url w = get_loop url store.max_attempts 0 w
