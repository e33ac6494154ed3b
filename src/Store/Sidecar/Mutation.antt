-- ===== src/Store/Sidecar/Mutation.antt =====
-- `mutation_request` of src/store/sidecar.rs. An attempt is made from a state `M` of the closure and
-- the world, whose clocks and floors it reads.
use pingora_reverse_proxy.Prelude.{
  ℕ, zero, suc, Bool, not, ◌&&◌, Option, none, some, Result, ok, err, ◌==◌, if◌then◌else◌, Text,
}
use pingora_reverse_proxy.Store.{StoreError, backend, indeterminate}
use pingora_reverse_proxy.Store.Sidecar.{
  Response, retry_delay, headers_within_limits, has_exact_protocol_header,
}
use pingora_reverse_proxy.Store.Sidecar.Request.{
  Method, Sidecar, SidecarStore, HttpReply, MutationAcknowledgment, Run, is_server_error,
  is_client_error, is_oversized, is_delete, acknowledge, is_unusable, has_more, retried,
}

-- `make_attempt`: a body, if the request has one, and a value; and the next state.
abbrev pub Attempt : Type 0 → Type 0 → Type 0 → Type 0
Attempt W M T = M → W → Result StoreError (Option Text × T) × M

abbrev pub with_value :
    {T : Type 0} → T → Result StoreError HttpReply → Result StoreError (HttpReply × T)
with_value value (err e) = err e
with_value value (ok reply) = ok (reply, value)

module _ {W M T : Type 0} (sidecar : Sidecar W) (store : SidecarStore) (operation : Text)
    (method : Method) (url : Text) (ack : MutationAcknowledgment)
    (make_attempt : Attempt W M T) where
  abbrev pub is_rejected : ℕ → Bool
  is_rejected status = is_client_error status && not (is_delete ack && (status == 404))

  abbrev pub answered :
      ℕ → T → (W → Run W (HttpReply × T)) → Option Response × W → Run W (HttpReply × T)
  answered attempt value next (none, w) = (err (indeterminate operation), w)
  answered attempt value next (some response, w) =
      if is_unusable sidecar response.headers
      then (err (indeterminate operation), w)
      else (if is_server_error response.status
          then retried sidecar store operation (has_more sidecar store operation attempt) attempt
              next w
          else (if is_rejected response.status
              then (err (backend operation), w)
              else (with_value value (acknowledge sidecar operation ack response), w)))

  abbrev pub attempted :
      ℕ
      → (M → W → Run W (HttpReply × T))
      → Result StoreError (Option Text × T) × M
      → W
      → Run W (HttpReply × T)
  attempted attempt next (err e, m) w = (err e, w)
  attempted attempt next (ok (body, value), m) w =
      if is_oversized body
      then (err (backend operation), w)
      else answered attempt value (next m)
          (sidecar.send (record { method = method; url = url; body = body }) w)

  -- The loop over the attempts: how many are left, and the number of the next.
  unfoldable pub mutation_loop : ℕ → ℕ → M → W → Run W (HttpReply × T)
  unfolding acknowledge headers_within_limits has_exact_protocol_header retry_delay
  mutation_loop zero attempt m w = (err (backend operation), w)
  mutation_loop (suc left) attempt m w =
      attempted attempt (mutation_loop left (suc attempt)) (make_attempt m w) w

  unfoldable pub mutation_request : M → W → Run W (HttpReply × T)
  unfolding mutation_loop
  mutation_request m w = mutation_loop store.max_attempts 0 m w
