-- ===== src/Store/Sidecar/Committed.antt =====
-- `mutation_request` of src/store/sidecar.rs commits once at most, whatever the network does.
use pingora_reverse_proxy.Prelude.{
  ℕ, zero, suc, ◌≡◌, ◌≤◌, ◌<◌, ◌⊎◌, inl, inr, refl, ◌∙◌, ap, Bool, true, false, Option, none, some,
  List, ◌∷◌, Result, ok, err, if-Holds, Text, arith,
}
use pingora_reverse_proxy.Store.{StoreError, indeterminate}
use pingora_reverse_proxy.Store.Contract.{is_indeterminate}
use pingora_reverse_proxy.Store.Sidecar.{Response}
use pingora_reverse_proxy.Store.Sidecar.Request.{
  acknowledge, Sidecar, SidecarStore, SidecarRequest, HttpReply, MutationAcknowledgment, delete_ack,
  Run, is_server_error, is_oversized, is_unusable, retried,
}
use pingora_reverse_proxy.Store.Sidecar.Ends.{
  IsSidecar, IsAnswer, Classified, doubtful, taken, acknowledge-Classified,
}
use pingora_reverse_proxy.Store.Sidecar.Mutation.{
  Attempt, with_value, is_rejected, answered, attempted, mutation_loop, mutation_request,
}
use pingora_reverse_proxy.Store.Sidecar.Answers.{
  method_of, protocol_of, server_low, server_high, client_low, client_high, Acked-cases,
}

module _ {W M T : Type 0} (sidecar : Sidecar W) (store : SidecarStore) (operation : Text)
    (url : Text) (ack : MutationAcknowledgment) (make_attempt : Attempt W M T)
    (Made : Option Text → T → Type 0) (Kept : M → Type 0) where
  abbrev pub request_of : Option Text → SidecarRequest
  request_of body = record { method = method_of ack; url = url; body = body }

  -- The reply is what the code takes from the answer to the request with which the world was left.
  pub record Answered (body : Option Text) (w' : W) (reply : HttpReply) : Type 0 where
    pub before : W
    pub response : Response
    pub answer : IsAnswer sidecar (request_of body) before response w'
    pub taken_as : acknowledge sidecar operation ack response ≡ ok reply

  -- How the log of the sidecar grows from `l`: not at all, or by one request that an attempt made.
  pub data Ended (l : List SidecarRequest) (w' : W)
      : Result StoreError (HttpReply × T) → Type 0 where
    failed : {e : StoreError} → sidecar.committed w' ≡ l → Ended l w' (err e)
    in_doubt :
        {e : StoreError} (body : Option Text) (value : T)
        → Made body value
        → is_indeterminate e ≡ true
        → sidecar.committed w' ≡ request_of body ∷ l
        → Ended l w' (err e)
    absent :
        {reply : HttpReply} {value : T}
        → ack ≡ delete_ack
        → reply.status ≡ 404
        → sidecar.committed w' ≡ l
        → Ended l w' (ok (reply, value))
    committed_once :
        {reply : HttpReply} {value : T} (body : Option Text)
        → Made body value
        → reply.status < 300
        → Answered body w' reply
        → sidecar.committed w' ≡ request_of body ∷ l
        → Ended l w' (ok (reply, value))

  abbrev pub MadeBy : Result StoreError (Option Text × T) × M → Type 0
  MadeBy (err e, m) = Unit
  MadeBy (ok (body, value), m) = Made body value × Kept m

  pub data Ends (l : List SidecarRequest) : Run W (HttpReply × T) → Type 0 where
    ends : {r : Result StoreError (HttpReply × T)} {w : W} → Ended l w r → Ends l (r, w)

  module _ (law : IsSidecar sidecar) (l : List SidecarRequest) where
    abbrev Next : (W → Run W (HttpReply × T)) → Type 0
    Next next = (w : W) → sidecar.committed w ≡ l → Ends l (next w)

    retried-Ends :
        (more : Bool) (attempt : ℕ) (next : W → Run W (HttpReply × T)) (w : W)
        → Next next
        → sidecar.committed w ≡ l
        → Ends l (retried sidecar store operation more attempt next w)
    retried-Ends true attempt next w h e = h _ (law.sleep_committed _ w ∙ e)
    retried-Ends false attempt next w h e = ends (failed e)

    -- An answer that the code takes.
    acknowledged-Ends :
        (body : Option Text) (value : T) (response : Response) (w w' : W)
        (r : Result StoreError HttpReply)
        → Made body value
        → sidecar.committed w ≡ l
        → IsAnswer sidecar (request_of body) w response w'
        → (sidecar.committed w' ≡ l) ⊎ (sidecar.committed w' ≡ request_of body ∷ l)
        → acknowledge sidecar operation ack response ≡ r
        → Classified sidecar ack response.status r
        → Ends l (with_value value r, w')
    acknowledged-Ends body value response w w' r made e answer (inl k) q (doubtful d) =
        ends (failed k)
    acknowledged-Ends body value response w w' r made e answer (inr k) q (doubtful d) =
        ends (in_doubt body value made d k)
    acknowledged-Ends body value response w w' r made e answer k q (taken s a) =
        elim (Acked-cases sidecar ack response.status a) [
          | inl (success, low) ↦ ends (
              committed_once body made (omega (arith, s, low))
                (record { before = w; response = response; answer = answer; taken_as = q })
                (law.acknowledged (request_of body) w w' response answer success
                  ∙ ap (λ log. request_of body ∷ log) e))
          | inr (deletes, missing) ↦ ends (
              absent deletes (s ∙ missing) (
                law.refused (request_of body) w w' response answer (omega (arith, missing))
                  (omega (arith, missing))
                ∙ e))
        ]

    refused-log :
        (body : Option Text) (response : Response) (w w' : W)
        → sidecar.committed w ≡ l
        → IsAnswer sidecar (request_of body) w response w'
        → 400 ≤ response.status
        → response.status < 600
        → sidecar.committed w' ≡ l
    refused-log body response w w' e answer low high =
        law.refused (request_of body) w w' response answer low high ∙ e

    doubted-Ends :
        (body : Option Text) (value : T) (w : W)
        → Made body value
        → (sidecar.committed w ≡ l) ⊎ (sidecar.committed w ≡ request_of body ∷ l)
        → Ends l (err (indeterminate operation), w)
    doubted-Ends body value w made (inl k) = ends (failed k)
    doubted-Ends body value w made (inr k) = ends (in_doubt body value made refl k)

    answered-Ends :
        (attempt : ℕ) (body : Option Text) (value : T) (next : W → Run W (HttpReply × T)) (w : W)
        (answer : Option Response × W)
        → Made body value
        → Next next
        → sidecar.committed w ≡ l
        → sidecar.send (request_of body) w ≡ answer
        → (sidecar.committed answer.1 ≡ l) ⊎ (sidecar.committed answer.1 ≡ request_of body ∷ l)
        → Ends l (
            answered sidecar store operation
              (method_of ack)
              url
              ack
              make_attempt
              attempt
              value
              next
              answer)
    answered-Ends attempt body value next w (none, w') made h e sent once =
        doubted-Ends body value w' made once
    answered-Ends attempt body value next w (some response, w') made h e sent once =
        if-Holds (Ends l) (is_unusable sidecar response.headers)
          (λ _. doubted-Ends body value w' made once)
          (λ usable.
            if-Holds (Ends l) (is_server_error response.status)
              (λ b. retried-Ends _ attempt next w' h (
                refused-log body response w w' e (sent, protocol_of sidecar response usable)
                  (server_low response.status b) (server_high response.status b)))
              (λ _.
                if-Holds (Ends l)
                  (is_rejected sidecar store operation (method_of ack) url ack make_attempt
                    response.status)
                  (λ b. ends (
                    failed (
                      refused-log body response w w' e (sent, protocol_of sidecar response usable)
                        (client_low response.status _ b) (client_high response.status _ b))))
                  (λ _.
                    acknowledged-Ends body value response w w' _ made e
                      (sent, protocol_of sidecar response usable) once refl
                      (acknowledge-Classified sidecar operation ack response))))

    once_from :
        (q : SidecarRequest) (w : W)
        → sidecar.committed w ≡ l
        → (sidecar.committed (sidecar.send q w).1 ≡ l)
          ⊎ (sidecar.committed (sidecar.send q w).1 ≡ q ∷ l)
    once_from q w e = elim (law.once q w) [
      | inl k ↦ inl (k ∙ e)
      | inr k ↦ inr (k ∙ ap (λ log. q ∷ log) e)
    ]

    attempted-Ends :
        (attempt : ℕ) (next : M → W → Run W (HttpReply × T))
        (made : Result StoreError (Option Text × T) × M) (w : W)
        → ((m : M) → Kept m → Next (next m))
        → MadeBy made
        → sidecar.committed w ≡ l
        → Ends l (
            attempted sidecar store operation
              (method_of ack)
              url
              ack
              make_attempt
              attempt
              next
              made
              w)
    attempted-Ends attempt next (err e, m) w h k c = ends (failed c)
    attempted-Ends attempt next (ok (body, value), m) w h (made, kept) c =
        if-Holds (Ends l) (is_oversized body) (λ _. ends (failed c))
          (λ _.
            answered-Ends attempt body value (next m) w (sidecar.send (request_of body) w) made
              (h m kept) c refl (once_from (request_of body) w c))

    module _ (makes : (m : M) (w : W) → Kept m → MadeBy (make_attempt m w)) where
      mutation_loop-Ends :
          (left attempt : ℕ) (m : M)
          → Kept m
          → Next (
              mutation_loop sidecar store operation
                (method_of ack)
                url
                ack
                make_attempt
                left
                attempt
                m)
      unfolding mutation_loop
      mutation_loop-Ends zero attempt m kept w c = ends (failed c)
      mutation_loop-Ends (suc left) attempt m kept w c =
          attempted-Ends attempt
            (mutation_loop sidecar store operation (method_of ack) url ack make_attempt left
              (suc attempt))
            (make_attempt m w) w (mutation_loop-Ends left (suc attempt)) (makes m w kept) c

  pub mutation_request-Ends :
      (m : M) (w : W)
      → IsSidecar sidecar
      → ((m : M) (w : W) → Kept m → MadeBy (make_attempt m w))
      → Kept m
      → Ends
          (sidecar.committed w)
          (mutation_request sidecar store operation (method_of ack) url ack make_attempt m w)
  unfolding mutation_request
  mutation_request-Ends m w law makes kept =
      mutation_loop-Ends law (sidecar.committed w) makes store.max_attempts 0 m kept w refl
