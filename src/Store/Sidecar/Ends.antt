-- ===== src/Store/Sidecar/Ends.antt =====
-- What docs/sidecar-store.md promises of a sidecar, and how a mutation may end.
use pingora_reverse_proxy.Prelude.{
  ℕ, ◌≡◌, ◌≤◌, ◌<◌, ◌⊎◌, inl, inr, refl, Bool, true, false, not, ◌||◌, Option, none, some, ◌∷◌,
  Result, ok, err, ◌==◌, if-Holds, Text, text, arith,
}
use pingora_reverse_proxy.Route.{Instant}
use pingora_reverse_proxy.Store.{StoreError}
use pingora_reverse_proxy.Store.Contract.{is_indeterminate}
use pingora_reverse_proxy.Store.Sidecar.{
  Response, BodyReadError, has_exact_protocol_header, has_exact_content_type, bounded_body,
  single_header,
}
use pingora_reverse_proxy.Store.Sidecar.Request.{
  Method, get, put, patch, delete, Sidecar, SidecarRequest, HttpReply, MutationAcknowledgment,
  put_ack, empty_ack, delete_ack, is_unexpected, acknowledge, dated, emptied, replied,
  read_mutation_body, timestamp_of,
}

-- The statuses of a success.
abbrev pub IsSuccess : Method → ℕ → Type 0
IsSuccess get status = ⊥
IsSuccess put status = status ≡ 204
IsSuccess patch status = status ≡ 204
IsSuccess delete status = status ≡ 200

module _ {W : Type 0} (sidecar : Sidecar W) where
  abbrev pub IsAnswer : SidecarRequest → W → Response → W → Type 0
  IsAnswer q w r w' =
      (sidecar.send q w ≡ (some r, w'))
      × (has_exact_protocol_header sidecar.to_str r.headers ≡ true)

  -- A request is committed at most once; an answer of the protocol tells whether it was, if its
  -- status is a success or an error. A lost reply, or another answer, tells nothing.
  pub record IsSidecar : Type 0 where
    pub sleep_committed :
        (n : ℕ) (w : W) → sidecar.committed (sidecar.sleep n w) ≡ sidecar.committed w
    pub get_committed :
        (q : SidecarRequest) (w : W)
        → q.method ≡ get
        → sidecar.committed (sidecar.send q w).1 ≡ sidecar.committed w
    pub once :
        (q : SidecarRequest) (w : W)
        → (sidecar.committed (sidecar.send q w).1 ≡ sidecar.committed w)
          ⊎ (sidecar.committed (sidecar.send q w).1 ≡ q ∷ sidecar.committed w)
    pub refused :
        (q : SidecarRequest) (w w' : W) (r : Response)
        → IsAnswer q w r w'
        → 400 ≤ r.status
        → r.status < 600
        → sidecar.committed w' ≡ sidecar.committed w
    pub acknowledged :
        (q : SidecarRequest) (w w' : W) (r : Response)
        → IsAnswer q w r w'
        → IsSuccess q.method r.status
        → sidecar.committed w' ≡ q ∷ sidecar.committed w

  -- What an acknowledgment that the code takes says of its status.
  abbrev pub Acked : MutationAcknowledgment → ℕ → Type 0
  Acked put_ack status = status ≡ 204
  Acked empty_ack status = status ≡ 204
  Acked delete_ack status = (status ≡ 200) ⊎ (status ≡ 404)

  pub data Classified (ack : MutationAcknowledgment) (status : ℕ)
      : Result StoreError HttpReply → Type 0 where
    doubtful : {e : StoreError} → is_indeterminate e ≡ true → Classified ack status (err e)
    taken :
        {reply : HttpReply}
        → reply.status ≡ status
        → Acked ack status
        → Classified ack status (ok reply)

  module _ (operation : Text) (ack : MutationAcknowledgment) (status : ℕ)
      (h : Acked ack status) where
    replied-Classified :
        (at : Option Instant) (body : Result BodyReadError Text)
        → Classified ack status
            (replied sidecar status at (read_mutation_body sidecar operation body))
    replied-Classified at (err e) = doubtful refl
    replied-Classified at (ok body) = taken refl h

    emptied-Classified :
        (at : Option Instant) (body : Result BodyReadError Text)
        → Classified ack status
            (emptied sidecar operation status at (read_mutation_body sidecar operation body))
    emptied-Classified at (err e) = doubtful refl
    emptied-Classified at (ok body) =
        if-Holds (Classified ack status) _ (λ e. taken refl h) (λ e. doubtful refl)

    dated-Classified :
        (at : Option Instant) (body : Result BodyReadError Text)
        → Classified ack status
            (dated sidecar operation status at (read_mutation_body sidecar operation body))
    dated-Classified none body = doubtful refl
    dated-Classified (some at) body = emptied-Classified (some at) body

  passed :
      (status expected : ℕ) (loud : Bool)
      → (not (status == expected) || loud) ≡ false
      → status ≡ expected
  passed status expected loud h = ground arith

  equal : (status expected : ℕ) → (status == expected) ≡ true → status ≡ expected
  equal status expected h = ground arith

  -- The code takes no other status than these, and every other answer is an indeterminate result.
  pub acknowledge-Classified :
      (operation : Text) (ack : MutationAcknowledgment) (response : Response)
      → Classified ack response.status (acknowledge sidecar operation ack response)
  unfolding acknowledge
  acknowledge-Classified operation put_ack response =
      if-Holds (Classified put_ack response.status) (is_unexpected sidecar 204 response)
        (λ e. doubtful refl)
        (λ e.
          dated-Classified operation put_ack response.status (passed response.status 204 _ e)
            (timestamp_of sidecar
              (single_header sidecar.to_str response.headers (text "x-store-last-activity")))
            (bounded_body response))
  acknowledge-Classified operation empty_ack response =
      if-Holds (Classified empty_ack response.status) (is_unexpected sidecar 204 response)
        (λ e. doubtful refl)
        (λ e.
          emptied-Classified operation empty_ack response.status (passed response.status 204 _ e)
            none (bounded_body response))
  acknowledge-Classified operation delete_ack response =
      if-Holds (Classified delete_ack response.status) (response.status == 200)
        (λ e.
          if-Holds (Classified delete_ack response.status)
            (not (has_exact_content_type sidecar.to_str response.headers (text "application/json")))
            (λ _. doubtful refl)
            (λ _.
              replied-Classified operation delete_ack response.status
                (inl (equal response.status 200 e)) none (bounded_body response)))
        (λ e.
          if-Holds (Classified delete_ack response.status) (is_unexpected sidecar 404 response)
            (λ _. doubtful refl)
            (λ k.
              emptied-Classified operation delete_ack response.status
                (inr (passed response.status 404 _ k)) none (bounded_body response)))
