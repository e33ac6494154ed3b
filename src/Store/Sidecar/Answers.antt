-- ===== src/Store/Sidecar/Answers.antt =====
-- What the status and the headers of an answer say, for src/store/sidecar.rs.
use pingora_reverse_proxy.Prelude.{
  ℕ, ◌≡◌, ◌≤◌, ◌<◌, ◌⊎◌, inl, inr, refl, Bool, true, false, ◌&&◌, arith,
}
use pingora_reverse_proxy.Store.Sidecar.{Response, has_exact_protocol_header}
use pingora_reverse_proxy.Store.Sidecar.Request.{
  Method, put, patch, delete, Sidecar, MutationAcknowledgment, put_ack, empty_ack, delete_ack,
  is_server_error, is_client_error, is_unusable,
}
use pingora_reverse_proxy.Store.Sidecar.Ends.{IsSuccess, Acked}

-- The method that goes with an acknowledgment.
abbrev pub method_of : MutationAcknowledgment → Method
method_of put_ack = put
method_of empty_ack = patch
method_of delete_ack = delete

pub protocol_of :
    {W : Type 0} (sidecar : Sidecar W) (response : Response)
    → is_unusable sidecar response.headers ≡ false
    → has_exact_protocol_header sidecar.to_str response.headers ≡ true
protocol_of sidecar response h = ground arith

pub server_low : (status : ℕ) → is_server_error status ≡ true → 400 ≤ status
server_low status h = ground arith

pub server_high : (status : ℕ) → is_server_error status ≡ true → status < 600
server_high status h = ground arith

pub client_low : (status : ℕ) (b : Bool) → (is_client_error status && b) ≡ true → 400 ≤ status
client_low status b h = ground arith

pub client_high : (status : ℕ) (b : Bool) → (is_client_error status && b) ≡ true → status < 600
client_high status b h = ground arith

-- An accepted status is a success, or a 404 for a deletion.
pub Acked-cases :
    {W : Type 0} (sidecar : Sidecar W) (ack : MutationAcknowledgment) (status : ℕ)
    → Acked sidecar ack status
    → (IsSuccess (method_of ack) status × (status < 300)) ⊎ ((ack ≡ delete_ack) × (status ≡ 404))
Acked-cases sidecar put_ack status h = inl (h, omega (arith, h))
Acked-cases sidecar empty_ack status h = inl (h, omega (arith, h))
Acked-cases sidecar delete_ack status (inl h) = inl (h, omega (arith, h))
Acked-cases sidecar delete_ack status (inr h) = inr (refl, h)
