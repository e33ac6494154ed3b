-- ===== src/Store/Sidecar/Bounded.antt =====
-- Bodies and delays of src/store/sidecar.rs within their limits.
use pingora_reverse_proxy.Prelude.{
  ℕ, ◌+◌, ◌-◌, ◌^◌, min, ◌≡◌, ◌≤◌, ◌∙◌, sym, ap, ◌↔◌, ltb, refl, false, Option, none, some, List,
  [], ◌∷◌, ◌++◌, ok, length, Text, arith, append_assoc, append-nil, length-append, Bool-cases, inl,
  inr,
}
use pingora_reverse_proxy.Store.Sidecar.{
  Response, max_response_bytes, most_attempts, SidecarConfig, read_chunks, is_longer, bounded_body,
  with_retry_policy, retry_delay,
}

abbrev prepend : Text → Option Text → Option Text
prepend chunk none = none
prepend chunk (some rest) = some (chunk ++ rest)

-- All the chunks, if none of them failed.
abbrev pub gathered : List (Option Text) → Option Text
gathered [] = some []
gathered (none ∷ chunks) = none
gathered (some chunk ∷ chunks) = prepend chunk (gathered chunks)

prepend-prepend : (a b : Text) (g : Option Text) → prepend a (prepend b g) ≡ prepend (a ++ b) g
prepend-prepend a b none = refl
prepend-prepend a b (some rest) = ap some (sym (append_assoc a b rest))

prepend-nil : (g : Option Text) → prepend [] g ≡ g
prepend-nil none = refl
prepend-nil (some rest) = refl

length-prepend :
    (a body : Text) (g : Option Text) → prepend a g ≡ some body → length a ≤ length body
length-prepend a body none h = cc
length-prepend a body (some rest) h = ground (arith, length-append a rest)

-- The test of the loop, whose saturated sum can only be too large if the sum is.
fits :
    (a b : Text)
    → length (a ++ b) ≤ max_response_bytes
    → ltb max_response_bytes (min (length a + length b) (2 ^ 64 - 1)) ≡ false
fits a b h = ground (arith, length-append a b)

fits-inverse :
    (a b : Text)
    → ltb max_response_bytes (min (length a + length b) (2 ^ 64 - 1)) ≡ false
    → length (a ++ b) ≤ max_response_bytes
fits-inverse a b h = ground (arith, length-append a b)

read_chunks-eq-ok :
    (bytes : Text) (chunks : List (Option Text)) (body : Text)
    → length bytes ≤ max_response_bytes
    → read_chunks bytes chunks ≡ ok body
    → (prepend bytes (gathered chunks) ≡ some body) × (length body ≤ max_response_bytes)
unfolding read_chunks
read_chunks-eq-ok bytes [] body h e = ground (arith, append-nil bytes)
read_chunks-eq-ok bytes (none ∷ chunks) body h e = cc
read_chunks-eq-ok bytes (some chunk ∷ chunks) body h e =
    elim (Bool-cases (ltb max_response_bytes (min (length bytes + length chunk) (2 ^ 64 - 1)))) [
      | inl b ↦ cc (rw (b) at e)
      | inr b ↦ rw (prepend-prepend bytes chunk (gathered chunks)) (
          read_chunks-eq-ok (bytes ++ chunk) chunks body (fits-inverse bytes chunk b) (rw (b) at e))
    ]

ok-read_chunks :
    (bytes : Text) (chunks : List (Option Text)) (body : Text)
    → prepend bytes (gathered chunks) ≡ some body
    → length body ≤ max_response_bytes
    → read_chunks bytes chunks ≡ ok body
unfolding read_chunks
ok-read_chunks bytes [] body h l = cc (h, append-nil bytes)
ok-read_chunks bytes (none ∷ chunks) body h l = cc
ok-read_chunks bytes (some chunk ∷ chunks) body h l =
    let joined = sym (prepend-prepend bytes chunk (gathered chunks)) ∙ h in
    let short = length-prepend (bytes ++ chunk) body (gathered chunks) joined in
    rw (fits bytes chunk (omega (arith, short, l)))
      (ok-read_chunks (bytes ++ chunk) chunks body joined l)

-- A body is read exactly if its announced length, if any, and its length are at most 4 MiB and no
-- chunk failed; then it is all the chunks in their order.
pub bounded_body_iff :
    (response : Response) (body : Text)
    → (bounded_body response ≡ ok body) ↔ (
        (is_longer response.content_length ≡ false)
        × (gathered response.chunks ≡ some body)
        × (length body ≤ max_response_bytes))
unfolding bounded_body
bounded_body_iff response body = (
  λ e. elim (Bool-cases (is_longer response.content_length)) [
    | inl b ↦ cc (rw (b) at e)
    | inr b ↦
        let (g, l) = read_chunks-eq-ok [] response.chunks body (omega arith) (rw (b) at e) in
        (b, sym (prepend-nil (gathered response.chunks)) ∙ g, l)
  ],
  λ (b, g, l).
      rw (b)
        (ok-read_chunks [] response.chunks body (prepend-nil (gathered response.chunks) ∙ g) l),
)

-- The attempts of a policy are 1 to 10, and no delay exceeds the limit that was asked for.
pub with_retry_policy-IsBounded :
    (attempts initial most attempt : ℕ) (config : SidecarConfig)
    → (1 ≤ (with_retry_policy attempts initial most config).max_attempts)
      × ((with_retry_policy attempts initial most config).max_attempts ≤ most_attempts)
      × (retry_delay
            (with_retry_policy attempts initial most config).initial_backoff
            (with_retry_policy attempts initial most config).max_backoff
            attempt
          ≤ most)
unfolding with_retry_policy retry_delay
with_retry_policy-IsBounded attempts initial most attempt config =
    (omega arith, omega arith, omega arith)
