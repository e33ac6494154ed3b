-- ===== src/Store/Sidecar.antt =====
-- src/store/sidecar.rs: the settings and the checks of a response. The reqwest and http crates are
-- parameters: a response is what the code reads of it.
pub mod Bounded
pub mod Request
pub mod Mutation
pub mod Ends
pub mod Answers
pub mod Committed
pub mod Segment
pub mod Decode
pub mod Operations
pub mod Update
pub mod Connect
pub mod Loaded
pub mod Floors
pub mod Removed
use pingora_reverse_proxy.Prelude.{
  ℕ, zero, suc, ◌+◌, ◌-◌, ◌*◌, ◌^◌, min, max, Bool, true, false, not, ◌||◌, Option, none, some,
  List, [], ◌∷◌, ◌++◌, Result, ok, err, ltb, leb, ◌==◌, if◌then◌else◌, length, Text, text, text_eq,
}

-- Durations are nanoseconds; this is `Duration::MAX`.
abbrev pub duration_max : ℕ
duration_max = (2 ^ 64) * 1000000000 - 1

abbrev pub default_attempts : ℕ
default_attempts = 3

abbrev pub most_attempts : ℕ
most_attempts = 10

abbrev pub max_mutation_request_bytes : ℕ
max_mutation_request_bytes = 1048576

abbrev pub max_response_bytes : ℕ
max_response_bytes = 4194304

abbrev pub max_response_header_count : ℕ
max_response_header_count = 64

abbrev pub max_response_header_bytes : ℕ
max_response_header_bytes = 32768

pub record SidecarConfig : Type 0 where
  pub base_url : Text
  pub bearer_token : Option Text
  pub connect_timeout : ℕ
  pub request_timeout : ℕ
  pub max_attempts : ℕ
  pub initial_backoff : ℕ
  pub max_backoff : ℕ

unfoldable pub new : Text → SidecarConfig
new base_url = record {
  base_url = base_url;
  bearer_token = none;
  connect_timeout = 1000000000;
  request_timeout = 2000000000;
  max_attempts = default_attempts;
  initial_backoff = 25000000;
  max_backoff = 200000000;
}

abbrev pub clamp : ℕ → ℕ → ℕ → ℕ
clamp least most n = min most (max least n)

unfoldable pub with_retry_policy : ℕ → ℕ → ℕ → SidecarConfig → SidecarConfig
with_retry_policy max_attempts initial_backoff max_backoff config = record config {
  max_attempts = clamp 1 most_attempts max_attempts;
  initial_backoff = min initial_backoff max_backoff;
  max_backoff = max_backoff;
}

-- `sleep_before_retry`, its delay.
unfoldable pub retry_delay : ℕ → ℕ → ℕ → ℕ
retry_delay initial_backoff max_backoff attempt =
    let multiplier = min (2 ^ attempt) (2 ^ 32 - 1) in
    min (min (initial_backoff * multiplier) duration_max) max_backoff

-- What the code reads of a `HeaderMap`: the values of a name, all pairs, and their number.
pub record HeaderMap : Type 0 where
  pub get_all : Text → List Text
  pub iter : List (Text × Text)
  pub len : ℕ

-- Each chunk that the connection yields; `none` is a failed read.
pub record Response : Type 0 where
  pub status : ℕ
  pub headers : HeaderMap
  pub content_length : Option ℕ
  pub chunks : List (Option Text)

pub data BodyReadError : Type 0 where
  transport too_large : BodyReadError

abbrev pub checked_add : ℕ → Option ℕ → Option ℕ
checked_add n none = none
checked_add n (some total) = if ltb (total + n) (2 ^ 64) then some (total + n) else none

-- The fold over the pairs, whose sum may not overflow.
unfoldable pub header_bytes : Option ℕ → List (Text × Text) → Option ℕ
header_bytes total [] = total
header_bytes total ((name, value) ∷ pairs) =
    header_bytes (checked_add (length value) (checked_add (length name) total)) pairs

abbrev pub within : ℕ → Option ℕ → Bool
within most none = false
within most (some total) = leb total most

unfoldable pub headers_within_limits : HeaderMap → Bool
unfolding header_bytes
headers_within_limits headers =
    if ltb max_response_header_count headers.len
    then false
    else within max_response_header_bytes (header_bytes (some 0) headers.iter)

abbrev pub only : (Text → Option Text) → List Text → Option Text
only to_str [] = none
only to_str (value ∷ []) = to_str value
only to_str (value ∷ other ∷ values) = none

abbrev pub is_text : Text → Option Text → Bool
is_text expected none = false
is_text expected (some value) = text_eq value expected

abbrev pub contains_key : HeaderMap → Text → Bool
contains_key headers name = elim (headers.get_all name) [ [] ↦ false | value ∷ values ↦ true ]

abbrev pub ambiguous : List Text → Bool
ambiguous [] = false
ambiguous (value ∷ []) = not (text_eq value (text "0"))
ambiguous (value ∷ other ∷ values) = true

unfoldable pub has_nonempty_or_ambiguous_body_framing : HeaderMap → Bool
has_nonempty_or_ambiguous_body_framing headers =
    if contains_key headers (text "transfer-encoding")
    then true
    else ambiguous (headers.get_all (text "content-length"))

-- `HeaderValue::to_str`.
module _ (to_str : Text → Option Text) where
  unfoldable pub single_header : HeaderMap → Text → Option Text
  single_header headers name = only to_str (headers.get_all name)

  unfoldable pub has_exact_protocol_header : HeaderMap → Bool
  unfolding single_header
  has_exact_protocol_header headers =
      is_text (text "v1") (single_header headers (text "x-store-protocol"))

  unfoldable pub has_exact_content_type : HeaderMap → Text → Bool
  unfolding single_header
  has_exact_content_type headers expected =
      is_text expected (single_header headers (text "content-type"))

-- The loop of `bounded_body` over the chunks.
unfoldable pub read_chunks : Text → List (Option Text) → Result BodyReadError Text
read_chunks bytes [] = ok bytes
read_chunks bytes (none ∷ chunks) = err transport
read_chunks bytes (some chunk ∷ chunks) =
    let rest = read_chunks (bytes ++ chunk) chunks in
    if ltb max_response_bytes (min (length bytes + length chunk) (2 ^ 64 - 1))
    then err too_large
    else rest

abbrev pub is_longer : Option ℕ → Bool
is_longer none = false
is_longer (some length) = ltb max_response_bytes length

unfoldable pub bounded_body : Response → Result BodyReadError Text
unfolding read_chunks
bounded_body response =
    if is_longer response.content_length then err too_large else read_chunks [] response.chunks
