-- ===== src/Api/Requests.antt =====
-- The paths and queries of src/api.rs. What it asks of the url and chrono crates is a parameter.
use pingora_reverse_proxy.Prelude.{
  ℕ, zero, suc, ◌-◌, true, false, Option, none, some, List, [], ◌∷◌, ◌++◌, Result, ok, err, or_else,
  Text, text, text_eq, strip_prefix, is_empty, if◌then◌else◌,
}
use pingora_reverse_proxy.Route.{RouteKey, Instant, normalize}
use pingora_reverse_proxy.Upstream.Paths

pub data RoutePathError : Type 0 where
  bad_request not_found : RoutePathError

-- `Url::parse` for the path of a URL, `from_utf8`, `form_urlencoded::parse`, and chrono's four
-- parsers, in the order in which the code tries them.
pub record Crates : Type 0 where
  pub pathname : Text → Option Text
  pub from_utf8 : List ℕ → Option Text
  pub form_urlencoded : Text → List (Text × Text)
  pub rfc3339 : Text → Option Instant
  pub date : Text → Option Instant
  pub rfc2822 : Text → Option Instant
  pub spaced : Text → Option Instant

-- `percent_decode` and `hex_value`, the same code as in src/upstream.rs.
unfoldable pub percent_decode : (List ℕ → Option Text) → Text → Option Text
unfolding Paths.percent_decode
percent_decode from_utf8 input = Paths.percent_decode from_utf8 input

-- `for _ in 1..clean_count`.
unfoldable pub clean : ℕ → RouteKey → RouteKey
unfolding normalize
clean zero key = key
clean (suc n) key = clean n (normalize key)

unfoldable pub first_value : Text → List (Text × Text) → Option Text
unfolding text_eq
first_value key [] = none
first_value key ((name, value) ∷ parameters) = elim (text_eq name key) [
  | true ↦ some value
  | false ↦ first_value key parameters
]

-- `filter(|value| !value.is_empty())`.
abbrev pub filled : Option Text → Option Text
filled none = none
filled (some []) = none
filled (some (x ∷ value)) = some (x ∷ value)

module _ (crates : Crates) where
  abbrev pub decoded_key : ℕ → Option Text → Result RoutePathError RouteKey
  decoded_key clean_count none = err bad_request
  decoded_key clean_count (some decoded) =
      ok (clean (clean_count - 1) (normalize (if is_empty decoded then text "/" else decoded)))

  abbrev pub stripped_key : ℕ → Option Text → Result RoutePathError RouteKey
  stripped_key clean_count none = err not_found
  stripped_key clean_count (some raw) =
      decoded_key clean_count (percent_decode crates.from_utf8 raw)

  abbrev pub normalized_key : ℕ → Option Text → Result RoutePathError RouteKey
  normalized_key clean_count none = err bad_request
  normalized_key clean_count (some pathname) =
      stripped_key clean_count (strip_prefix (text "/api/routes") pathname)

  unfoldable pub route_key_from_uri : Text → ℕ → Result RoutePathError RouteKey
  unfolding percent_decode clean normalize
  route_key_from_uri path clean_count = normalized_key clean_count (crates.pathname path)

  unfoldable pub parse_pinned_date_parse_subset : Text → Option Instant
  parse_pinned_date_parse_subset raw =
      or_else (crates.rfc3339 raw)
        (or_else (crates.date raw) (or_else (crates.rfc2822 raw) (crates.spaced raw)))

  abbrev pub parameters_of : Option Text → List (Text × Text)
  parameters_of none = []
  parameters_of (some query) = crates.form_urlencoded query

  abbrev pub parsed_instant : Text → Option Instant → Result Text (Option Instant)
  parsed_instant raw none = err (text "Invalid datestamp '" ++ (raw ++ text "' must be ISO8601."))
  parsed_instant raw (some at) = ok (some at)

  abbrev pub instant_of : Option Text → Result Text (Option Instant)
  instant_of none = ok none
  instant_of (some raw) = parsed_instant raw (parse_pinned_date_parse_subset raw)

  unfoldable pub inactive_since : Option Text → Result Text (Option Instant)
  unfolding first_value parse_pinned_date_parse_subset
  inactive_since query =
      let parameters = parameters_of query in
      instant_of (
        or_else (filled (first_value (text "inactiveSince") parameters))
          (filled (first_value (text "inactive_since") parameters)))
