-- ===== src/Api.antt =====
-- The authorisation of src/api.rs. The UTF-8 decoder is a parameter, `first_char`, which gives the
-- first character of a text that is valid as a whole; the comparison is the constant_time_eq crate's.
pub mod Authorized
pub mod Requests
pub mod State
pub mod Handlers
pub mod Refused
pub mod Listed
use pingora_reverse_proxy.Prelude.{
  ℕ, zero, suc, ◌-◌, Bool, true, false, ◌&&◌, ◌||◌, Option, none, some, List, [], ◌∷◌, leb, ltb,
  ◌==◌, if◌then◌else◌, or_else, any, length, Text, text, strip_prefix, is_empty,
}

abbrev pub is_space_byte : ℕ → Bool
is_space_byte b = any (λ s. b == s) (32 ∷ 9 ∷ 10 ∷ 11 ∷ 12 ∷ 13 ∷ 160 ∷ [])

abbrev is_space_char : ℕ → Bool
is_space_char c =
    (leb 8192 c && leb c 8202)
    || any (λ s. c == s) (160 ∷ 5760 ∷ 8232 ∷ 8233 ∷ 8239 ∷ 8287 ∷ 12288 ∷ 65279 ∷ [])

abbrev len_utf8 : ℕ → ℕ
len_utf8 c = if ltb c 128 then 1 else (if ltb c 2048 then 2 else (if ltb c 65536 then 3 else 4))

abbrev space_width : Option ℕ → Option ℕ
space_width none = none
space_width (some c) = if is_space_char c then some (len_utf8 c) else none

abbrev pub is_some {ℓ} : {A : Type ℓ} → Option A → Bool
is_some none = false
is_some (some a) = true

module _ (first_char : Text → Option ℕ) where
  unfoldable pub javascript_whitespace_width : Text → Option ℕ
  javascript_whitespace_width [] = none
  javascript_whitespace_width (x ∷ xs) =
      if is_space_byte x then some 1 else space_width (first_char (x ∷ xs))

  -- The loop that skips whitespace; the number is what is left of a character's width.
  unfoldable pub skip_whitespace : ℕ → Text → Text
  skip_whitespace skip [] = []
  skip_whitespace (suc skip) (x ∷ xs) = skip_whitespace skip xs
  skip_whitespace zero (x ∷ xs) = elim (javascript_whitespace_width (x ∷ xs)) [
    | none ↦ x ∷ xs
    | some width ↦ skip_whitespace (width - 1) xs
  ]

  -- The bytes before the next whitespace.
  unfoldable pub until_whitespace : Text → Text
  until_whitespace [] = []
  until_whitespace (x ∷ xs) = elim (javascript_whitespace_width (x ∷ xs)) [
    | none ↦ x ∷ until_whitespace xs
    | some width ↦ []
  ]

  -- What follows a marker: whitespace, then at least one other byte.
  unfoldable pub token_after : Text → Option Text
  unfolding javascript_whitespace_width skip_whitespace until_whitespace
  token_after rest =
      let token = until_whitespace (skip_whitespace 0 rest) in
      if is_some (javascript_whitespace_width rest)
      then (if is_empty token then none else some token)
      else none

  -- The loop over the markers; the number is what is left of a marker.
  unfoldable pub search : ℕ → Text → Option Text
  unfolding token_after
  search skip [] = none
  search (suc skip) (x ∷ xs) = search skip xs
  search zero (x ∷ xs) = elim (strip_prefix (text "token") (x ∷ xs)) [
    | none ↦ search 0 xs
    | some rest ↦ or_else (token_after rest) (search 4 xs)
  ]

  unfoldable pub extract_token : Text → Option Text
  unfolding search
  extract_token header = search 0 header

  abbrev pub token_of : Option Text → Option Text
  token_of none = none
  token_of (some header) = extract_token header

  abbrev pub matches : (Text → Text → Bool) → Text → Option Text → Bool
  matches constant_time_eq expected none = false
  matches constant_time_eq expected (some candidate) =
      let equal_length = length candidate == length expected in
      let compared = if equal_length then candidate else expected in
      equal_length && constant_time_eq compared expected

  -- `authorized`, with the configured token and the `Authorization` header.
  unfoldable pub authorized : (Text → Text → Bool) → Option Text → Option Text → Bool
  unfolding extract_token
  authorized constant_time_eq none header = true
  authorized constant_time_eq (some expected) header =
      matches constant_time_eq expected (token_of header)
