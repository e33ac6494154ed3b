-- ===== src/Upstream/Paths.antt =====
-- The helpers on texts of src/upstream.rs: joined paths, hosts and ports, schemes and escapes.
use pingora_reverse_proxy.Prelude.{
  ℕ, suc, zero, ◌+◌, ◌-◌, ◌*◌, ◌/◌, ◌%◌, Bool, false, ◌&&◌, ◌||◌, Option, none, some, List, [], ◌∷◌,
  ◌++◌, all, Text, text, starts_with_byte, ends_with_byte, is_empty, split_once, ◌==◌, leb, ltb,
  if◌then◌else◌,
}

-- `split_query`: the path and the query.
unfoldable pub split_query : Text → Text × Option Text
unfolding split_once
split_query value = elim (split_once 63 value) [
  | none ↦ (value, none)
  | some (path, query) ↦ (path, some query)
]

abbrev pub tail : Text → Text
tail [] = []
tail (x ∷ xs) = xs

-- A round of the loop of `url_join` over the two paths.
unfoldable pub push_segment : Text → Text → Text
push_segment joined segment =
    if is_empty segment
    then joined
    else (if ends_with_byte 47 joined && starts_with_byte 47 segment
        then joined ++ tail segment
        else (if is_empty joined || (ends_with_byte 47 joined || starts_with_byte 47 segment)
            then joined ++ segment
            else joined ++ 47 ∷ segment))

-- `flatten().filter(non-empty)`.
abbrev pub present : List (Option Text) → List Text
present [] = []
present (none ∷ qs) = present qs
present (some [] ∷ qs) = present qs
present (some (x ∷ q) ∷ qs) = (x ∷ q) ∷ present qs

-- `[&str]::join`.
abbrev pub join : Text → List Text → Text
join separator [] = []
join separator (t ∷ []) = t
join separator (t ∷ u ∷ ts) = t ++ (separator ++ join separator (u ∷ ts))

abbrev pub with_queries : Text → List Text → Text
with_queries joined [] = joined
with_queries joined (q ∷ qs) = joined ++ (text "?" ++ join (text "&") (q ∷ qs))

unfoldable pub url_join : Text → Text → Text
unfolding split_query push_segment
url_join left right =
    let (left_path, left_query) = split_query left in
    let (right_path, right_query) = split_query right in
    with_queries (push_segment (push_segment [] left_path) right_path)
      (present (left_query ∷ right_query ∷ []))

abbrev pub is_digit : ℕ → Bool
is_digit b = leb 48 b && leb b 57

abbrev pub is_alphabetic : ℕ → Bool
is_alphabetic b = (leb 65 b && leb b 90) || (leb 97 b && leb b 122)

unfoldable pub hex : ℕ → Option ℕ
hex byte =
    if is_digit byte
    then some (byte - 48)
    else (if leb 97 byte && leb byte 102
        then some (byte - 87)
        else (if leb 65 byte && leb byte 70 then some (byte - 55) else none))

abbrev pub push_byte : Option ℕ → Option ℕ → Option Text → Option Text
push_byte (some high) (some low) (some rest) = some ((high * 16 + low) ∷ rest)
push_byte _ _ _ = none

abbrev pub keep_byte : ℕ → Option Text → Option Text
keep_byte b none = none
keep_byte b (some rest) = some (b ∷ rest)

-- The loop of `percent_decode`.
unfoldable pub decode_bytes : Text → Option Text
unfolding hex
decode_bytes [] = some []
decode_bytes (x ∷ []) = if x == 37 then none else some (x ∷ [])
decode_bytes (x ∷ y ∷ []) =
    let rest = decode_bytes (y ∷ []) in if x == 37 then none else keep_byte x rest
decode_bytes (x ∷ y ∷ z ∷ s) =
    let skipped = decode_bytes s in
    let rest = decode_bytes (y ∷ z ∷ s) in
    if x == 37 then push_byte (hex y) (hex z) skipped else keep_byte x rest

unfoldable pub percent_decode : (List ℕ → Option Text) → Text → Option Text
unfolding decode_bytes
percent_decode from_utf8 encoded = elim (decode_bytes encoded) [
  | none ↦ none
  | some decoded ↦ from_utf8 decoded
]

-- `host_name`: the authority without its port.
unfoldable pub host_name : Text → Text
unfolding split_once
host_name authority =
    if starts_with_byte 91 authority
    then (elim (split_once 93 authority) [
      | none ↦ authority
      | some (host, rest) ↦ host ++ text "]"
    ])
    else (elim (split_once 58 authority) [ none ↦ authority | some (host, rest) ↦ host ])

-- `whatwg_scheme`.
abbrev pub is_scheme : Text → Bool
is_scheme [] = false
is_scheme (b ∷ bs) =
    is_alphabetic b
    && all (λ x. (is_alphabetic x || is_digit x) || (x == 43 || (x == 45 || x == 46))) bs

unfoldable pub whatwg_scheme : Text → Option Text
unfolding split_once
whatwg_scheme value =
    let scheme : Text = elim (split_once 58 value) [ none ↦ value | some (name, rest) ↦ name ] in
    if is_scheme scheme then some scheme else none

abbrev pub digits : ℕ → ℕ → Text → Text
digits zero n acc = acc
digits (suc fuel) n acc =
    let d = 48 + n % 10 in
    let rest = digits fuel (n / 10) (d ∷ acc) in if ltb n 10 then d ∷ acc else rest

-- `to_string` of a `u16`, which has at most five digits.
unfoldable pub to_string : ℕ → Text
to_string n = digits 5 n []
