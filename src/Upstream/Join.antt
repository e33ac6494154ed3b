-- ===== src/Upstream/Join.antt =====
-- The joined paths and the escapes of src/upstream.rs.
use pingora_reverse_proxy.Prelude.{
  ℕ, ◌+◌, ◌/◌, ◌%◌, ◌<◌, ◌≡◌, ◌≢◌, refl, sym, ap, append-nil, none, split_once, Bool, ◌&&◌, ◌||◌,
  true, false, Option, some, List, [], ◌∷◌, ◌++◌, Text, All, starts_with_byte, ends_with_byte, ltb,
  if◌then◌else◌, arith, pop,
}
use pingora_reverse_proxy.Upstream.Paths.{
  split_query, tail, push_segment, url_join, present, with_queries, hex, decode_bytes,
  percent_decode,
}

-- A path without its last slash, and without its first.
abbrev pub without_last_slash : Text → Text
without_last_slash path = if ends_with_byte 47 path then pop path else path

abbrev pub without_first_slash : Text → Text
without_first_slash path = if starts_with_byte 47 path then tail path else path

pop-cons : (l r : Text) → ends_with_byte 47 l ≡ true → pop l ++ 47 ∷ r ≡ l ++ r
pop-cons [] r h = cc
pop-cons (x ∷ []) r h = ground arith
pop-cons (x ∷ y ∷ l) r h = ap (◌∷◌ x) (pop-cons (y ∷ l) r h)

tail-cons : (s : Text) → starts_with_byte 47 s ≡ true → 47 ∷ tail s ≡ s
tail-cons [] h = cc
tail-cons (x ∷ s) h = ground arith

-- One slash between two paths, neither of them empty.
abbrev pub slashed : Text → Text → Text
slashed [] r = r
slashed (x ∷ l) [] = x ∷ l
slashed (x ∷ l) (y ∷ r) = without_last_slash (x ∷ l) ++ 47 ∷ without_first_slash (y ∷ r)

push_both :
    (l r : Text) (a b : Bool)
    → ends_with_byte 47 l ≡ a
    → starts_with_byte 47 r ≡ b
    → (if a && b then l ++ tail r else (if a || b then l ++ r else l ++ 47 ∷ r))
      ≡ (if a then pop l else l) ++ 47 ∷ (if b then tail r else r)
push_both l r true true h k = sym (pop-cons l (tail r) h)
push_both l r true false h k = sym (pop-cons l r h)
push_both l r false true h k = ap (λ t. l ++ t) (sym (tail-cons r k))
push_both l r false false h k = refl

push_segment-slashed : (l r : Text) → push_segment (push_segment [] l) r ≡ slashed l r
unfolding push_segment
push_segment-slashed [] [] = refl
push_segment-slashed [] (y ∷ r) = refl
push_segment-slashed (x ∷ l) [] = refl
push_segment-slashed (x ∷ l) (y ∷ r) =
    push_both (x ∷ l) (y ∷ r) (ends_with_byte 47 (x ∷ l)) (starts_with_byte 47 (y ∷ r)) refl refl

-- A path with its query, if it has one.
abbrev pub with_query : Text → Option Text → Text
with_query path none = path
with_query path (some query) = path ++ 63 ∷ query

-- The end of a joined text, from the two queries.
abbrev pub both_queries : Option Text → Option Text → Text
both_queries none none = []
both_queries none (some []) = []
both_queries none (some (y ∷ r)) = 63 ∷ y ∷ r
both_queries (some []) none = []
both_queries (some []) (some []) = []
both_queries (some []) (some (y ∷ r)) = 63 ∷ y ∷ r
both_queries (some (x ∷ l)) none = 63 ∷ x ∷ l
both_queries (some (x ∷ l)) (some []) = 63 ∷ x ∷ l
both_queries (some (x ∷ l)) (some (y ∷ r)) = 63 ∷ x ∷ (l ++ 38 ∷ y ∷ r)

abbrev pub HasNoMark : Text → Type 0
HasNoMark = All (λ b. b ≢ 63)

split_once-path : (path : Text) → HasNoMark path → split_once 63 path ≡ none
unfolding split_once
split_once-path [] h = refl
split_once-path (x ∷ path) (h, t) = ground (arith, h, split_once-path path t)

split_once-query :
    (path query : Text) → HasNoMark path → split_once 63 (path ++ 63 ∷ query) ≡ some (path, query)
unfolding split_once
split_once-query [] query h = refl
split_once-query (x ∷ path) query (h, t) = ground (arith, h, split_once-query path query t)

split_query-with_query :
    (path : Text) (query : Option Text)
    → HasNoMark path
    → split_query (with_query path query) ≡ (path, query)
unfolding split_query
split_query-with_query path none h = rw (split_query, split_once-path path h)
split_query-with_query path (some query) h = rw (split_query, split_once-query path query h)

with_queries-both :
    (path : Text) (q s : Option Text)
    → with_queries path (present (q ∷ s ∷ [])) ≡ path ++ both_queries q s
with_queries-both path none none = sym (append-nil path)
with_queries-both path none (some []) = sym (append-nil path)
with_queries-both path none (some (y ∷ r)) = refl
with_queries-both path (some []) none = sym (append-nil path)
with_queries-both path (some []) (some []) = sym (append-nil path)
with_queries-both path (some []) (some (y ∷ r)) = refl
with_queries-both path (some (x ∷ l)) none = refl
with_queries-both path (some (x ∷ l)) (some []) = refl
with_queries-both path (some (x ∷ l)) (some (y ∷ r)) = refl

-- For two paths with no `?` in them, each with or without a query: the joined text is the two
-- paths with a slash between them, put there where neither has one and once where both have one,
-- or the only path that is not empty; then, after `?`, the queries that are not empty, the left
-- one first and `&` between two.
pub url_join_lem :
    (left right : Text) (q s : Option Text)
    → HasNoMark left
    → HasNoMark right
    → url_join (with_query left q) (with_query right s) ≡ slashed left right ++ both_queries q s
unfolding url_join
url_join_lem left right q s h k =
    rw
      (
        split_query-with_query left q h,
        split_query-with_query right s k,
        push_segment-slashed left right,
      )
      (with_queries-both (slashed left right) q s)

abbrev pub hex_digit : ℕ → ℕ
hex_digit h = if ltb h 10 then 48 + h else 55 + h

-- Every byte escaped.
abbrev pub escaped : List ℕ → Text
escaped [] = []
escaped (b ∷ bs) = 37 ∷ hex_digit (b / 16) ∷ hex_digit (b % 16) ∷ escaped bs

hex-hex_digit : (h : ℕ) → h < 16 → hex (hex_digit h) ≡ some h
unfolding hex
hex-hex_digit h k = ground arith

decode_bytes-escaped : (bs : List ℕ) → All (λ b. b < 256) bs → decode_bytes (escaped bs) ≡ some bs
unfolding decode_bytes
decode_bytes-escaped [] h = refl
decode_bytes-escaped (b ∷ bs) (h, t) =
    rw
      (
        hex-hex_digit (b / 16) (omega (arith, h)),
        hex-hex_digit (b % 16) (omega arith),
        decode_bytes-escaped bs t,
      )
      (ap (λ x. some (x ∷ bs)) (omega arith))

-- Decoding a text in which every byte is escaped gives the bytes back.
pub percent_decode-escaped :
    (from_utf8 : List ℕ → Option Text) (bs : List ℕ)
    → All (λ b. b < 256) bs
    → percent_decode from_utf8 (escaped bs) ≡ from_utf8 bs
unfolding percent_decode
percent_decode-escaped from_utf8 bs h = rw (percent_decode, decode_bytes-escaped bs h)
