-- ===== src/Store/Redis/Keys.antt =====
-- The stored names of routes, of src/store/redis.rs and src/store/sidecar.rs.
use pingora_reverse_proxy.Prelude.{
  ℕ, ◌≡◌, refl, ap, true, ◌&&◌, if◌then◌else◌, ltb, [], ◌∷◌, ◌++◌, length, Result, ok, err, Text,
  text, arith, starts_with_byte, ends_with_byte, pop, Bool-cases, inl, inr,
}
use pingora_reverse_proxy.Route.{RouteKey, slash, normalize}
use pingora_reverse_proxy.Store.{StoreError, corrupt_data}

-- The text that parses to a stored name: the slash that parsing takes away is added back.
unfoldable pub parse_input : Text → Text
parse_input field =
    if ltb 1 (length field) && ends_with_byte slash field then field ++ slash ∷ [] else field

-- `RedisStore::decode_key`; `RouteKey::parse` does not fail.
unfoldable pub decode_key : Text → Result StoreError RouteKey
unfolding parse_input normalize
decode_key field =
    if starts_with_byte slash field
    then ok (normalize (parse_input field))
    else err (corrupt_data (text "snapshot") field)

pop-append : (s : Text) (x : ℕ) → pop (s ++ x ∷ []) ≡ s
pop-append [] x = refl
pop-append (y ∷ []) x = refl
pop-append (y ∷ z ∷ s) x = ap (◌∷◌ y) (pop-append (z ∷ s) x)

ends_with_byte-append : (s : Text) (x : ℕ) → ends_with_byte x (s ++ x ∷ []) ≡ true
ends_with_byte-append [] x = ground arith
ends_with_byte-append (y ∷ []) x = ground arith
ends_with_byte-append (y ∷ z ∷ s) x = ends_with_byte-append (z ∷ s) x

-- Parsing the text for a stored name gives exactly that name, for each name with a leading slash.
normalize-parse_input :
    (field : Text) → starts_with_byte slash field ≡ true → normalize (parse_input field) ≡ field
unfolding normalize parse_input
normalize-parse_input [] h = cc
normalize-parse_input (x ∷ []) h = ground arith
normalize-parse_input (x ∷ y ∷ s) h =
    ground (arith, pop-append (x ∷ y ∷ s) slash, ends_with_byte-append (x ∷ y ∷ s) slash)

-- A stored name with a leading slash is the key that it names, also with a trailing slash, which
-- parsing alone would take away.
pub decode_key-eq-ok :
    (field : Text) → starts_with_byte slash field ≡ true → decode_key field ≡ ok field
unfolding decode_key
decode_key-eq-ok field h = rw (h, normalize-parse_input field h)

-- No other name is accepted.
pub decode_key-eq_self : (field : Text) (key : RouteKey) → decode_key field ≡ ok key → key ≡ field
unfolding decode_key
decode_key-eq_self field key h = elim (Bool-cases (starts_with_byte slash field)) [
  | inl e ↦ cc (rw (e) at h, normalize-parse_input field e)
  | inr e ↦ cc (rw (e) at h)
]
