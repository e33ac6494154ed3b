-- ===== src/Route.antt =====
-- src/route.rs: route keys, cleaned by CHP's slash rules, and the data stored under them. An
-- instant (`DateTime<Utc>`) is a number, since the program only compares instants; the extension
-- fields (`Map<String, Value>`) are a type `X`, since nothing here looks into them.
pub mod Laws
use pingora_reverse_proxy.Prelude.{
  ℕ, Bool, ◌&&◌, ◌||◌, not, if◌then◌else◌, ltb, List, [], ◌∷◌, Text, length, is_empty,
  starts_with_byte, ends_with_byte, pop, split, trim_matches,
}

-- The newtype has no more than its text.
abbrev pub RouteKey : Type 0
RouteKey = Text

abbrev pub slash : ℕ
slash = b'/'

unfoldable pub normalize : Text → RouteKey
normalize input =
    let normalized =
      if is_empty input || not (starts_with_byte slash input) then slash ∷ input else input in
    if ltb 1 (length normalized) && ends_with_byte slash normalized
    then pop normalized
    else normalized

abbrev pub Instant : Type 0
Instant = ℕ

pub record RouteData (X : Type 0) : Type 0 where
  pub target : Text
  pub last_activity : Instant
  pub extra : X

-- `segments` of src/route_table.rs: the filter drops all parts exactly when the path is empty.
unfoldable pub segments : Text → List Text
segments path =
    let path' = trim_matches slash path in if is_empty path' then [] else split slash path'
