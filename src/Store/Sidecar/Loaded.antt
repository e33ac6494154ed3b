-- ===== src/Store/Sidecar/Loaded.antt =====
-- `decode_snapshot` of src/store/sidecar.rs loses no entry and merges none.
use pingora_reverse_proxy.Prelude.{
  suc, ◌+◌, ◌≡◌, refl, sym, Option, none, some, [], ◌∷◌, Result, ok, err, length, or_else, Text,
  if◌then◌else◌, arith,
}
use pingora_reverse_proxy.Map.{Map, get, insert}
use pingora_reverse_proxy.Map.Laws.{get-insert, same, eq_of_same}
use pingora_reverse_proxy.Map.Order.{text_ord}
use pingora_reverse_proxy.Route.{RouteKey, RouteData}
use pingora_reverse_proxy.Store.{StoreError}
use pingora_reverse_proxy.Store.Redis.Keys
use pingora_reverse_proxy.Store.Sidecar.Decode.{
  Entries, JsonReader, and_then, unless_some, key_of, or_corrupt, visit_route, visit_snapshot,
  decode_snapshot,
}
use pingora_reverse_proxy.Store.Sidecar.Request.{Sidecar}

length-insert :
    {V : Type 0} (k : RouteKey) (v : V) (m : Map RouteKey V)
    → get k m ≡ none
    → length (insert k v m) ≡ suc (length m)
unfolding get insert
length-insert k v [] h = refl
length-insert k v ((j, w) ∷ m) h = ground (arith, length-insert k v m)

and_then-some :
    {A B : Type 0} (o : Option A) (f : A → Option B) (b : B)
    → and_then o f ≡ some b
    → (a : A) × (o ≡ some a) × (f a ≡ some b)
and_then-some none f b h = cc
and_then-some (some a) f b h = (a, refl, h)

unless_some-some :
    {A B : Type 0} (o : Option A) (p : Option B) (b : B)
    → unless_some o p ≡ some b
    → (o ≡ none) × (p ≡ some b)
unless_some-some none p b h = (refl, h)
unless_some-some (some a) p b h = cc

module _ {W V : Type 0} (sidecar : Sidecar W) (json : JsonReader V) where
  -- The record of the first entry with a name.
  abbrev pub named : RouteKey → Entries (Entries V) → Option (RouteData (Map Text V))
  named k [] = none
  named k (none ∷ entries) = none
  named k (some (raw_key, fields) ∷ entries) =
      if same k raw_key then visit_route sidecar json none none [] fields else named k entries

  abbrev Shown :
      Map RouteKey (RouteData (Map Text V))
      → Entries (Entries V)
      → Map RouteKey (RouteData (Map Text V))
      → Type 0
  Shown routes entries result =
      ((k : RouteKey) → get k result ≡ or_else (get k routes) (named k entries))
      × (length result ≡ length routes + length entries)

  step-Shown :
      (key : RouteKey) (data_ : RouteData (Map Text V))
      (routes result : Map RouteKey (RouteData (Map Text V))) (fields : Entries V)
      (entries : Entries (Entries V))
      → get key routes ≡ none
      → visit_route sidecar json none none [] fields ≡ some data_
      → Shown (insert key data_ routes) entries result
      → Shown routes (some (key, fields) ∷ entries) result
  step-Shown key data_ routes result fields entries absent read (shown, count) = (
    λ k. ground (arith, shown k, get-insert k key data_ routes, eq_of_same k key, absent, read),
    omega (arith, count, length-insert key data_ routes absent),
  )

  key_of-some :
      (r : Result StoreError RouteKey) (k : RouteKey) → key_of sidecar json r ≡ some k → r ≡ ok k
  key_of-some (err e) k h = cc
  key_of-some (ok key) k h = cc

  visit_snapshot-Shown :
      (routes : Map RouteKey (RouteData (Map Text V))) (entries : Entries (Entries V))
      (result : Map RouteKey (RouteData (Map Text V)))
      → visit_snapshot sidecar json routes entries ≡ some result
      → Shown routes entries result
  unfolding visit_snapshot
  visit_snapshot-Shown routes [] result h = ground arith
  visit_snapshot-Shown routes (none ∷ entries) result h = cc
  visit_snapshot-Shown routes (some (raw_key, fields) ∷ entries) result h =
      let (key, k, h1) = and_then-some (key_of sidecar json (Keys.decode_key raw_key)) _ result h in
      let (data_, r, h2) =
        and_then-some (visit_route sidecar json none none [] fields) _ result h1 in
      let (absent, h3) = unless_some-some (get key routes) _ result h2 in
      let is_raw =
        Keys.decode_key-eq_self raw_key key (key_of-some (Keys.decode_key raw_key) key k) in
      rw (sym is_raw) (
        step-Shown key data_ routes result fields entries absent r
          (visit_snapshot-Shown (insert key data_ routes) entries result h3))

  or_corrupt-ok :
      {A : Type 0} (o : Option A) (a : A) → or_corrupt sidecar json o ≡ ok a → o ≡ some a
  or_corrupt-ok none a h = cc
  or_corrupt-ok (some b) a h = cc

  shown_of :
      (entries : Entries (Entries V)) (routes : Map RouteKey (RouteData (Map Text V)))
      → ((k : RouteKey) → get k routes ≡ or_else (get k []) (named k entries))
      → (k : RouteKey) → get k routes ≡ named k entries
  unfolding get
  shown_of entries routes h k = h k

  -- A body that is decoded has as many entries as the snapshot has routes, so no name occurs twice,
  -- and the route of each key is the decoded record of the entry with exactly that name, also a name
  -- with a trailing slash; a key without an entry has no route.
  pub decode_snapshot-Shown :
      (body : Text) (routes : Map RouteKey (RouteData (Map Text V)))
      → decode_snapshot sidecar json body ≡ ok routes
      → (entries : Entries (Entries V)) × (json.snapshot_of body ≡ some entries)
        × ((k : RouteKey) → get k routes ≡ named k entries)
        × (length routes ≡ length entries)
  unfolding decode_snapshot
  decode_snapshot-Shown body routes h =
      let read =
        or_corrupt-ok (and_then (json.snapshot_of body) (visit_snapshot sidecar json [])) routes
          h in
      let (entries, is_object, visited) =
        and_then-some (json.snapshot_of body) (visit_snapshot sidecar json []) routes read in
      let (shown, count) = visit_snapshot-Shown [] entries routes visited in
      (entries, is_object, shown_of entries routes shown, omega (arith, count))
