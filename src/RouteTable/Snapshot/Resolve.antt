-- ===== src/RouteTable/Snapshot/Resolve.antt =====
-- Resolving a request path against the table that the matcher was built from.
use pingora_reverse_proxy.Prelude.{
  ◌≡◌, ◌≢◌, ◌↔◌, sym, ap, ◌∙◌, true, false, Option, none, some, List, [], ◌∷◌, ◌++◌, ◌≤◌, ◌<◌,
  length, Text, text_eq_iff, or_else, All, arith, Option-cases, Bool-cases, inl, inr, fun_ext,
}
use pingora_reverse_proxy.Map.{Map, get, insert}
use pingora_reverse_proxy.Map.Laws.{get-insert_self}
use pingora_reverse_proxy.Map.Order.{text_ord}
use pingora_reverse_proxy.Route.{RouteKey, RouteData, segments}
use pingora_reverse_proxy.RouteTable.Ordered.{OrderedRoutes, retain_others, replace}
use pingora_reverse_proxy.RouteTable.Ordered.Consistent.{is_some, member, IsConsistent}
use pingora_reverse_proxy.RouteTable.Snapshot.{RouteMatch, from_ordered_routes, resolve}
use pingora_reverse_proxy.RouteTable.Snapshot.Latest.{
  latest, match_at, find-build-empty, IsLatest, latest-IsLatest,
}
use pingora_reverse_proxy.RouteTable.Trie.Lookup.{path_eq_refl}
use pingora_reverse_proxy.RouteTable.Trie.Deepest.{deepest, resolve-deepest}
use pingora_reverse_proxy.RouteTable.Trie.Prefix.{is_prefix, deepest-IsDeepest, deepest-eq-none}

All-of_member :
    (P : RouteKey → Type 0) (l : List RouteKey)
    → ((k : RouteKey) → member k l ≡ true → P k)
    → All P l
All-of_member P [] h = tt
All-of_member P (k ∷ l) h =
    (h k (ground (arith, text_eq_iff k k)), All-of_member P l (λ j m. h j (ground arith)))

module _ {X : Type 0} where
  -- The matcher resolves a request path to the latest listed route at the longest prefix of the
  -- path's segments at which some listed route stands, and to nothing if there is none.
  pub resolve-eq-deepest :
      (routes : OrderedRoutes X) (path : Text)
      → resolve (from_ordered_routes routes) path
        ≡ deepest (latest routes.by_key routes.mutation_order) (segments path)
  unfolding resolve from_ordered_routes
  resolve-eq-deepest routes path =
      resolve-deepest _ (segments path)
      ∙ ap (λ at. deepest at (segments path))
          (fun_ext (find-build-empty routes.by_key routes.mutation_order))

  latest-ne-none :
      (by_key : Map RouteKey (RouteData X)) (k : RouteKey) (order : List RouteKey)
      → member k order ≡ true
      → is_some (get k by_key) ≡ true
      → latest by_key order (segments k) ≢ none
  unfolding latest
  latest-ne-none by_key k [] m h = cc
  latest-ne-none by_key k (j ∷ order) m h =
      ground (arith, latest-ne-none by_key k order, text_eq_iff k j, path_eq_refl (segments k))

  -- `m` is the answer for `path`: a stored route whose segments are a prefix of the path's, with no
  -- longer such route, and changed later than every other route with the same segments.
  pub record IsAnswer (routes : OrderedRoutes X) (path : Text) (m : RouteMatch X) : Type 0 where
    pub prefix : is_prefix (segments m.key) (segments path) ≡ true
    pub longest :
        (k : RouteKey)
        → is_some (get k routes.by_key) ≡ true
        → is_prefix (segments k) (segments path) ≡ true
        → length (segments k) ≤ length (segments m.key)
    pub newest : IsLatest routes.by_key routes.mutation_order (segments m.key) m

  module _ (routes : OrderedRoutes X) (valid : IsConsistent routes) (path : Text) where
    stored_listed : All (λ k. is_some (get k routes.by_key) ≡ true) routes.mutation_order
    stored_listed = All-of_member _ routes.mutation_order (λ k m. valid.listed k ∙ m)

    listed-latest :
        (k : RouteKey)
        → is_some (get k routes.by_key) ≡ true
        → latest routes.by_key routes.mutation_order (segments k) ≢ none
    listed-latest k here =
        latest-ne-none routes.by_key k routes.mutation_order (sym (valid.listed k) ∙ here) here

    -- In a consistent table a successful resolution is the answer: stored with that data, a prefix
    -- of the request on segment boundaries, of the greatest length, and the newest of its place.
    pub resolve-IsAnswer :
        (m : RouteMatch X)
        → resolve (from_ordered_routes routes) path ≡ some m
        → IsAnswer routes path m
    resolve-IsAnswer m e =
        let at = latest routes.by_key routes.mutation_order in
        let (p, d) =
          deepest-IsDeepest at (segments path) m (sym (resolve-eq-deepest routes path) ∙ e) in
        let i = latest-IsLatest routes.by_key routes.mutation_order p m stored_listed d.value in
        record {
          prefix = rw i.placed d.prefix;
          longest = λ k here prefix.
              let not_longer : ¬ (length (segments m.key) < length (segments k)) =
                λ l. listed-latest k here (d.deeper (segments k) prefix (rw (← i.placed) l)) in
              omega arith;
          newest = rw i.placed i;
        }

    none_missed :
        resolve (from_ordered_routes routes) path ≡ none
        → (k : RouteKey) → is_some (get k routes.by_key) ≡ true
        → is_prefix (segments k) (segments path) ≡ false
    none_missed e k here = elim (Bool-cases (is_prefix (segments k) (segments path))) [
      | inr apart ↦ apart
      | inl prefix ↦ absurd (
          listed-latest k here (
            deepest-eq-none _ (segments path) (segments k)
              (sym (resolve-eq-deepest routes path) ∙ e) prefix))
    ]

    none_found :
        ((k : RouteKey)
          → is_some (get k routes.by_key) ≡ true
          → is_prefix (segments k) (segments path) ≡ false)
        → resolve (from_ordered_routes routes) path ≡ none
    none_found h = elim (Option-cases (resolve (from_ordered_routes routes) path)) [
      | inl e ↦ e
      | inr (m, e) ↦
          let a = resolve-IsAnswer m e in
          let stored : is_some (get m.key routes.by_key) ≡ true = rw a.newest.stored in
          cc (h m.key stored, a.prefix)
    ]

    -- Nothing is resolved exactly when no stored route's segments are a prefix of the request's.
    pub resolve-eq-none_iff : (resolve (from_ordered_routes routes) path ≡ none) ↔ (
        (k : RouteKey)
        → is_some (get k routes.by_key) ≡ true
        → is_prefix (segments k) (segments path) ≡ false)
    resolve-eq-none_iff = (none_missed, none_found)

  latest-append :
      (by_key : Map RouteKey (RouteData X)) (order : List RouteKey) (k : RouteKey) (q : List Text)
      → latest by_key (order ++ k ∷ []) q ≡ or_else (match_at by_key k q) (latest by_key order q)
  unfolding latest
  latest-append by_key [] k q = ground arith
  latest-append by_key (j ∷ order) k q = ground (arith, latest-append by_key order k q)

  deepest-at_path :
      (at : List Text → Option (RouteMatch X)) (path : List Text) (m : RouteMatch X)
      → at path ≡ some m
      → deepest at path ≡ some m
  unfolding deepest
  deepest-at_path at [] m e = e
  deepest-at_path at (s ∷ path) m e = rw (deepest-at_path (λ q. at (s ∷ q)) path m e)

  -- Right after a route was replaced, a request for its key resolves to it, whatever else is there.
  pub resolve-replace :
      (key : RouteKey) (route : RouteData X) (routes : OrderedRoutes X)
      → resolve (from_ordered_routes (replace key route routes)) key
        ≡ some (record { key = key; route = route })
  unfolding replace
  resolve-replace key route routes =
      let by_key = insert key route routes.by_key in
      let order = retain_others key routes.mutation_order in
      resolve-eq-deepest (replace key route routes) key
      ∙ deepest-at_path _ (segments key) _ (
          latest-append by_key order key (segments key)
          ∙ ground (arith, get-insert_self key route routes.by_key, path_eq_refl (segments key)))
