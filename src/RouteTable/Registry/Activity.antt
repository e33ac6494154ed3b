-- ===== src/RouteTable/Registry/Activity.antt =====
-- Activity in the published snapshot: what the compare-and-swap loops publish under contention, and
-- that no publication but a deletion loses an observed instant.
use pingora_reverse_proxy.Prelude.{
  ℕ, ◌+◌, ◌==◌, length, ◌++◌, append_assoc, ◌≡◌, ◌≢◌, ◌≤◌, ◌<◌, refl, sym, ap, ◌∙◌, true, Option,
  none, some, List, [], ◌∷◌, max, if◌then◌else◌, arith, Option-cases, Bool-cases, inl, inr,
}
use pingora_reverse_proxy.Map.{get}
use pingora_reverse_proxy.Map.Laws.{same, get-insert, get-remove, eq_of_same, same_refl}
use pingora_reverse_proxy.Map.Order.{text_ord}
use pingora_reverse_proxy.Route.{RouteKey, RouteData, Instant}
use pingora_reverse_proxy.RouteTable.Ordered.{
  OrderedRoutes, merged, touched, replace_preserving_activity, update_activity, remove_route,
  Change, replace_with, touch, drop_key, apply_change,
}
use pingora_reverse_proxy.RouteTable.Registry.{
  observe_attempt, observe_loop, merge_loop, Shared, publish, publish_all,
}
use pingora_reverse_proxy.RouteTable.Snapshot.{RouteSnapshot, from_ordered_routes}

max_of_lt : (a b : ℕ) → a < b → max a b ≡ b
max_of_lt a b h = omega arith

module _ {X : Type 0} where
  -- The snapshot that stands when the last compare-and-swap of a loop is made.
  abbrev pub last_published : List (RouteSnapshot X) → RouteSnapshot X → RouteSnapshot X
  last_published [] current = current
  last_published (other ∷ others) current = last_published others other

  publish_all_address :
      (ss : List (RouteSnapshot X)) (cell : Shared X)
      → (publish_all ss cell).address ≡ cell.address + length ss
  publish_all_address [] cell = omega arith
  publish_all_address (s ∷ ss) cell = omega (arith, publish_all_address ss (publish s cell))

  -- A comparison that succeeds found what was loaded.
  unchanged :
      (ss : List (RouteSnapshot X)) (cell : Shared X)
      → ((publish_all ss cell).address == cell.address) ≡ true
      → ss ≡ []
  unchanged [] cell h = refl
  unchanged (s ∷ ss) cell h = absurd (ground (arith, publish_all_address ss (publish s cell)))

  publish_all_append :
      (ss ts : List (RouteSnapshot X)) (cell : Shared X)
      → publish_all ts (publish_all ss cell) ≡ publish_all (ss ++ ts) cell
  publish_all_append [] ts cell = refl
  publish_all_append (s ∷ ss) ts cell = publish_all_append ss ts (publish s cell)

  -- What others publish in all rounds, in order.
  abbrev pub all_rounds : List (List (RouteSnapshot X)) → List (RouteSnapshot X)
  all_rounds [] = []
  all_rounds (others ∷ rounds) = others ++ all_rounds rounds

  -- The loop publishes once, directly after some of the others' snapshots, the change of the last.
  pub record PublishesOnce (apply : OrderedRoutes X → OrderedRoutes X)
      (rounds : List (List (RouteSnapshot X))) (loaded after : Shared X) : Type 0 where
    pub seen : List (RouteSnapshot X)
    pub rest : List (RouteSnapshot X)
    pub is_split : all_rounds rounds ≡ seen ++ rest
    pub is_next :
        after
        ≡ publish
            (from_ordered_routes (apply (publish_all seen loaded).snapshot.routes))
            (publish_all seen loaded)

  -- However many snapshots other tasks publish in each round, the loop publishes once, directly
  -- after the last that it saw of them, and what it publishes is the change applied to that one: no
  -- publication of another task is overwritten.
  pub merge_loop-PublishesOnce :
      (apply : OrderedRoutes X → OrderedRoutes X) (rounds : List (List (RouteSnapshot X)))
      (loaded : Shared X)
      → PublishesOnce apply rounds loaded (merge_loop apply rounds loaded)
  unfolding merge_loop
  merge_loop-PublishesOnce apply [] loaded = record {
    seen = [];
    rest = [];
    is_split = refl;
    is_next = refl;
  }
  merge_loop-PublishesOnce apply (others ∷ rounds) loaded =
      elim (Bool-cases ((publish_all others loaded).address == loaded.address)) [
        | inl e ↦ record {
          seen = [];
          rest = others ++ all_rounds rounds;
          is_split = refl;
          is_next = rw (e) (
              ap
                (λ ss.
                  publish (from_ordered_routes (apply loaded.snapshot.routes))
                    (publish_all ss loaded))
                (unchanged others loaded e));
        }
        | inr e ↦
            let i = merge_loop-PublishesOnce apply rounds (publish_all others loaded) in
            record {
              seen = others ++ i.seen;
              rest = i.rest;
              is_split =
                  ap (λ ss. others ++ ss) i.is_split ∙ sym (append_assoc others i.seen i.rest);
              is_next = rw (e) (
                  i.is_next
                  ∙ ap (λ cell. publish (from_ordered_routes (apply cell.snapshot.routes)) cell)
                      (publish_all_append others i.seen loaded));
            }
      ]

  abbrev map_touched : Instant → Option (RouteData X) → Option (RouteData X)
  map_touched at none = none
  map_touched at (some old) = some (touched at old)

  pub get-update_activity :
      (j key : RouteKey) (at : Instant) (routes : OrderedRoutes X)
      → get j (update_activity key at routes).by_key
        ≡ (if same j key then map_touched at (get key routes.by_key) else get j routes.by_key)
  unfolding update_activity
  get-update_activity j key at routes = elim (Option-cases (get key routes.by_key)) [
    | inl miss ↦ rw (miss, update_activity) (ground (arith, eq_of_same j key))
    | inr (old, hit) ↦ rw (hit, update_activity) (get-insert j key (touched at old) routes.by_key)
  ]

  observe_attempt-some :
      (key : RouteKey) (at : Instant) (current s : RouteSnapshot X)
      → observe_attempt key at current ≡ some s
      → (s ≡ from_ordered_routes (update_activity key at current.routes))
        × (old : RouteData X) × (get key current.routes.by_key ≡ some old)
        × (old.last_activity < at)
  unfolding observe_attempt
  observe_attempt-some key at current s e = elim (Option-cases (get key current.routes.by_key)) [
    | inl miss ↦ absurd (ground arith)
    | inr (old, hit) ↦ (ground arith, old, hit, ground arith)
  ]

  -- An observation that reports `true` has published, on top of the snapshot that stood at its
  -- compare-and-swap, the route with exactly the observed instant, later than the one it had, and
  -- with its target and extension fields unchanged.
  pub observe_loop-published :
      (key : RouteKey) (at : Instant) (others : List (RouteSnapshot X))
      (current s : RouteSnapshot X)
      → observe_loop key at others current ≡ (true, s)
      → (old : RouteData X) × (get key (last_published others current).routes.by_key ≡ some old)
        × (old.last_activity < at)
        × (get key s.routes.by_key ≡ some (record old { last_activity = at }))
        × (s ≡ from_ordered_routes (update_activity key at (last_published others current).routes))
  unfolding observe_loop from_ordered_routes update_activity
  observe_loop-published key at [] current s e =
      elim (Option-cases (observe_attempt key at current)) [
        | inl miss ↦ absurd (ground arith)
        | inr (next, hit) ↦
            let (is_new, old, found, later) = observe_attempt-some key at current next hit in
            let published : next ≡ s = ground arith in
            let at_key = get-update_activity key key at current.routes in
            (
              old,
              found,
              later,
              rw (← published, is_new)
                  (at_key ∙ (rw (same_refl key, found, max_of_lt old.last_activity at later))),
              rw (← published) is_new,
            )
      ]
  observe_loop-published key at (other ∷ others) current s e =
      elim (Option-cases (observe_attempt key at current)) [
        | inl miss ↦ absurd (ground arith)
        | inr (next, hit) ↦
            observe_loop-published key at others other s (rw (hit, observe_loop) at e)
      ]

  -- A change other than the deletion of the key keeps the route and its activity, or raises it.
  pub apply_change-activity :
      (change : Change X) (key : RouteKey) (routes : OrderedRoutes X) (a : RouteData X)
      → change ≢ drop_key key
      → get key routes.by_key ≡ some a
      → (b : RouteData X) × (get key (apply_change change routes).by_key ≡ some b)
        × (a.last_activity ≤ b.last_activity)
  unfolding apply_change replace_preserving_activity update_activity remove_route merged
  apply_change-activity (replace_with k route) key routes a other hit =
      elim (Bool-cases (same key k)) [
        | inl e ↦ (
          record route { last_activity = max route.last_activity a.last_activity },
          ground (
            arith,
            eq_of_same key k e,
            get-insert key k (merged (get k routes.by_key) route) routes.by_key,
          ),
          omega arith,
        )
        | inr e ↦ (
          a,
          rw (get-insert key k (merged (get k routes.by_key) route) routes.by_key, e) hit,
          omega arith,
        )
      ]
  apply_change-activity (touch k at) key routes a other hit = elim (Bool-cases (same key k)) [
    | inl e ↦ (
      touched at a,
      get-update_activity key k at routes ∙ ground (arith, eq_of_same key k e),
      omega arith,
    )
    | inr e ↦ (a, get-update_activity key k at routes ∙ (rw e hit), omega arith)
  ]
  apply_change-activity (drop_key k) key routes a other hit = elim (Bool-cases (same key k)) [
    | inl e ↦ absurd (other (ap drop_key (sym (eq_of_same key k e))))
    | inr e ↦ (a, rw (get-remove key k routes.by_key, e) hit, omega arith)
  ]
