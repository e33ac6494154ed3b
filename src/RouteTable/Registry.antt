-- ===== src/RouteTable/Registry.antt =====
-- `RouteRegistry` of src/route_table.rs: a store behind a published snapshot. A mutation is split
-- where other tasks can act: its admission, the store's commit under the mutation lock, the
-- publication of what was committed, and the end of the task.
pub mod Run
pub mod Steps
pub mod Agreement
pub mod Commit
pub mod Served
pub mod Fresh
pub mod Reachable
pub mod FailStop
pub mod Activity
use pingora_reverse_proxy.Prelude.{
  ℕ, suc, ◌==◌, Bool, true, false, if◌then◌else◌, leb, max, Option, none, some, List, [], ◌∷◌,
  Result, ok, err, Text,
}
use pingora_reverse_proxy.Map
use pingora_reverse_proxy.Map.{Map}
use pingora_reverse_proxy.Map.Order.{text_ord}
use pingora_reverse_proxy.Route.{RouteKey, RouteData, Instant}
use pingora_reverse_proxy.Store.{ActivityFloor, StoreError, Outcome, done, panicked, Store}
use pingora_reverse_proxy.RouteTable.Ordered
use pingora_reverse_proxy.RouteTable.Ordered.{
  OrderedRoutes, Change, replace_with, touch, drop_key, apply_change,
}
use pingora_reverse_proxy.RouteTable.Snapshot
use pingora_reverse_proxy.RouteTable.Snapshot.{
  RouteMatch, RouteSnapshot, from_ordered_routes, from_routes,
}
use pingora_reverse_proxy.RouteTable.Tracker
use pingora_reverse_proxy.RouteTable.Tracker.{
  MutationTrackerState, MutationStatus, MutationOperation, is_indeterminate,
}

pub record RouteRegistry (S X : Type 0) : Type 0 where
  pub store : S
  pub snapshot : RouteSnapshot X
  pub mutations : MutationTrackerState

pub data ConsistencyStatus : Type 0 where
  consistent indeterminate : ConsistencyStatus

module _ {S X : Type 0} where
  unfoldable pub get : RouteKey → RouteRegistry S X → Option (RouteData X)
  unfolding is_indeterminate
  get key registry =
      if is_indeterminate registry.mutations
      then none
      else Map.get key registry.snapshot.routes.by_key

  unfoldable pub all : RouteRegistry S X → Map RouteKey (RouteData X)
  unfolding is_indeterminate
  all registry = if is_indeterminate registry.mutations then [] else registry.snapshot.routes.by_key

  unfoldable pub resolve : Text → RouteRegistry S X → Option (RouteMatch X)
  unfolding is_indeterminate Snapshot.resolve
  resolve request_path registry =
      if is_indeterminate registry.mutations
      then none
      else Snapshot.resolve registry.snapshot request_path

  unfoldable pub consistency_status : RouteRegistry S X → ConsistencyStatus
  unfolding is_indeterminate
  consistency_status registry =
      if is_indeterminate registry.mutations then indeterminate else consistent

  unfoldable pub mutation_status : RouteRegistry S X → MutationStatus
  unfolding Tracker.status
  mutation_status registry = Tracker.status registry.mutations

  -- The closure of `activity_floor`, called while the registry is as given.
  unfoldable pub activity_floor : RouteKey → RouteRegistry S X → ActivityFloor
  unfolding get
  activity_floor key registry =
      λ _. elim (get key registry) [ none ↦ none | some route ↦ some route.last_activity ]

-- The content of the `ArcSwap`: a snapshot at an address. A new snapshot has an address that none
-- had before, as the snapshot that a loop has loaded is not freed while the loop holds it.
pub record Shared (X : Type 0) : Type 0 where
  pub address : ℕ
  pub snapshot : RouteSnapshot X

abbrev pub publish : {X : Type 0} → RouteSnapshot X → Shared X → Shared X
publish snapshot cell = record { address = suc cell.address; snapshot = snapshot }

abbrev pub publish_all : {X : Type 0} → List (RouteSnapshot X) → Shared X → Shared X
publish_all [] cell = cell
publish_all (s ∷ ss) cell = publish_all ss (publish s cell)

-- The loop of `merge_and_publish`: `loaded` is what the round has loaded, and the head of the list
-- is what other tasks publish before its compare-and-swap, which compares addresses.
unfoldable pub merge_loop :
    {X : Type 0}
    → (OrderedRoutes X → OrderedRoutes X)
    → List (List (RouteSnapshot X))
    → Shared X
    → Shared X
unfolding from_ordered_routes
merge_loop apply [] loaded = publish (from_ordered_routes (apply loaded.snapshot.routes)) loaded
merge_loop apply (others ∷ rounds) loaded =
    let found = publish_all others loaded in
    let retried = merge_loop apply rounds found in
    if found.address == loaded.address
    then publish (from_ordered_routes (apply loaded.snapshot.routes)) found
    else retried

unfoldable pub merge_and_publish :
    {X : Type 0}
    → (OrderedRoutes X → OrderedRoutes X)
    → List (List (RouteSnapshot X))
    → RouteSnapshot X
    → RouteSnapshot X
unfolding merge_loop
merge_and_publish apply rounds current =
    (merge_loop apply rounds (record { address = 0; snapshot = current })).snapshot

-- One round of `observe_activity` before its compare-and-swap: the snapshot to publish, or `none`
-- where it returns `false`.
unfoldable pub observe_attempt :
    {X : Type 0} → RouteKey → Instant → RouteSnapshot X → Option (RouteSnapshot X)
unfolding Ordered.update_activity from_ordered_routes
observe_attempt key at current = elim (Map.get key current.routes.by_key) [
  | none ↦ none
  | some existing ↦
      if leb at existing.last_activity
      then none
      else some (from_ordered_routes (Ordered.update_activity key at current.routes))
]

-- The loop of `observe_activity`, with the same `others`: its result, and the snapshot.
unfoldable pub observe_loop :
    {X : Type 0}
    → RouteKey
    → Instant
    → List (RouteSnapshot X)
    → RouteSnapshot X
    → Bool × RouteSnapshot X
unfolding observe_attempt
observe_loop key at [] current = elim (observe_attempt key at current) [
  | none ↦ (false, current)
  | some next ↦ (true, next)
]
observe_loop key at (other ∷ others) current =
    let retried = observe_loop key at others other in
    elim (observe_attempt key at current) [ none ↦ (false, current) | some next ↦ retried ]

-- The requests for a mutation, with what their callers pass.
pub data Mutation (X : Type 0) : Type 0 where
  add : RouteKey → Text → X → Mutation X
  put : RouteKey → RouteData X → Mutation X
  update_activity : RouteKey → Instant → Mutation X
  persist_observed_activity : RouteKey → Instant → Mutation X
  delete : RouteKey → Mutation X

abbrev pub operation_of : {X : Type 0} → Mutation X → MutationOperation
operation_of (add key target extra) = MutationOperation.add
operation_of (put key route) = MutationOperation.put
operation_of (update_activity key at) = MutationOperation.update_activity
operation_of (persist_observed_activity key at) = MutationOperation.update_activity
operation_of (delete key) = MutationOperation.delete

-- What a mutation goes on to publish and to return, once its store operation has succeeded.
pub record Committed (X : Type 0) : Type 0 where
  pub change : Option (Change X)
  pub deleted : Option (RouteData X)

abbrev pub map_done : {A B : Type 0} → (A → B) → Outcome A → Outcome B
map_done f (done (ok a)) = done (ok (f a))
map_done f (done (err e)) = done (err e)
map_done f panicked = panicked

abbrev pub publishing : {X : Type 0} → Change X → Committed X
publishing change = record { change = some change; deleted = none }

abbrev pub then_commit :
    {S A X : Type 0} → (A → Committed X) → Outcome A × S → Outcome (Committed X) × S
then_commit f (o, s) = (map_done f o, s)

module _ {S X : Type 0} where
  unfoldable pub observe_activity :
      RouteKey → Instant → List (RouteSnapshot X) → RouteRegistry S X → Bool × RouteRegistry S X
  unfolding is_indeterminate observe_loop
  observe_activity key at others registry =
      let (published, snapshot) = observe_loop key at others registry.snapshot in
      if is_indeterminate registry.mutations
      then (false, registry)
      else (published, record registry { snapshot = snapshot })

module _ {S X : Type 0} (backend : Store S X) where
  -- `load`.
  unfoldable pub load : S → Outcome (RouteRegistry S X)
  unfolding from_routes Tracker.default
  load store =
      map_done
        (λ routes. record {
          store = store;
          snapshot = from_routes routes;
          mutations = Tracker.default;
        })
        (backend.snapshot store)

  -- The store operation of a mutation, up to its commit.
  unfoldable pub commit : Instant → Mutation X → RouteRegistry S X → Outcome (Committed X) × S
  unfolding activity_floor get
  commit now (add key target extra) registry =
      then_commit (λ route. publishing (replace_with key route))
        (backend.add now key target extra (activity_floor key registry) registry.store)
  commit now (put key route) registry =
      then_commit (λ committed. publishing (replace_with key committed))
        (backend.put_preserving_activity key route (activity_floor key registry) registry.store)
  commit now (update_activity key at) registry =
      then_commit (λ _. publishing (touch key at)) (backend.update_activity key at registry.store)
  commit now (persist_observed_activity key at) registry = elim (get key registry) [
    | none ↦ (done (ok (record { change = none; deleted = none })), registry.store)
    | some current ↦
        then_commit (λ _. record { change = none; deleted = none })
          (backend.update_activity key (max current.last_activity at) registry.store)
  ]
  commit now (delete key) registry =
      then_commit (λ deleted. record { change = some (drop_key key); deleted = deleted })
        (backend.delete key registry.store)
