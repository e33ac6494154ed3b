-- ===== src/Store/Exact.antt =====
-- The memory store against the map from keys to records that it stands for, one operation at a time.
use pingora_reverse_proxy.Prelude.{
  ◌≡◌, ◌≤◌, ◌⊎◌, refl, Option, none, some, ok, Text, if◌then◌else◌, arith,
}
use pingora_reverse_proxy.Map.{get, insert}
use pingora_reverse_proxy.Map.Laws.{same, get-insert, get-remove, eq_of_same}
use pingora_reverse_proxy.Map.Order.{text_ord}
use pingora_reverse_proxy.Route.{RouteKey, RouteData, Instant}
use pingora_reverse_proxy.Store.{ActivityFloor, current, Outcome, done, Store}
use pingora_reverse_proxy.Store.Memory.{MemoryStore, memory_store, raised_to, update_activity}

-- The later of an instant and a floor, if there is one.
abbrev pub IsLatest : Option Instant → Instant → Instant → Type 0
IsLatest none at n = n ≡ at
IsLatest (some floor) at n = (at ≤ n) × (floor ≤ n) × ((n ≡ at) ⊎ (n ≡ floor))

raised_to-IsLatest :
    (floor : Option Instant) (at : Instant) → IsLatest floor at (raised_to floor at)
raised_to-IsLatest none at = refl
raised_to-IsLatest (some floor) at = omega arith

module _ {X : Type 0} where
  -- One key has the given record, if any, and the others have what they had.
  abbrev pub Only : RouteKey → Option (RouteData X) → MemoryStore X → MemoryStore X → Type 0
  Only key o before after =
      (k : RouteKey) → get k after.routes ≡ (if same k key then o else get k before.routes)

  -- A record with its instant replaced, if there is one.
  abbrev pub with_activity : Instant → Option (RouteData X) → Option (RouteData X)
  with_activity at none = none
  with_activity at (some route) =
      some (record { target = route.target; last_activity = at; extra = route.extra })

  -- The result of a store that kept the given target and extra fields under a key.
  pub record Kept (key : RouteKey) (target : Text) (extra : X) (at : Instant)
      (floor : Option Instant) (before : MemoryStore X) (r : Outcome (RouteData X) × MemoryStore X)
      : Type 0 where
    pub route : RouteData X
    pub is_returned : r.0 ≡ done (ok route)
    pub is_stored : Only key (some route) before r.1
    pub target_law : route.target ≡ target
    pub extra_law : route.extra ≡ extra
    pub activity_law : IsLatest floor at route.last_activity

  -- What each operation of a store whose state is the memory store's does to the map.
  pub record IsExact (store : Store (MemoryStore X) X) : Type 0 where
    pub snapshot_law : (s : MemoryStore X) → store.snapshot s ≡ done (ok s.routes)
    pub add_law :
        (now : Instant) (key : RouteKey) (target : Text) (extra : X) (floor : ActivityFloor)
        (s : MemoryStore X)
        → Kept key target extra now (current floor) s (store.add now key target extra floor s)
    pub put_law :
        (key : RouteKey) (route : RouteData X) (s : MemoryStore X)
        → ((store.put key route s).0 ≡ done (ok tt))
          × Only key (some route) s (store.put key route s).1
    pub put_preserving_activity_law :
        (key : RouteKey) (route : RouteData X) (floor : ActivityFloor) (s : MemoryStore X)
        → Kept key route.target route.extra route.last_activity
            (current floor)
            s
            (store.put_preserving_activity key route floor s)
    pub update_activity_law :
        (key : RouteKey) (at : Instant) (s : MemoryStore X)
        → ((store.update_activity key at s).0 ≡ done (ok tt))
          × Only key (with_activity at (get key s.routes)) s (store.update_activity key at s).1
    pub delete_law :
        (key : RouteKey) (s : MemoryStore X)
        → ((store.delete key s).0 ≡ done (ok (get key s.routes)))
          × Only key none s (store.delete key s).1

  insert-Only :
      (key : RouteKey) (route : RouteData X) (s : MemoryStore X)
      → Only key (some route) s (record { routes = insert key route s.routes })
  insert-Only key route s k = get-insert k key route s.routes

  same-none :
      (key k : RouteKey) (s : MemoryStore X)
      → get key s.routes ≡ none
      → get k s.routes ≡ (if same k key then none else get k s.routes)
  same-none key k s e = ground (arith, eq_of_same k key, e)

  update_activity-Only :
      (key : RouteKey) (at : Instant) (s : MemoryStore X) (o : Option (RouteData X))
      → get key s.routes ≡ o
      → ((update_activity key at s).0 ≡ done (ok tt))
        × Only key (with_activity at (get key s.routes)) s (update_activity key at s).1
  unfolding update_activity
  update_activity-Only key at s none e = rw (e, update_activity) (refl, λ k. same-none key k s e)
  update_activity-Only key at s (some route) e =
      rw (e, update_activity) (refl, insert-Only key (record route { last_activity = at }) s)

-- The memory store: no operation fails, and each changes the record of its key at most. `add` and
-- `put_preserving_activity` store and return a record with the given target and extra fields and the
-- later of the clock's or the given instant and the floor; `put` stores the given record;
-- `update_activity` sets the instant of a record that is there and adds none; `delete` removes and
-- returns the record; `snapshot` returns the whole map.
pub memory_store-IsExact : (X : Type 0) → IsExact (memory_store X)
unfolding memory_store
memory_store-IsExact X = record {
  snapshot_law = λ s. refl;
  add_law = λ now key target extra floor s. record {
    route = record {
      target = target;
      last_activity = raised_to (current floor) now;
      extra = extra;
    };
    is_returned = refl;
    is_stored = λ k. get-insert k key _ s.routes;
    target_law = refl;
    extra_law = refl;
    activity_law = raised_to-IsLatest (current floor) now;
  };
  put_law = λ key route s. (refl, λ k. get-insert k key route s.routes);
  put_preserving_activity_law = λ key route floor s. record {
    route = record route { last_activity = raised_to (current floor) route.last_activity };
    is_returned = refl;
    is_stored = λ k. get-insert k key _ s.routes;
    target_law = refl;
    extra_law = refl;
    activity_law = raised_to-IsLatest (current floor) route.last_activity;
  };
  update_activity_law = λ key at s. update_activity-Only key at s (get key s.routes) refl;
  delete_law = λ key s. (refl, λ k. get-remove k key s.routes);
}
