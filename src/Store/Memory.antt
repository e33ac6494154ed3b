-- ===== src/Store/Memory.antt =====
-- src/store/memory.rs: the store in memory. Its lock makes each operation one step.
use pingora_reverse_proxy.Prelude.{Option, none, some, ok, max, Text, []}
use pingora_reverse_proxy.Map.{Map, get, insert, remove}
use pingora_reverse_proxy.Map.Order.{text_ord}
use pingora_reverse_proxy.Route.{RouteKey, RouteData, Instant}
use pingora_reverse_proxy.Store.{ActivityFloor, current, Outcome, done, Store}

pub record MemoryStore (X : Type 0) : Type 0 where
  pub routes : Map RouteKey (RouteData X)

-- `floor.map_or(now, |floor| now.max(floor))`.
abbrev pub raised_to : Option Instant → Instant → Instant
raised_to none now = now
raised_to (some floor) now = max now floor

module _ {X : Type 0} where
  unfoldable pub new : MemoryStore X
  new = record { routes = [] }

  unfoldable pub snapshot : MemoryStore X → Outcome (Map RouteKey (RouteData X))
  snapshot s = done (ok s.routes)

  unfoldable pub add :
      Instant
      → RouteKey
      → Text
      → X
      → ActivityFloor
      → MemoryStore X
      → Outcome (RouteData X) × MemoryStore X
  add now key target extra activity_floor s =
      let route : RouteData X = record {
        target = target;
        last_activity = raised_to (current activity_floor) now;
        extra = extra;
      } in
      (done (ok route), record { routes = insert key route s.routes })

  unfoldable pub put : RouteKey → RouteData X → MemoryStore X → Outcome (Unit {0}) × MemoryStore X
  put key route s = (done (ok tt), record { routes = insert key route s.routes })

  unfoldable pub put_preserving_activity :
      RouteKey → RouteData X → ActivityFloor → MemoryStore X → Outcome (RouteData X) × MemoryStore X
  put_preserving_activity key route activity_floor s =
      let kept : RouteData X = record route {
        last_activity = raised_to (current activity_floor) route.last_activity;
      } in
      (done (ok kept), record { routes = insert key kept s.routes })

  unfoldable pub update_activity :
      RouteKey → Instant → MemoryStore X → Outcome (Unit {0}) × MemoryStore X
  update_activity key at s = elim (get key s.routes) [
    | none ↦ (done (ok tt), s)
    | some route ↦ (
      done (ok tt),
      record { routes = insert key (record route { last_activity = at }) s.routes },
    )
  ]

  unfoldable pub delete : RouteKey → MemoryStore X → Outcome (Option (RouteData X)) × MemoryStore X
  delete key s = (done (ok (get key s.routes)), record { routes = remove key s.routes })

-- `impl Store for MemoryStore`.
unfoldable pub memory_store : (X : Type 0) → Store (MemoryStore X) X
unfolding snapshot add put put_preserving_activity update_activity delete
memory_store X = record {
  snapshot = snapshot;
  add = add;
  put = put;
  put_preserving_activity = put_preserving_activity;
  update_activity = update_activity;
  delete = delete;
}
