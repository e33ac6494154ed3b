-- ===== src/RouteTable/Registry/Fresh.antt =====
-- The published snapshot: through every interleaving its matcher is built from its routes, which
-- are consistent.
use pingora_reverse_proxy.Prelude.{
  ◌≡◌, inl, inr, refl, Bool, [], Option, none, some, ok, err, Bool-cases,
}
use pingora_reverse_proxy.Map.{Map}
use pingora_reverse_proxy.Map.Laws.{IsSorted}
use pingora_reverse_proxy.Map.Order.{text_ord}
use pingora_reverse_proxy.Route.{RouteKey, RouteData}
use pingora_reverse_proxy.Store.{Outcome, done, panicked, Store}
use pingora_reverse_proxy.Store.Contract.{is_indeterminate}
use pingora_reverse_proxy.RouteTable.Ordered
use pingora_reverse_proxy.RouteTable.Ordered.{
  OrderedRoutes, Change, touch, apply_change, from_sorted,
}
use pingora_reverse_proxy.RouteTable.Ordered.Consistent.{
  IsConsistent, apply_change-IsConsistent, update_activity-IsConsistent, from_sorted-IsConsistent,
}
use pingora_reverse_proxy.RouteTable.Snapshot.{RouteSnapshot, from_ordered_routes, from_routes}
use pingora_reverse_proxy.RouteTable.Registry.{RouteRegistry, Committed, merge_and_publish}
use pingora_reverse_proxy.RouteTable.Registry.Run.{settle, complete}
use pingora_reverse_proxy.RouteTable.Registry.Served.{
  observe_activity-cases, execute_snapshot, admit_snapshot,
}
use pingora_reverse_proxy.RouteTable.Tracker.{MutationOperation}
use pingora_reverse_proxy.RouteTable.Registry.Steps.{
  System, Step, admits, executes, settles, completes, observes, seals, reports,
}

module _ {X : Type 0} where
  pub record IsFresh (s : RouteSnapshot X) : Type 0 where
    pub built : s ≡ from_ordered_routes s.routes
    pub consistent : IsConsistent s.routes

  from_ordered_routes-IsFresh :
      (routes : OrderedRoutes X) → IsConsistent routes → IsFresh (from_ordered_routes routes)
  unfolding from_ordered_routes
  from_ordered_routes-IsFresh routes h = record { built = refl; consistent = h }

  pub from_routes-IsFresh : (m : Map RouteKey (RouteData X)) → IsSorted m → IsFresh (from_routes m)
  unfolding from_routes
  from_routes-IsFresh m h =
      from_ordered_routes-IsFresh (from_sorted m) (from_sorted-IsConsistent m h)

  publish-IsFresh :
      (change : Change X) (s : RouteSnapshot X)
      → IsFresh s
      → IsFresh (merge_and_publish (apply_change change) [] s)
  unfolding merge_and_publish
  publish-IsFresh change s h =
      from_ordered_routes-IsFresh (apply_change change s.routes)
        (apply_change-IsConsistent change s.routes h.consistent)

module _ {S X : Type 0} where
  settle_ok-IsFresh :
      (change : Option (Change X)) (deleted : Option (RouteData X)) (r : RouteRegistry S X)
      → IsFresh r.snapshot
      → IsFresh (settle (done (ok (record { change = change; deleted = deleted }))) r).snapshot
  unfolding settle
  settle_ok-IsFresh none deleted r h = h
  settle_ok-IsFresh (some change) deleted r h = publish-IsFresh change r.snapshot h

  settle-IsFresh :
      (o : Outcome (Committed X)) (r : RouteRegistry S X)
      → IsFresh r.snapshot
      → IsFresh (settle o r).snapshot
  unfolding settle
  settle-IsFresh (done (ok c)) r h = settle_ok-IsFresh c.change c.deleted r h
  settle-IsFresh (done (err e)) r h = elim (Bool-cases (is_indeterminate e)) [
    | inl lost ↦ rw (lost, settle) h
    | inr known ↦ rw (known, settle) h
  ]
  settle-IsFresh panicked r h = h

  complete_snapshot :
      (op : MutationOperation) (detached : Bool) (o : Outcome (Committed X)) (r : RouteRegistry S X)
      → (complete op detached o r).snapshot ≡ r.snapshot
  unfolding complete
  complete_snapshot op detached o r = refl

  module _ (backend : Store S X) where
    -- Each step of any task leaves a fresh snapshot published.
    pub Step-IsFresh :
        {s t : System S X}
        → Step backend s t
        → IsFresh s.registry.snapshot
        → IsFresh t.registry.snapshot
    Step-IsFresh {s} (admits {r} m e) h = rw (admit_snapshot s.registry r e) h
    Step-IsFresh {s} (executes now m before after idle e) h =
        rw (execute_snapshot backend now m s.registry) h
    Step-IsFresh {s} (settles m o e) h = settle-IsFresh o s.registry h
    Step-IsFresh {s} (completes m o detached e) h = rw (complete_snapshot _ detached o s.registry) h
    Step-IsFresh {s} (observes key at) h = elim (observe_activity-cases key at s.registry) [
      | inl same ↦ rw same h
      | inr new ↦ rw new (
          from_ordered_routes-IsFresh (Ordered.update_activity key at s.registry.snapshot.routes)
            (update_activity-IsConsistent key at s.registry.snapshot.routes h.consistent))
    ]
    Step-IsFresh {s} seals h = h
    Step-IsFresh {s} (reports timed_out) h = h
