-- ===== src/RouteTable/Registry/Steps.antt =====
-- Every interleaving of the tasks on one registry, as a step relation. The mutation lock lets one
-- task at a time execute; admissions, observations, finished waits and the seal of a drain happen
-- at any time.
use pingora_reverse_proxy.Prelude.{Bool, List, [], ok, ◌≡◌, ◌++◌, ◌∷◌}
use pingora_reverse_proxy.Route.{RouteKey, Instant}
use pingora_reverse_proxy.Store.{Outcome, Store}
use pingora_reverse_proxy.RouteTable.Registry.{
  RouteRegistry, Mutation, operation_of, Committed, observe_activity,
}
use pingora_reverse_proxy.RouteTable.Registry.Run.{with_mutations, admit, execute, settle, complete}
use pingora_reverse_proxy.RouteTable.Tracker.Drain.{seal_shutdown, take_outcome}

-- Where the task that holds the mutation lock stands.
pub data Stage (X : Type 0) : Type 0 where
  unlocked : Stage X
  executed : Mutation X → Outcome (Committed X) → Stage X
  settled : Mutation X → Outcome (Committed X) → Stage X

pub record System (S X : Type 0) : Type 0 where
  pub registry : RouteRegistry S X
  pub waiting : List (Mutation X)
  pub stage : Stage X

module _ {S X : Type 0} (backend : Store S X) where
  pub data Step (s : System S X) : System S X → Type 0 where
    admits :
        {r : RouteRegistry S X} (m : Mutation X)
        → admit s.registry ≡ ok r
        → Step s (record { registry = r; waiting = m ∷ s.waiting; stage = s.stage })
    executes :
        (now : Instant) (m : Mutation X) (before after : List (Mutation X))
        → s.stage ≡ unlocked
        → s.waiting ≡ before ++ m ∷ after
        → Step s (record {
          registry = (execute backend now m s.registry).1;
          waiting = before ++ after;
          stage = executed m (execute backend now m s.registry).0;
        })
    settles :
        (m : Mutation X) (o : Outcome (Committed X))
        → s.stage ≡ executed m o
        → Step s
            (record { registry = settle o s.registry; waiting = s.waiting; stage = settled m o })
    completes :
        (m : Mutation X) (o : Outcome (Committed X)) (detached : Bool)
        → s.stage ≡ settled m o
        → Step s (record {
          registry = complete (operation_of m) detached o s.registry;
          waiting = s.waiting;
          stage = unlocked;
        })
    observes :
        (key : RouteKey) (at : Instant)
        → Step s (record s { registry = (observe_activity key at [] s.registry).1 })
    seals :
        Step s
          (record s { registry = with_mutations s.registry (seal_shutdown s.registry.mutations) })
    reports :
        (timed_out : Bool)
        → Step s (record s {
          registry = with_mutations s.registry (take_outcome timed_out s.registry.mutations).1;
        })

  -- What can come of a registry by any number of steps of any tasks.
  pub data Reach (s : System S X) : System S X → Type 0 where
    here : Reach s s
    next : {t u : System S X} → Reach s t → Step t u → Reach s u
