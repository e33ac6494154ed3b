-- ===== src/RouteTable/Registry/FailStop.antt =====
-- The stop after an indeterminate mutation: nothing is served, accepted or written any more.
use pingora_reverse_proxy.Prelude.{◌≡◌, refl, ◌∙◌, Bool, false, none, [], err, Text, arith}
use pingora_reverse_proxy.Route.{RouteKey, Instant}
use pingora_reverse_proxy.Store
use pingora_reverse_proxy.Store.{StoreError, message, Outcome, done, Store}
use pingora_reverse_proxy.Store.Contract.{is_indeterminate}
use pingora_reverse_proxy.RouteTable.Registry.{
  RouteRegistry, Mutation, operation_of, Committed, get, all, resolve, consistency_status,
  observe_activity,
}
use pingora_reverse_proxy.RouteTable.Registry
use pingora_reverse_proxy.RouteTable.Registry.Run.{
  admit, execute, settle, complete, detached_failure, detached_panic,
}
use pingora_reverse_proxy.RouteTable.Registry.Steps.{
  Stage, unlocked, executed, settled, System, Step, admits, executes, settles, completes, observes,
  seals, reports, Reach, here, next,
}
use pingora_reverse_proxy.RouteTable.Tracker
use pingora_reverse_proxy.RouteTable.Tracker.{indeterminate, backend_panic, open_, shutdown}
use pingora_reverse_proxy.RouteTable.Tracker.Drain.{seal_shutdown, take_outcome}
use pingora_reverse_proxy.RouteTable.Tracker.Seal.{finish_seal}

-- The holder of the lock, if there is one, was refused.
abbrev pub IsQuiet : {X : Type 0} → Stage X → Type 0
IsQuiet unlocked = Unit
IsQuiet (settled m o) = Unit
IsQuiet (executed m o) = (e : StoreError) × (o ≡ done (err e)) × (is_indeterminate e ≡ false)

module _ {S X : Type 0} (backend : Store S X) where
  pub record IsStopped (store : S) (s : System S X) : Type 0 where
    pub seal : s.registry.mutations.seal ≡ indeterminate
    pub quiet : IsQuiet s.stage
    pub untouched : s.registry.store ≡ store

  execute_refused :
      (now : Instant) (m : Mutation X) (r : RouteRegistry S X)
      → r.mutations.seal ≡ indeterminate
      → execute backend now m r
        ≡ (done (err (message Tracker.mutation_indeterminate_sealed_error)), r)
  unfolding execute
  execute_refused now m r e = rw (e, Tracker.reject_if_terminally_failed)

  settle_refused :
      (o : Outcome (Committed X)) (e : StoreError) (r : RouteRegistry S X)
      → o ≡ done (err e)
      → is_indeterminate e ≡ false
      → settle o r ≡ r
  unfolding settle
  settle_refused o e r same known = rw (same, settle) (rw (known, settle))

  observe_refused :
      (key : RouteKey) (at : Instant) (r : RouteRegistry S X)
      → r.mutations.seal ≡ indeterminate
      → observe_activity key at [] r ≡ (false, r)
  unfolding observe_activity
  observe_refused key at r e = ground arith

  admit_refused :
      (r : RouteRegistry S X)
      → r.mutations.seal ≡ indeterminate
      → admit r ≡ err (message Tracker.mutation_indeterminate_sealed_error)
  unfolding admit
  admit_refused r e = ground arith

  complete_seal :
      (op : Tracker.MutationOperation) (detached : Bool) (o : Outcome (Committed X))
      (r : RouteRegistry S X)
      → ((complete op detached o r).mutations.seal ≡ r.mutations.seal)
        × ((complete op detached o r).store ≡ r.store)
  unfolding complete
  complete_seal op detached o r = (
    (finish_seal (detached_failure op detached o) (detached_panic op detached o) r.mutations).0,
    refl,
  )

  seal_shutdown_indeterminate :
      (t : Tracker.MutationTrackerState)
      → t.seal ≡ indeterminate
      → (seal_shutdown t).seal ≡ indeterminate
  unfolding seal_shutdown
  seal_shutdown_indeterminate t e = ground arith

  Step-IsStopped :
      {store : S} {s t : System S X} → Step backend s t → IsStopped store s → IsStopped store t
  unfolding take_outcome
  Step-IsStopped {s = s} (admits {r} m e) h = absurd (cc (admit_refused s.registry h.seal))
  Step-IsStopped {s = s} (executes now m before after idle e) h =
      rw (execute_refused now m s.registry h.seal) (record {
        seal = h.seal;
        quiet = (message Tracker.mutation_indeterminate_sealed_error, refl, refl);
        untouched = h.untouched;
      })
  Step-IsStopped {s = s} (settles m o e) h =
      let (error, same, known) = let q : IsQuiet (executed m o) = rw e at h.quiet in q in
      rw (settle_refused o error s.registry same known)
        (record { seal = h.seal; quiet = tt; untouched = h.untouched })
  Step-IsStopped {s = s} (completes m o detached e) h =
      let (seal, store') = complete_seal (operation_of m) detached o s.registry in
      record { seal = seal ∙ h.seal; quiet = tt; untouched = store' ∙ h.untouched }
  Step-IsStopped {s = s} (observes key at) h = rw (observe_refused key at s.registry h.seal) h
  Step-IsStopped {s} seals h = record {
    seal = seal_shutdown_indeterminate s.registry.mutations h.seal;
    quiet = h.quiet;
    untouched = h.untouched;
  }
  Step-IsStopped {s = s} (reports timed_out) h = record {
    seal = h.seal;
    quiet = h.quiet;
    untouched = h.untouched;
  }

  Reach-IsStopped :
      {store : S} {s t : System S X} → IsStopped store s → Reach backend s t → IsStopped store t
  Reach-IsStopped h here = h
  Reach-IsStopped h (next r step) = Step-IsStopped step (Reach-IsStopped h r)

  -- The end of a mutation of which the backend does not know whether it took place.
  abbrev pub unknown : Text → Outcome (Committed X)
  unknown what = done (err (Store.indeterminate what))

  -- The task that holds the lock settles.
  abbrev pub settle_step : Mutation X → Outcome (Committed X) → System S X → System S X
  settle_step m o s = record {
    registry = settle o s.registry;
    waiting = s.waiting;
    stage = settled m o;
  }

  settle-seals :
      (what : Text) (r : RouteRegistry S X)
      → ((settle (unknown what) r).mutations.seal ≡ indeterminate)
        × ((settle (unknown what) r).store ≡ r.store)
  unfolding settle Tracker.indeterminate_seal
  settle-seals what r = (refl, refl)

  -- From a system in which the mutation that holds the lock has ended with an indeterminate error:
  -- once it settles, whatever the tasks go on to do, no lookup finds a route, the list of routes is
  -- empty, the registry reports that it is indeterminate, every mutation is refused with the fixed
  -- error, and the backend is not written again.
  pub Reach-stopped :
      (s t : System S X) (m : Mutation X) (what : Text) (path : Text) (key : RouteKey)
      → s.stage ≡ executed m (unknown what)
      → Reach backend (settle_step m (unknown what) s) t
      → Step backend s (settle_step m (unknown what) s)
        × (resolve path t.registry ≡ none)
        × (get key t.registry ≡ none)
        × (all t.registry ≡ [])
        × (consistency_status t.registry ≡ Registry.indeterminate)
        × (admit t.registry ≡ err (message Tracker.mutation_indeterminate_sealed_error))
        × (t.registry.store ≡ s.registry.store)
  unfolding resolve get all consistency_status
  Reach-stopped s t m what path key held run =
      let (seal, store') = settle-seals what s.registry in
      let stopped = Reach-IsStopped (record { seal = seal; quiet = tt; untouched = store' }) run in
      (
        settles m (unknown what) held,
        ground (arith, stopped.seal),
        ground (arith, stopped.seal),
        ground (arith, stopped.seal),
        ground (arith, stopped.seal),
        admit_refused t.registry stopped.seal,
        stopped.untouched,
      )
