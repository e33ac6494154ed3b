-- ===== src/RouteTable/Registry/Served.antt =====
-- What is served is what is stored: through every interleaving of tasks the published routes have
-- the targets and the extension fields of the backend's, unless a failure sealed the registry.
use pingora_reverse_proxy.Prelude.{
  ◌≡◌, ◌⊎◌, inl, inr, refl, Bool, Option, none, some, [], ok, err, arith, Bool-cases,
}
use pingora_reverse_proxy.Map
use pingora_reverse_proxy.Map.{Map}
use pingora_reverse_proxy.Map.Order.{text_ord}
use pingora_reverse_proxy.Route.{RouteKey, RouteData, Instant}
use pingora_reverse_proxy.Store.{StoreError, message, Outcome, done, panicked, Store}
use pingora_reverse_proxy.Store.Contract.{is_indeterminate, AllAgree, Agrees-trans, IsStore}
use pingora_reverse_proxy.RouteTable.Ordered
use pingora_reverse_proxy.RouteTable.Ordered.{OrderedRoutes, Change}
use pingora_reverse_proxy.RouteTable.Snapshot.{from_ordered_routes}
use pingora_reverse_proxy.RouteTable.Registry.{
  RouteRegistry, Mutation, operation_of, Committed, observe_activity,
}
use pingora_reverse_proxy.RouteTable.Registry.Agreement.{applied, applied-update_activity}
use pingora_reverse_proxy.RouteTable.Registry.Commit.{IsPending, commit-IsPending}
use pingora_reverse_proxy.RouteTable.Registry.Run.{
  with_mutations, admit, execute, settle, complete, detached_failure, detached_panic,
}
use pingora_reverse_proxy.RouteTable.Registry.Steps.{
  Stage, unlocked, executed, settled, System, Step, admits, executes, settles, completes, observes,
  seals, reports,
}
use pingora_reverse_proxy.RouteTable.Tracker
use pingora_reverse_proxy.RouteTable.Tracker.{
  MutationTrackerState, MutationSeal, open_, shutdown, backend_panic, indeterminate,
}
use pingora_reverse_proxy.RouteTable.Tracker.Drain.{
  seal_shutdown, sealed_for_shutdown, take_outcome,
}
use pingora_reverse_proxy.RouteTable.Tracker.Seal.{finish_seal}

-- The seals that a failed mutation leaves.
abbrev pub IsTerminal : MutationSeal → Type 0
IsTerminal open_ = ⊥
IsTerminal shutdown = ⊥
IsTerminal backend_panic = Unit
IsTerminal indeterminate = Unit

-- An observation publishes the route with its new activity, or changes nothing.
pub observe_activity-cases :
    {S X : Type 0} (key : RouteKey) (at : Instant) (r : RouteRegistry S X)
    → ((observe_activity key at [] r).1 ≡ r)
      ⊎ ((observe_activity key at [] r).1 ≡ record r {
        snapshot = from_ordered_routes (Ordered.update_activity key at r.snapshot.routes);
      })
unfolding observe_activity
observe_activity-cases key at r = ground arith

shutdown-IsTerminal :
    (seal : MutationSeal) → IsTerminal seal → IsTerminal (sealed_for_shutdown seal)
shutdown-IsTerminal backend_panic h = tt
shutdown-IsTerminal indeterminate h = tt
shutdown-IsTerminal open_ h = absurd h
shutdown-IsTerminal shutdown h = absurd h

pub seal_shutdown-IsTerminal :
    (t : MutationTrackerState) → IsTerminal t.seal → IsTerminal (seal_shutdown t).seal
unfolding seal_shutdown
seal_shutdown-IsTerminal t h = shutdown-IsTerminal t.seal h

pub take_outcome-IsTerminal :
    (timed_out : Bool) (t : MutationTrackerState)
    → IsTerminal t.seal
    → IsTerminal (take_outcome timed_out t).1.seal
unfolding take_outcome
take_outcome-IsTerminal timed_out t h = h

-- The check under the lock refuses exactly after a terminal failure.
reject-cases :
    (seal : MutationSeal) (t : MutationTrackerState)
    → t.seal ≡ seal
    → (IsTerminal seal × (e : StoreError) × (Tracker.reject_if_terminally_failed t ≡ err e))
      ⊎ ((¬ IsTerminal seal) × (Tracker.reject_if_terminally_failed t ≡ ok tt))
unfolding Tracker.reject_if_terminally_failed
reject-cases open_ t e = inr (λ h. h, rw e)
reject-cases shutdown t e = inr (λ h. h, rw e)
reject-cases backend_panic t e = inl (tt, message Tracker.mutation_panic_sealed_error, rw e)
reject-cases indeterminate t e = inl (tt, message Tracker.mutation_indeterminate_sealed_error, rw e)

module _ {S X : Type 0} where
  pub admit_snapshot : (r r' : RouteRegistry S X) → admit r ≡ ok r' → r'.snapshot ≡ r.snapshot
  unfolding admit
  admit_snapshot r r' e = ground arith

  pub execute_snapshot :
      (backend : Store S X) (now : Instant) (m : Mutation X) (r : RouteRegistry S X)
      → (execute backend now m r).1.snapshot ≡ r.snapshot
  unfolding execute
  execute_snapshot backend now m r = elim (reject-cases r.mutations.seal r.mutations refl) [
    | inl (terminal, e, rejected) ↦ rw (rejected, execute)
    | inr (alive, passed) ↦ rw (passed, execute)
  ]

module _ {S X : Type 0} (view : S → Map RouteKey (RouteData X)) where
  abbrev pub IsHonest : RouteRegistry S X → Type 0
  IsHonest r = IsTerminal r.mutations.seal ⊎ AllAgree (view r.store) r.snapshot.routes.by_key

  abbrev pub IsSound : RouteRegistry S X → Stage X → Type 0
  IsSound r unlocked = IsHonest r
  IsSound r (executed m o) =
      IsTerminal r.mutations.seal ⊎ IsPending view r.snapshot.routes o r.store
  IsSound r (settled m o) = IsHonest r

  settle_ok :
      (change : Option (Change X)) (deleted : Option (RouteData X)) (r : RouteRegistry S X)
      → IsTerminal r.mutations.seal
        ⊎ AllAgree (view r.store) (applied change r.snapshot.routes).by_key
      → IsHonest (settle (done (ok (record { change = change; deleted = deleted }))) r)
  unfolding settle
  settle_ok none deleted r h = h
  settle_ok (some change) deleted r h = h

  settle-IsHonest :
      (o : Outcome (Committed X)) (r : RouteRegistry S X)
      → IsTerminal r.mutations.seal ⊎ IsPending view r.snapshot.routes o r.store
      → IsHonest (settle o r)
  unfolding settle
  settle-IsHonest (done (ok c)) r h = settle_ok c.change c.deleted r h
  settle-IsHonest (done (err e)) r h = elim (Bool-cases (is_indeterminate e)) [
    | inl lost ↦ rw (lost, settle) (inl tt)
    | inr known ↦
        rw (known, settle)
          (elim h [ inl t ↦ inl t | inr (inl lost) ↦ cc | inr (inr all) ↦ inr all ])
  ]
  settle-IsHonest panicked r h = inl tt

  observe-IsSound :
      (key : RouteKey) (at : Instant) (r : RouteRegistry S X) (stage : Stage X)
      → IsSound r stage
      → IsSound
          (record r {
            snapshot = from_ordered_routes (Ordered.update_activity key at r.snapshot.routes);
          })
          stage
  unfolding from_ordered_routes
  observe-IsSound key at r unlocked (inl t) = inl t
  observe-IsSound key at r unlocked (inr all) = inr (λ k.
      Agrees-trans _ (Map.get k r.snapshot.routes.by_key) _ (all k)
        (applied-update_activity none key at r.snapshot.routes k))
  observe-IsSound key at r (settled m o) (inl t) = inl t
  observe-IsSound key at r (settled m o) (inr all) = inr (λ k.
      Agrees-trans _ (Map.get k r.snapshot.routes.by_key) _ (all k)
        (applied-update_activity none key at r.snapshot.routes k))
  observe-IsSound key at r (executed m o) (inl t) = inl t
  observe-IsSound key at r (executed m (done (ok c))) (inr all) = inr (λ k.
      Agrees-trans _ (Map.get k (applied c.change r.snapshot.routes).by_key) _ (all k)
        (applied-update_activity c.change key at r.snapshot.routes k))
  observe-IsSound key at r (executed m (done (err e))) (inr (inl lost)) = inr (inl lost)
  observe-IsSound key at r (executed m (done (err e))) (inr (inr all)) = inr (
      inr (λ k.
        Agrees-trans _ (Map.get k r.snapshot.routes.by_key) _ (all k)
          (applied-update_activity none key at r.snapshot.routes k)))
  observe-IsSound key at r (executed m panicked) (inr h) = inr h

  -- Soundness looks at the seal only for whether it is terminal.
  reseal-IsSound :
      (t : MutationTrackerState) (r : RouteRegistry S X) (stage : Stage X)
      → (IsTerminal r.mutations.seal → IsTerminal t.seal)
      → IsSound r stage
      → IsSound (with_mutations r t) stage
  reseal-IsSound t r unlocked keep (inl h) = inl (keep h)
  reseal-IsSound t r unlocked keep (inr h) = inr h
  reseal-IsSound t r (settled m o) keep (inl h) = inl (keep h)
  reseal-IsSound t r (settled m o) keep (inr h) = inr h
  reseal-IsSound t r (executed m o) keep (inl h) = inl (keep h)
  reseal-IsSound t r (executed m o) keep (inr h) = inr h

  complete-IsHonest :
      (m : Mutation X) (o : Outcome (Committed X)) (detached : Bool) (r : RouteRegistry S X)
      → IsHonest r
      → IsHonest (complete (operation_of m) detached o r)
  unfolding complete
  complete-IsHonest m o detached r h =
      let f = detached_failure (operation_of m) detached o in
      let p = detached_panic (operation_of m) detached o in
      reseal-IsSound (Tracker.finish f p r.mutations) r unlocked
        (λ k. rw ((finish_seal f p r.mutations).0) k) h

  admit-eq :
      (r r' : RouteRegistry S X)
      → admit r ≡ ok r'
      → (t : MutationTrackerState) × (r' ≡ with_mutations r t) × (t.seal ≡ r.mutations.seal)
  unfolding admit
  admit-eq r r' e = (r'.mutations, ground arith, ground arith)

  module _ (backend : Store S X) (contract : IsStore view backend) where
    execute-IsSound :
        (now : Instant) (m : Mutation X) (r : RouteRegistry S X)
        → IsHonest r
        → IsSound (execute backend now m r).1 (executed m (execute backend now m r).0)
    unfolding execute
    execute-IsSound now m r h = elim (reject-cases r.mutations.seal r.mutations refl) [
      | inl (terminal, e, rejected) ↦ rw (rejected, execute) (inl terminal)
      | inr (alive, passed) ↦
          rw (passed, execute)
            (elim h [
              | inl terminal ↦ absurd (alive terminal)
              | inr all ↦ inr (commit-IsPending view backend contract now m r all)
            ])
    ]

    -- Each step of any task keeps the registry sound for where the holder of the lock stands.
    pub Step-IsSound :
        {s t : System S X}
        → Step backend s t
        → IsSound s.registry s.stage
        → IsSound t.registry t.stage
    Step-IsSound {s} (admits {r} m e) h =
        let (t, same, seal) = admit-eq s.registry r e in
        rw same (reseal-IsSound t s.registry s.stage (λ k. rw seal k) h)
    Step-IsSound {s} (executes now m before after idle e) h =
        execute-IsSound now m s.registry (rw idle at h)
    Step-IsSound {s} (settles m o e) h = settle-IsHonest o s.registry (rw e at h)
    Step-IsSound {s} (completes m o detached e) h =
        complete-IsHonest m o detached s.registry (rw e at h)
    Step-IsSound {s} (observes key at) h = elim (observe_activity-cases key at s.registry) [
      | inl same ↦ rw same h
      | inr new ↦ rw new (observe-IsSound key at s.registry s.stage h)
    ]
    Step-IsSound {s} seals h =
        reseal-IsSound (seal_shutdown s.registry.mutations) s.registry s.stage
          (seal_shutdown-IsTerminal s.registry.mutations) h
    Step-IsSound {s} (reports timed_out) h =
        reseal-IsSound (take_outcome timed_out s.registry.mutations).1 s.registry s.stage
          (take_outcome-IsTerminal timed_out s.registry.mutations) h
