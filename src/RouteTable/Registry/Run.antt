-- ===== src/RouteTable/Registry/Run.antt =====
-- `run_mutation` of src/route_table.rs: admission, the supervised task, and the caller's answer.
use pingora_reverse_proxy.Prelude.{
  Bool, true, false, if◌then◌else◌, Option, none, some, [], ◌++◌, Result, ok, err, text,
}
use pingora_reverse_proxy.Route.{Instant}
use pingora_reverse_proxy.Store.{StoreError, message, Outcome, done, panicked, Store}
use pingora_reverse_proxy.Store.Contract.{is_indeterminate}
use pingora_reverse_proxy.RouteTable.Ordered.{apply_change}
use pingora_reverse_proxy.RouteTable.Registry.{
  RouteRegistry, Mutation, operation_of, Committed, commit, merge_and_publish,
}
use pingora_reverse_proxy.RouteTable.Tracker
use pingora_reverse_proxy.RouteTable.Tracker.{
  MutationOperation, MutationTrackerState, DetachedMutationFailure, DetachedMutationPanic,
}

abbrev pub with_mutations :
    {S X : Type 0} → RouteRegistry S X → MutationTrackerState → RouteRegistry S X
with_mutations registry mutations = record registry { mutations = mutations }

abbrev pub map_ok : {A B : Type 0} → (A → B) → Result StoreError A → Result StoreError B
map_ok f (ok a) = ok (f a)
map_ok f (err e) = err e

module _ {X : Type 0} where
  abbrev pub detached_failure :
      MutationOperation → Bool → Outcome (Committed X) → Option DetachedMutationFailure
  detached_failure op true (done (err e)) = some (record { operation = op; error = e })
  detached_failure op true (done (ok c)) = none
  detached_failure op true panicked = none
  detached_failure op false o = none

  abbrev pub detached_panic :
      MutationOperation → Bool → Outcome (Committed X) → Option DetachedMutationPanic
  detached_panic op true panicked =
      some (record { operation = op; message = Tracker.panic_message op })
  detached_panic op true (done r) = none
  detached_panic op false o = none

  -- What a caller that still waits receives.
  unfoldable pub response :
      MutationOperation → Outcome (Committed X) → Result StoreError (Committed X)
  unfolding Tracker.panic_message
  response op (done r) = r
  response op panicked = err (message (Tracker.panic_message op))

module _ {S X : Type 0} where
  unfoldable pub admit : RouteRegistry S X → Result StoreError (RouteRegistry S X)
  unfolding Tracker.begin
  admit registry = map_ok (with_mutations registry) (Tracker.begin registry.mutations)

  -- What the supervised task does once the mutation's future has ended: the publication at the end
  -- of the future, or the seal that its failure asks for.
  unfoldable pub settle : Outcome (Committed X) → RouteRegistry S X → RouteRegistry S X
  unfolding merge_and_publish apply_change Tracker.panic_seal Tracker.indeterminate_seal
  settle (done (ok c)) registry = elim (c.change) [
    | none ↦ registry
    | some change ↦ record registry {
      snapshot = merge_and_publish (apply_change change) [] registry.snapshot;
    }
  ]
  settle (done (err e)) registry =
      if is_indeterminate e
      then with_mutations registry (Tracker.indeterminate_seal registry.mutations)
      else registry
  settle panicked registry = with_mutations registry (Tracker.panic_seal registry.mutations)

  -- The end of the task; `detached` is whether the caller had stopped waiting.
  unfoldable pub complete :
      MutationOperation → Bool → Outcome (Committed X) → RouteRegistry S X → RouteRegistry S X
  unfolding Tracker.finish Tracker.panic_message
  complete op detached o registry = with_mutations registry (
      Tracker.finish (detached_failure op detached o) (detached_panic op detached o)
        registry.mutations)

module _ {S X : Type 0} (backend : Store S X) where
  -- Under the mutation lock: the check for a terminal failure, then the store operation.
  unfoldable pub execute :
      Instant → Mutation X → RouteRegistry S X → Outcome (Committed X) × RouteRegistry S X
  unfolding Tracker.reject_if_terminally_failed commit
  execute now mutation registry =
      let (o, store) = commit backend now mutation registry in
      elim (Tracker.reject_if_terminally_failed registry.mutations) [
        | err e ↦ (done (err e), registry)
        | ok _ ↦ (o, record registry { store = store })
      ]

  -- The task with nothing between its steps.
  unfoldable pub run_task :
      Instant
      → Bool
      → Mutation X
      → RouteRegistry S X
      → Result StoreError (Committed X) × RouteRegistry S X
  unfolding execute settle complete response
  run_task now detached mutation registry =
      let (o, executed) = execute now mutation registry in
      (
        response (operation_of mutation) o,
        complete (operation_of mutation) detached o (settle o executed),
      )

  -- `run_mutation`; `runtime` is whether the caller is on a Tokio runtime.
  unfoldable pub run_mutation :
      Bool
      → Instant
      → Bool
      → Mutation X
      → RouteRegistry S X
      → Result StoreError (Committed X) × RouteRegistry S X
  unfolding admit run_task Tracker.finish Tracker.name
  run_mutation runtime now detached mutation registry = elim (admit registry) [
    | err e ↦ (err e, registry)
    | ok admitted ↦ if runtime then run_task now detached mutation admitted else (
      err (
          message (
            text "route "
            ++ (Tracker.name (operation_of mutation)
                ++ text " mutation could not start: Tokio runtime unavailable"))),
      with_mutations admitted (Tracker.finish none none admitted.mutations),
    )
  ]
