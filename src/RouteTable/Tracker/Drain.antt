-- ===== src/RouteTable/Tracker/Drain.antt =====
-- `take_outcome` and `seal_and_drain` of src/route_table.rs. Between two looks at the state the
-- drain waits, and other tasks finish or seal the registry: an event says what they did and how the
-- wait ended.
use pingora_reverse_proxy.Prelude.{
  Bool, false, not, ◌==◌, if◌then◌else◌, Option, none, some, List, [], ◌∷◌,
}
use pingora_reverse_proxy.RouteTable.Tracker.{
  DetachedMutationFailure, DetachedMutationPanic, DetachedMutationDiagnostic, failure, panic,
  MutationDrainOutcome, MutationTrackerState, MutationSeal, open_, shutdown, backend_panic,
  indeterminate, finish, panic_seal, indeterminate_seal,
}

unfoldable pub failures : List DetachedMutationDiagnostic → List DetachedMutationFailure
failures [] = []
failures (failure f ∷ ds) = f ∷ failures ds
failures (panic p ∷ ds) = failures ds

unfoldable pub panics : List DetachedMutationDiagnostic → List DetachedMutationPanic
panics [] = []
panics (failure f ∷ ds) = panics ds
panics (panic p ∷ ds) = p ∷ panics ds

unfoldable pub take_outcome :
    Bool → MutationTrackerState → MutationDrainOutcome × MutationTrackerState
unfolding failures panics
take_outcome timed_out state = (
  record {
    timed_out = timed_out;
    active_mutations = state.active;
    detached_failures = failures state.diagnostics;
    detached_panics = panics state.diagnostics;
    dropped_detached_failures = state.dropped_detached_failures;
    dropped_detached_panics = state.dropped_detached_panics;
  },
  record state { diagnostics = []; dropped_detached_failures = 0; dropped_detached_panics = 0 },
)

-- What another task does to the tracker, under its lock: it finishes, or it seals the registry
-- after a panic of the backend or an indeterminate mutation.
pub data TaskAction : Type 0 where
  finished : Option DetachedMutationFailure → Option DetachedMutationPanic → TaskAction
  sealed_panic sealed_indeterminate : TaskAction

unfoldable pub act_all : List TaskAction → MutationTrackerState → MutationTrackerState
unfolding finish panic_seal indeterminate_seal
act_all [] state = state
act_all (finished f p ∷ tasks) state = act_all tasks (finish f p state)
act_all (sealed_panic ∷ tasks) state = act_all tasks (panic_seal state)
act_all (sealed_indeterminate ∷ tasks) state = act_all tasks (indeterminate_seal state)

pub data WaitEvent : Type 0 where
  changed : List TaskAction → WaitEvent
  deadline : List TaskAction → WaitEvent

-- The look at the state at the head of each round.
abbrev pub is_idle : MutationTrackerState → Bool
is_idle state = state.active == 0

-- The loop of `seal_and_drain`; `none` while it still waits.
unfoldable pub wait :
    List WaitEvent → MutationTrackerState → Option (MutationDrainOutcome × MutationTrackerState)
unfolding take_outcome act_all
wait [] state = if is_idle state then some (take_outcome false state) else none
wait (deadline tasks ∷ events) state =
    if is_idle state
    then some (take_outcome false state)
    else (let state' = act_all tasks state in some (take_outcome (not (is_idle state')) state'))
wait (changed tasks ∷ events) state =
    let rest = wait events (act_all tasks state) in
    if is_idle state then some (take_outcome false state) else rest

abbrev pub sealed_for_shutdown : MutationSeal → MutationSeal
sealed_for_shutdown open_ = shutdown
sealed_for_shutdown shutdown = shutdown
sealed_for_shutdown backend_panic = backend_panic
sealed_for_shutdown indeterminate = indeterminate

-- The write under the first lock of `seal_and_drain`.
unfoldable pub seal_shutdown : MutationTrackerState → MutationTrackerState
seal_shutdown state = record state { seal = sealed_for_shutdown state.seal }

unfoldable pub seal_and_drain :
    List WaitEvent → MutationTrackerState → Option (MutationDrainOutcome × MutationTrackerState)
unfolding wait seal_shutdown
seal_and_drain events state = wait events (seal_shutdown state)
