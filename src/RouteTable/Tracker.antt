-- ===== src/RouteTable/Tracker.antt =====
-- `MutationTracker` of src/route_table.rs: the admission of mutations, the count of those that run,
-- and the ring of diagnostics about callers that stopped waiting. The lock makes each operation one
-- step on the state.
pub mod Drain
pub mod Ring
pub mod Seal
use pingora_reverse_proxy.Prelude.{
  ℕ, suc, ◌+◌, ◌-◌, ◌^◌, Bool, true, false, not, if◌then◌else◌, ◌==◌, Option, none, some, List, [],
  ◌∷◌, ◌++◌, length, Text, text, Result, ok, err, min,
}
use pingora_reverse_proxy.Store.{StoreError, message}

pub data MutationOperation : Type 0 where
  add put update_activity delete : MutationOperation

unfoldable pub name : MutationOperation → Text
name add = text "add"
name put = text "put"
name update_activity = text "activity update"
name delete = text "delete"

unfoldable pub panic_message : MutationOperation → Text
unfolding name
panic_message op = text "route " ++ (name op ++ text " mutation task panicked")

pub record DetachedMutationFailure : Type 0 where
  pub operation : MutationOperation
  pub error : StoreError

pub record DetachedMutationPanic : Type 0 where
  pub operation : MutationOperation
  pub message : Text

pub record MutationDrainOutcome : Type 0 where
  pub timed_out : Bool
  pub active_mutations : ℕ
  pub detached_failures : List DetachedMutationFailure
  pub detached_panics : List DetachedMutationPanic
  pub dropped_detached_failures : ℕ
  pub dropped_detached_panics : ℕ

pub data MutationSeal : Type 0 where
  open_ shutdown backend_panic indeterminate : MutationSeal

pub record MutationStatus : Type 0 where
  pub is_sealed : Bool
  pub seal : MutationSeal
  pub active_mutations : ℕ

abbrev pub mutation_admission_sealed_error : Text
mutation_admission_sealed_error =
    text "route registry is shutting down; mutation admission is sealed"

abbrev pub mutation_panic_sealed_error : Text
mutation_panic_sealed_error = text "route registry is terminally sealed after a backend panic"

abbrev pub mutation_indeterminate_sealed_error : Text
mutation_indeterminate_sealed_error =
    text "route registry is terminally sealed after an indeterminate backend mutation"

abbrev pub detached_mutation_diagnostic_capacity : ℕ
detached_mutation_diagnostic_capacity = 256

pub data DetachedMutationDiagnostic : Type 0 where
  failure : DetachedMutationFailure → DetachedMutationDiagnostic
  panic : DetachedMutationPanic → DetachedMutationDiagnostic

pub record MutationTrackerState : Type 0 where
  pub seal : MutationSeal
  pub active : ℕ
  pub diagnostics : List DetachedMutationDiagnostic
  pub dropped_detached_failures : ℕ
  pub dropped_detached_panics : ℕ

unfoldable pub default : MutationTrackerState
default = record {
  seal = open_;
  active = 0;
  diagnostics = [];
  dropped_detached_failures = 0;
  dropped_detached_panics = 0;
}

-- `usize` on the supported 64-bit targets.
abbrev pub usize_max : ℕ
usize_max = 2 ^ 64 - 1

abbrev pub saturating_add : ℕ → ℕ → ℕ
saturating_add a b = min (a + b) usize_max

unfoldable pub drop_oldest : MutationTrackerState → MutationTrackerState
drop_oldest state = elim (state.diagnostics) [
  | [] ↦ state
  | failure f ∷ rest ↦ record state {
    diagnostics = rest;
    dropped_detached_failures = saturating_add state.dropped_detached_failures 1;
  }
  | panic p ∷ rest ↦ record state {
    diagnostics = rest;
    dropped_detached_panics = saturating_add state.dropped_detached_panics 1;
  }
]

abbrev push_back : DetachedMutationDiagnostic → MutationTrackerState → MutationTrackerState
push_back diagnostic state = record state { diagnostics = state.diagnostics ++ diagnostic ∷ [] }

unfoldable pub push_diagnostic :
    DetachedMutationDiagnostic → MutationTrackerState → MutationTrackerState
unfolding drop_oldest
push_diagnostic diagnostic state = push_back diagnostic (
    if length state.diagnostics == detached_mutation_diagnostic_capacity
    then drop_oldest state
    else state)

-- The error that an admission meets under a seal.
abbrev pub admission_error : MutationSeal → Option StoreError
admission_error open_ = none
admission_error shutdown = some (message mutation_admission_sealed_error)
admission_error backend_panic = some (message mutation_panic_sealed_error)
admission_error indeterminate = some (message mutation_indeterminate_sealed_error)

unfoldable pub begin : MutationTrackerState → Result StoreError MutationTrackerState
begin state = elim (admission_error state.seal) [
  | some error ↦ err error
  | none ↦ ok (record state { active = saturating_add state.active 1 })
]

abbrev push_failure : Option DetachedMutationFailure → MutationTrackerState → MutationTrackerState
push_failure none state = state
push_failure (some f) state = push_diagnostic (failure f) state

abbrev push_panic : Option DetachedMutationPanic → MutationTrackerState → MutationTrackerState
push_panic none state = state
push_panic (some p) state = push_diagnostic (panic p) state

unfoldable pub finish :
    Option DetachedMutationFailure
    → Option DetachedMutationPanic
    → MutationTrackerState
    → MutationTrackerState
unfolding push_diagnostic
finish f p state = push_panic p (push_failure f (record state { active = state.active - 1 }))

-- `Drop` of an `ActiveMutation` that was not finished.
unfoldable pub drop_unfinished : MutationOperation → MutationTrackerState → MutationTrackerState
unfolding finish name
drop_unfinished op state =
    finish none
      (some (record {
        operation = op;
        message = text "route " ++ (name op ++ text " mutation task terminated unexpectedly");
      }))
      state

abbrev is_open : MutationSeal → Bool
is_open open_ = true
is_open shutdown = false
is_open backend_panic = false
is_open indeterminate = false

unfoldable pub status : MutationTrackerState → MutationStatus
status state = record {
  is_sealed = not (is_open state.seal);
  seal = state.seal;
  active_mutations = state.active;
}

unfoldable pub panic_seal : MutationTrackerState → MutationTrackerState
panic_seal state = record state { seal = backend_panic }

unfoldable pub indeterminate_seal : MutationTrackerState → MutationTrackerState
indeterminate_seal state = record state { seal = indeterminate }

unfoldable pub reject_if_terminally_failed : MutationTrackerState → Result StoreError (Unit {0})
reject_if_terminally_failed state = elim (state.seal) [
  | backend_panic ↦ err (message mutation_panic_sealed_error)
  | indeterminate ↦ err (message mutation_indeterminate_sealed_error)
  | open_ ↦ ok tt
  | shutdown ↦ ok tt
]

unfoldable pub is_indeterminate : MutationTrackerState → Bool
is_indeterminate state = elim (state.seal) [ indeterminate ↦ true | _ ↦ false ]
