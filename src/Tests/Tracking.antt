-- ===== src/Tests/Tracking.antt =====
-- The tracker of mutations.
use pingora_reverse_proxy.Prelude.{
  ◌≡◌, ◌≢◌, refl, inl, true, false, some, none, text, List, [], ◌∷◌, ◌+◌, length, drop, arith,
}
use pingora_reverse_proxy.Store.{message}
use pingora_reverse_proxy.RouteTable.Tracker
use pingora_reverse_proxy.RouteTable.Tracker.{
  MutationTrackerState, MutationDrainOutcome, DetachedMutationDiagnostic, failure, panic, default,
  push_diagnostic, begin, open_, shutdown,
}
use pingora_reverse_proxy.RouteTable.Tracker.Drain.{
  WaitEvent, changed, deadline, finished, sealed_indeterminate, seal_and_drain, take_outcome,
  failures, panics,
}
use pingora_reverse_proxy.RouteTable.Tracker.Ring.{
  Keeps, lost, default-Keeps, push_diagnostic-Keeps, take_outcome-reports,
}
use pingora_reverse_proxy.RouteTable.Tracker.Seal.{
  SealedDrain, seal_and_drain-seals, seal_and_drain-ends,
}

abbrev lost_put : DetachedMutationDiagnostic
lost_put = failure (record { operation = Tracker.put; error = message (text "down") })

abbrev one : MutationTrackerState
one = push_diagnostic lost_put default

push_diagnostic-Keeps_example : Keeps (lost_put ∷ []) one
push_diagnostic-Keeps_example =
    push_diagnostic-Keeps [] lost_put default (omega arith) default-Keeps

take_outcome-reports_example :
    ((take_outcome false one).0.detached_failures
      ≡ failures (drop (lost (lost_put ∷ [])) (lost_put ∷ [])))
    × ((take_outcome false one).0.detached_panics
        ≡ panics (drop (lost (lost_put ∷ [])) (lost_put ∷ [])))
    × (length (take_outcome false one).0.detached_failures
          + (take_outcome false one).0.dropped_detached_failures
        ≡ length (failures (lost_put ∷ [])))
    × (length (take_outcome false one).0.detached_panics
          + (take_outcome false one).0.dropped_detached_panics
        ≡ length (panics (lost_put ∷ [])))
    × Keeps [] (take_outcome false one).1
take_outcome-reports_example =
    take_outcome-reports (lost_put ∷ []) false one push_diagnostic-Keeps_example

abbrev busy : MutationTrackerState
busy = record default { active = 2 }

abbrev events : List WaitEvent
events = changed (finished none none ∷ sealed_indeterminate ∷ []) ∷ deadline [] ∷ []

abbrev report : MutationDrainOutcome
report = record {
  timed_out = true;
  active_mutations = 1;
  detached_failures = [];
  detached_panics = [];
  dropped_detached_failures = 0;
  dropped_detached_panics = 0;
}

abbrev after : MutationTrackerState
after = record busy { seal = Tracker.indeterminate; active = 1 }

drain_test : seal_and_drain events busy ≡ some (report, after)
unfolding seal_and_drain default
drain_test = refl

seal_and_drain-seals_example : SealedDrain events busy report after
seal_and_drain-seals_example = seal_and_drain-seals events busy report after drain_test

seal_and_drain-ends_example : seal_and_drain events busy ≢ none
seal_and_drain-ends_example = seal_and_drain-ends events busy (inl tt)
