-- ===== src/RouteTable/Tracker/Seal.antt =====
-- The seal of the tracker: how it moves, and how a drain ends.
use pingora_reverse_proxy.Prelude.{
  ℕ, ◌+◌, ◌-◌, ◌≤◌, ◌≡◌, ◌≢◌, refl, sym, ap, ◌∙◌, ◌++◌, append_assoc, Bool, true, false, not,
  Option, none, some, List, [], ◌∷◌, err, arith, Bool-cases, inl, inr, ◌⊎◌, ◌==◌,
}
use pingora_reverse_proxy.Store.{StoreError, message}
use pingora_reverse_proxy.RouteTable.Tracker.{
  MutationTrackerState, MutationSeal, open_, shutdown, backend_panic, indeterminate, finish, begin,
  panic_seal, indeterminate_seal, push_diagnostic, drop_oldest, DetachedMutationDiagnostic,
  DetachedMutationFailure, DetachedMutationPanic, failure, panic, MutationDrainOutcome,
  mutation_admission_sealed_error, mutation_panic_sealed_error, mutation_indeterminate_sealed_error,
}
use pingora_reverse_proxy.RouteTable.Tracker.Drain.{
  TaskAction, finished, sealed_panic, sealed_indeterminate, act_all, WaitEvent, changed, deadline,
  wait, seal_shutdown, seal_and_drain, take_outcome,
}

drop_oldest_seal :
    (state : MutationTrackerState)
    → ((drop_oldest state).seal ≡ state.seal) × ((drop_oldest state).active ≡ state.active)
unfolding drop_oldest
drop_oldest_seal state = ground arith

push_diagnostic_seal :
    (d : DetachedMutationDiagnostic) (state : MutationTrackerState)
    → ((push_diagnostic d state).seal ≡ state.seal)
      × ((push_diagnostic d state).active ≡ state.active)
unfolding push_diagnostic
push_diagnostic_seal d state = ground (arith, drop_oldest_seal state)

pub finish_seal :
    (f : Option DetachedMutationFailure) (p : Option DetachedMutationPanic)
    (state : MutationTrackerState)
    → ((finish f p state).seal ≡ state.seal) × ((finish f p state).active ≡ state.active - 1)
unfolding finish
finish_seal none none state = (refl, refl)
finish_seal (some f) none state = push_diagnostic_seal (failure f) _
finish_seal none (some p) state = push_diagnostic_seal (panic p) _
finish_seal (some f) (some p) state = ground (
  arith,
  push_diagnostic_seal (panic p)
      (push_diagnostic (failure f) (record state { active = state.active - 1 })),
  push_diagnostic_seal (failure f) (record state { active = state.active - 1 }),
)

-- The tasks that finish.
abbrev pub finished_count : List TaskAction → ℕ
finished_count [] = 0
finished_count (finished f p ∷ tasks) = 1 + finished_count tasks
finished_count (sealed_panic ∷ tasks) = finished_count tasks
finished_count (sealed_indeterminate ∷ tasks) = finished_count tasks

act_all_active :
    (tasks : List TaskAction) (state : MutationTrackerState)
    → (act_all tasks state).active ≡ state.active - finished_count tasks
unfolding act_all
act_all_active [] state = omega arith
act_all_active (finished f p ∷ tasks) state =
    ground (arith, finish_seal f p state, act_all_active tasks (finish f p state))
act_all_active (sealed_panic ∷ tasks) state = act_all_active tasks (panic_seal state)
act_all_active (sealed_indeterminate ∷ tasks) state =
    act_all_active tasks (indeterminate_seal state)

-- The seal that is set last, by a task or before the drain, and else the drain's own.
abbrev pub last_seal : List TaskAction → MutationSeal → MutationSeal
last_seal [] open_ = shutdown
last_seal [] shutdown = shutdown
last_seal [] backend_panic = backend_panic
last_seal [] indeterminate = indeterminate
last_seal (finished f p ∷ tasks) seal = last_seal tasks seal
last_seal (sealed_panic ∷ tasks) seal = last_seal tasks backend_panic
last_seal (sealed_indeterminate ∷ tasks) seal = last_seal tasks indeterminate

act_all_seal :
    (tasks : List TaskAction) (seal : MutationSeal) (state : MutationTrackerState)
    → state.seal ≡ last_seal [] seal
    → (act_all tasks state).seal ≡ last_seal tasks seal
unfolding act_all
act_all_seal [] seal state h = h
act_all_seal (finished f p ∷ tasks) seal state h =
    act_all_seal tasks seal (finish f p state) ((finish_seal f p state).0 ∙ h)
act_all_seal (sealed_panic ∷ tasks) seal state h =
    act_all_seal tasks backend_panic (panic_seal state) refl
act_all_seal (sealed_indeterminate ∷ tasks) seal state h =
    act_all_seal tasks indeterminate (indeterminate_seal state) refl

act_all_sealed :
    (tasks : List TaskAction) (state : MutationTrackerState)
    → state.seal ≢ open_
    → (act_all tasks state).seal ≢ open_
unfolding act_all
act_all_sealed [] state h = h
act_all_sealed (finished f p ∷ tasks) state h =
    act_all_sealed tasks (finish f p state) (λ e. h (sym (finish_seal f p state).0 ∙ e))
act_all_sealed (sealed_panic ∷ tasks) state h =
    act_all_sealed tasks (panic_seal state) (λ e. cc (e))
act_all_sealed (sealed_indeterminate ∷ tasks) state h =
    act_all_sealed tasks (indeterminate_seal state) (λ e. cc (e))

-- All that tasks do during the events, in order.
abbrev pub actions : List WaitEvent → List TaskAction
actions [] = []
actions (changed tasks ∷ events) = tasks ++ actions events
actions (deadline tasks ∷ events) = tasks ++ actions events

-- A drain's report and the state that it leaves, after the actions that precede its end.
pub record IsReported (events : List WaitEvent) (state : MutationTrackerState)
    (o : MutationDrainOutcome) (s : MutationTrackerState) : Type 0 where
  pub seen : List TaskAction
  pub later : List TaskAction
  pub is_split : actions events ≡ seen ++ later
  pub same_seal : s.seal ≡ (act_all seen state).seal
  pub same_active : s.active ≡ (act_all seen state).active
  pub timed_out : o.timed_out ≡ not (s.active == 0)
  pub active : o.active_mutations ≡ s.active

act_all_append :
    (tasks bs : List TaskAction) (state : MutationTrackerState)
    → act_all (tasks ++ bs) state ≡ act_all bs (act_all tasks state)
unfolding act_all
act_all_append [] bs state = refl
act_all_append (finished f p ∷ tasks) bs state = act_all_append tasks bs (finish f p state)
act_all_append (sealed_panic ∷ tasks) bs state = act_all_append tasks bs (panic_seal state)
act_all_append (sealed_indeterminate ∷ tasks) bs state =
    act_all_append tasks bs (indeterminate_seal state)

-- A look that ends the drain.
taken-IsReported :
    (timed_out : Bool) (seen later : List TaskAction) (events : List WaitEvent)
    (state : MutationTrackerState) (o : MutationDrainOutcome) (s : MutationTrackerState)
    → actions events ≡ seen ++ later
    → timed_out ≡ not ((act_all seen state).active == 0)
    → some (take_outcome timed_out (act_all seen state)) ≡ some (o, s)
    → IsReported events state o s
unfolding take_outcome
taken-IsReported timed_out seen later events state o s p t e = record {
  seen = seen;
  later = later;
  is_split = p;
  same_seal = ground arith;
  same_active = ground arith;
  timed_out = ground arith;
  active = ground arith;
}

not-idle : {a : Bool} → a ≡ true → false ≡ not a
not-idle h = ground arith

wait-IsReported :
    (events : List WaitEvent) (state : MutationTrackerState) (o : MutationDrainOutcome)
    (s : MutationTrackerState)
    → wait events state ≡ some (o, s)
    → IsReported events state o s
unfolding wait act_all
wait-IsReported [] state o s e = elim (Bool-cases (state.active == 0)) [
  | inl idle ↦ taken-IsReported false [] [] [] state o s refl (not-idle idle) (rw (idle) at e)
  | inr busy ↦ cc (rw (busy) at e)
]
wait-IsReported (deadline tasks ∷ events) state o s e = elim (Bool-cases (state.active == 0)) [
  | inl idle ↦
      taken-IsReported false [] (tasks ++ actions events) (deadline tasks ∷ events) state o s refl
        (not-idle idle) (rw (idle) at e)
  | inr busy ↦
      taken-IsReported (not ((act_all tasks state).active == 0)) tasks (actions events)
        (deadline tasks ∷ events) state o s refl refl (rw (busy) at e)
]
wait-IsReported (changed tasks ∷ events) state o s e = elim (Bool-cases (state.active == 0)) [
  | inl idle ↦
      taken-IsReported false [] (tasks ++ actions events) (changed tasks ∷ events) state o s refl
        (not-idle idle) (rw (idle) at e)
  | inr busy ↦
      let i = wait-IsReported events (act_all tasks state) o s (rw (busy) at e) in
      record {
        seen = tasks ++ i.seen;
        later = i.later;
        is_split = ap (λ bs. tasks ++ bs) i.is_split ∙ sym (append_assoc tasks i.seen i.later);
        same_seal = i.same_seal ∙ ap (λ t. t.seal) (sym (act_all_append tasks i.seen state));
        same_active = i.same_active ∙ ap (λ t. t.active) (sym (act_all_append tasks i.seen state));
        timed_out = i.timed_out;
        active = i.active;
      }
]

begin_refused :
    (seal : MutationSeal) (s : MutationTrackerState)
    → s.seal ≡ seal
    → seal ≢ open_
    → (e : StoreError) × (begin s ≡ err e)
unfolding begin
begin_refused open_ s e h = absurd (h refl)
begin_refused shutdown s e h = (message mutation_admission_sealed_error, rw e)
begin_refused backend_panic s e h = (message mutation_panic_sealed_error, rw e)
begin_refused indeterminate s e h = (message mutation_indeterminate_sealed_error, rw e)

seal_shutdown-seal :
    (state : MutationTrackerState) (seal : MutationSeal)
    → state.seal ≡ seal
    → (seal_shutdown state).seal ≡ last_seal [] seal
unfolding seal_shutdown
seal_shutdown-seal state open_ h = rw (h)
seal_shutdown-seal state shutdown h = rw (h)
seal_shutdown-seal state backend_panic h = rw (h)
seal_shutdown-seal state indeterminate h = rw (h)

last_seal-closed : (tasks : List TaskAction) (seal : MutationSeal) → last_seal tasks seal ≢ open_
last_seal-closed [] open_ = λ e. cc (e)
last_seal-closed [] shutdown = λ e. cc (e)
last_seal-closed [] backend_panic = λ e. cc (e)
last_seal-closed [] indeterminate = λ e. cc (e)
last_seal-closed (finished f p ∷ tasks) seal = last_seal-closed tasks seal
last_seal-closed (sealed_panic ∷ tasks) seal = last_seal-closed tasks backend_panic
last_seal-closed (sealed_indeterminate ∷ tasks) seal = last_seal-closed tasks indeterminate

-- The end of a drain that began in a state and saw some of what tasks did meanwhile.
pub record SealedDrain (events : List WaitEvent) (state : MutationTrackerState)
    (o : MutationDrainOutcome) (s : MutationTrackerState) : Type 0 where
  pub seen : List TaskAction
  pub later : List TaskAction
  pub is_split : actions events ≡ seen ++ later
  pub seal : s.seal ≡ last_seal seen state.seal
  pub active : s.active ≡ state.active - finished_count seen
  pub refuses : (after : List TaskAction) → (e : StoreError) × (begin (act_all after s) ≡ err e)
  pub active_mutations : o.active_mutations ≡ s.active
  pub timed_out : o.timed_out ≡ not (s.active == 0)

-- A drain that ends has sealed admission for good. Of what other tasks do meanwhile it saw a first
-- part: its seal is the last that these tasks set (a panic's or an indeterminate mutation's), or
-- else the one that stood before, or else the shutdown's; the mutations that are still active are
-- those that were, less those that finished; the report has their number, and says `timed_out`
-- exactly when there are any. Every later admission is refused, whatever the tasks do after.
pub seal_and_drain-seals :
    (events : List WaitEvent) (state : MutationTrackerState) (o : MutationDrainOutcome)
    (s : MutationTrackerState)
    → seal_and_drain events state ≡ some (o, s)
    → SealedDrain events state o s
unfolding seal_and_drain
seal_and_drain-seals events state o s e =
    let i = wait-IsReported events (seal_shutdown state) o s e in
    let seal =
      i.same_seal
      ∙ act_all_seal i.seen state.seal (seal_shutdown state)
          (seal_shutdown-seal state state.seal refl) in
    record {
      seen = i.seen;
      later = i.later;
      is_split = i.is_split;
      seal = seal;
      active = i.same_active ∙ act_all_active i.seen (seal_shutdown state);
      refuses = λ after.
          begin_refused (act_all after s).seal (act_all after s) refl
            (act_all_sealed after s (λ c. last_seal-closed i.seen state.seal (sym seal ∙ c)));
      active_mutations = i.active;
      timed_out = i.timed_out;
    }

abbrev pub finishes : List WaitEvent → ℕ
finishes [] = 0
finishes (changed tasks ∷ events) = finished_count tasks + finishes events
finishes (deadline tasks ∷ events) = finished_count tasks + finishes events

abbrev pub HasDeadline : List WaitEvent → Type 0
HasDeadline [] = ⊥
HasDeadline (changed tasks ∷ events) = HasDeadline events
HasDeadline (deadline tasks ∷ events) = Unit

wait-ne-none :
    (events : List WaitEvent) (state : MutationTrackerState)
    → HasDeadline events ⊎ (state.active ≤ finishes events)
    → wait events state ≢ none
unfolding wait
wait-ne-none [] state (inl h) = absurd h
wait-ne-none [] state (inr h) = ground arith
wait-ne-none (deadline tasks ∷ events) state h = ground arith
wait-ne-none (changed tasks ∷ events) state (inl h) =
    ground (arith, wait-ne-none events (act_all tasks state) (inl h))
wait-ne-none (changed tasks ∷ events) state (inr h) = ground (
  arith,
  act_all_active tasks state,
  wait-ne-none events (act_all tasks state) (inr (omega (arith, act_all_active tasks state))),
)

-- A drain ends when its deadline passes, and also, with no deadline, when as many mutations have
-- finished as were active.
pub seal_and_drain-ends :
    (events : List WaitEvent) (state : MutationTrackerState)
    → HasDeadline events ⊎ (state.active ≤ finishes events)
    → seal_and_drain events state ≢ none
unfolding seal_and_drain
seal_and_drain-ends events state h = wait-ne-none events _ h
