-- ===== src/RouteTable/Tracker/Ring.antt =====
-- The ring of diagnostics against the history of all that was pushed since the last drain.
use pingora_reverse_proxy.Prelude.{
  ℕ, suc, ◌+◌, ◌-◌, ◌≤◌, ◌<◌, ◌≡◌, refl, sym, ap, ◌∙◌, Bool, true, false, List, [], ◌∷◌, ◌++◌,
  length, take, drop, length-append, drop-append, take-append, length-drop, length-take-le,
  take-append-drop, drop-suc, take-suc, arith, append-nil, Bool-cases, inl, inr, ltb, ltb→lt, ◌==◌,
}
use pingora_reverse_proxy.RouteTable.Tracker.{
  DetachedMutationDiagnostic, failure, panic, MutationTrackerState, default, usize_max,
  detached_mutation_diagnostic_capacity, push_diagnostic, drop_oldest,
}
use pingora_reverse_proxy.RouteTable.Tracker.Drain.{failures, panics, take_outcome}

abbrev Diagnostics : Type 0
Diagnostics = List DetachedMutationDiagnostic

-- How many of the history's entries the ring has lost.
abbrev pub lost : Diagnostics → ℕ
lost history = length history - detached_mutation_diagnostic_capacity

-- The ring holds the newest entries of the history, and the counters the kinds of the lost ones.
pub record Keeps (history : Diagnostics) (state : MutationTrackerState) : Type 0 where
  pub window : state.diagnostics ≡ drop (lost history) history
  pub lost_failures :
      state.dropped_detached_failures ≡ length (failures (take (lost history) history))
  pub lost_panics : state.dropped_detached_panics ≡ length (panics (take (lost history) history))

failures-append : (ds es : Diagnostics) → failures (ds ++ es) ≡ failures ds ++ failures es
unfolding failures
failures-append [] es = refl
failures-append (failure f ∷ ds) es = ap (◌∷◌ f) (failures-append ds es)
failures-append (panic p ∷ ds) es = failures-append ds es

panics-append : (ds es : Diagnostics) → panics (ds ++ es) ≡ panics ds ++ panics es
unfolding panics
panics-append [] es = refl
panics-append (failure f ∷ ds) es = panics-append ds es
panics-append (panic p ∷ ds) es = ap (◌∷◌ p) (panics-append ds es)

pub counted : (ds : Diagnostics) → length (failures ds) + length (panics ds) ≡ length ds
unfolding failures panics
counted [] = omega arith
counted (failure f ∷ ds) = omega (arith, counted ds)
counted (panic p ∷ ds) = omega (arith, counted ds)

module _ (history : Diagnostics) (d : DetachedMutationDiagnostic) where
  abbrev longer : Diagnostics
  longer = history ++ d ∷ []

  length-longer : length longer ≡ suc (length history)
  length-longer = length-append history (d ∷ []) ∙ omega arith

  module _ (state : MutationTrackerState) (keeps : Keeps history state) where
    push-room :
        length history < detached_mutation_diagnostic_capacity
        → Keeps longer (push_diagnostic d state)
    unfolding push_diagnostic
    push-room room =
        let none_lost : lost history ≡ 0 = omega arith in
        let none_lost' : lost longer ≡ 0 = omega (arith, length-longer) in
        let window : state.diagnostics ≡ history = keeps.window ∙ (rw none_lost) in
        let shorter : (length state.diagnostics == detached_mutation_diagnostic_capacity) ≡ false =
          ground (arith, ap length window) in
        rw shorter (record {
          window = rw (none_lost', window);
          lost_failures = keeps.lost_failures ∙ (rw (none_lost, none_lost'));
          lost_panics = keeps.lost_panics ∙ (rw (none_lost, none_lost'));
        })

    lost_one :
        (x : DetachedMutationDiagnostic) (rest : Diagnostics)
        → drop (lost history) history ≡ x ∷ rest
        → (drop (suc (lost history)) longer ≡ rest ++ d ∷ [])
          × (take (suc (lost history)) longer ≡ take (lost history) history ++ x ∷ [])
    lost_one x rest e =
        let n = lost history in
        let some_left : suc n ≤ length history =
          omega (arith, length-drop n history, ap length e) in
        (
          drop-append (suc n) history (d ∷ []) some_left
              ∙ ap (λ xs. xs ++ d ∷ []) (drop-suc n history x rest e),
          take-append (suc n) history (d ∷ []) some_left ∙ take-suc n history x rest e,
        )

    module _ (full : detached_mutation_diagnostic_capacity ≤ length history)
        (few : length history < usize_max) where
      lost-longer : lost longer ≡ suc (lost history)
      lost-longer = omega (arith, length-longer)

      is_full : (length state.diagnostics == detached_mutation_diagnostic_capacity) ≡ true
      is_full = ground (arith, ap length keeps.window, length-drop (lost history) history)

      lost_before : length (take (lost history) history) < usize_max
      lost_before = omega (arith, length-take-le (lost history) history)

      push_full :
          (ds : Diagnostics) → state.diagnostics ≡ ds → Keeps longer (push_diagnostic d state)
      unfolding push_diagnostic failures panics
      push_full [] e =
          absurd
            (omega (arith, ap length (sym e ∙ keeps.window), length-drop (lost history) history))
      push_full (failure f ∷ rest) e =
          let (window, gone) = lost_one (failure f) rest (sym keeps.window ∙ e) in
          rw (is_full, push_diagnostic)
            (rw (e, drop_oldest)
              (record {
                window = rw (lost-longer) (sym window);
                lost_failures =
                    rw (lost-longer, gone, failures-append)
                      (omega (
                        arith,
                        keeps.lost_failures,
                        lost_before,
                        counted (take (lost history) history),
                        length-append (failures (take (lost history) history)) (f ∷ []),
                      ));
                lost_panics =
                    rw (lost-longer, gone, panics-append) (keeps.lost_panics ∙ (rw append-nil));
              }))
      push_full (panic p ∷ rest) e =
          let (window, gone) = lost_one (panic p) rest (sym keeps.window ∙ e) in
          rw (is_full, push_diagnostic)
            (rw (e, drop_oldest)
              (record {
                window = rw (lost-longer) (sym window);
                lost_failures =
                    rw (lost-longer, gone, failures-append) (keeps.lost_failures ∙ (rw append-nil));
                lost_panics =
                    rw (lost-longer, gone, panics-append)
                      (omega (
                        arith,
                        keeps.lost_panics,
                        lost_before,
                        counted (take (lost history) history),
                        length-append (panics (take (lost history) history)) (p ∷ []),
                      ));
              }))

-- A push keeps the ring a window of the newest 256 entries, in order, and counts what it drops by
-- kind, as long as the history is shorter than a `usize` can count.
pub push_diagnostic-Keeps :
    (history : Diagnostics) (d : DetachedMutationDiagnostic) (state : MutationTrackerState)
    → length history < usize_max
    → Keeps history state
    → Keeps (history ++ d ∷ []) (push_diagnostic d state)
push_diagnostic-Keeps history d state few keeps =
    elim (Bool-cases (ltb (length history) detached_mutation_diagnostic_capacity)) [
      | inl room ↦ push-room history d state keeps (ltb→lt _ _ room)
      | inr full ↦ push_full history d state keeps (ground arith) few state.diagnostics refl
    ]

pub default-Keeps : Keeps [] default
unfolding default failures panics
default-Keeps = record { window = refl; lost_failures = refl; lost_panics = refl }

-- A drain reports every diagnostic pushed since the last one, either in its lists, the newest 256
-- in order, or in the counter for its kind; and it leaves an empty ring.
pub take_outcome-reports :
    (history : Diagnostics) (timed_out : Bool) (state : MutationTrackerState)
    → Keeps history state
    → ((take_outcome timed_out state).0.detached_failures ≡ failures (drop (lost history) history))
      × ((take_outcome timed_out state).0.detached_panics ≡ panics (drop (lost history) history))
      × (length (take_outcome timed_out state).0.detached_failures
            + (take_outcome timed_out state).0.dropped_detached_failures
          ≡ length (failures history))
      × (length (take_outcome timed_out state).0.detached_panics
            + (take_outcome timed_out state).0.dropped_detached_panics
          ≡ length (panics history))
      × Keeps [] (take_outcome timed_out state).1
unfolding take_outcome failures panics
take_outcome-reports history timed_out state keeps =
    let n = lost history in
    let fs : length (failures history)
        ≡ length (failures (take n history)) + length (failures (drop n history)) =
      ap (λ h. length (failures h)) (sym (take-append-drop n history))
      ∙ ap length (failures-append (take n history) (drop n history))
      ∙ length-append _ _ in
    let ps : length (panics history)
        ≡ length (panics (take n history)) + length (panics (drop n history)) =
      ap (λ h. length (panics h)) (sym (take-append-drop n history))
      ∙ ap length (panics-append (take n history) (drop n history))
      ∙ length-append _ _ in
    (
      ap failures keeps.window,
      ap panics keeps.window,
      omega (arith, fs, keeps.lost_failures, ap (λ ds. length (failures ds)) keeps.window),
      omega (arith, ps, keeps.lost_panics, ap (λ ds. length (panics ds)) keeps.window),
      record { window = refl; lost_failures = refl; lost_panics = refl },
    )
