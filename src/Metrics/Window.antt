-- ===== src/Metrics/Window.antt =====
-- The window of a summary of src/metrics.rs.
use pingora_reverse_proxy.Prelude.{
  ℕ, zero, suc, ◌-◌, ◌^◌, min, ◌≡◌, ◌≤◌, ◌<◌, refl, Bool, true, false, List, [], ◌∷◌, ◌++◌, ◌==◌,
  append_assoc, append-nil, length, drop, length-append, drop-append, length-drop, if◌then◌else◌,
  arith,
}
use pingora_reverse_proxy.Metrics.{
  Float, Summary, summary_window_capacity, pop_front, push_back, observe,
}

module _ {F : Type 0} (float : Float F) where
  abbrev pub empty_summary : Summary F
  empty_summary = record { count = 0; sum = float.zero_value; recent = [] }

  -- The observations one after the other.
  abbrev pub observe_all : List F → Summary F → Summary F
  observe_all [] summary = summary
  observe_all (value ∷ values) summary = observe_all values (observe float value summary)

  abbrev pub sum_from : F → List F → F
  sum_from total [] = total
  sum_from total (value ∷ values) = sum_from (float.plus total value) values

  -- The summary of a history: the sum of all, the count below the limit, and the newest values.
  pub record IsSummary (history : List F) (summary : Summary F) : Type 0 where
    pub count : summary.count ≡ min (length history) (2 ^ 64 - 1)
    pub sum : summary.sum ≡ sum_from float.zero_value history
    pub recent : summary.recent ≡ drop (length history - summary_window_capacity) history

  pop_front-drop : (k : ℕ) (xs : List F) → pop_front (drop k xs) ≡ drop (suc k) xs
  pop_front-drop zero [] = refl
  pop_front-drop zero (x ∷ xs) = refl
  pop_front-drop (suc k) [] = refl
  pop_front-drop (suc k) (x ∷ xs) = pop_front-drop k xs

  sum_from-append :
      (total : F) (values : List F) (value : F)
      → sum_from total (values ++ value ∷ []) ≡ float.plus (sum_from total values) value
  sum_from-append total [] value = refl
  sum_from-append total (v ∷ values) value = sum_from-append (float.plus total v) values value

  moved :
      (history : List F) (value : F) (b : Bool)
      → (length (drop (length history - summary_window_capacity) history)
          == summary_window_capacity)
        ≡ b
      → push_back value (
          if b
          then pop_front (drop (length history - summary_window_capacity) history)
          else drop (length history - summary_window_capacity) history)
        ≡ drop (length (history ++ value ∷ []) - summary_window_capacity) (history ++ value ∷ [])
  moved history value true h =
      let k = length history - summary_window_capacity in
      let full : length (drop k history) ≡ summary_window_capacity = ground arith in
      let after : length (history ++ value ∷ []) - summary_window_capacity ≡ suc k =
        omega (arith, full, length-drop k history, length-append history (value ∷ [])) in
      let there : suc k ≤ length history = omega (arith, full, length-drop k history) in
      rw (pop_front-drop k history, after, drop-append (suc k) history (value ∷ []) there) refl
  moved history value false h =
      let k = length history - summary_window_capacity in
      let room : length history < summary_window_capacity = ground (arith, length-drop k history) in
      let before : k ≡ 0 = omega (arith, room) in
      let after : length (history ++ value ∷ []) - summary_window_capacity ≡ 0 =
        omega (arith, room, length-append history (value ∷ [])) in
      rw (before, after) refl

  observe-IsSummary :
      (history : List F) (value : F) (summary : Summary F)
      → IsSummary history summary
      → IsSummary (history ++ value ∷ []) (observe float value summary)
  unfolding observe
  observe-IsSummary history value summary s = record {
    count = omega (arith, s.count, length-append history (value ∷ []));
    sum = rw (s.sum, sum_from-append float.zero_value history value) refl;
    recent = rw (s.recent) (moved history value _ refl);
  }

  observe_all-extends :
      (history values : List F) (summary : Summary F)
      → IsSummary history summary
      → IsSummary (history ++ values) (observe_all values summary)
  observe_all-extends history [] summary s = rw (append-nil history) s
  observe_all-extends history (value ∷ values) summary s =
      rw (← append_assoc history (value ∷ []) values) (
        observe_all-extends (history ++ value ∷ []) values (observe float value summary)
          (observe-IsSummary history value summary s))

  -- After any observations the summary holds the sum of all, their number up to the limit of a
  -- `u64`, and the newest 4096 of them, or all if they are fewer, in their order.
  pub observe_all-IsSummary :
      (values : List F) → IsSummary values (observe_all values empty_summary)
  observe_all-IsSummary values =
      observe_all-extends [] values empty_summary
        (record { count = omega arith; sum = refl; recent = refl })
