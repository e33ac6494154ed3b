-- ===== src/Tests/Metrics.antt =====
-- Metrics with natural numbers for durations.
use pingora_reverse_proxy.Prelude.{ℕ, ◌+◌, ◌-◌, ◌≡◌, refl, some, [], ◌∷◌, text}
use pingora_reverse_proxy.Metrics.{Float, observe, quantile, snapshot_of, sort}
use pingora_reverse_proxy.Metrics.Render.{render_counter, number}
use pingora_reverse_proxy.Metrics.Window.{
  empty_summary, observe_all, IsSummary, observe_all-IsSummary,
}

abbrev float : Float ℕ
float = record {
  zero_value = 0;
  plus = λ a b. a + b;
  sorted = λ values. values;
  position = λ n q. n - 1;
  to_text = number;
  quantiles = 1 ∷ [];
}

observe_test :
    observe_all float (3 ∷ 4 ∷ []) (empty_summary float)
    ≡ record { count = 2; sum = 7; recent = 3 ∷ 4 ∷ [] }
unfolding observe
observe_test = refl

quantile_test :
    quantile float 1
      (sort float (snapshot_of float (observe_all float (3 ∷ 4 ∷ []) (empty_summary float))))
    ≡ some 4
unfolding observe quantile sort snapshot_of
quantile_test = refl

counter_test :
    render_counter (text "a") (text "b") 12 [] ≡ text "# HELP a b\n# TYPE a counter\na 12\n\n"
unfolding render_counter
counter_test = refl

observe_all-IsSummary_example :
    IsSummary float (3 ∷ 4 ∷ []) (observe_all float (3 ∷ 4 ∷ []) (empty_summary float))
observe_all-IsSummary_example = observe_all-IsSummary float (3 ∷ 4 ∷ [])
