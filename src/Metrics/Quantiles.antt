-- ===== src/Metrics/Quantiles.antt =====
-- The text of the metrics of src/metrics.rs is there whatever was observed.
use pingora_reverse_proxy.Prelude.{
  ℕ, zero, suc, ◌≡◌, ◌<◌, Option, none, some, List, [], ◌∷◌, length, is_empty, Text, if◌then◌else◌,
  arith,
}
use pingora_reverse_proxy.Metrics.{Float, Metrics, SummarySnapshot, nth, quantile}
use pingora_reverse_proxy.Metrics.Render.{
  quantile_line, quantile_lines, with_totals, render_summary, bind_text, with_find_target,
  with_last_activity, with_requests, render_prometheus,
}

pub data Defined {A : Type 0} : Option A → Type 0 where
  defined : {a : A} → Defined (some a)

-- Sorting keeps the number of values, and a quantile of some values is one of them.
pub record IsFloat {F : Type 0} (float : Float F) : Type 0 where
  pub length_sorted : (values : List F) → length (float.sorted values) ≡ length values
  pub position_lt : (n : ℕ) (q : F) → 0 < n → float.position n q < n

absurd : {A : Type 0} → ⊥ → A
absurd h = elim h [ ]

module _ {F : Type 0} (float : Float F) where
  nth-Defined : (n : ℕ) (values : List F) → n < length values → Defined (nth float n values)
  nth-Defined n [] h = absurd (omega (arith, h))
  nth-Defined zero (a ∷ values) h = defined
  nth-Defined (suc n) (a ∷ values) h = nth-Defined n values (omega (arith, h))

  module _ (law : IsFloat float) where
    at_quantile :
        (q : F) (values : List F)
        → Defined (
            if is_empty values
            then some float.zero_value
            else nth float (float.position (length values) q) values)
    at_quantile q [] = defined
    at_quantile q (a ∷ values) =
        nth-Defined (float.position (length (a ∷ values)) q) (a ∷ values)
          (law.position_lt (length (a ∷ values)) q (omega arith))

    quantile-Defined : (q : F) (summary : SummarySnapshot F) → Defined (quantile float q summary)
    unfolding quantile
    quantile-Defined q summary = at_quantile q summary.sorted_recent

    quantile_line-Defined :
        (name : Text) (q : F) (value : Option F) (rest : Option Text)
        → Defined value
        → Defined rest
        → Defined (quantile_line float name q value rest)
    quantile_line-Defined name q none rest h k = elim h [ ]
    quantile_line-Defined name q (some value) none h k = elim k [ ]
    quantile_line-Defined name q (some value) (some rest) defined defined = defined

    quantile_lines-Defined :
        (name : Text) (summary : SummarySnapshot F) (quantiles : List F)
        → Defined (quantile_lines float name summary quantiles)
    unfolding quantile_lines
    quantile_lines-Defined name summary [] = defined
    quantile_lines-Defined name summary (q ∷ quantiles) =
        quantile_line-Defined name q (quantile float q summary)
          (quantile_lines float name summary quantiles) (quantile-Defined q summary)
          (quantile_lines-Defined name summary quantiles)

    with_totals-Defined :
        (name help : Text) (summary : SummarySnapshot F) (body : Text) (lines : Option Text)
        → Defined lines
        → Defined (with_totals float name help summary body lines)
    with_totals-Defined name help summary body none h = elim h [ ]
    with_totals-Defined name help summary body (some lines) defined = defined

    render_summary-Defined :
        (name help : Text) (summary : SummarySnapshot F) (body : Text)
        → Defined (render_summary float name help summary body)
    unfolding render_summary
    render_summary-Defined name help summary body =
        with_totals-Defined name help summary body
          (quantile_lines float name summary float.quantiles)
          (quantile_lines-Defined name summary float.quantiles)

    bind_text-Defined :
        (body : Option Text) (f : Text → Option Text)
        → Defined body
        → ((t : Text) → Defined (f t))
        → Defined (bind_text float body f)
    bind_text-Defined none f h k = elim h [ ]
    bind_text-Defined (some body) f defined k = k body

    find_target-Defined : (metrics : Metrics F) → Defined (with_find_target float metrics)
    find_target-Defined metrics = render_summary-Defined _ _ _ _

    last_activity-Defined :
        (metrics : Metrics F) (body : Text) → Defined (with_last_activity float metrics body)
    last_activity-Defined metrics body = render_summary-Defined _ _ _ _

    -- The metrics can always be rendered: no quantile indexes outside its window.
    pub render_prometheus-Defined :
        (metrics : Metrics F) → Defined (render_prometheus float metrics)
    unfolding render_prometheus
    render_prometheus-Defined metrics =
        bind_text-Defined (with_find_target float metrics)
          (λ body.
            bind_text float (with_last_activity float metrics body) (with_requests float metrics))
          (find_target-Defined metrics)
          (λ body.
            bind_text-Defined (with_last_activity float metrics body) (with_requests float metrics)
              (last_activity-Defined metrics body) (λ rest. defined))
