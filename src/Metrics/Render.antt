-- ===== src/Metrics/Render.antt =====
-- The text of the metrics, of src/metrics.rs.
use pingora_reverse_proxy.Prelude.{ℕ, Option, none, some, List, [], ◌∷◌, ◌++◌, Text, text}
use pingora_reverse_proxy.Map.{Map}
use pingora_reverse_proxy.Metrics.{Float, Metrics, SummarySnapshot, quantile, sort, snapshot_of}
use pingora_reverse_proxy.Upstream.Paths.{digits}

-- A `u64`, which has at most twenty digits.
abbrev pub number : ℕ → Text
number n = digits 20 n []

abbrev pub line : List Text → Text
line [] = 10 ∷ []
line (word ∷ words) = word ++ line words

abbrev pub heading : Text → Text → Text → Text
heading name help kind =
    line (text "# HELP " ∷ name ∷ text " " ∷ help ∷ [])
    ++ line (text "# TYPE " ∷ name ∷ text " " ∷ kind ∷ [])

unfoldable pub render_counter : Text → Text → ℕ → Text → Text
render_counter name help value body =
    body
    ++ (heading name help (text "counter")
        ++ (line (name ∷ text " " ∷ number value ∷ []) ++ line []))

unfoldable pub status_lines : Text → Map ℕ ℕ → Text
status_lines name [] = line []
status_lines name ((status, value) ∷ values) =
    line (name ∷ text "{status=\"" ∷ number status ∷ text "\"} " ∷ number value ∷ [])
    ++ status_lines name values

unfoldable pub render_status_counter : Text → Text → Map ℕ ℕ → Text → Text
unfolding status_lines
render_status_counter name help values body =
    body ++ (heading name help (text "counter") ++ status_lines name values)

module _ {F : Type 0} (float : Float F) where
  -- A quantile that panics leaves no text: `none`.
  abbrev pub quantile_line : Text → F → Option F → Option Text → Option Text
  quantile_line name q none rest = none
  quantile_line name q (some value) none = none
  quantile_line name q (some value) (some rest) = some (
      line (name ∷ text "{quantile=\"" ∷ float.to_text q ∷ text "\"} " ∷ float.to_text value ∷ [])
      ++ rest)

  unfoldable pub quantile_lines : Text → SummarySnapshot F → List F → Option Text
  unfolding quantile
  quantile_lines name summary [] = some []
  quantile_lines name summary (q ∷ quantiles) =
      quantile_line name q (quantile float q summary) (quantile_lines name summary quantiles)

  abbrev pub with_totals : Text → Text → SummarySnapshot F → Text → Option Text → Option Text
  with_totals name help summary body none = none
  with_totals name help summary body (some lines) = some (
      body
      ++ (heading name help (text "summary")
          ++ (lines
              ++ (line (name ∷ text "_sum " ∷ float.to_text summary.sum ∷ [])
                  ++ (line (name ∷ text "_count " ∷ number summary.count ∷ []) ++ line [])))))

  unfoldable pub render_summary : Text → Text → SummarySnapshot F → Text → Option Text
  unfolding quantile_lines
  render_summary name help summary body =
      with_totals name help summary body (quantile_lines name summary float.quantiles)

  abbrev pub bind_text : Option Text → (Text → Option Text) → Option Text
  bind_text none f = none
  bind_text (some body) f = f body

  abbrev pub with_find_target : Metrics F → Option Text
  with_find_target metrics =
      render_summary (text "find_target_for_req") (text "Summary of find target requests")
        (sort float (snapshot_of float metrics.find_target_for_req))
        (render_counter (text "api_route_delete") (text "Count of API route delete requests")
          metrics.counters.api_route_delete
          (render_counter (text "api_route_add") (text "Count of API route add requests")
            metrics.counters.api_route_add
            (render_counter (text "api_route_get") (text "Count of API route get requests")
              metrics.counters.api_route_get [])))

  abbrev pub with_last_activity : Metrics F → Text → Option Text
  with_last_activity metrics body =
      render_summary (text "last_activity_updating")
        (text "Summary of last activity updating requests")
        (sort float (snapshot_of float metrics.last_activity_updating)) body

  abbrev pub with_requests : Metrics F → Text → Option Text
  with_requests metrics body = some (
      render_status_counter (text "requests_api") (text "Count of API requests")
        metrics.counters.requests_api
        (render_status_counter (text "requests_proxy") (text "Count of proxy requests")
          metrics.counters.requests_proxy
          (render_counter (text "requests_web") (text "Count of web requests")
            metrics.counters.requests_web
            (render_counter (text "requests_ws") (text "Count of websocket requests")
              metrics.counters.requests_ws body))))

  unfoldable pub render_prometheus : Metrics F → Option Text
  unfolding render_counter render_status_counter render_summary sort snapshot_of
  render_prometheus metrics =
      bind_text (with_find_target metrics)
        (λ body. bind_text (with_last_activity metrics body) (with_requests metrics))
