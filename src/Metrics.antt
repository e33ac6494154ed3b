-- ===== src/Metrics.antt =====
-- src/metrics.rs: the counters, the summary windows and their text. Floating point values, their
-- sum, order and text, and the position of a quantile are parameters.
pub mod Window
pub mod Render
pub mod Quantiles
use pingora_reverse_proxy.Prelude.{
  ℕ, zero, suc, ◌+◌, ◌-◌, ◌^◌, ◌%◌, min, Bool, true, false, Option, none, some, List, [], ◌∷◌, ◌++◌,
  ◌==◌, leb, length, is_empty, if◌then◌else◌, Text, text,
}
use pingora_reverse_proxy.Map.{Map, Ord, get, insert}

abbrev pub summary_window_capacity : ℕ
summary_window_capacity = 4096

pub record Summary (F : Type 0) : Type 0 where
  pub count : ℕ
  pub sum : F
  pub recent : List F

pub record SummarySnapshot (F : Type 0) : Type 0 where
  pub count : ℕ
  pub sum : F
  pub sorted_recent : List F

pub record Float (F : Type 0) : Type 0 where
  pub zero_value : F
  pub plus : F → F → F
  -- `sort_by(f64::total_cmp)`.
  pub sorted : List F → List F
  -- `((len - 1) as f64 * quantile).round() as usize`.
  pub position : ℕ → F → ℕ
  pub to_text : F → Text
  pub quantiles : List F

pub record MetricsSnapshot : Type 0 where
  pub requests_api : Map ℕ ℕ
  pub requests_proxy : Map ℕ ℕ
  pub api_route_get : ℕ
  pub api_route_add : ℕ
  pub api_route_delete : ℕ
  pub requests_ws : ℕ
  pub requests_web : ℕ
  pub activity_persistence_failures : ℕ
  pub activity_dropped : ℕ

pub record Metrics (F : Type 0) : Type 0 where
  pub counters : MetricsSnapshot
  pub find_target_for_req : Summary F
  pub last_activity_updating : Summary F

-- `fetch_add(1)` of an `AtomicU64`, which wraps around.
abbrev pub fetch_add : ℕ → ℕ
fetch_add n = (n + 1) % 2 ^ 64

abbrev pub push_back : {A : Type 0} → A → List A → List A
push_back a values = values ++ a ∷ []

abbrev pub pop_front : {A : Type 0} → List A → List A
pop_front [] = []
pop_front (a ∷ values) = values

abbrev pub or_default : Option ℕ → ℕ
or_default none = 0
or_default (some n) = n

-- `*counts.entry(status).or_default() += 1`, which wraps around in a release build.
unfoldable pub count_status : ⦃o : Ord ℕ⦄ → ℕ → Map ℕ ℕ → Map ℕ ℕ
unfolding get insert
count_status status counts = insert status (fetch_add (or_default (get status counts))) counts

module _ {F : Type 0} (float : Float F) where
  unfoldable pub observe : F → Summary F → Summary F
  observe value summary = record {
    count = min (summary.count + 1) (2 ^ 64 - 1);
    sum = float.plus summary.sum value;
    recent = push_back value (
        if length summary.recent == summary_window_capacity
        then pop_front summary.recent
        else summary.recent);
  }

  unfoldable pub snapshot_of : Summary F → SummarySnapshot F
  snapshot_of summary = record {
    count = summary.count;
    sum = summary.sum;
    sorted_recent = summary.recent;
  }

  unfoldable pub sort : SummarySnapshot F → SummarySnapshot F
  sort snapshot = record snapshot { sorted_recent = float.sorted snapshot.sorted_recent }

  abbrev pub nth : ℕ → List F → Option F
  nth n [] = none
  nth zero (a ∷ values) = some a
  nth (suc n) (a ∷ values) = nth n values

  -- An index out of range panics: `none`.
  unfoldable pub quantile : F → SummarySnapshot F → Option F
  quantile q snapshot =
      if is_empty snapshot.sorted_recent
      then some float.zero_value
      else nth (float.position (length snapshot.sorted_recent) q) snapshot.sorted_recent

  unfoldable pub record_find_target : F → Metrics F → Metrics F
  unfolding observe
  record_find_target duration metrics = record metrics {
    find_target_for_req = observe duration metrics.find_target_for_req;
  }

  unfoldable pub record_last_activity_update : F → Metrics F → Metrics F
  unfolding observe
  record_last_activity_update duration metrics = record metrics {
    last_activity_updating = observe duration metrics.last_activity_updating;
  }

  abbrev pub counting : (MetricsSnapshot → MetricsSnapshot) → Metrics F → Metrics F
  counting change metrics = record metrics { counters = change metrics.counters }

  unfoldable pub record_api_request : ⦃o : Ord ℕ⦄ → ℕ → Metrics F → Metrics F
  unfolding count_status
  record_api_request status =
      counting (λ c. record c { requests_api = count_status status c.requests_api })

  unfoldable pub record_proxy_request : ⦃o : Ord ℕ⦄ → ℕ → Metrics F → Metrics F
  unfolding count_status
  record_proxy_request status =
      counting (λ c. record c { requests_proxy = count_status status c.requests_proxy })

  unfoldable pub record_api_route_get : Metrics F → Metrics F
  record_api_route_get = counting (λ c. record c { api_route_get = fetch_add c.api_route_get })

  unfoldable pub record_api_route_add : Metrics F → Metrics F
  record_api_route_add = counting (λ c. record c { api_route_add = fetch_add c.api_route_add })

  unfoldable pub record_api_route_delete : Metrics F → Metrics F
  record_api_route_delete =
      counting (λ c. record c { api_route_delete = fetch_add c.api_route_delete })

  unfoldable pub record_ws_request : Metrics F → Metrics F
  record_ws_request = counting (λ c. record c { requests_ws = fetch_add c.requests_ws })

  unfoldable pub record_web_request : Metrics F → Metrics F
  record_web_request = counting (λ c. record c { requests_web = fetch_add c.requests_web })

  unfoldable pub record_activity_persistence_failure : Metrics F → Metrics F
  record_activity_persistence_failure =
      counting (λ c. record c {
        activity_persistence_failures = fetch_add c.activity_persistence_failures;
      })

  unfoldable pub record_activity_drop : Metrics F → Metrics F
  record_activity_drop =
      counting (λ c. record c { activity_dropped = fetch_add c.activity_dropped })
