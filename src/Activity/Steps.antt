-- ===== src/Activity/Steps.antt =====
-- The interleavings of `record_at` and of the worker's rounds in src/activity.rs. The system keeps,
-- beside the program's state, every accepted observation and every ended attempt, with those that
-- persisted and those that failed.
use pingora_reverse_proxy.Prelude.{
  ℕ, ◌+◌, ◌%◌, ◌^◌, Bool, true, false, if◌then◌else◌, ◌≡◌, Option, none, some, List, [], ◌∷◌,
}
use pingora_reverse_proxy.Route.{RouteKey, Instant}
use pingora_reverse_proxy.Activity.{PendingActivities, accept}
use pingora_reverse_proxy.Activity.Worker.{Attempt, taken, take_next, settle}

pub record Observation : Type 0 where
  pub key : RouteKey
  pub at : Instant
  pub sequence : ℕ

pub record System : Type 0 where
  pub pending : PendingActivities
  pub flight : Option Attempt
  pub accepted : List Observation
  pub ended : List Attempt
  pub persisted : List Attempt
  pub failed : List Attempt
  pub persistence_errors : ℕ

abbrev pub observation : RouteKey → Instant → PendingActivities → Observation
observation key at p = record { key = key; at = at; sequence = p.accepted_through + 1 }

-- The `fetch_add` on `persistence_errors`, which wraps around.
unfoldable pub count_error : Bool → ℕ → ℕ
count_error true errors = errors
count_error false errors = (errors + 1) % 2 ^ 64

-- `persist_observed_activity` ends an attempt, as `is_ok` says; a failed one is counted and dropped.
pub data Step (s : System) : System → Type 0 where
  accepts :
      (key : RouteKey) (at : Instant)
      → Step s (record s {
        pending = accept key at s.pending;
        accepted = observation key at s.pending ∷ s.accepted;
      })
  takes :
      {a : Attempt} {p : PendingActivities}
      → s.flight ≡ none
      → take_next s.pending ≡ taken a p
      → Step s (record s { pending = p; flight = some a })
  ends :
      {a : Attempt} (is_ok : Bool)
      → s.flight ≡ some a
      → Step s (record s {
        pending = settle a.key s.pending;
        flight = none;
        ended = a ∷ s.ended;
        persisted = if is_ok then a ∷ s.persisted else s.persisted;
        failed = if is_ok then s.failed else a ∷ s.failed;
        persistence_errors = count_error is_ok s.persistence_errors;
      })

pub data Steps (s : System) : System → Type 0 where
  here : Steps s s
  next : {t u : System} → Steps s t → Step t u → Steps s u

abbrev pub initial : System
initial = record {
  pending = record { by_key = []; ready = []; accepted_through = 0 };
  flight = none;
  accepted = [];
  ended = [];
  persisted = [];
  failed = [];
  persistence_errors = 0;
}
