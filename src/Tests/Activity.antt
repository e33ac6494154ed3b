-- ===== src/Tests/Activity.antt =====
-- The persistence of activity.
use pingora_reverse_proxy.Prelude.{ℕ, ◌≡◌, refl, Option, none, some, [], ◌∷◌, true}
use pingora_reverse_proxy.Map.Order.{text_ord}
use pingora_reverse_proxy.Activity.{PendingActivity, accept, watermark_is_complete}
use pingora_reverse_proxy.Activity.Worker.{Attempt}
use pingora_reverse_proxy.Activity.Steps.{System, accepts, Steps, here, next, initial}
use pingora_reverse_proxy.Activity.Coherent.{Progresses, take_next-Progresses}
use pingora_reverse_proxy.Tests.Data.{helpers, user_key}

abbrev key_entry : ℕ → Option ℕ → Option ℕ → PendingActivity
key_entry at oldest in_flight = record {
  latest = at;
  pending_oldest_sequence = oldest;
  in_flight_oldest_sequence = in_flight;
}

abbrev observed_once : System
observed_once = record {
  pending = record {
    by_key = (user_key, key_entry 7 (some 1) none) ∷ [];
    ready = user_key ∷ [];
    accepted_through = 1;
  };
  flight = none;
  accepted = record { key = user_key; at = 7; sequence = 1 } ∷ [];
  ended = [];
  persisted = [];
  failed = [];
  persistence_errors = 0;
}

abbrev attempt : Attempt
attempt = record { key = user_key; at = 7; sequence = 1 }

-- The attempt for the first observation ends after a second one is accepted.
abbrev persisted : System
persisted = record {
  pending = record {
    by_key = (user_key, key_entry 9 (some 2) none) ∷ [];
    ready = user_key ∷ [];
    accepted_through = 2;
  };
  flight = none;
  accepted =
      record { key = user_key; at = 9; sequence = 2 }
      ∷ record { key = user_key; at = 7; sequence = 1 }
      ∷ [];
  ended = attempt ∷ [];
  persisted = attempt ∷ [];
  failed = [];
  persistence_errors = 0;
}

once : Steps initial observed_once
unfolding accept helpers
once = next here (accepts user_key 7)

complete : watermark_is_complete 1 persisted.pending ≡ true
unfolding watermark_is_complete
complete = refl

take_next-Progresses_example : Progresses observed_once.pending
take_next-Progresses_example = take_next-Progresses {s = observed_once} once refl
