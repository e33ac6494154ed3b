-- ===== src/Activity.antt =====
-- src/activity.rs: the bounded, coalesced persistence of activity observations. The lock makes each
-- block that holds it one step. `none` is a panic, by an `expect` or by the overflow of the
-- sequence. The calls of the process metrics are kept as a list, the latest first.
pub mod Worker
mod Effects
pub mod Steps
pub mod Coherent
pub mod Ledger
pub mod Flush
use pingora_reverse_proxy.Prelude.{
  ℕ, ◌+◌, ◌-◌, ◌^◌, Bool, true, false, not, ◌&&◌, ◌||◌, if◌then◌else◌, ltb, leb, max, Option, none,
  some, List, [], ◌∷◌, ◌++◌, length, all, or_else,
}
use pingora_reverse_proxy.Map.{Map, get, insert, values}
use pingora_reverse_proxy.Map.Order.{text_ord}
use pingora_reverse_proxy.Route.{RouteKey, Instant}
use pingora_reverse_proxy.RouteTable.Registry
use pingora_reverse_proxy.RouteTable.Registry.{RouteRegistry}
use pingora_reverse_proxy.RouteTable.Snapshot.{RouteSnapshot}

pub record PendingActivity : Type 0 where
  pub latest : Instant
  pub pending_oldest_sequence : Option ℕ
  pub in_flight_oldest_sequence : Option ℕ

pub record PendingActivities : Type 0 where
  pub by_key : Map RouteKey PendingActivity
  pub ready : List RouteKey
  pub accepted_through : ℕ

pub data MetricCall : Type 0 where
  last_activity_update activity_drop activity_persistence_failure : MetricCall

pub record ActivityState : Type 0 where
  pub pending : PendingActivities
  pub persistence_errors : ℕ
  pub dropped_observations : ℕ
  pub pending_capacity : ℕ
  pub metrics : List MetricCall

-- `AtomicU64::fetch_add(1)`, which wraps.
abbrev pub u64_modulus : ℕ
u64_modulus = 2 ^ 64

abbrev pub increment : ℕ → ℕ
increment n = if ltb (n + 1) u64_modulus then n + 1 else 0

unfoldable pub start : ℕ → ActivityState
start pending_capacity = record {
  pending = record { by_key = []; ready = []; accepted_through = 0 };
  persistence_errors = 0;
  dropped_observations = 0;
  pending_capacity = max pending_capacity 1;
  metrics = [];
}

-- The counting that follows a failed attempt, and a wake-up that finds the worker gone.
abbrev pub record_failure : ActivityState → ActivityState
record_failure s = record s {
  persistence_errors = increment s.persistence_errors;
  metrics = activity_persistence_failure ∷ s.metrics;
}

abbrev pub is_some {ℓ} : {A : Type ℓ} → Option A → Bool
is_some none = false
is_some (some a) = true

unfoldable pub is_accepted : RouteKey → ActivityState → Bool
is_accepted key s =
    is_some (get key s.pending.by_key) || ltb (length s.pending.by_key) s.pending_capacity

-- The entry of a key after the observation with this sequence number.
unfoldable pub observed : Instant → ℕ → Option PendingActivity → PendingActivity
observed at sequence none = record {
  latest = at;
  pending_oldest_sequence = some sequence;
  in_flight_oldest_sequence = none;
}
observed at sequence (some existing) = record existing {
  latest = max existing.latest at;
  pending_oldest_sequence = or_else existing.pending_oldest_sequence (some sequence);
}

-- The part of `record_at` under the lock, for an observation that is accepted.
unfoldable pub accept : RouteKey → Instant → PendingActivities → PendingActivities
unfolding observed
accept key at p =
    let sequence = p.accepted_through + 1 in
    record {
      by_key = insert key (observed at sequence (get key p.by_key)) p.by_key;
      ready = if is_some (get key p.by_key) then p.ready else p.ready ++ key ∷ [];
      accepted_through = sequence;
    }

-- `record_at` once the registry has published the observation. `closed` is whether the worker's end
-- of the channel is gone when the wake-up is sent.
unfoldable pub admit : Bool → RouteKey → Instant → ActivityState → Option ActivityState
unfolding is_accepted accept
admit closed key at state =
    let s : ActivityState = record state { metrics = last_activity_update ∷ state.metrics } in
    let accepted : ActivityState = record s { pending = accept key at s.pending } in
    if not (is_accepted key s)
    then some (record s {
      dropped_observations = increment s.dropped_observations;
      metrics = activity_drop ∷ s.metrics;
    })
    else (if ltb (s.pending.accepted_through + 1) u64_modulus
        then some (if closed then record_failure accepted else accepted)
        else none)

-- `record_at`, with the snapshots that other tasks publish during its observation.
unfoldable pub record_at :
    {S X : Type 0}
    → Bool
    → RouteKey
    → Instant
    → List (RouteSnapshot X)
    → RouteRegistry S X × ActivityState
    → Option (RouteRegistry S X × ActivityState)
unfolding admit Registry.observe_activity
record_at closed key at others (registry, s) =
    let (published, registry') = Registry.observe_activity key at others registry in
    if published
    then (elim (admit closed key at s) [ none ↦ none | some s' ↦ some (registry', s') ])
    else some (registry', s)

-- `persistence_errors`, `dropped_observations` and `pending_routes`.
unfoldable pub pending_routes : ActivityState → ℕ
pending_routes s = length s.pending.by_key

abbrev is_after : ℕ → Option ℕ → Bool
is_after watermark none = true
is_after watermark (some sequence) = ltb watermark sequence

abbrev pub entry_is_complete : ℕ → PendingActivity → Bool
entry_is_complete watermark entry =
    is_after watermark entry.in_flight_oldest_sequence
    && is_after watermark entry.pending_oldest_sequence

-- The look of `flush` at the entries.
unfoldable pub watermark_is_complete : ℕ → PendingActivities → Bool
watermark_is_complete watermark p =
    all (λ entry. entry_is_complete watermark entry) (values p.by_key)
