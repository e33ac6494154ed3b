-- ===== src/Activity/Worker.antt =====
-- The loop of the persistence worker of src/activity.rs, split where it releases the lock.
use pingora_reverse_proxy.Prelude.{ℕ, Bool, Option, none, some, List, [], ◌∷◌, ◌++◌, if◌then◌else◌}
use pingora_reverse_proxy.Map.{get, insert, remove}
use pingora_reverse_proxy.Map.Order.{text_ord}
use pingora_reverse_proxy.Route.{RouteKey, Instant}
use pingora_reverse_proxy.Activity.{
  PendingActivity, PendingActivities, ActivityState, record_failure,
}

-- The key, the instant to persist, and the oldest sequence number that the attempt covers.
pub record Attempt : Type 0 where
  pub key : RouteKey
  pub at : Instant
  pub sequence : ℕ

pub data Taken : Type 0 where
  idle : Taken
  taken : Attempt → PendingActivities → Taken
  broken : Taken

abbrev pub take_entry :
    RouteKey → List RouteKey → PendingActivities → PendingActivity → Option ℕ → Taken
take_entry key ready p entry none = broken
take_entry key ready p entry (some sequence) =
    taken (record { key = key; at = entry.latest; sequence = sequence })
      (record p {
        ready = ready;
        by_key =
            insert key
              (record entry {
                pending_oldest_sequence = none;
                in_flight_oldest_sequence = some sequence;
              })
              p.by_key;
      })

abbrev pub take_resident :
    RouteKey → List RouteKey → PendingActivities → Option PendingActivity → Taken
take_resident key ready p none = broken
take_resident key ready p (some entry) = take_entry key ready p entry entry.pending_oldest_sequence

abbrev pub take_front : List RouteKey → PendingActivities → Taken
take_front [] p = idle
take_front (key ∷ ready) p = take_resident key ready p (get key p.by_key)

-- The first block of a round; `broken` is a failed `expect`.
unfoldable pub take_next : PendingActivities → Taken
take_next p = take_front p.ready p

abbrev pub requeue : RouteKey → PendingActivities → PendingActivity → Option ℕ → PendingActivities
requeue key p entry none = record p { by_key = remove key p.by_key }
requeue key p entry (some sequence) = record p {
  by_key = insert key (record entry { in_flight_oldest_sequence = none }) p.by_key;
  ready = p.ready ++ key ∷ [];
}

abbrev pub settle_entry : RouteKey → PendingActivities → Option PendingActivity → PendingActivities
settle_entry key p none = record p { by_key = remove key p.by_key }
settle_entry key p (some entry) = requeue key p entry entry.pending_oldest_sequence

-- The last block of a round.
unfoldable pub settle : RouteKey → PendingActivities → PendingActivities
settle key p = settle_entry key p (get key p.by_key)

-- A round's end after its attempt, which failed or not.
unfoldable pub finish : Bool → Attempt → ActivityState → ActivityState
unfolding settle
finish failed attempt state =
    let s = if failed then record_failure state else state in
    record s { pending = settle attempt.key s.pending }
