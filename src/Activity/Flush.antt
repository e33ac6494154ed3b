-- ===== src/Activity/Flush.antt =====
-- What `flush` of src/activity.rs waits for.
use pingora_reverse_proxy.Prelude.{
  ℕ, ◌+◌, ◌%◌, ◌^◌, length, ◌≤◌, ◌≡◌, ◌⊎◌, some, List, ◌∷◌, All, arith,
}
use pingora_reverse_proxy.Map.{Map, get}
use pingora_reverse_proxy.Map.Order.{text_ord}
use pingora_reverse_proxy.Map.Laws.{same_refl}
use pingora_reverse_proxy.Route.{RouteKey, Instant}
use pingora_reverse_proxy.Activity.{PendingActivities, accept, observed}
use pingora_reverse_proxy.Activity.Effects.{
  get-accept, observed-some, taken-Takes, settle-accepted_through,
}
use pingora_reverse_proxy.Activity.Steps.{
  Observation, System, accepts, takes, ends, Steps, here, next, initial, observation,
}
use pingora_reverse_proxy.Activity.Ledger.{
  Covered, waits, Waits, Bounded, IsTracking, Step-IsTracking, All-map, accept-Bounded,
}

abbrev IsNumbered : System → Type 0
IsNumbered s = All (λ o. o.sequence ≤ s.pending.accepted_through) s.accepted

observed-Waits :
    (key : RouteKey) (at : Instant) (p : PendingActivities)
    → Bounded p
    → Waits (observation key at p) (accept key at p)
unfolding accept
observed-Waits key at p b =
    let n = p.accepted_through + 1 in
    let ((q, oldest), instant) = observed-some at n (get key p.by_key) in
    let resident : get key (accept key at p).by_key ≡ some (observed at n (get key p.by_key)) =
      rw (get-accept key key at p, same_refl key) in
    record {
      entry = observed at n (get key p.by_key);
      sequence = q;
      resident = resident;
      oldest = oldest;
      order = accept-Bounded key at p b key (observed at n (get key p.by_key)) q resident oldest;
      instant = instant;
    }

raise :
    (n m : ℕ)
    → n ≤ m
    → (observations : List Observation) → All (λ o. o.sequence ≤ n) observations
    → All (λ o. o.sequence ≤ m) observations
raise n m h observations = All-map observations (λ o k. omega (arith, h, k))

accept-IsNumbered :
    (key : RouteKey) (at : Instant) (p : PendingActivities) (observations : List Observation)
    → All (λ o. o.sequence ≤ p.accepted_through) observations
    → All
        (λ o. o.sequence ≤ (accept key at p).accepted_through)
        (observation key at p ∷ observations)
unfolding accept
accept-IsNumbered key at p observations h =
    (omega arith, raise p.accepted_through (p.accepted_through + 1) (omega arith) observations h)

pub accepted-IsTracking : {s : System} → Steps initial s → IsTracking s.accepted s × IsNumbered s
unfolding get
accepted-IsTracking here = (record { bounded = λ j e q h k. cc (h); tracked = tt }, tt)
accepted-IsTracking (next {t} r (accepts key at)) =
    let (i, n) = accepted-IsTracking r in
    let others = Step-IsTracking t.accepted (accepts key at) i in
    (
      record {
        bounded = others.bounded;
        tracked = (waits (observed-Waits key at t.pending i.bounded), others.tracked);
      },
      accept-IsNumbered key at t.pending t.accepted n,
    )
accepted-IsTracking (next {t} r (takes landed found)) =
    let (i, n) = accepted-IsTracking r in
    (
      Step-IsTracking t.accepted (takes landed found) i,
      rw ((taken-Takes t.pending found).accepted_through) n,
    )
accepted-IsTracking (next {t} r (ends {a} is_ok flying)) =
    let (i, n) = accepted-IsTracking r in
    (
      Step-IsTracking t.accepted (ends is_ok flying) i,
      rw (settle-accepted_through a.key t.pending) n,
    )

-- The outcomes of the attempts that have ended.
pub record IsRecorded (s : System) : Type 0 where
  pub outcome : (o : Observation) → Covered o s.ended → Covered o s.persisted ⊎ Covered o s.failed
  pub count : s.persistence_errors ≡ length s.failed % 2 ^ 64
