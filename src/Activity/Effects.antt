-- ===== src/Activity/Effects.antt =====
-- What the blocks of src/activity.rs do to the entry of each key.
use pingora_reverse_proxy.Prelude.{
  ℕ, ◌+◌, ◌≤◌, ◌≡◌, refl, inl, inr, Option, none, some, List, [], ◌∷◌, ◌++◌, if◌then◌else◌, arith,
  Option-cases,
}
use pingora_reverse_proxy.Map.{get, insert}
use pingora_reverse_proxy.Map.Order.{text_ord}
use pingora_reverse_proxy.Map.Laws.{get-insert, get-remove, same}
use pingora_reverse_proxy.Route.{RouteKey, Instant}
use pingora_reverse_proxy.Activity.{PendingActivity, PendingActivities, accept, observed, is_some}
use pingora_reverse_proxy.Activity.Worker.{
  Attempt, Taken, idle, taken, broken, take_next, settle, take_entry, take_resident, take_front,
  requeue, settle_entry,
}

pub get-accept :
    (j key : RouteKey) (at : Instant) (p : PendingActivities)
    → get j (accept key at p).by_key ≡ (
        if same j key
        then some (observed at (p.accepted_through + 1) (get key p.by_key))
        else get j p.by_key)
unfolding accept
get-accept j key at p =
    get-insert j key (observed at (p.accepted_through + 1) (get key p.by_key)) p.by_key

-- The entry after a key is taken.
abbrev pub launched : ℕ → PendingActivity → PendingActivity
launched sequence entry = record entry {
  pending_oldest_sequence = none;
  in_flight_oldest_sequence = some sequence;
}

pub record Takes (p : PendingActivities) (a : Attempt) (p' : PendingActivities) : Type 0 where
  pub entry : PendingActivity
  pub resident : get a.key p.by_key ≡ some entry
  pub oldest : entry.pending_oldest_sequence ≡ some a.sequence
  pub instant : a.at ≡ entry.latest
  pub after : p'.by_key ≡ insert a.key (launched a.sequence entry) p.by_key
  pub accepted_through : p'.accepted_through ≡ p.accepted_through
  pub queue : p.ready ≡ a.key ∷ p'.ready

pub TakesWhen : PendingActivities → Taken → Type 0
TakesWhen p idle = p.ready ≡ []
TakesWhen p (taken a p') = Takes p a p'
TakesWhen p broken = Unit

take_entry-Takes :
    (key : RouteKey) (ready : List RouteKey) (p : PendingActivities) (entry : PendingActivity)
    → p.ready ≡ key ∷ ready
    → get key p.by_key ≡ some entry
    → (o : Option ℕ) → entry.pending_oldest_sequence ≡ o
    → TakesWhen p (take_entry key ready p entry o)
unfolding TakesWhen
take_entry-Takes key ready p entry q r none h = tt
take_entry-Takes key ready p entry q r (some sequence) h = record {
  entry = entry;
  resident = r;
  oldest = h;
  instant = refl;
  after = refl;
  accepted_through = refl;
  queue = q;
}

take_resident-Takes :
    (key : RouteKey) (ready : List RouteKey) (p : PendingActivities)
    → p.ready ≡ key ∷ ready
    → (o : Option PendingActivity) → get key p.by_key ≡ o
    → TakesWhen p (take_resident key ready p o)
unfolding TakesWhen
take_resident-Takes key ready p q none h = tt
take_resident-Takes key ready p q (some entry) h =
    take_entry-Takes key ready p entry q h entry.pending_oldest_sequence refl

take_front-Takes :
    (p : PendingActivities) (ready : List RouteKey)
    → p.ready ≡ ready
    → TakesWhen p (take_front ready p)
unfolding TakesWhen
take_front-Takes p [] q = q
take_front-Takes p (key ∷ ready) q = take_resident-Takes key ready p q (get key p.by_key) refl

pub take_next-Takes : (p : PendingActivities) → TakesWhen p (take_next p)
unfolding take_next
take_next-Takes p = take_front-Takes p p.ready refl

pub taken-Takes :
    {a : Attempt} {p' : PendingActivities} (p : PendingActivities)
    → take_next p ≡ taken a p'
    → Takes p a p'
unfolding TakesWhen
taken-Takes {a} {p'} p h = rw (h) at (take_next-Takes p)

pub get-taken :
    (j : RouteKey) {a : Attempt} {p p' : PendingActivities} (t : Takes p a p')
    → get j p'.by_key
      ≡ (if same j a.key then some (launched a.sequence t.entry) else get j p.by_key)
get-taken j {a} {p} t = rw (t.after) (get-insert j a.key (launched a.sequence t.entry) p.by_key)

-- The entry of the key after its attempt has ended.
abbrev pub landed_entry : PendingActivity → Option ℕ → Option PendingActivity
landed_entry entry none = none
landed_entry entry (some sequence) = some (record entry { in_flight_oldest_sequence = none })

abbrev pub landed : Option PendingActivity → Option PendingActivity
landed none = none
landed (some entry) = landed_entry entry entry.pending_oldest_sequence

get-requeue :
    (j key : RouteKey) (p : PendingActivities) (entry : PendingActivity) (o : Option ℕ)
    → get j (requeue key p entry o).by_key
      ≡ (if same j key then landed_entry entry o else get j p.by_key)
get-requeue j key p entry none = get-remove j key p.by_key
get-requeue j key p entry (some q) =
    get-insert j key (record entry { in_flight_oldest_sequence = none }) p.by_key

get-settle_entry :
    (j key : RouteKey) (p : PendingActivities) (o : Option PendingActivity)
    → get j (settle_entry key p o).by_key ≡ (if same j key then landed o else get j p.by_key)
get-settle_entry j key p none = get-remove j key p.by_key
get-settle_entry j key p (some entry) = get-requeue j key p entry entry.pending_oldest_sequence

pub get-settle :
    (j key : RouteKey) (p : PendingActivities)
    → get j (settle key p).by_key
      ≡ (if same j key then landed (get key p.by_key) else get j p.by_key)
unfolding settle
get-settle j key p = get-settle_entry j key p (get key p.by_key)

landed_entry-some :
    (x e : PendingActivity) (o : Option ℕ)
    → landed_entry x o ≡ some e
    → (e ≡ record x { in_flight_oldest_sequence = none }) × ((q : ℕ) × (o ≡ some q))
landed_entry-some x e none h = cc
landed_entry-some x e (some q) h = (cc, (q, refl))

-- A key that stays resident after its attempt was observed meanwhile.
pub landed-some :
    (o : Option PendingActivity) (e : PendingActivity)
    → landed o ≡ some e
    → (x : PendingActivity) × (o ≡ some x)
      × (e ≡ record x { in_flight_oldest_sequence = none })
      × ((q : ℕ) × (x.pending_oldest_sequence ≡ some q))
landed-some none e h = cc
landed-some (some x) e h =
    let (same_entry, later) = landed_entry-some x e x.pending_oldest_sequence h in
    (x, refl, same_entry, later)

requeue-accepted_through :
    (key : RouteKey) (p : PendingActivities) (entry : PendingActivity) (o : Option ℕ)
    → (requeue key p entry o).accepted_through ≡ p.accepted_through
requeue-accepted_through key p entry none = refl
requeue-accepted_through key p entry (some q) = refl

settle_entry-accepted_through :
    (key : RouteKey) (p : PendingActivities) (o : Option PendingActivity)
    → (settle_entry key p o).accepted_through ≡ p.accepted_through
settle_entry-accepted_through key p none = refl
settle_entry-accepted_through key p (some e) =
    requeue-accepted_through key p e e.pending_oldest_sequence

pub settle-accepted_through :
    (key : RouteKey) (p : PendingActivities) → (settle key p).accepted_through ≡ p.accepted_through
unfolding settle
settle-accepted_through key p = settle_entry-accepted_through key p (get key p.by_key)

pub observed-some :
    (at : Instant) (n : ℕ) (o : Option PendingActivity)
    → ((q : ℕ) × ((observed at n o).pending_oldest_sequence ≡ some q))
      × (at ≤ (observed at n o).latest)
unfolding observed
observed-some at n none = ((n, refl), omega arith)
observed-some at n (some e) = elim (Option-cases e.pending_oldest_sequence) [
  | inl k ↦ ((n, rw (k)), omega arith)
  | inr (q, k) ↦ ((q, rw (k)), omega arith)
]

pub accept-ready :
    (key : RouteKey) (at : Instant) (p : PendingActivities)
    → (accept key at p).ready
      ≡ (if is_some (get key p.by_key) then p.ready else p.ready ++ key ∷ [])
unfolding accept
accept-ready key at p = refl

requeue-ready :
    (key : RouteKey) (p : PendingActivities) (entry : PendingActivity) (o : Option ℕ)
    → (requeue key p entry o).ready
      ≡ (if is_some (landed_entry entry o) then p.ready ++ key ∷ [] else p.ready)
requeue-ready key p entry none = refl
requeue-ready key p entry (some q) = refl

settle_entry-ready :
    (key : RouteKey) (p : PendingActivities) (o : Option PendingActivity)
    → (settle_entry key p o).ready ≡ (if is_some (landed o) then p.ready ++ key ∷ [] else p.ready)
settle_entry-ready key p none = refl
settle_entry-ready key p (some e) = requeue-ready key p e e.pending_oldest_sequence

pub settle-ready :
    (key : RouteKey) (p : PendingActivities)
    → (settle key p).ready
      ≡ (if is_some (landed (get key p.by_key)) then p.ready ++ key ∷ [] else p.ready)
unfolding settle
settle-ready key p = settle_entry-ready key p (get key p.by_key)
