-- ===== src/Activity/Ledger.antt =====
-- No accepted observation of src/activity.rs is lost before an attempt has covered it.
use pingora_reverse_proxy.Prelude.{
  ℕ, ◌+◌, ◌≤◌, ◌≡◌, refl, sym, ◌∙◌, ◌⊎◌, inl, inr, Option, none, some, List, [], ◌∷◌, All, arith,
  Option-cases, Bool-cases,
}
use pingora_reverse_proxy.Map.{get}
use pingora_reverse_proxy.Map.Order.{text_ord}
use pingora_reverse_proxy.Map.Laws.{same, eq_of_same, same_refl}
use pingora_reverse_proxy.Route.{RouteKey, Instant}
use pingora_reverse_proxy.Activity.{PendingActivity, PendingActivities, accept, observed}
use pingora_reverse_proxy.Activity.Worker.{Attempt, settle}
use pingora_reverse_proxy.Activity.Effects.{
  get-accept, Takes, taken-Takes, get-taken, get-settle, launched, landed-some,
  settle-accepted_through,
}
use pingora_reverse_proxy.Activity.Steps.{Observation, System, Step, accepts, takes, ends}

-- An attempt for the key with an instant as late as the observed one.
abbrev pub Covers : Observation → Attempt → Type 0
Covers o a = (o.key ≡ a.key) × (o.at ≤ a.at)

pub data Covered (o : Observation) : List Attempt → Type 0 where
  newest : {a : Attempt} {attempts : List Attempt} → Covers o a → Covered o (a ∷ attempts)
  older : {a : Attempt} {attempts : List Attempt} → Covered o attempts → Covered o (a ∷ attempts)

pub record Waits (o : Observation) (p : PendingActivities) : Type 0 where
  pub entry : PendingActivity
  pub sequence : ℕ
  pub resident : get o.key p.by_key ≡ some entry
  pub oldest : entry.pending_oldest_sequence ≡ some sequence
  pub order : sequence ≤ o.sequence
  pub instant : o.at ≤ entry.latest

pub record Flies (o : Observation) (p : PendingActivities) (flight : Option Attempt) : Type 0 where
  pub attempt : Attempt
  pub flying : flight ≡ some attempt
  pub covers : Covers o attempt
  pub entry : PendingActivity
  pub resident : get o.key p.by_key ≡ some entry
  pub sequence : ℕ
  pub oldest : entry.in_flight_oldest_sequence ≡ some sequence
  pub order : sequence ≤ o.sequence

pub data Tracked (o : Observation) (s : System) : Type 0 where
  covered : Covered o s.ended → Tracked o s
  flies : Flies o s.pending s.flight → Tracked o s
  waits : Waits o s.pending → Tracked o s

-- Accepting another observation for the key keeps its oldest sequence numbers.
record Grows (before after : PendingActivity) : Type 0 where
  latest : before.latest ≤ after.latest
  in_flight : after.in_flight_oldest_sequence ≡ before.in_flight_oldest_sequence
  pending :
      (q : ℕ) → before.pending_oldest_sequence ≡ some q → after.pending_oldest_sequence ≡ some q

observed-Grows : (at : Instant) (n : ℕ) (e : PendingActivity) → Grows e (observed at n (some e))
unfolding observed
observed-Grows at n e = record { latest = omega arith; in_flight = refl; pending = λ q h. rw h }

accept-Grows :
    (j key : RouteKey) (at : Instant) (p : PendingActivities) (e : PendingActivity)
    → get j p.by_key ≡ some e
    → (e' : PendingActivity) × (get j (accept key at p).by_key ≡ some e') × Grows e e'
accept-Grows j key at p e h = elim (Bool-cases (same j key)) [
  | inl s ↦ (
    observed at (p.accepted_through + 1) (some e),
    rw (get-accept j key at p, s, sym (eq_of_same j key s), h),
    observed-Grows at (p.accepted_through + 1) e,
  )
  | inr s ↦ (
    e,
    rw (get-accept j key at p, s) h,
    record { latest = omega arith; in_flight = refl; pending = λ q k. k },
  )
]

accept-Waits :
    (o : Observation) (key : RouteKey) (at : Instant) (p : PendingActivities)
    → Waits o p
    → Waits o (accept key at p)
accept-Waits o key at p w =
    let (e', h, g) = accept-Grows o.key key at p w.entry w.resident in
    record {
      entry = e';
      sequence = w.sequence;
      resident = h;
      oldest = g.pending w.sequence w.oldest;
      order = w.order;
      instant = omega (arith, w.instant, g.latest);
    }

accept-Flies :
    (o : Observation) (key : RouteKey) (at : Instant) (p : PendingActivities)
    (flight : Option Attempt)
    → Flies o p flight
    → Flies o (accept key at p) flight
accept-Flies o key at p flight f =
    let (e', h, g) = accept-Grows o.key key at p f.entry f.resident in
    record {
      attempt = f.attempt;
      flying = f.flying;
      covers = f.covers;
      entry = e';
      resident = h;
      sequence = f.sequence;
      oldest = g.in_flight ∙ f.oldest;
      order = f.order;
    }

launch :
    (o : Observation) {a : Attempt} {p p' : PendingActivities} (t : Takes p a p')
    → Waits o p
    → o.key ≡ a.key
    → Flies o p' (some a)
launch o {a} {p} {p'} t w same_key =
    let same_entry : w.entry ≡ t.entry = cc (same_key, w.resident, t.resident) in
    let same_sequence : w.sequence ≡ a.sequence = cc (same_entry, w.oldest, t.oldest) in
    let same_latest : w.entry.latest ≡ a.at = cc (same_entry, t.instant) in
    record {
      attempt = a;
      flying = refl;
      covers = (same_key, omega (arith, w.instant, same_latest));
      entry = launched a.sequence t.entry;
      resident = rw (same_key, get-taken a.key t, same_refl a.key);
      sequence = a.sequence;
      oldest = refl;
      order = omega (arith, w.order, same_sequence);
    }

take-Waits :
    (o : Observation) {a : Attempt} {p p' : PendingActivities} (t : Takes p a p')
    → Waits o p
    → (Flies o p' (some a)) ⊎ (Waits o p')
take-Waits o {a} {p} {p'} t w = elim (Bool-cases (same o.key a.key)) [
  | inl s ↦ inl (launch o t w (eq_of_same o.key a.key s))
  | inr s ↦ inr (record {
    entry = w.entry;
    sequence = w.sequence;
    resident = rw (get-taken o.key t, s) w.resident;
    oldest = w.oldest;
    order = w.order;
    instant = w.instant;
  })
]

settle-Waits :
    (o : Observation) (key : RouteKey) (p : PendingActivities) → Waits o p → Waits o (settle key p)
settle-Waits o key p w = elim (Bool-cases (same o.key key)) [
  | inl s ↦ record {
    entry = record (w.entry) { in_flight_oldest_sequence = none };
    sequence = w.sequence;
    resident = rw (get-settle o.key key p, s, sym (eq_of_same o.key key s), w.resident, w.oldest);
    oldest = w.oldest;
    order = w.order;
    instant = w.instant;
  }
  | inr s ↦ record {
    entry = w.entry;
    sequence = w.sequence;
    resident = rw (get-settle o.key key p, s) w.resident;
    oldest = w.oldest;
    order = w.order;
    instant = w.instant;
  }
]

-- The numbers given out so far bound those of the entries.
abbrev pub Bounded : PendingActivities → Type 0
Bounded p =
    (j : RouteKey) (e : PendingActivity) (q : ℕ)
    → get j p.by_key ≡ some e
    → e.pending_oldest_sequence ≡ some q
    → q ≤ p.accepted_through

pub observed-old :
    (at : Instant) (n : ℕ) (q : ℕ) (o : Option PendingActivity)
    → (observed at n o).pending_oldest_sequence ≡ some q
    → (q ≡ n) ⊎ ((e : PendingActivity) × (o ≡ some e) × (e.pending_oldest_sequence ≡ some q))
unfolding observed
observed-old at n q none h = inl (cc)
observed-old at n q (some e) h = elim (Option-cases e.pending_oldest_sequence) [
  | inl k ↦ inl (ground (arith, h, k))
  | inr (x, k) ↦ inr (e, refl, (k ∙ rw (k) at h))
]

pub accept-Bounded :
    (key : RouteKey) (at : Instant) (p : PendingActivities) → Bounded p → Bounded (accept key at p)
unfolding accept
accept-Bounded key at p b j e q h k = elim (Bool-cases (same j key)) [
  | inl s ↦
      let kept : (observed at (p.accepted_through + 1) (get key p.by_key)).pending_oldest_sequence
          ≡ some q =
        cc (rw (get-accept j key at p, s) at h, k) in
      elim (observed-old at (p.accepted_through + 1) q (get key p.by_key) kept) [
        | inl new ↦ omega (arith, new)
        | inr (x, r, old) ↦ omega (arith, b key x q r old)
      ]
  | inr s ↦ omega (arith, b j e q (rw (get-accept j key at p, s) at h) k)
]

take-Bounded : {a : Attempt} {p p' : PendingActivities} (t : Takes p a p') → Bounded p → Bounded p'
take-Bounded {a} t b j e q h k = elim (Bool-cases (same j a.key)) [
  | inl s ↦ cc (rw (get-taken j t, s) at h, k)
  | inr s ↦ rw (t.accepted_through) (b j e q (rw (get-taken j t, s) at h) k)
]

settle-Bounded : (key : RouteKey) (p : PendingActivities) → Bounded p → Bounded (settle key p)
settle-Bounded key p b j e q h k =
    rw (settle-accepted_through key p) (elim (Bool-cases (same j key)) [
      | inl s ↦
          let (x, r, same_entry, w) =
            landed-some (get key p.by_key) e (rw (get-settle j key p, s) at h) in
          b key x q r (cc (same_entry, k))
      | inr s ↦ b j e q (rw (get-settle j key p, s) at h) k
    ])

pub Step-Bounded : {s t : System} → Step s t → Bounded s.pending → Bounded t.pending
Step-Bounded {s} (accepts key at) b = accept-Bounded key at s.pending b
Step-Bounded {s} (takes landed found) b = take-Bounded (taken-Takes s.pending found) b
Step-Bounded {s} (ends {a} is_ok flying) b = settle-Bounded a.key s.pending b

-- Every accepted observation has been covered, or it stands in its key's entry.
pub record IsTracking (observations : List Observation) (s : System) : Type 0 where
  pub bounded : Bounded s.pending
  pub tracked : All (λ o. Tracked o s) observations

pub All-map :
    {A : Type 0} {P Q : A → Type 0} (xs : List A) → ((a : A) → P a → Q a) → All P xs → All Q xs
All-map [] f h = tt
All-map (x ∷ xs) f (h, t) = (f x h, All-map xs f t)

Step-Tracked : {s t : System} (o : Observation) → Step s t → Tracked o s → Tracked o t
Step-Tracked o (accepts key at) (covered c) = covered c
Step-Tracked {s} o (accepts key at) (flies f) = flies (accept-Flies o key at s.pending s.flight f)
Step-Tracked {s} o (accepts key at) (waits w) = waits (accept-Waits o key at s.pending w)
Step-Tracked o (takes landed found) (covered c) = covered c
Step-Tracked o (takes landed found) (flies f) = cc (landed, f.flying)
Step-Tracked {s} o (takes landed found) (waits w) =
    elim (take-Waits o (taken-Takes s.pending found) w) [ inl f ↦ flies f | inr w' ↦ waits w' ]
Step-Tracked o (ends is_ok flying) (covered c) = covered (older c)
Step-Tracked o (ends {a} is_ok flying) (flies f) =
    let same_attempt : f.attempt ≡ a = cc (flying, f.flying) in
    covered (newest (rw (same_attempt) at f.covers))
Step-Tracked {s} o (ends {a} is_ok flying) (waits w) = waits (settle-Waits o a.key s.pending w)

pub Step-IsTracking :
    {s t : System} (observations : List Observation)
    → Step s t
    → IsTracking observations s
    → IsTracking observations t
Step-IsTracking {s} {t} observations step i = record {
  bounded = Step-Bounded step i.bounded;
  tracked = All-map observations (λ o. Step-Tracked o step) i.tracked;
}
