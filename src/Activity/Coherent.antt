-- ===== src/Activity/Coherent.antt =====
-- The queue of src/activity.rs holds each waiting key once, so the worker's `expect`s never fail.
use pingora_reverse_proxy.Prelude.{
  ℕ, ◌+◌, ◌≡◌, ◌≢◌, refl, sym, ◌∙◌, ◌⊎◌, inl, inr, Bool, true, false, if◌then◌else◌, Option, none,
  some, List, [], ◌∷◌, ◌++◌, arith, Option-cases, Bool-cases,
}
use pingora_reverse_proxy.Map.{Map, get, insert}
use pingora_reverse_proxy.Map.Order.{text_ord}
use pingora_reverse_proxy.Map.Laws.{same, eq_of_same, same_refl}
use pingora_reverse_proxy.Route.{RouteKey, Instant}
use pingora_reverse_proxy.Activity.{PendingActivity, PendingActivities, accept, observed, is_some}
use pingora_reverse_proxy.Activity.Worker.{Attempt, idle, taken, take_next, settle}
use pingora_reverse_proxy.Activity.Effects.{
  get-accept, accept-ready, Takes, taken-Takes, get-taken, get-settle, settle-ready, launched,
  landed, landed-some, observed-some,
}
use pingora_reverse_proxy.Activity.Steps.{
  System, Step, accepts, takes, ends, Steps, here, next, initial,
}

abbrev pub count : RouteKey → List RouteKey → ℕ
count key [] = 0
count key (k ∷ ks) = (if same key k then 1 else 0) + count key ks

count-append :
    (key k : RouteKey) (ks : List RouteKey)
    → count key (ks ++ k ∷ []) ≡ count key ks + (if same key k then 1 else 0)
count-append key k [] = omega arith
count-append key k (j ∷ ks) = omega (arith, count-append key k ks)

abbrev pub IsElsewhere : RouteKey → Option Attempt → Type 0
IsElsewhere key flight = (a : Attempt) → flight ≡ some a → same key a.key ≡ false

-- Where a key stands: nowhere, once in the queue, or with the worker.
pub data Home (key : RouteKey) (p : PendingActivities) (flight : Option Attempt) : Type 0 where
  absent :
      get key p.by_key ≡ none → count key p.ready ≡ 0 → IsElsewhere key flight → Home key p flight
  queued :
      {e : PendingActivity} {q : ℕ}
      → get key p.by_key ≡ some e
      → e.pending_oldest_sequence ≡ some q
      → count key p.ready ≡ 1
      → IsElsewhere key flight
      → Home key p flight
  flying :
      {e : PendingActivity} {a : Attempt}
      → get key p.by_key ≡ some e
      → flight ≡ some a
      → same key a.key ≡ true
      → count key p.ready ≡ 0
      → Home key p flight

-- A step for another key.
record Unmoved (key : RouteKey) (p p' : PendingActivities) : Type 0 where
  entry : get key p'.by_key ≡ get key p.by_key
  place : count key p'.ready ≡ count key p.ready

move-Home :
    (key : RouteKey) (p p' : PendingActivities) (flight : Option Attempt)
    → Unmoved key p p'
    → Home key p flight
    → Home key p' flight
move-Home key p p' flight u (absent g c f) = absent (u.entry ∙ g) (u.place ∙ c) f
move-Home key p p' flight u (queued g o c f) = queued (u.entry ∙ g) o (u.place ∙ c) f
move-Home key p p' flight u (flying g f s c) = flying (u.entry ∙ g) f s (u.place ∙ c)

count-kept :
    (j key : RouteKey) (ks : List RouteKey) (b : Bool)
    → same j key ≡ false
    → count j (if b then ks else ks ++ key ∷ []) ≡ count j ks
count-kept j key ks true s = refl
count-kept j key ks false s = rw (count-append j key ks, s) (omega arith)

count-added :
    (j key : RouteKey) (ks : List RouteKey) (b : Bool)
    → same j key ≡ false
    → count j (if b then ks ++ key ∷ [] else ks) ≡ count j ks
count-added j key ks true s = rw (count-append j key ks, s) (omega arith)
count-added j key ks false s = refl

accept-Unmoved :
    (j key : RouteKey) (at : Instant) (p : PendingActivities)
    → same j key ≡ false
    → Unmoved j p (accept key at p)
accept-Unmoved j key at p s = record {
  entry = rw (get-accept j key at p, s);
  place = rw (accept-ready key at p) (count-kept j key p.ready (is_some (get key p.by_key)) s);
}

accept-Home :
    (j key : RouteKey) (at : Instant) (p : PendingActivities) (flight : Option Attempt)
    → j ≡ key
    → Home j p flight
    → Home j (accept key at p) flight
accept-Home j key at p flight e (absent g c f) =
    let ((q, oldest), instant) = observed-some at (p.accepted_through + 1) (get key p.by_key) in
    queued {e = observed at (p.accepted_through + 1) (get key p.by_key)}
      (rw (e, get-accept key key at p, same_refl key)) oldest
      (rw (accept-ready key at p, sym e, g, count-append j j p.ready, same_refl j, c)) f
accept-Home j key at p flight e (queued g o c f) =
    let ((q, oldest), instant) = observed-some at (p.accepted_through + 1) (get key p.by_key) in
    queued {e = observed at (p.accepted_through + 1) (get key p.by_key)}
      (rw (e, get-accept key key at p, same_refl key)) oldest
      (rw (accept-ready key at p, sym e, g) c) f
accept-Home j key at p flight e (flying g f s c) =
    flying {e = observed at (p.accepted_through + 1) (get key p.by_key)}
      (rw (e, get-accept key key at p, same_refl key)) f s (rw (accept-ready key at p, sym e, g) c)

take-Home :
    (j : RouteKey) {a : Attempt} {p p' : PendingActivities} (t : Takes p a p')
    → (b : Bool) → same j a.key ≡ b
    → Home j p none
    → Home j p' (some a)
take-Home j {a} t true s (absent g c f) = cc (eq_of_same j a.key s, g, t.resident)
take-Home j {a} {p} {p'} t true s (queued g o c f) =
    flying {e = launched a.sequence t.entry} (rw (get-taken j t, s)) refl s
      (ground (arith, rw (t.queue) at c, s))
take-Home j t b s (flying g f k c) = cc (f)
take-Home j {a} {p} {p'} t false s (absent g c f) =
    absent (rw (get-taken j t, s) g) (ground (arith, rw (t.queue) at c, s)) (λ b h. cc (h, s))
take-Home j {a} {p} {p'} t false s (queued {e} g o c f) =
    queued {e = e} (rw (get-taken j t, s) g) o (ground (arith, rw (t.queue) at c, s))
      (λ b h. cc (h, s))

land-Home :
    (j : RouteKey) (a : Attempt) (p : PendingActivities)
    → same j a.key ≡ false
    → Home j p (some a)
    → Home j p none
land-Home j a p s (absent g c f) = absent g c (λ b h. cc (h))
land-Home j a p s (queued g o c f) = queued g o c (λ b h. cc (h))
land-Home j a p s (flying g f k c) = cc (f, k, s)

settle-Unmoved :
    (j key : RouteKey) (p : PendingActivities) → same j key ≡ false → Unmoved j p (settle key p)
settle-Unmoved j key p s = record {
  entry = rw (get-settle j key p, s);
  place =
      rw (settle-ready key p) (count-added j key p.ready (is_some (landed (get key p.by_key))) s);
}

settle-Home :
    (j : RouteKey) (a : Attempt) (p : PendingActivities)
    → (b : Bool) → same j a.key ≡ b
    → Home j p (some a)
    → Home j (settle a.key p) none
settle-Home j a p true s (absent g c f) = cc (f a refl, s)
settle-Home j a p true s (queued g o c f) = cc (f a refl, s)
settle-Home j a p true s (flying g f k c) = elim (Option-cases (landed (get a.key p.by_key))) [
  | inl gone ↦
      absent (rw (get-settle j a.key p, s, gone)) (rw (settle-ready a.key p, gone) c)
        (λ b f. cc (f))
  | inr (e, stays) ↦
      let (x, r, same_entry, (q, oldest)) = landed-some (get a.key p.by_key) e stays in
      queued {e = e} {q = q} (rw (get-settle j a.key p, s, stays)) (cc (same_entry, oldest))
        (rw (settle-ready a.key p, stays, count-append j a.key p.ready, s, c)) (λ b f. cc (f))
]
settle-Home j a p false s h =
    move-Home j p (settle a.key p) none (settle-Unmoved j a.key p s) (land-Home j a p s h)

abbrev pub IsCoherent : System → Type 0
IsCoherent s = (key : RouteKey) → Home key s.pending s.flight

Step-IsCoherent : {s t : System} → Step s t → IsCoherent s → IsCoherent t
Step-IsCoherent {s} (accepts key at) h j = elim (Bool-cases (same j key)) [
  | inl e ↦ accept-Home j key at s.pending s.flight (eq_of_same j key e) (h j)
  | inr e ↦
      move-Home j s.pending (accept key at s.pending) s.flight (accept-Unmoved j key at s.pending e)
        (h j)
]
Step-IsCoherent {s} (takes landed found) h j =
    take-Home j (taken-Takes s.pending found) (same j _) refl (rw (landed) at (h j))
Step-IsCoherent {s} (ends {a} is_ok flew) h j =
    settle-Home j a s.pending (same j a.key) refl (rw (flew) at (h j))

pub Steps-IsCoherent : {s : System} → Steps initial s → IsCoherent s
unfolding get
Steps-IsCoherent here j = absent refl refl (λ a h. cc (h))
Steps-IsCoherent (next r step) j = Step-IsCoherent step (Steps-IsCoherent r) j

-- What the worker does with the front of the queue.
abbrev pub Progresses : PendingActivities → Type 0
Progresses p =
    (p.by_key ≡ [] × (take_next p ≡ idle))
    ⊎ ((a : Attempt) × ((p' : PendingActivities) × (take_next p ≡ taken a p')))

head-count :
    (p : PendingActivities) (key : RouteKey) (ready : List RouteKey)
    → p.ready ≡ key ∷ ready
    → count key p.ready ≢ 0
head-count p key ready q c = ground (arith, rw (q, same_refl key) at c)

get-head :
    (key : RouteKey) (e : PendingActivity) (m : Map RouteKey PendingActivity)
    → get key ((key, e) ∷ m) ≡ some e
unfolding get
get-head key e m = rw (get, same_refl key)

front-Home :
    (p : PendingActivities) (key : RouteKey) (ready : List RouteKey)
    → p.ready ≡ key ∷ ready
    → Home key p none
    → Progresses p
unfolding take_next
front-Home p key ready q (absent g c f) = absurd (head-count p key ready q c)
front-Home p key ready q (queued {e = e} {q = x} g o c f) = inr (
  record { key = key; at = e.latest; sequence = x },
  (record p { ready = ready; by_key = insert key (launched x e) p.by_key }, rw (q, g, o)),
)
front-Home p key ready q (flying g f k c) = cc (f)

empty-Home :
    (p : PendingActivities)
    → p.ready ≡ []
    → ((key : RouteKey) → Home key p none)
    → (m : Map RouteKey PendingActivity) → p.by_key ≡ m
    → m ≡ []
empty-Home p q h [] e = refl
empty-Home p q h ((key, entry) ∷ m) e = elim (h key) [
  | absent g c f ↦ cc (rw (e) at g, get-head key entry m)
  | queued g o c f ↦ cc (rw (q) at c)
  | flying g f k c ↦ cc (f)
]

queue-Progresses :
    (p : PendingActivities) (ready : List RouteKey)
    → p.ready ≡ ready
    → ((key : RouteKey) → Home key p none)
    → Progresses p
unfolding take_next
queue-Progresses p [] q h = inl (empty-Home p q h p.by_key refl, rw (q))
queue-Progresses p (key ∷ ready) q h = front-Home p key ready q (h key)

-- After any steps of the program that leave no attempt in flight, the worker either takes the next
-- key, or goes to sleep with no entry left; it never panics on a key that is not resident or has no
-- accepted observation.
pub take_next-Progresses : {s : System} → Steps initial s → s.flight ≡ none → Progresses s.pending
take_next-Progresses {s} r h =
    queue-Progresses s.pending s.pending.ready refl (λ key. rw (h) at (Steps-IsCoherent r key))
