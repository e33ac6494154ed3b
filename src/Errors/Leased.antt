-- ===== src/Errors/Leased.antt =====
-- What a lease of the resolver of src/errors.rs protects.
use pingora_reverse_proxy.Prelude.{
  ℕ, ◌≡◌, refl, sym, ◌∙◌, ◌⊎◌, and-true, Bool, true, false, ◌&&◌, Option, none, some, List, arith,
  Bool-cases, Option-cases, inl, inr, ==_iff,
}
use pingora_reverse_proxy.Errors.Resolver.{
  Instant, CachedAddresses, ResolverCache, has_generation, is_none, is_stale, fresh, lease,
  finish_lease, store, System, Step, reads, looks, finds, fails, leases, ends, Reach, start, next,
}

module _ {A : Type 0} (same : A → A → Bool) where
  -- A leased answer is the current one, and no lookup is under way without an answer's absence.
  pub record IsProtected (s : System A) : Type 0 where
    pub resident :
        (g : ℕ)
        → s.cache.leased_generation ≡ some g
        → (c : CachedAddresses A) × (s.cache.current ≡ some c) × (c.generation ≡ g)
    pub looking : s.looking ≡ true → s.cache.current ≡ none

  fresh-none :
      (now : Instant) (cache : ResolverCache A)
      → cache.current ≡ none
      → (fresh now cache).current ≡ none
  unfolding fresh
  fresh-none now cache h = ground arith

  fresh-leased_generation :
      (now : Instant) (cache : ResolverCache A)
      → (fresh now cache).leased_generation ≡ cache.leased_generation
  unfolding fresh
  fresh-leased_generation now cache = ground arith

  leased-fresh :
      (now : Instant) (cache : ResolverCache A) (c : CachedAddresses A)
      → cache.current ≡ some c
      → cache.leased_generation ≡ some c.generation
      → is_stale now cache.leased_generation cache.current ≡ false
  leased-fresh now cache c h l = rw (h, l) (ground arith)

  -- A leased answer does not expire.
  fresh-leased :
      (now : Instant) (cache : ResolverCache A) (c : CachedAddresses A)
      → cache.current ≡ some c
      → cache.leased_generation ≡ some c.generation
      → (fresh now cache).current ≡ some c
  unfolding fresh
  fresh-leased now cache c h l = rw (leased-fresh now cache c h l) h

  fresh-IsProtected :
      (now : Instant) (s : System A)
      → IsProtected s
      → IsProtected (record s { cache = fresh now s.cache })
  fresh-IsProtected now s i = record {
    resident = λ g h.
        let leased = sym (fresh-leased_generation now s.cache) ∙ h in
        let (c, e, k) = i.resident g leased in (c, fresh-leased now s.cache c e (rw (k) leased), k);
    looking = λ h. fresh-none now s.cache (i.looking h);
  }

  -- Nothing is leased where there is no answer.
  unleased :
      (s : System A) (g : ℕ)
      → IsProtected s
      → s.cache.current ≡ none
      → s.cache.leased_generation ≡ none
  unleased s g i h = elim (Option-cases s.cache.leased_generation) [
    | inl e ↦ e
    | inr (k, e) ↦ let (c, r, x) = i.resident k e in cc (h, r)
  ]

  store-leased_generation :
      (expires_at : Instant) (found : List A) (cache : ResolverCache A)
      → (store same expires_at found cache).leased_generation ≡ cache.leased_generation
  unfolding store
  store-leased_generation expires_at found cache = ground arith

  abbrev Leases : ℕ → ResolverCache A → Bool × ResolverCache A → Type 0
  Leases g cache (false, after) = after ≡ cache
  Leases g cache (true, after) =
      (after ≡ record cache { leased_generation = some g })
      × ((c : CachedAddresses A) × (cache.current ≡ some c) × (c.generation ≡ g))

  has_generation-some :
      (g : ℕ) (o : Option (CachedAddresses A))
      → has_generation g o ≡ true
      → (c : CachedAddresses A) × (o ≡ some c) × (c.generation ≡ g)
  has_generation-some g none h = cc (h)
  has_generation-some g (some c) h = (c, refl, (==_iff c.generation g).0 h)

  lease-Leases : (g : ℕ) (cache : ResolverCache A) → Leases g cache (lease g cache)
  unfolding lease
  lease-Leases g cache =
      elim (Bool-cases (has_generation g cache.current && is_none cache.leased_generation)) [
        | inl e ↦ rw (lease, e) (refl, has_generation-some g cache.current (and-true e).0)
        | inr e ↦ rw (lease, e) refl
      ]

  no-lease :
      (g k : ℕ) (cache : ResolverCache A)
      → cache.leased_generation ≡ some k
      → (has_generation g cache.current && is_none cache.leased_generation) ≡ false
  no-lease g k cache h = rw (h) (ground arith)

  lease-held :
      (g k : ℕ) (cache : ResolverCache A)
      → cache.leased_generation ≡ some k
      → (lease g cache).1 ≡ cache
  unfolding lease
  lease-held g k cache h = rw (no-lease g k cache h)

  leased-IsProtected :
      (g : ℕ) (s : System A) (r : Bool × ResolverCache A)
      → Leases g s.cache r
      → IsProtected s
      → IsProtected (record s { cache = r.1 })
  leased-IsProtected g s (false, after) h i = rw (h) i
  leased-IsProtected g s (true, after) (h, (c, e, k)) i =
      rw (h) (record { resident = λ j l. (c, e, cc (l, k)); looking = i.looking })

  finish_lease-leased_generation :
      (g : ℕ) (succeeded : Bool) (cache : ResolverCache A)
      → cache.leased_generation ≡ some g
      → (finish_lease g succeeded cache).leased_generation ≡ none
  unfolding finish_lease
  finish_lease-leased_generation g succeeded cache h = rw (h) (ground arith)

  finish_lease-none :
      (g : ℕ) (succeeded : Bool) (cache : ResolverCache A)
      → cache.current ≡ none
      → (finish_lease g succeeded cache).current ≡ none
  unfolding finish_lease
  finish_lease-none g succeeded cache h = ground arith

  Step-IsProtected : {s t : System A} → Step same s t → IsProtected s → IsProtected t
  Step-IsProtected {s} (reads now) i = fresh-IsProtected now s i
  Step-IsProtected {s} (looks now idle gone) i = record {
    resident = (fresh-IsProtected now s i).resident;
    looking = λ h. gone;
  }
  Step-IsProtected {s} (finds expires_at found busy) i = record {
    resident = λ g h.
        cc (store-leased_generation expires_at found s.cache, unleased s g i (i.looking busy), h);
    looking = λ h. cc (h);
  }
  Step-IsProtected {s} (fails busy) i = record { resident = i.resident; looking = λ h. cc (h) }
  Step-IsProtected {s} (leases g) i =
      leased-IsProtected g s (lease g s.cache) (lease-Leases g s.cache) i
  Step-IsProtected {s} (ends g succeeded held) i = record {
    resident = λ k h. cc (finish_lease-leased_generation g succeeded s.cache held, h);
    looking = λ h. finish_lease-none g succeeded s.cache (i.looking h);
  }

  Reach-IsProtected : {s : System A} → Reach same s → IsProtected s
  Reach-IsProtected start = record { resident = λ g h. cc (h); looking = λ h. refl }
  Reach-IsProtected (next r step) = Step-IsProtected step (Reach-IsProtected r)

  -- What a step may do to a leased answer: it ends the lease, or leaves the lease and the answer.
  abbrev pub Keeps : ℕ → CachedAddresses A → System A → Type 0
  Keeps g c t =
      (t.cache.leased_generation ≡ none)
      ⊎ ((t.cache.leased_generation ≡ some g) × (t.cache.current ≡ some c))

  Step-Keeps :
      (s : System A) (g : ℕ) (c : CachedAddresses A) {t : System A}
      → IsProtected s
      → s.cache.leased_generation ≡ some g
      → s.cache.current ≡ some c
      → c.generation ≡ g
      → Step same s t
      → Keeps g c t
  Step-Keeps s g c i h e k (reads now) =
      inr (fresh-leased_generation now s.cache ∙ h, fresh-leased now s.cache c e (rw (k) h))
  Step-Keeps s g c i h e k (looks now idle gone) =
      cc (gone, fresh-leased now s.cache c e (rw (k) h))
  Step-Keeps s g c i h e k (finds expires_at found busy) = cc (i.looking busy, e)
  Step-Keeps s g c i h e k (fails busy) = inr (h, e)
  Step-Keeps s g c i h e k (leases j) = rw (lease-held j g s.cache h) (inr (h, e))
  Step-Keeps s g c i h e k (ends j succeeded held) =
      inl (finish_lease-leased_generation j succeeded s.cache held)

  -- At any point that the resolver reaches, the answer of a lease is the cache's. Each further step
  -- ends the lease, or leaves it and its answer, whatever the clock and the lookups do.
  pub Reach-leased :
      {s t : System A} (g : ℕ)
      → Reach same s
      → s.cache.leased_generation ≡ some g
      → Step same s t
      → (c : CachedAddresses A) × (s.cache.current ≡ some c) × (c.generation ≡ g) × Keeps g c t
  Reach-leased {s} g r h step =
      let (c, e, k) = (Reach-IsProtected r).resident g h in
      (c, e, k, Step-Keeps s g c (Reach-IsProtected r) h e k step)
