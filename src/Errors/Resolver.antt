-- ===== src/Errors/Resolver.antt =====
-- The resolver of src/errors.rs: a cache of one answer, its leases, and the worker that fills it.
use pingora_reverse_proxy.Prelude.{
  ℕ, ◌+◌, ◌^◌, ◌≡◌, Bool, true, false, not, ◌&&◌, Option, none, some, List, [], ◌∷◌, ◌==◌, leb, ltb,
  if◌then◌else◌, take, is_empty,
}

abbrev pub Instant : Type 0
Instant = ℕ

pub record CachedAddresses (A : Type 0) : Type 0 where
  pub addresses : List A
  pub generation : ℕ
  pub expires_at : Instant

pub record ResolverCache (A : Type 0) : Type 0 where
  pub current : Option (CachedAddresses A)
  pub generation : ℕ
  pub leased_generation : Option ℕ

abbrev pub max_resolved_addresses : ℕ
max_resolved_addresses = 16

abbrev pub is_leased : ℕ → Option ℕ → Bool
is_leased generation none = false
is_leased generation (some g) = g == generation

abbrev pub is_none {ℓ} : {A : Type ℓ} → Option A → Bool
is_none none = true
is_none (some a) = false

-- `wrapping_add(1)` on a `u64`.
abbrev pub wrapping_succ : ℕ → ℕ
wrapping_succ n = if ltb (n + 1) (2 ^ 64) then n + 1 else 0

module _ {A : Type 0} where
  abbrev pub has_generation : ℕ → Option (CachedAddresses A) → Bool
  has_generation generation none = false
  has_generation generation (some cached) = cached.generation == generation

  abbrev pub is_stale : Instant → Option ℕ → Option (CachedAddresses A) → Bool
  is_stale now leased none = false
  is_stale now leased (some cached) =
      leb cached.expires_at now && not (is_leased cached.generation leased)

  -- The state after `fresh`, whose result is then `current`.
  unfoldable pub fresh : Instant → ResolverCache A → ResolverCache A
  fresh now cache =
      if is_stale now cache.leased_generation cache.current
      then record cache { current = none }
      else cache

  unfoldable pub lease : ℕ → ResolverCache A → Bool × ResolverCache A
  lease generation cache =
      if has_generation generation cache.current && is_none cache.leased_generation
      then (true, record cache { leased_generation = some generation })
      else (false, cache)

  unfoldable pub finish_lease : ℕ → Bool → ResolverCache A → ResolverCache A
  finish_lease generation succeeded cache = record cache {
    leased_generation =
        if is_leased generation cache.leased_generation then none else cache.leased_generation;
    current =
        if not succeeded && has_generation generation cache.current then none else cache.current;
  }

  -- `Vec::dedup`: runs of equal addresses shrink to their first.
  abbrev pub dedup_after : (A → A → Bool) → A → List A → List A
  dedup_after same a [] = []
  dedup_after same a (b ∷ bs) = elim (same a b) [
    | true ↦ dedup_after same a bs
    | false ↦ b ∷ dedup_after same b bs
  ]

  abbrev pub dedup : (A → A → Bool) → List A → List A
  dedup same [] = []
  dedup same (a ∷ rest) = a ∷ dedup_after same a rest

  -- The worker's end of a lookup; no address at all is an error, which stores nothing.
  unfoldable pub store : (A → A → Bool) → Instant → List A → ResolverCache A → ResolverCache A
  store same expires_at found cache =
      let addresses = dedup same (take max_resolved_addresses found) in
      let generation = wrapping_succ cache.generation in
      if is_empty addresses then cache else record {
        current =
            some
              (record { addresses = addresses; generation = generation; expires_at = expires_at });
        generation = generation;
        leased_generation = cache.leased_generation;
      }

-- The cache, and whether the worker is waiting for a lookup.
pub record System (A : Type 0) : Type 0 where
  pub cache : ResolverCache A
  pub looking : Bool

-- The steps under the lock. An attempt that ends holds the lease it ends.
pub data Step {A : Type 0} (same : A → A → Bool) (s : System A) : System A → Type 0 where
  reads : (now : Instant) → Step same s (record s { cache = fresh now s.cache })
  looks :
      (now : Instant)
      → s.looking ≡ false
      → (fresh now s.cache).current ≡ none
      → Step same s (record { cache = fresh now s.cache; looking = true })
  finds :
      (expires_at : Instant) (found : List A)
      → s.looking ≡ true
      → Step same s (record { cache = store same expires_at found s.cache; looking = false })
  fails : s.looking ≡ true → Step same s (record s { looking = false })
  leases : (generation : ℕ) → Step same s (record s { cache = (lease generation s.cache).1 })
  ends :
      (generation : ℕ) (succeeded : Bool)
      → s.cache.leased_generation ≡ some generation
      → Step same s (record s { cache = finish_lease generation succeeded s.cache })

pub data Reach {A : Type 0} (same : A → A → Bool) : System A → Type 0 where
  start : Reach same (record {
    cache = record { current = none; generation = 0; leased_generation = none };
    looking = false;
  })
  next : {s t : System A} → Reach same s → Step same s t → Reach same t
