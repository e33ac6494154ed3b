-- ===== src/Store/Contract.antt =====
-- What the documentation of `trait Store` promises to the registry, over a view of the backend's
-- state as the route map, and that the memory store keeps it.
use pingora_reverse_proxy.Prelude.{
  ◌≡◌, refl, Bool, true, false, Option, none, some, ok, err, Text, arith,
}
use pingora_reverse_proxy.Map.{Map, get, insert, remove}
use pingora_reverse_proxy.Map.Laws.{get-insert, eq_of_same}
use pingora_reverse_proxy.Map.Order.{text_ord}
use pingora_reverse_proxy.Route.{RouteKey, RouteData, Instant}
use pingora_reverse_proxy.Store.{
  ActivityFloor, StoreError, message, backend, indeterminate, corrupt_data, Outcome, done, panicked,
  Store,
}
use pingora_reverse_proxy.Store.Memory.{MemoryStore, memory_store, update_activity}

abbrev pub is_indeterminate : StoreError → Bool
is_indeterminate (message m) = false
is_indeterminate (backend o) = false
is_indeterminate (indeterminate o) = true
is_indeterminate (corrupt_data o k) = false

module _ {X : Type 0} where
  -- Two records of a route that differ in their activity at most.
  abbrev pub Agrees : Option (RouteData X) → Option (RouteData X) → Type 0
  Agrees none none = Unit
  Agrees none (some b) = ⊥
  Agrees (some a) none = ⊥
  Agrees (some a) (some b) = (a.target ≡ b.target) × (a.extra ≡ b.extra)

  abbrev pub AllAgree : Map RouteKey (RouteData X) → Map RouteKey (RouteData X) → Type 0
  AllAgree m m' = (k : RouteKey) → Agrees (get k m) (get k m')

  pub Agrees-refl : (a : Option (RouteData X)) → Agrees a a
  Agrees-refl none = tt
  Agrees-refl (some a) = (refl, refl)

  pub Agrees-trans : (a b c : Option (RouteData X)) → Agrees a b → Agrees b c → Agrees a c
  Agrees-trans none none c h k = k
  Agrees-trans (some a) (some b) none h k = k
  Agrees-trans (some a) (some b) (some c) h k = ground arith
  Agrees-trans none (some b) c h k = absurd h
  Agrees-trans (some a) none c h k = absurd h

  -- The effects of the operations on the routes `before`, with what they return.
  abbrev pub Stores :
      Map RouteKey (RouteData X)
      → RouteKey
      → Text
      → X
      → RouteData X
      → Map RouteKey (RouteData X)
      → Type 0
  Stores before key target extra d m =
      (m ≡ insert key d before) × (d.target ≡ target) × (d.extra ≡ extra)

  abbrev pub Retains : Map RouteKey (RouteData X) → Unit {0} → Map RouteKey (RouteData X) → Type 0
  Retains before _ m = AllAgree m before

  abbrev pub Deletes :
      Map RouteKey (RouteData X)
      → RouteKey
      → Option (RouteData X)
      → Map RouteKey (RouteData X)
      → Type 0
  Deletes before key r m = (m ≡ remove key before) × (r ≡ get key before)

  module _ {S : Type 0} (view : S → Map RouteKey (RouteData X)) where
    -- A success satisfies `P`; an ordinary error has changed nothing; nothing is known of the
    -- state after an indeterminate error or a panic.
    abbrev pub Ensures :
        {A : Type 0} → (A → Map RouteKey (RouteData X) → Type 0) → S → Outcome A → S → Type 0
    Ensures P s (done (ok a)) s' = P a (view s')
    Ensures P s (done (err e)) s' = is_indeterminate e ≡ false → view s' ≡ view s
    Ensures P s panicked s' = Unit

    pub record IsStore (store : Store S X) : Type 0 where
      pub snapshot_law : (s : S) → Ensures (λ m m'. m ≡ m') s (store.snapshot s) s
      pub add_law :
          (now : Instant) (key : RouteKey) (target : Text) (extra : X) (floor : ActivityFloor)
          (s : S)
          → Ensures
              (Stores (view s) key target extra)
              s
              (store.add now key target extra floor s).0
              (store.add now key target extra floor s).1
      pub put_law :
          (key : RouteKey) (route : RouteData X) (s : S)
          → Ensures
              (λ _ m. m ≡ insert key route (view s))
              s
              (store.put key route s).0
              (store.put key route s).1
      pub put_preserving_activity_law :
          (key : RouteKey) (route : RouteData X) (floor : ActivityFloor) (s : S)
          → Ensures
              (Stores (view s) key route.target route.extra)
              s
              (store.put_preserving_activity key route floor s).0
              (store.put_preserving_activity key route floor s).1
      pub update_activity_law :
          (key : RouteKey) (at : Instant) (s : S)
          → Ensures
              (Retains (view s))
              s
              (store.update_activity key at s).0
              (store.update_activity key at s).1
      pub delete_law :
          (key : RouteKey) (s : S)
          → Ensures (Deletes (view s) key) s (store.delete key s).0 (store.delete key s).1

  -- Writing a record with the target and the extra fields of the old one keeps agreement.
  pub insert-AllAgree :
      (key : RouteKey) (route route' : RouteData X) (m : Map RouteKey (RouteData X))
      → get key m ≡ some route
      → route'.target ≡ route.target
      → route'.extra ≡ route.extra
      → AllAgree (insert key route' m) m
  insert-AllAgree key route route' m hit t x k =
      ground (arith, get-insert k key route' m, eq_of_same k key, Agrees-refl (get k m))

-- The memory store keeps the contract.
pub memory_store-IsStore : (X : Type 0) → IsStore (λ s. s.routes) (memory_store X)
unfolding memory_store
memory_store-IsStore X = record {
  snapshot_law = λ s. refl;
  add_law = λ now key target extra floor s. (refl, refl, refl);
  put_law = λ key route s. refl;
  put_preserving_activity_law = λ key route floor s. (refl, refl, refl);
  update_activity_law = λ key at s. touched key at s (get key s.routes) refl;
  delete_law = λ key s. (refl, refl);
}
  where
    touched :
        (key : RouteKey) (at : Instant) (s : MemoryStore X) (o : Option (RouteData X))
        → get key s.routes ≡ o
        → Ensures {X = X} {S = MemoryStore X}
            (λ s'. s'.routes)
            {A = Unit {0}}
            (λ _ m. AllAgree m s.routes)
            s
            ((memory_store X).update_activity key at s).0
            ((memory_store X).update_activity key at s).1
    touched key at s none e = rw (e, update_activity) (λ k. Agrees-refl (get k s.routes))
    touched key at s (some route) e =
        rw (e, update_activity)
          (insert-AllAgree key route (record route { last_activity = at }) s.routes e refl refl)
