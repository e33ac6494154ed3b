-- ===== src/RouteTable/Registry/Reachable.antt =====
-- The promises of a registry that was loaded from a store, in every state that the interleavings of
-- its tasks can reach.
use pingora_reverse_proxy.Prelude.{
  ◌≡◌, ◌≢◌, ◌⊎◌, inl, inr, refl, sym, ap, ◌∙◌, some, [], ok, err, Text, arith,
}
use pingora_reverse_proxy.Map
use pingora_reverse_proxy.Map.{Map}
use pingora_reverse_proxy.Map.Laws.{IsSorted}
use pingora_reverse_proxy.Map.Order.{text_ord}
use pingora_reverse_proxy.Route.{RouteKey, RouteData}
use pingora_reverse_proxy.Store.{Outcome, done, panicked, Store}
use pingora_reverse_proxy.Store.Contract.{Agrees, Agrees-refl, IsStore}
use pingora_reverse_proxy.RouteTable.Registry.Fresh.{IsFresh, from_routes-IsFresh, Step-IsFresh}
use pingora_reverse_proxy.RouteTable.Registry.Served.{IsTerminal, IsHonest, IsSound, Step-IsSound}
use pingora_reverse_proxy.RouteTable.Registry.Steps.{unlocked, System, Reach, here, next}
use pingora_reverse_proxy.RouteTable.Registry.{RouteRegistry, map_done, load, resolve}
use pingora_reverse_proxy.RouteTable.Snapshot
use pingora_reverse_proxy.RouteTable.Snapshot.{RouteMatch, from_routes, from_ordered_routes}
use pingora_reverse_proxy.RouteTable.Snapshot.Resolve.{IsAnswer, resolve-IsAnswer}
use pingora_reverse_proxy.RouteTable.Tracker
use pingora_reverse_proxy.RouteTable.Tracker.{
  MutationSeal, MutationTrackerState, open_, shutdown, backend_panic, indeterminate,
}

abbrev pub started : {S X : Type 0} → RouteRegistry S X → System S X
started r = record { registry = r; waiting = []; stage = unlocked }

resolve-found :
    {S X : Type 0} (path : Text) (r : RouteRegistry S X) (m : RouteMatch X)
    → resolve path r ≡ some m
    → (r.mutations.seal ≢ indeterminate) × (Snapshot.resolve r.snapshot path ≡ some m)
unfolding resolve
resolve-found path r m e = ground arith

panic_of_terminal :
    (seal : MutationSeal) → IsTerminal seal → seal ≢ indeterminate → seal ≡ backend_panic
panic_of_terminal open_ h k = absurd h
panic_of_terminal shutdown h k = absurd h
panic_of_terminal backend_panic h k = refl
panic_of_terminal indeterminate h k = absurd (k refl)

module _ {S X : Type 0} (view : S → Map RouteKey (RouteData X)) (backend : Store S X)
    (contract : IsStore view backend) where
  pub record IsGood (s : System S X) : Type 0 where
    pub sound : IsSound view s.registry s.stage
    pub fresh : IsFresh s.registry.snapshot

  Reach-IsGood : {s t : System S X} → IsGood s → Reach backend s t → IsGood t
  Reach-IsGood g here = g
  Reach-IsGood g (next r step) =
      let before = Reach-IsGood g r in
      record {
        sound = Step-IsSound view backend contract step before.sound;
        fresh = Step-IsFresh backend step before.fresh;
      }

  abbrev fresh_registry : S → Map RouteKey (RouteData X) → RouteRegistry S X
  fresh_registry store m = record {
    store = store;
    snapshot = from_routes m;
    mutations = Tracker.default;
  }

  fresh_registry-IsGood :
      (store : S) (m : Map RouteKey (RouteData X))
      → m ≡ view store
      → IsSorted m
      → IsGood (started (fresh_registry store m))
  unfolding from_routes
  fresh_registry-IsGood store m same sorted = record {
    sound = inr (λ k. rw (← same) (Agrees-refl (Map.get k m)));
    fresh = from_routes-IsFresh m sorted;
  }

  load-IsGood :
      (store : S) (o : Outcome (Map RouteKey (RouteData X))) (r : RouteRegistry S X)
      → backend.snapshot store ≡ o
      → IsSorted (view store)
      → load backend store ≡ done (ok r)
      → IsGood (started r)
  unfolding load
  load-IsGood store (done (ok m)) r e sorted loaded =
      let same : m ≡ view store = rw e at (contract.snapshot_law store) in
      let built : done (ok (fresh_registry store m)) ≡ done (ok r) = rw (e, load) at loaded in
      let is_r : r ≡ fresh_registry store m = cc in
      rw is_r (fresh_registry-IsGood store m same (rw same sorted))
  load-IsGood store (done (err error)) r e sorted loaded =
      let failed : map_done {B = RouteRegistry S X} (fresh_registry store) (done (err error))
          ≡ done (ok r) =
        rw (e, load) at loaded in
      cc
  load-IsGood store panicked r e sorted loaded =
      let failed : map_done {B = RouteRegistry S X} (fresh_registry store) panicked ≡ done (ok r) =
        rw (e, load) at loaded in
      cc

  -- Whatever interleaving of admissions, commits, publications, observations, drains and abandoned
  -- waits follows the load of a registry: what it resolves while no mutation holds the lock is the
  -- answer of its routes for the path, and the backend stores that route, with the same target and
  -- extension fields, unless the panic of a backend has sealed the registry.
  pub Reach-resolve :
      (store : S) (r : RouteRegistry S X) (s : System S X) (path : Text) (m : RouteMatch X)
      → IsSorted (view store)
      → load backend store ≡ done (ok r)
      → Reach backend (started r) s
      → s.stage ≡ unlocked
      → resolve path s.registry ≡ some m
      → IsAnswer s.registry.snapshot.routes path m
        × ((s.registry.mutations.seal ≡ backend_panic)
            ⊎ Agrees (Map.get m.key (view s.registry.store)) (some m.route))
  Reach-resolve store r s path m sorted loaded run idle found =
      let good =
        Reach-IsGood (load-IsGood store (backend.snapshot store) r refl sorted loaded) run in
      let sound : IsHonest view s.registry = rw idle at good.sound in
      let (alive, matched) = resolve-found path s.registry m found in
      let answer =
        resolve-IsAnswer s.registry.snapshot.routes good.fresh.consistent path m
          (ap (λ t. Snapshot.resolve t path) (sym good.fresh.built) ∙ matched) in
      (
        answer,
        elim sound [
          | inl terminal ↦ inl (panic_of_terminal s.registry.mutations.seal terminal alive)
          | inr all ↦ inr (rw (answer.newest.stored) at (all m.key))
        ],
      )
