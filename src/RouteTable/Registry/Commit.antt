-- ===== src/RouteTable/Registry/Commit.antt =====
-- What a commit of a mutation leaves in the backend, by the contract of the store.
use pingora_reverse_proxy.Prelude.{
  ◌≡◌, ◌⊎◌, inl, inr, refl, true, Option, none, some, ok, err, max, Bool-cases,
}
use pingora_reverse_proxy.Map.{Map, get}
use pingora_reverse_proxy.Map.Order.{text_ord}
use pingora_reverse_proxy.Route.{RouteKey, RouteData, Instant}
use pingora_reverse_proxy.Store.{Outcome, done, panicked, Store}
use pingora_reverse_proxy.Store.Contract.{
  is_indeterminate, AllAgree, Agrees-trans, Ensures, IsStore, Stores, Retains, Deletes,
}
use pingora_reverse_proxy.RouteTable.Ordered.{OrderedRoutes, replace_with, touch, drop_key}
use pingora_reverse_proxy.RouteTable.Registry
use pingora_reverse_proxy.RouteTable.Registry.{
  RouteRegistry, Mutation, add, put, update_activity, persist_observed_activity, delete, Committed,
  commit, map_done, activity_floor,
}
use pingora_reverse_proxy.RouteTable.Registry.Agreement.{applied, apply_change-AllAgree}

module _ {S X : Type 0} (view : S → Map RouteKey (RouteData X)) where
  -- Where a task stands between its commit in the backend and its publication.
  abbrev pub IsPending : OrderedRoutes X → Outcome (Committed X) → S → Type 0
  IsPending routes (done (ok c)) s = AllAgree (view s) (applied c.change routes).by_key
  IsPending routes (done (err e)) s = (is_indeterminate e ≡ true) ⊎ AllAgree (view s) routes.by_key
  IsPending routes panicked s = Unit

  IsPending-of_law :
      {A : Type 0} (P : A → Map RouteKey (RouteData X) → Type 0) (f : A → Committed X)
      (routes : OrderedRoutes X) (s s' : S) (o : Outcome A)
      → AllAgree (view s) routes.by_key
      → ((a : A) → P a (view s') → AllAgree (view s') (applied (f a).change routes).by_key)
      → Ensures view P s o s'
      → IsPending routes (map_done f o) s'
  IsPending-of_law P f routes s s' (done (ok a)) all step law = step a law
  IsPending-of_law P f routes s s' (done (err e)) all step law =
      elim (Bool-cases (is_indeterminate e)) [
        | inl lost ↦ inl lost
        | inr known ↦ inr (rw (law known) all)
      ]
  IsPending-of_law P f routes s s' panicked all step law = tt

  module _ (backend : Store S X) (contract : IsStore view backend) where
    -- Every mutation whose store operation succeeds leaves the backend as the registry will be once
    -- it has published; an ordinary error leaves both as they were.
    pub commit-IsPending :
        (now : Instant) (m : Mutation X) (r : RouteRegistry S X)
        → AllAgree (view r.store) r.snapshot.routes.by_key
        → IsPending r.snapshot.routes (commit backend now m r).0 (commit backend now m r).1
    unfolding commit
    commit-IsPending now (add key target extra) r all =
        IsPending-of_law (Stores (view r.store) key target extra) _ r.snapshot.routes r.store _ _
          all
          (λ d law.
            rw (law.0)
              (apply_change-AllAgree (replace_with key d) (view r.store) r.snapshot.routes all))
          (contract.add_law now key target extra (activity_floor key r) r.store)
    commit-IsPending now (put key route) r all =
        IsPending-of_law (Stores (view r.store) key route.target route.extra) _ r.snapshot.routes
          r.store _ _ all
          (λ d law.
            rw (law.0)
              (apply_change-AllAgree (replace_with key d) (view r.store) r.snapshot.routes all))
          (contract.put_preserving_activity_law key route (activity_floor key r) r.store)
    commit-IsPending now (update_activity key at) r all =
        IsPending-of_law (Retains (view r.store)) _ r.snapshot.routes r.store _ _ all
          (λ d law k.
            Agrees-trans _ (get k (view r.store)) _ (law k)
              (apply_change-AllAgree (touch key at) (view r.store) r.snapshot.routes all k))
          (contract.update_activity_law key at r.store)
    commit-IsPending now (persist_observed_activity key at) r all =
        persisted (Registry.get key r) refl
      where
        persisted :
            (o : Option (RouteData X))
            → Registry.get key r ≡ o
            → IsPending r.snapshot.routes
                (commit backend now (persist_observed_activity key at) r).0
                (commit backend now (persist_observed_activity key at) r).1
        persisted none e = rw (e, commit) all
        persisted (some route) e =
            rw (e, commit)
              (IsPending-of_law (Retains (view r.store)) _ r.snapshot.routes r.store _ _ all
                (λ d law k. Agrees-trans _ (get k (view r.store)) _ (law k) (all k))
                (contract.update_activity_law key (max route.last_activity at) r.store))
    commit-IsPending now (delete key) r all =
        IsPending-of_law (Deletes (view r.store) key) _ r.snapshot.routes r.store _ _ all
          (λ d law.
            rw (law.0) (apply_change-AllAgree (drop_key key) (view r.store) r.snapshot.routes all))
          (contract.delete_law key r.store)
