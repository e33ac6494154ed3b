-- ===== src/RouteTable/Registry/Agreement.antt =====
-- How the changes of a mutation act on agreement between the backend and the published routes:
-- equal targets and extension fields, whatever the activity.
use pingora_reverse_proxy.Prelude.{
  inl, inr, refl, sym, Option, none, some, Option-cases, Bool-cases,
}
use pingora_reverse_proxy.Map.{Map, get, insert, remove}
use pingora_reverse_proxy.Map.Laws.{same, get-insert, get-remove}
use pingora_reverse_proxy.Map.Order.{text_ord}
use pingora_reverse_proxy.Route.{RouteKey, RouteData, Instant}
use pingora_reverse_proxy.Store.Contract.{
  Agrees, AllAgree, Agrees-refl, Agrees-trans, insert-AllAgree,
}
use pingora_reverse_proxy.RouteTable.Ordered.{
  OrderedRoutes, merged, touched, replace_preserving_activity, update_activity, remove_route,
  Change, replace_with, touch, drop_key, apply_change,
}

module _ {X : Type 0} where
  pub Agrees-symm : (a b : Option (RouteData X)) → Agrees a b → Agrees b a
  Agrees-symm none none h = h
  Agrees-symm none (some b) h = h
  Agrees-symm (some a) none h = h
  Agrees-symm (some a) (some b) h = (sym h.0, sym h.1)

  -- What a change does to the backend's routes, but for activity.
  abbrev pub change_map : Change X → Map RouteKey (RouteData X) → Map RouteKey (RouteData X)
  change_map (replace_with key route) m = insert key route m
  change_map (touch key at) m = m
  change_map (drop_key key) m = remove key m

  merged-Agrees :
      (old : Option (RouteData X)) (route : RouteData X)
      → Agrees (some route) (some (merged old route))
  unfolding merged
  merged-Agrees none route = (refl, refl)
  merged-Agrees (some old) route = (refl, refl)

  insert-Agrees :
      (key : RouteKey) (a b : RouteData X) (m m' : Map RouteKey (RouteData X))
      → Agrees (some a) (some b)
      → AllAgree m m'
      → AllAgree (insert key a m) (insert key b m')
  insert-Agrees key a b m m' h all k = elim (Bool-cases (same k key)) [
    | inl e ↦ rw (get-insert k key a m, get-insert k key b m', e) h
    | inr e ↦ rw (get-insert k key a m, get-insert k key b m', e) (all k)
  ]

  remove-Agrees :
      (key : RouteKey) (m m' : Map RouteKey (RouteData X))
      → AllAgree m m'
      → AllAgree (remove key m) (remove key m')
  remove-Agrees key m m' all k = elim (Bool-cases (same k key)) [
    | inl e ↦ rw (get-remove k key m, get-remove k key m', e) tt
    | inr e ↦ rw (get-remove k key m, get-remove k key m', e) (all k)
  ]

  update-Agrees :
      (key : RouteKey) (at : Instant) (routes : OrderedRoutes X)
      → AllAgree (update_activity key at routes).by_key routes.by_key
  unfolding update_activity
  update-Agrees key at routes k = elim (Option-cases (get key routes.by_key)) [
    | inl miss ↦ rw (miss, update_activity) (Agrees-refl (get k routes.by_key))
    | inr (route, hit) ↦
        rw (hit, update_activity)
          (insert-AllAgree key route (touched at route) routes.by_key hit refl refl k)
  ]

  pub apply_change-AllAgree :
      (change : Change X) (m : Map RouteKey (RouteData X)) (routes : OrderedRoutes X)
      → AllAgree m routes.by_key
      → AllAgree (change_map change m) (apply_change change routes).by_key
  unfolding apply_change replace_preserving_activity remove_route
  apply_change-AllAgree (replace_with key route) m routes all =
      insert-Agrees key route (merged (get key routes.by_key) route) m routes.by_key
        (merged-Agrees (get key routes.by_key) route) all
  apply_change-AllAgree (touch key at) m routes all = λ k.
      Agrees-trans (get k m) (get k routes.by_key) (get k (update_activity key at routes).by_key)
        (all k)
        (Agrees-symm (get k (update_activity key at routes).by_key) (get k routes.by_key)
          (update-Agrees key at routes k))
  apply_change-AllAgree (drop_key key) m routes all = remove-Agrees key m routes.by_key all

  -- The routes once a pending change is published.
  abbrev pub applied : Option (Change X) → OrderedRoutes X → OrderedRoutes X
  applied none routes = routes
  applied (some change) routes = apply_change change routes

  -- An observation in between does not disturb a pending publication.
  pub applied-update_activity :
      (pending : Option (Change X)) (key : RouteKey) (at : Instant) (routes : OrderedRoutes X)
      → AllAgree
          (applied pending routes).by_key
          (applied pending (update_activity key at routes)).by_key
  applied-update_activity none key at routes = λ k.
      Agrees-symm (get k (update_activity key at routes).by_key) (get k routes.by_key)
        (update-Agrees key at routes k)
  applied-update_activity (some change) key at routes = λ k.
      Agrees-trans _ (get k (change_map change routes.by_key)) _
        (Agrees-symm _ _ (apply_change-AllAgree change routes.by_key routes (λ j. Agrees-refl _) k))
        (apply_change-AllAgree change routes.by_key (update_activity key at routes)
          (λ j. Agrees-symm _ _ (update-Agrees key at routes j)) k)
