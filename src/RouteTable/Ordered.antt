-- ===== src/RouteTable/Ordered.antt =====
-- `OrderedRoutes` of src/route_table.rs: the route map beside the order of its last mutations.
pub mod Consistent
use pingora_reverse_proxy.Prelude.{
  Bool, true, false, not, ◌||◌, if◌then◌else◌, Option, none, some, List, [], ◌∷◌, ◌++◌, Text,
  text_eq, max,
}
use pingora_reverse_proxy.Map.{Map, get, insert, remove, keys}
use pingora_reverse_proxy.Map.Order.{text_ord}
use pingora_reverse_proxy.Route.{RouteKey, RouteData, Instant}

pub record OrderedRoutes (X : Type 0) : Type 0 where
  pub by_key : Map RouteKey (RouteData X)
  pub mutation_order : List RouteKey

-- `mutation_order.retain(|existing| existing != key)`.
unfoldable pub retain_others : RouteKey → List RouteKey → List RouteKey
retain_others key [] = []
retain_others key (existing ∷ order) =
    let rest = retain_others key order in if text_eq existing key then rest else existing ∷ rest

module _ {X : Type 0} where
  unfoldable pub from_sorted : Map RouteKey (RouteData X) → OrderedRoutes X
  from_sorted by_key = record { by_key = by_key; mutation_order = keys by_key }

  unfoldable pub replace : RouteKey → RouteData X → OrderedRoutes X → OrderedRoutes X
  unfolding retain_others
  replace key route routes = record {
    by_key = insert key route routes.by_key;
    mutation_order = retain_others key routes.mutation_order ++ key ∷ [];
  }

  -- `data.last_activity.max(existing.last_activity)`, where there is an existing route.
  unfoldable pub merged : Option (RouteData X) → RouteData X → RouteData X
  merged none route = route
  merged (some existing) route = record route {
    last_activity = max route.last_activity existing.last_activity;
  }

  unfoldable pub replace_preserving_activity :
      RouteKey → RouteData X → OrderedRoutes X → OrderedRoutes X
  unfolding replace merged
  replace_preserving_activity key route routes =
      replace key (merged (get key routes.by_key) route) routes

  abbrev pub touched : Instant → RouteData X → RouteData X
  touched at route = record route { last_activity = max route.last_activity at }

  unfoldable pub update_activity : RouteKey → Instant → OrderedRoutes X → OrderedRoutes X
  update_activity key at routes = elim (get key routes.by_key) [
    | none ↦ routes
    | some route ↦ record routes { by_key = insert key (touched at route) routes.by_key }
  ]

  unfoldable pub remove_route : RouteKey → OrderedRoutes X → OrderedRoutes X
  unfolding retain_others
  remove_route key routes = record {
    by_key = remove key routes.by_key;
    mutation_order = retain_others key routes.mutation_order;
  }

-- The closures that `merge_and_publish` is called with.
pub data Change (X : Type 0) : Type 0 where
  replace_with : RouteKey → RouteData X → Change X
  touch : RouteKey → Instant → Change X
  drop_key : RouteKey → Change X

module _ {X : Type 0} where
  unfoldable pub apply_change : Change X → OrderedRoutes X → OrderedRoutes X
  unfolding replace_preserving_activity update_activity remove_route
  apply_change (replace_with key route) = replace_preserving_activity key route
  apply_change (touch key at) = update_activity key at
  apply_change (drop_key key) = remove_route key
