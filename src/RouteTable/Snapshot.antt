-- ===== src/RouteTable/Snapshot.antt =====
-- `RouteSnapshot` of src/route_table.rs: the matcher that is built from the ordered routes.
pub mod Latest
pub mod Resolve
use pingora_reverse_proxy.Prelude.{Option, none, some, List, [], ◌∷◌, Text}
use pingora_reverse_proxy.Map.{Map, get}
use pingora_reverse_proxy.Map.Order.{text_ord}
use pingora_reverse_proxy.Route.{RouteKey, RouteData, segments}
use pingora_reverse_proxy.RouteTable.Ordered.{OrderedRoutes, from_sorted}
use pingora_reverse_proxy.RouteTable.Trie
use pingora_reverse_proxy.RouteTable.Trie.{Node}

pub record RouteMatch (X : Type 0) : Type 0 where
  pub key : RouteKey
  pub route : RouteData X

pub record RouteSnapshot (X : Type 0) : Type 0 where
  pub root : Node (RouteMatch X)
  pub routes : OrderedRoutes X

module _ {X : Type 0} where
  -- The loop of `from_ordered_routes`; a listed key with no data is passed over.
  unfoldable pub build :
      Map RouteKey (RouteData X) → List RouteKey → Node (RouteMatch X) → Node (RouteMatch X)
  unfolding Trie.store
  build by_key [] root = root
  build by_key (key ∷ order) root = elim (get key by_key) [
    | none ↦ build by_key order root
    | some route ↦
        build by_key order (Trie.store (segments key) (record { key = key; route = route }) root)
  ]

  unfoldable pub from_ordered_routes : OrderedRoutes X → RouteSnapshot X
  unfolding build
  from_ordered_routes routes = record {
    root = build routes.by_key routes.mutation_order Trie.empty;
    routes = routes;
  }

  unfoldable pub from_routes : Map RouteKey (RouteData X) → RouteSnapshot X
  unfolding from_ordered_routes from_sorted
  from_routes routes = from_ordered_routes (from_sorted routes)

  unfoldable pub resolve : RouteSnapshot X → Text → Option (RouteMatch X)
  unfolding Trie.resolve segments
  resolve snapshot request_path = Trie.resolve snapshot.root (segments request_path)
