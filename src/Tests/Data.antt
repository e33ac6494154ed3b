-- ===== src/Tests/Data.antt =====
-- The routes that the tests share: a root, a user's server, and a service below it. The extension
-- fields are a number.
use pingora_reverse_proxy.Prelude.{ℕ, ◌≡◌, refl, ok, text, [], ◌∷◌, trim_matches, split, text_eq}
use pingora_reverse_proxy.Map.{Map, get, insert, remove}
use pingora_reverse_proxy.Map.Laws.{IsSorted}
use pingora_reverse_proxy.Map.Order.{text_ord, compare_text}
use pingora_reverse_proxy.Route.{RouteData, RouteKey}
use pingora_reverse_proxy.Store.{done}
use pingora_reverse_proxy.Store.Memory.{MemoryStore, memory_store}
use pingora_reverse_proxy.RouteTable.Ordered.{OrderedRoutes, from_sorted}
use pingora_reverse_proxy.RouteTable.Ordered.Consistent.{IsConsistent, from_sorted-IsConsistent}
use pingora_reverse_proxy.RouteTable.Registry.{RouteRegistry, load}
use pingora_reverse_proxy.RouteTable.Snapshot.{from_routes}
use pingora_reverse_proxy.RouteTable.Tracker

-- The helpers of the model that every run computes with.
unfoldable pub helpers : Unit {0}
unfolding trim_matches split text_eq compare_text get insert remove
helpers = tt

abbrev pub root_key : RouteKey
root_key = text "/"

abbrev pub user_key : RouteKey
user_key = text "/user/a"

abbrev pub hub : RouteData ℕ
hub = record { target = text "http://hub:8081"; last_activity = 10; extra = 0 }

abbrev pub server : RouteData ℕ
server = record { target = text "http://a:8888"; last_activity = 20; extra = 1 }

abbrev pub stored : Map RouteKey (RouteData ℕ)
stored = (root_key, hub) ∷ (user_key, server) ∷ []

pub stored-IsSorted : IsSorted stored
unfolding compare_text
stored-IsSorted = ((refl, tt), (tt, tt))

abbrev pub table : OrderedRoutes ℕ
table = record { by_key = stored; mutation_order = root_key ∷ user_key ∷ [] }

pub table-IsConsistent : IsConsistent table
unfolding from_sorted
table-IsConsistent = from_sorted-IsConsistent stored stored-IsSorted

abbrev pub backend_state : MemoryStore ℕ
backend_state = record { routes = stored }

abbrev pub registry : RouteRegistry (MemoryStore ℕ) ℕ
registry = record {
  store = backend_state;
  snapshot = from_routes stored;
  mutations = Tracker.default;
}

pub load_example : load (memory_store ℕ) backend_state ≡ done (ok registry)
unfolding load memory_store
load_example = refl
