-- ===== src/Tests/Registry.antt =====
-- The registry over the memory store.
use pingora_reverse_proxy.Prelude.{
  ℕ, ◌≡◌, ◌⊎◌, ◌≤◌, ◌<◌, refl, true, false, some, none, text, [], ◌∷◌, err,
}
use pingora_reverse_proxy.Map
use pingora_reverse_proxy.Map.{get}
use pingora_reverse_proxy.Map.Order.{text_ord}
use pingora_reverse_proxy.Route.{RouteData}
use pingora_reverse_proxy.Store
use pingora_reverse_proxy.Store.{message, done, Outcome, Store}
use pingora_reverse_proxy.Store.Contract.{Agrees, memory_store-IsStore}
use pingora_reverse_proxy.Store.Exact.{IsExact, memory_store-IsExact}
use pingora_reverse_proxy.Store.Memory.{MemoryStore, memory_store}
use pingora_reverse_proxy.RouteTable.Ordered.{touch, apply_change, update_activity}
use pingora_reverse_proxy.RouteTable.Registry
use pingora_reverse_proxy.RouteTable.Registry.{
  RouteRegistry, Committed, observe_loop, resolve, Shared, merge_loop,
}
use pingora_reverse_proxy.RouteTable.Registry.Activity.{
  observe_loop-published, apply_change-activity, last_published, PublishesOnce,
  merge_loop-PublishesOnce,
}
use pingora_reverse_proxy.RouteTable.Registry.FailStop.{Reach-stopped, settle_step, unknown}
use pingora_reverse_proxy.RouteTable.Registry.Reachable.{started, Reach-resolve}
use pingora_reverse_proxy.RouteTable.Registry.Run.{admit, execute, settle, complete}
use pingora_reverse_proxy.RouteTable.Registry.Steps.{
  System, Step, executed, unlocked, admits, executes, settles, completes, Reach, here, next,
}
use pingora_reverse_proxy.RouteTable.Snapshot.{
  RouteMatch, RouteSnapshot, from_routes, from_ordered_routes,
}
use pingora_reverse_proxy.RouteTable.Snapshot.Resolve.{IsAnswer}
use pingora_reverse_proxy.RouteTable.Tracker
use pingora_reverse_proxy.RouteTable.Tracker.{backend_panic, indeterminate}
use pingora_reverse_proxy.Tests.Data.{
  helpers, root_key, user_key, server, stored, stored-IsSorted, backend_state, registry,
  load_example,
}

abbrev moved : RouteData ℕ
moved = record { target = text "http://b:8888"; last_activity = 5; extra = 2 }

abbrev request : Registry.Mutation ℕ
request = Registry.put user_key moved

abbrev admitted : RouteRegistry (MemoryStore ℕ) ℕ
admitted = record registry { mutations = record Tracker.default { active = 1 } }

abbrev committed : Outcome (Committed ℕ)
committed = (execute (memory_store ℕ) 30 request admitted).0

abbrev written : RouteRegistry (MemoryStore ℕ) ℕ
written = (execute (memory_store ℕ) 30 request admitted).1

abbrev finished : RouteRegistry (MemoryStore ℕ) ℕ
finished = complete Tracker.put false committed (settle committed written)

abbrev end : System (MemoryStore ℕ) ℕ
end = record { registry = finished; waiting = []; stage = unlocked }

put_run : Reach (memory_store ℕ) (started registry) end
unfolding admit Tracker.default
put_run =
    next
      (next (next (next here (admits request refl)) (executes 30 request [] [] refl refl))
        (settles request committed refl))
      (completes request committed false refl)

-- The replacement keeps the later activity that had been observed.
abbrev answer : RouteMatch ℕ
answer = record { key = user_key; route = record moved { last_activity = 20 } }

put_test : resolve (text "/user/a/tree") finished ≡ some answer
unfolding resolve execute settle complete memory_store helpers from_routes Tracker.default
put_test = refl

Reach-resolve_example :
    IsAnswer finished.snapshot.routes (text "/user/a/tree") answer
    × ((finished.mutations.seal ≡ backend_panic)
        ⊎ Agrees (Map.get user_key finished.store.routes) (some answer.route))
Reach-resolve_example =
    Reach-resolve (λ s. s.routes) (memory_store ℕ) (memory_store-IsStore ℕ) backend_state registry
      end (text "/user/a/tree") answer stored-IsSorted load_example put_run refl put_test

-- A backend that loses the answer to a `put`.
abbrev lossy : Store (MemoryStore ℕ) ℕ
lossy = record (memory_store ℕ) {
  put_preserving_activity = λ key route floor s. (done (err (Store.indeterminate (text "put"))), s);
}

abbrev held : System (MemoryStore ℕ) ℕ
held = record {
  registry = (execute lossy 30 request admitted).1;
  waiting = [];
  stage = executed request (execute lossy 30 request admitted).0;
}

abbrev stopped : System (MemoryStore ℕ) ℕ
stopped = settle_step lossy request (unknown lossy (text "put")) held

held-executed : held.stage ≡ executed request (unknown lossy (text "put"))
unfolding execute Tracker.default
held-executed = refl

Reach-stopped_example :
    Step lossy held stopped
    × (resolve user_key stopped.registry ≡ none)
    × (Registry.get user_key stopped.registry ≡ none)
    × (Registry.all stopped.registry ≡ [])
    × (Registry.consistency_status stopped.registry ≡ Registry.indeterminate)
    × (admit stopped.registry ≡ err (message Tracker.mutation_indeterminate_sealed_error))
    × (stopped.registry.store ≡ held.registry.store)
Reach-stopped_example =
    Reach-stopped lossy held stopped request (text "put") user_key user_key held-executed here

abbrev snapshot : RouteSnapshot ℕ
snapshot = registry.snapshot

abbrev seen : RouteSnapshot ℕ
seen = from_ordered_routes (update_activity user_key 25 snapshot.routes)

observe_test : observe_loop user_key 25 (snapshot ∷ []) snapshot ≡ (true, seen)
unfolding observe_loop helpers from_routes
observe_test = refl

observe_loop-published_example :
    (old : RouteData ℕ) × (get user_key (last_published (snapshot ∷ []) snapshot).routes.by_key
      ≡ some old)
    × (old.last_activity < 25)
    × (get user_key seen.routes.by_key ≡ some (record old { last_activity = 25 }))
    × (seen
        ≡ from_ordered_routes
            (update_activity user_key 25 (last_published (snapshot ∷ []) snapshot).routes))
observe_loop-published_example =
    observe_loop-published user_key 25 (snapshot ∷ []) snapshot seen observe_test

abbrev loaded : Shared ℕ
loaded = record { address = 4; snapshot = seen }

merge_loop-PublishesOnce_example :
    PublishesOnce
      (update_activity user_key 25)
      ((snapshot ∷ []) ∷ [])
      loaded
      (merge_loop (update_activity user_key 25) ((snapshot ∷ []) ∷ []) loaded)
merge_loop-PublishesOnce_example =
    merge_loop-PublishesOnce (update_activity user_key 25) ((snapshot ∷ []) ∷ []) loaded

stored_user : get user_key stored ≡ some server
unfolding helpers
stored_user = refl

apply_change-activity_example :
    (b : RouteData ℕ) × (get user_key
        (apply_change
          (touch user_key 7)
          (record { by_key = stored; mutation_order = root_key ∷ user_key ∷ [] })).by_key
      ≡ some b)
    × (server.last_activity ≤ b.last_activity)
apply_change-activity_example =
    apply_change-activity (touch user_key 7) (user_key)
      (record { by_key = stored; mutation_order = root_key ∷ user_key ∷ [] }) server (cc)
      stored_user

memory_store-IsExact_example : IsExact (memory_store ℕ)
memory_store-IsExact_example = memory_store-IsExact ℕ
