-- ===== src/Tests/Routing.antt =====
-- Route keys and the matcher.
use pingora_reverse_proxy.Prelude.{ℕ, ◌≡◌, ◌↔◌, refl, true, false, some, none, Text, text, [], ◌∷◌}
use pingora_reverse_proxy.Map.{get}
use pingora_reverse_proxy.Map.Order.{text_ord}
use pingora_reverse_proxy.Route.{RouteKey, normalize, segments}
use pingora_reverse_proxy.Route.Laws.{segments-normalize, normalize-eq-self_iff, IsClean}
use pingora_reverse_proxy.RouteTable.Ordered.{replace_with, apply_change, replace}
use pingora_reverse_proxy.RouteTable.Ordered.Consistent.{
  IsConsistent, apply_change-IsConsistent, is_some,
}
use pingora_reverse_proxy.RouteTable.Snapshot.{resolve, from_ordered_routes, RouteMatch}
use pingora_reverse_proxy.RouteTable.Snapshot.Latest.{latest}
use pingora_reverse_proxy.RouteTable.Snapshot.Resolve.{
  IsAnswer, resolve-IsAnswer, resolve-eq-none_iff, resolve-eq-deepest, resolve-replace,
}
use pingora_reverse_proxy.RouteTable.Trie.Deepest.{deepest}
use pingora_reverse_proxy.RouteTable.Trie.Prefix.{is_prefix}
use pingora_reverse_proxy.Tests.Data.{
  helpers, root_key, user_key, hub, server, table, table-IsConsistent,
}

normalize_tests :
    (normalize (text "") ≡ text "/")
    × (normalize (text "/user/") ≡ text "/user")
    × (normalize (text "user//") ≡ text "/user/")
unfolding normalize
normalize_tests = (refl, refl, refl)

segments_tests :
    (segments (text "/a//b/") ≡ text "a" ∷ text "" ∷ text "b" ∷ []) × (segments (text "//") ≡ [])
unfolding segments helpers
segments_tests = (refl, refl)

abbrev request : Text
request = text "/user/a/lab?x"

abbrev answer : RouteMatch ℕ
answer = record { key = user_key; route = server }

resolve_tests :
    (resolve (from_ordered_routes table) request ≡ some answer)
    × (resolve (from_ordered_routes table) (text "/user/ab")
        ≡ some (record { key = root_key; route = hub }))
unfolding resolve from_ordered_routes helpers
resolve_tests = (refl, refl)

segments-normalize_example : segments (normalize (text "user/a/")) ≡ segments (text "user/a/")
segments-normalize_example = segments-normalize (text "user/a/")

normalize-eq-self_iff_example : (normalize user_key ≡ user_key) ↔ IsClean user_key
normalize-eq-self_iff_example = normalize-eq-self_iff user_key

resolve-eq-deepest_example :
    resolve (from_ordered_routes table) request
    ≡ deepest (latest table.by_key table.mutation_order) (segments request)
resolve-eq-deepest_example = resolve-eq-deepest table request

resolve-IsAnswer_example : IsAnswer table request answer
resolve-IsAnswer_example = resolve-IsAnswer table table-IsConsistent request answer resolve_tests.0

resolve-eq-none_iff_example : (resolve (from_ordered_routes table) request ≡ none) ↔ (
    (k : RouteKey)
    → is_some (get k table.by_key) ≡ true
    → is_prefix (segments k) (segments request) ≡ false)
resolve-eq-none_iff_example = resolve-eq-none_iff table table-IsConsistent request

resolve-replace_example :
    resolve (from_ordered_routes (replace user_key hub table)) user_key
    ≡ some (record { key = user_key; route = hub })
resolve-replace_example = resolve-replace user_key hub table

apply_change-IsConsistent_example : IsConsistent (apply_change (replace_with root_key server) table)
apply_change-IsConsistent_example =
    apply_change-IsConsistent (replace_with root_key server) table table-IsConsistent
