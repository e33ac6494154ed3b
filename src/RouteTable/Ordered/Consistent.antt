-- ===== src/RouteTable/Ordered/Consistent.antt =====
-- The invariant of `OrderedRoutes`: the order lists each key of the map once, and no other.
use pingora_reverse_proxy.Prelude.{
  ◌≡◌, refl, Bool, true, false, ◌||◌, if◌then◌else◌, Option, none, some, List, [], ◌∷◌, ◌++◌, Text,
  text_eq, text_eq_iff, text_eq_refl, arith, Option-cases, inl, inr,
}
use pingora_reverse_proxy.Map.{Map, get, keys}
use pingora_reverse_proxy.Map.Order.{text_ord, compare_text_refl, eq_of_compare_text}
use pingora_reverse_proxy.Map.Laws.{
  same, Above, get-insert, get-remove, IsSorted, insert-IsSorted, remove-IsSorted,
}
use pingora_reverse_proxy.Route.{RouteKey, RouteData, Instant}
use pingora_reverse_proxy.RouteTable.Ordered.{
  OrderedRoutes, retain_others, from_sorted, replace, merged, replace_preserving_activity, touched,
  update_activity, remove_route, Change, replace_with, touch, drop_key, apply_change,
}

abbrev pub is_some {ℓ} : {A : Type ℓ} → Option A → Bool
is_some none = false
is_some (some a) = true

abbrev pub member : RouteKey → List RouteKey → Bool
member k [] = false
member k (j ∷ l) = text_eq k j || member k l

abbrev pub Distinct : List RouteKey → Type 0
Distinct [] = Unit
Distinct (k ∷ l) = (member k l ≡ false) × Distinct l

-- The map's test for a key is that of the order's list.
pub same-text_eq : (j k : Text) → same j k ≡ text_eq j k
same-text_eq j k = ground (arith, eq_of_compare_text j k, compare_text_refl j, text_eq_iff j k)

pub member-retain_others :
    (j k : RouteKey) (l : List RouteKey)
    → member j (retain_others k l) ≡ (if text_eq j k then false else member j l)
unfolding retain_others
member-retain_others j k [] = ground arith
member-retain_others j k (i ∷ l) =
    ground (arith, member-retain_others j k l, text_eq_iff j k, text_eq_iff i k, text_eq_iff j i)

pub member-append :
    (j k : RouteKey) (l : List RouteKey) → member j (l ++ k ∷ []) ≡ (member j l || text_eq j k)
member-append j k [] = ground arith
member-append j k (i ∷ l) = ground (arith, member-append j k l)

retain_others-Distinct :
    (k : RouteKey) (l : List RouteKey) → Distinct l → Distinct (retain_others k l)
unfolding retain_others
retain_others-Distinct k [] d = tt
retain_others-Distinct k (i ∷ l) (fresh, d) =
    ground (arith, retain_others-Distinct k l d, member-retain_others i k l)

append-Distinct :
    (k : RouteKey) (l : List RouteKey) → Distinct l → member k l ≡ false → Distinct (l ++ k ∷ [])
append-Distinct k [] d h = (refl, tt)
append-Distinct k (i ∷ l) (fresh, d) h =
    ground (arith, append-Distinct k l d, member-append i k l, text_eq_iff i k, text_eq_iff k i)

module _ {X : Type 0} where
  pub record IsConsistent (routes : OrderedRoutes X) : Type 0 where
    pub listed : (k : RouteKey) → is_some (get k routes.by_key) ≡ member k routes.mutation_order
    pub distinct : Distinct routes.mutation_order
    pub sorted : IsSorted routes.by_key

  listed-keys :
      (m : Map RouteKey (RouteData X)) (k : RouteKey) → is_some (get k m) ≡ member k (keys m)
  unfolding get
  listed-keys [] k = refl
  listed-keys ((j, w) ∷ m) k = ground (arith, listed-keys m k, same-text_eq k j)

  replace-IsConsistent :
      (key : RouteKey) (route : RouteData X) (routes : OrderedRoutes X)
      → IsConsistent routes
      → IsConsistent (replace key route routes)
  unfolding replace
  replace-IsConsistent key route routes h = record {
    listed = λ k. ground (
      arith,
      h.listed k,
      get-insert k key route routes.by_key,
      same-text_eq k key,
      member-append k key (retain_others key routes.mutation_order),
      member-retain_others k key routes.mutation_order,
    );
    distinct =
        append-Distinct key (retain_others key routes.mutation_order)
          (retain_others-Distinct key routes.mutation_order h.distinct)
          (rw (member-retain_others key key routes.mutation_order, text_eq_refl key));
    sorted = insert-IsSorted key route routes.by_key h.sorted;
  }

  pub update_activity-IsConsistent :
      (key : RouteKey) (at : Instant) (routes : OrderedRoutes X)
      → IsConsistent routes
      → IsConsistent (update_activity key at routes)
  unfolding update_activity
  update_activity-IsConsistent key at routes h = elim (Option-cases (get key routes.by_key)) [
    | inl miss ↦ rw (miss, update_activity) h
    | inr (route, hit) ↦
        rw (hit, update_activity)
          (record {
            listed = λ k. ground (
              arith,
              h.listed k,
              get-insert k key (touched at route) routes.by_key,
              same-text_eq k key,
              text_eq_iff k key,
            );
            distinct = h.distinct;
            sorted = insert-IsSorted key (touched at route) routes.by_key h.sorted;
          })
  ]

  remove_route-IsConsistent :
      (key : RouteKey) (routes : OrderedRoutes X)
      → IsConsistent routes
      → IsConsistent (remove_route key routes)
  unfolding remove_route
  remove_route-IsConsistent key routes h = record {
    listed = λ k. ground (
      arith,
      h.listed k,
      get-remove k key routes.by_key,
      same-text_eq k key,
      member-retain_others k key routes.mutation_order,
    );
    distinct = retain_others-Distinct key routes.mutation_order h.distinct;
    sorted = remove-IsSorted key routes.by_key h.sorted;
  }

  -- Every change that a mutation publishes keeps the map and the order in step: the order lists
  -- each key of the map once and no other, and the map stays sorted.
  pub apply_change-IsConsistent :
      (change : Change X) (routes : OrderedRoutes X)
      → IsConsistent routes
      → IsConsistent (apply_change change routes)
  unfolding apply_change replace_preserving_activity
  apply_change-IsConsistent (replace_with key route) routes h =
      replace-IsConsistent key (merged (get key routes.by_key) route) routes h
  apply_change-IsConsistent (touch key at) routes h = update_activity-IsConsistent key at routes h
  apply_change-IsConsistent (drop_key key) routes h = remove_route-IsConsistent key routes h

  not_member_of_Above :
      (k : RouteKey) (m : Map RouteKey (RouteData X)) → Above k m → member k (keys m) ≡ false
  not_member_of_Above k [] h = refl
  not_member_of_Above k ((j, w) ∷ m) (p, h) =
      ground (arith, not_member_of_Above k m h, text_eq_iff k j, compare_text_refl k)

  keys-Distinct : (m : Map RouteKey (RouteData X)) → IsSorted m → Distinct (keys m)
  keys-Distinct [] h = tt
  keys-Distinct ((k, w) ∷ m) (above, h) = (not_member_of_Above k m above, keys-Distinct m h)

  -- A table loaded from a store is consistent.
  pub from_sorted-IsConsistent :
      (m : Map RouteKey (RouteData X)) → IsSorted m → IsConsistent (from_sorted m)
  unfolding from_sorted
  from_sorted-IsConsistent m h = record {
    listed = listed-keys m;
    distinct = keys-Distinct m h;
    sorted = h;
  }
