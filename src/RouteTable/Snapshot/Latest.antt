-- ===== src/RouteTable/Snapshot/Latest.antt =====
-- What stands at a path of the matcher: the last listed route whose key has those segments.
use pingora_reverse_proxy.Prelude.{
  ◌≡◌, refl, ap, ◌∙◌, true, false, if◌then◌else◌, Option, none, some, List, [], ◌∷◌, ◌++◌, Text,
  or_else, All, arith, Option-cases, inl, inr,
}
use pingora_reverse_proxy.Map.{Map, get}
use pingora_reverse_proxy.Map.Order.{text_ord}
use pingora_reverse_proxy.Route.{RouteKey, RouteData, segments}
use pingora_reverse_proxy.RouteTable.Ordered.Consistent.{is_some}
use pingora_reverse_proxy.RouteTable.Snapshot.{RouteMatch, build}
use pingora_reverse_proxy.RouteTable.Trie
use pingora_reverse_proxy.RouteTable.Trie.{Node}
use pingora_reverse_proxy.RouteTable.Trie.Lookup.{
  find, find-store, find-empty, path_eq, eq_of_path_eq,
}

module _ {X : Type 0} (by_key : Map RouteKey (RouteData X)) where
  -- The match that a key stands for, if its segments are the path.
  abbrev pub match_at : RouteKey → List Text → Option (RouteMatch X)
  match_at key q = elim (get key by_key) [
    | none ↦ none
    | some route ↦
        if path_eq (segments key) q then some (record { key = key; route = route }) else none
  ]

  unfoldable pub latest : List RouteKey → List Text → Option (RouteMatch X)
  latest [] q = none
  latest (key ∷ order) q = or_else (latest order q) (match_at key q)

  find-build :
      (order : List RouteKey) (root : Node (RouteMatch X)) (q : List Text)
      → find (build by_key order root) q ≡ or_else (latest order q) (find root q)
  unfolding build latest
  find-build [] root q = refl
  find-build (key ∷ order) root q = elim (Option-cases (get key by_key)) [
    | inl miss ↦ rw (miss, build) (find-build order root q ∙ ground arith)
    | inr (route, hit) ↦
        let m : RouteMatch X = record { key = key; route = route } in
        rw (hit, build)
          (find-build order (Trie.store (segments key) m root) q
            ∙ ground (arith, find-store (segments key) m root q))
  ]

  -- What the finished trie holds at each path.
  pub find-build-empty :
      (order : List RouteKey) (q : List Text)
      → find (build by_key order Trie.empty) q ≡ latest order q
  find-build-empty order q =
      find-build order Trie.empty q ∙ ground (arith, find-empty {V = RouteMatch X} q)

  -- The last of the listed keys with the segments `q` is `m.key`, and `m.route` is its data.
  pub record IsLatest (order : List RouteKey) (q : List Text) (m : RouteMatch X) : Type 0 where
    pub stored : get m.key by_key ≡ some m.route
    pub placed : segments m.key ≡ q
    pub earlier : List RouteKey
    pub later : List RouteKey
    pub split : order ≡ earlier ++ m.key ∷ later
    pub overridden : All (λ k. path_eq (segments k) q ≡ false) later

  latest-none-All :
      (order : List RouteKey) (q : List Text)
      → All (λ k. is_some (get k by_key) ≡ true) order
      → latest order q ≡ none
      → All (λ k. path_eq (segments k) q ≡ false) order
  unfolding latest
  latest-none-All [] q h e = tt
  latest-none-All (k ∷ order) q (here, h) e = ground (arith, latest-none-All order q h)

  pub latest-IsLatest :
      (order : List RouteKey) (q : List Text) (m : RouteMatch X)
      → All (λ k. is_some (get k by_key) ≡ true) order
      → latest order q ≡ some m
      → IsLatest order q m
  unfolding latest
  latest-IsLatest [] q m h e = cc
  latest-IsLatest (k ∷ order) q m (here, h) e = elim (Option-cases (latest order q)) [
    | inr (m', rest) ↦
        let i = latest-IsLatest order q m h (ground arith) in
        record {
          stored = i.stored;
          placed = i.placed;
          earlier = k ∷ i.earlier;
          later = i.later;
          split = ap (◌∷◌ k) i.split;
          overridden = i.overridden;
        }
    | inl rest ↦ record {
      stored = ground arith;
      placed = ground (arith, eq_of_path_eq (segments k) q);
      earlier = [];
      later = order;
      split = ground arith;
      overridden = latest-none-All order q h rest;
    }
  ]
