-- ===== src/RouteTable/Trie/Deepest.antt =====
-- The walk of the trie against its specification: the value at the longest prefix that has one.
use pingora_reverse_proxy.Prelude.{
  ◌≡◌, refl, sym, ap, ◌∙◌, Option, none, some, List, [], ◌∷◌, Text, or_else, Option-cases, inl, inr,
}
use pingora_reverse_proxy.RouteTable.Trie.{Node, route, children, get_child, walk, resolve}
use pingora_reverse_proxy.RouteTable.Trie.Lookup.{find}

module _ {V : Type 0} where
  -- The value that `at` has for the longest prefix of the path for which it has one.
  unfoldable pub deepest : (List Text → Option V) → List Text → Option V
  deepest at [] = at []
  deepest at (s ∷ path) = or_else (deepest (λ q. at (s ∷ q)) path) (at [])

  deepest-none : (path : List Text) → deepest (λ q. none) path ≡ none
  unfolding deepest
  deepest-none [] = refl
  deepest-none (s ∷ path) = rw (deepest-none path)

  or_else-or_else : (a b c : Option V) → or_else a (or_else b c) ≡ or_else (or_else a b) c
  or_else-or_else none b c = refl
  or_else-or_else (some a) b c = refl

  walk-deepest :
      (n : Node V) (m : Option V) (path : List Text)
      → walk n (or_else (route n) m) path ≡ or_else (deepest (find n) path) m
  unfolding walk deepest find
  walk-deepest n m [] = refl
  walk-deepest n m (s ∷ path) = elim (Option-cases (get_child s (children n))) [
    | inl miss ↦ rw (miss, walk, find, deepest-none path)
    | inr (c, hit) ↦
        rw (hit, walk, find)
          (walk-deepest c (or_else (route n) m) path
            ∙ or_else-or_else (deepest (find c) path) (route n) m)
  ]

  or_else-none : (a : Option V) → or_else a none ≡ a
  or_else-none none = refl
  or_else-none (some a) = refl

  -- The loop of `resolve` finds the deepest value on the path.
  pub resolve-deepest : (n : Node V) (path : List Text) → resolve n path ≡ deepest (find n) path
  unfolding resolve
  resolve-deepest n path =
      ap (λ r. walk n r path) (sym (or_else-none (route n)))
      ∙ walk-deepest n none path
      ∙ or_else-none _
