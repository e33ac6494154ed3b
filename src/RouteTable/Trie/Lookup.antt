-- ===== src/RouteTable/Trie/Lookup.antt =====
-- The trie as a finite map from paths: what is found at a path after a value was stored.
use pingora_reverse_proxy.Prelude.{
  ◌≡◌, refl, Bool, true, false, ◌&&◌, if◌then◌else◌, Option, none, some, List, [], ◌∷◌, Text,
  text_eq, text_eq_iff, text_eq_refl, eq_of_text_eq, arith, Bool-cases, inl, inr, ◌∙◌,
}
use pingora_reverse_proxy.RouteTable.Trie.{
  Node, node, Children, nil, child, empty, route, children, get_child, update_child, store,
}

abbrev pub path_eq : List Text → List Text → Bool
path_eq [] [] = true
path_eq [] (t ∷ q) = false
path_eq (s ∷ p) [] = false
path_eq (s ∷ p) (t ∷ q) = text_eq s t && path_eq p q

pub eq_of_path_eq : (p q : List Text) → path_eq p q ≡ true → p ≡ q
eq_of_path_eq [] [] h = refl
eq_of_path_eq [] (t ∷ q) h = cc
eq_of_path_eq (s ∷ p) [] h = cc
eq_of_path_eq (s ∷ p) (t ∷ q) h = ground (arith, text_eq_iff s t, eq_of_path_eq p q)

pub path_eq_refl : (p : List Text) → path_eq p p ≡ true
path_eq_refl [] = refl
path_eq_refl (s ∷ p) = ground (arith, text_eq_refl s, path_eq_refl p)

module _ {V : Type 0} where
  abbrev and_then : Option (Node V) → (Node V → Option V) → Option V
  and_then none f = none
  and_then (some n) f = f n

  -- The value at a path, no shorter path tried.
  unfoldable pub find : Node V → List Text → Option V
  find n [] = route n
  find n (s ∷ path) = and_then (get_child s (children n)) (λ c. find c path)

  pub find-empty : (q : List Text) → find empty q ≡ none
  unfolding find get_child
  find-empty [] = refl
  find-empty (s ∷ q) = refl

  abbrev child_or_empty : Text → Children V → Node V
  child_or_empty s cs = elim (get_child s cs) [ none ↦ empty | some n ↦ n ]

  pub get_child-update_child :
      (t s : Text) (f : Node V → Node V) (cs : Children V)
      → get_child t (update_child s f cs)
        ≡ (if text_eq s t then some (f (child_or_empty s cs)) else get_child t cs)
  unfolding get_child update_child
  get_child-update_child t s f nil = ground (arith, text_eq_iff s t, text_eq_iff t s)
  get_child-update_child t s f (child i n cs) = ground (
    arith,
    get_child-update_child t s f cs,
    text_eq_iff s t,
    text_eq_iff t s,
    text_eq_iff s i,
    text_eq_iff t i,
  )

  find-child_or_empty :
      (s : Text) (cs : Children V) (q : List Text)
      → find (child_or_empty s cs) q ≡ and_then (get_child s cs) (λ c. find c q)
  find-child_or_empty s cs q =
      elim (get_child s cs)
        as (λ o. find (elim o [ none ↦ empty | some n ↦ n ]) q ≡ and_then o (λ c. find c q)) [
          | none ↦ find-empty q
          | some n ↦ refl
        ]

  -- Storing a value changes what is found at its own path, and nothing else.
  pub find-store :
      (p : List Text) (v : V) (n : Node V) (q : List Text)
      → find (store p v n) q ≡ (if path_eq p q then some v else find n q)
  unfolding find store
  find-store [] v (node r cs) [] = refl
  find-store [] v (node r cs) (t ∷ q) = refl
  find-store (s ∷ p) v (node r cs) [] = refl
  find-store (s ∷ p) v (node r cs) (t ∷ q) = elim (Bool-cases (text_eq s t)) [
    | inl e ↦
        rw (get_child-update_child t s (store p v) cs, e)
          (find-store p v (child_or_empty s cs) q
            ∙ (rw (find-child_or_empty s cs q, eq_of_text_eq s t e)))
    | inr e ↦ rw (get_child-update_child t s (store p v) cs, e)
  ]
