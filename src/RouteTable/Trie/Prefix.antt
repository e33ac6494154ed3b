-- ===== src/RouteTable/Trie/Prefix.antt =====
-- Prefixes of a path, and what makes a value the deepest one on it.
use pingora_reverse_proxy.Prelude.{
  ◌≡◌, refl, ◌∙◌, Bool, true, false, ◌&&◌, Option, none, some, List, [], ◌∷◌, ◌<◌, ◌≤◌, length,
  Text, text_eq, text_eq_iff, text_eq_refl, arith, Option-cases, inl, inr,
}
use pingora_reverse_proxy.RouteTable.Trie.Deepest.{deepest}

abbrev pub is_prefix : List Text → List Text → Bool
is_prefix [] path = true
is_prefix (s ∷ p) [] = false
is_prefix (s ∷ p) (t ∷ path) = text_eq s t && is_prefix p path

pub is_prefix_refl : (p : List Text) → is_prefix p p ≡ true
is_prefix_refl [] = refl
is_prefix_refl (s ∷ p) = ground (arith, text_eq_refl s, is_prefix_refl p)

pub length-le_of_is_prefix : (p q : List Text) → is_prefix p q ≡ true → length p ≤ length q
length-le_of_is_prefix [] q h = omega arith
length-le_of_is_prefix (s ∷ p) [] h = cc
length-le_of_is_prefix (s ∷ p) (t ∷ q) h = ground (arith, length-le_of_is_prefix p q)

module _ {V : Type 0} where
  pub record IsDeepest (at : List Text → Option V) (path p : List Text) (v : V) : Type 0 where
    pub prefix : is_prefix p path ≡ true
    pub value : at p ≡ some v
    pub deeper : (q : List Text) → is_prefix q path ≡ true → length p < length q → at q ≡ none

  pub deepest-eq-none :
      (at : List Text → Option V) (path q : List Text)
      → deepest at path ≡ none
      → is_prefix q path ≡ true
      → at q ≡ none
  unfolding deepest
  deepest-eq-none at [] [] e h = e
  deepest-eq-none at [] (t ∷ q) e h = cc
  deepest-eq-none at (s ∷ path) [] e h = ground arith
  deepest-eq-none at (s ∷ path) (t ∷ q) e h =
      ground (arith, text_eq_iff t s, deepest-eq-none (λ r. at (s ∷ r)) path q)

  pub deepest-IsDeepest :
      (at : List Text → Option V) (path : List Text) (v : V)
      → deepest at path ≡ some v
      → (p : List Text) × IsDeepest at path p v
  unfolding deepest
  deepest-IsDeepest at [] v e = ([], record { prefix = refl; value = e; deeper = λ q. too_deep q })
    where
      too_deep : (q : List Text) → is_prefix q [] ≡ true → 0 < length q → at q ≡ none
      too_deep [] h l = absurd (omega arith)
      too_deep (t ∷ q) h l = cc
  deepest-IsDeepest at (s ∷ path) v e = elim (Option-cases (deepest (λ r. at (s ∷ r)) path)) [
    | inr (w, below) ↦
        let (p, i) = deepest-IsDeepest (λ r. at (s ∷ r)) path w below in
        (
          s ∷ p,
          record {
            prefix = ground (arith, text_eq_refl s, i.prefix);
            value = i.value ∙ ground arith;
            deeper = λ q. deeper_than p q i.deeper;
          },
        )
    | inl below ↦ ([], record { prefix = refl; value = ground arith; deeper = λ q. beside q below })
  ]
    where
      deeper_than :
          (p q : List Text)
          → ((r : List Text) → is_prefix r path ≡ true → length p < length r → at (s ∷ r) ≡ none)
          → is_prefix q (s ∷ path) ≡ true
          → length (s ∷ p) < length q
          → at q ≡ none
      deeper_than p [] d h l = absurd (omega arith)
      deeper_than p (t ∷ q) d h l = ground (arith, text_eq_iff t s, d q)

      beside :
          (q : List Text)
          → deepest (λ r. at (s ∷ r)) path ≡ none
          → is_prefix q (s ∷ path) ≡ true
          → 0 < length q
          → at q ≡ none
      beside [] b h l = absurd (omega arith)
      beside (t ∷ q) b h l =
          ground (arith, text_eq_iff t s, deepest-eq-none (λ r. at (s ∷ r)) path q b)
