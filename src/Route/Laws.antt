-- ===== src/Route/Laws.antt =====
-- What cleaning a route key keeps and what it promises.
use pingora_reverse_proxy.Prelude.{
  ℕ, ◌≡◌, ◌≢◌, ◌⊎◌, ◌↔◌, refl, true, false, Text, [], ◌∷◌, arith, starts_with_byte, ends_with_byte,
  pop, trim_matches, trim_matches-pop, trim_matches-cons,
}
use pingora_reverse_proxy.Route.{normalize, slash, segments}

trim_matches-normalize : (s : Text) → trim_matches slash (normalize s) ≡ trim_matches slash s
unfolding normalize
trim_matches-normalize [] = trim_matches-cons slash []
trim_matches-normalize (x ∷ s) = ground (
  arith,
  trim_matches-cons slash (x ∷ s),
  trim_matches-pop slash (x ∷ s),
  trim_matches-pop slash (slash ∷ x ∷ s),
)

-- Cleaning a key never changes which requests it matches: the segments of the cleaned key are those
-- of the text that was given.
pub segments-normalize : (s : Text) → segments (normalize s) ≡ segments s
unfolding segments
segments-normalize s = rw (trim_matches-normalize s)

-- The keys that cleaning leaves alone: a leading slash, and no trailing one but that of the root.
abbrev pub IsClean : Text → Type 0
IsClean s =
    (starts_with_byte slash s ≡ true) × ((s ≡ slash ∷ []) ⊎ (ends_with_byte slash s ≡ false))

-- A cleaned key begins with a slash, whatever was given.
pub normalize-starts_with : (s : Text) → starts_with_byte slash (normalize s) ≡ true
unfolding normalize
normalize-starts_with [] = refl
normalize-starts_with (x ∷ []) = ground arith
normalize-starts_with (x ∷ y ∷ s) = ground arith

pop-ne : (y : ℕ) (s : Text) → pop (y ∷ s) ≢ y ∷ s
pop-ne y [] h = cc
pop-ne y (z ∷ s) h = pop-ne z s (ground arith)

-- Cleaning changes nothing exactly when the key is clean.
pub normalize-eq-self_iff : (s : Text) → (normalize s ≡ s) ↔ IsClean s
unfolding normalize
normalize-eq-self_iff [] = (λ h. cc, λ h. cc)
normalize-eq-self_iff (x ∷ []) = (λ h. ground arith, λ h. ground arith)
normalize-eq-self_iff (x ∷ y ∷ s) = (λ h. ground (arith, pop-ne y s), λ h. ground arith)
