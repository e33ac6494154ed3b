-- ===== src/Prelude/Split.antt =====
-- `trim_matches`, `split`, `split_once` and `rsplit_once` of `str`, at an ASCII byte.
use Prim.Native.Nat.{ℕ}
use mathlib.Core.Path.{◌≡◌, refl}
use mathlib.Core.Bool.{Bool, true, false, ◌&&◌}
use mathlib.Core.Option.{Option, none, some}
use mathlib.Core.List.{List, [], ◌∷◌}
use native.Mathlib.Omega.{arith}
use pingora_reverse_proxy.Prelude.Tests.{◌==◌, if◌then◌else◌}
use pingora_reverse_proxy.Prelude.Bytes.{Text, ends_with_byte, pop}

abbrev pub is_empty {ℓ} : {A : Type ℓ} → List A → Bool
is_empty [] = true
is_empty (x ∷ xs) = false

unfoldable pub trim_start : ℕ → Text → Text
trim_start b [] = []
trim_start b (x ∷ xs) = elim (x == b) [ true ↦ trim_start b xs | false ↦ x ∷ xs ]

unfoldable pub trim_end : ℕ → Text → Text
trim_end b [] = []
trim_end b (x ∷ xs) = let rest = trim_end b xs in if (x == b) && is_empty rest then [] else x ∷ rest

unfoldable pub trim_matches : ℕ → Text → Text
unfolding trim_start trim_end
trim_matches b s = trim_end b (trim_start b s)

abbrev push_head : ℕ → List Text → List Text
push_head x [] = (x ∷ []) ∷ []
push_head x (p ∷ ps) = (x ∷ p) ∷ ps

unfoldable pub split : ℕ → Text → List Text
split b [] = [] ∷ []
split b (x ∷ xs) = let rest = split b xs in if x == b then [] ∷ rest else push_head x rest

abbrev before : ℕ → Option (Text × Text) → Option (Text × Text)
before x none = none
before x (some (l, r)) = some (x ∷ l, r)

-- The parts around the first occurrence.
unfoldable pub split_once : ℕ → Text → Option (Text × Text)
split_once b [] = none
split_once b (x ∷ xs) =
    let rest = split_once b xs in if x == b then some ([], xs) else before x rest

abbrev here_or : Option (Text × Text) → ℕ → ℕ → Text → Option (Text × Text)
here_or (some (l, r)) b x xs = some (x ∷ l, r)
here_or none b x xs = if x == b then some ([], xs) else none

-- The parts around the last occurrence.
unfoldable pub rsplit_once : ℕ → Text → Option (Text × Text)
rsplit_once b [] = none
rsplit_once b (x ∷ xs) = here_or (rsplit_once b xs) b x xs

trim_end-pop : (b : ℕ) (s : Text) → ends_with_byte b s ≡ true → trim_end b (pop s) ≡ trim_end b s
unfolding trim_end
trim_end-pop b [] h = refl
trim_end-pop b (x ∷ []) h = ground arith
trim_end-pop b (x ∷ y ∷ xs) h = ground (arith, trim_end-pop b (y ∷ xs) h)

-- A trailing byte that is trimmed anyway may as well be dropped before.
pub trim_matches-pop :
    (b : ℕ) (s : Text) → ends_with_byte b s ≡ true → trim_matches b (pop s) ≡ trim_matches b s
unfolding trim_matches
trim_matches-pop b [] h = refl
trim_matches-pop b (x ∷ []) h = ground arith
trim_matches-pop b (x ∷ y ∷ xs) h =
    ground (arith, trim_matches-pop b (y ∷ xs) h, trim_end-pop b (x ∷ y ∷ xs) h)

pub trim_matches-cons : (b : ℕ) (s : Text) → trim_matches b (b ∷ s) ≡ trim_matches b s
unfolding trim_matches
trim_matches-cons b s = ground arith
