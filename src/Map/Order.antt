-- ===== src/Map/Order.antt =====
-- `Ord` for the keys that the program has: numbers, and texts in the order of their bytes.
use pingora_reverse_proxy.Prelude.{Ordering, compare, ◌≡◌, refl, [], ◌∷◌, Text, arith}
use pingora_reverse_proxy.Map.{Ord}

abbrev then_with : Ordering → Ordering → Ordering
then_with Ordering.lt o = Ordering.lt
then_with Ordering.eq o = o
then_with Ordering.gt o = Ordering.gt

unfoldable pub compare_text : Text → Text → Ordering
compare_text [] [] = Ordering.eq
compare_text [] (y ∷ ys) = Ordering.lt
compare_text (x ∷ xs) [] = Ordering.gt
compare_text (x ∷ xs) (y ∷ ys) = then_with (compare x y) (compare_text xs ys)

pub compare_text_refl : (s : Text) → compare_text s s ≡ Ordering.eq
unfolding compare_text
compare_text_refl [] = refl
compare_text_refl (x ∷ xs) = ground (arith, compare_text_refl xs)

pub eq_of_compare_text : (s t : Text) → compare_text s t ≡ Ordering.eq → s ≡ t
unfolding compare_text
eq_of_compare_text [] [] h = refl
eq_of_compare_text [] (y ∷ ys) h = cc
eq_of_compare_text (x ∷ xs) [] h = cc
eq_of_compare_text (x ∷ xs) (y ∷ ys) h = ground (arith, eq_of_compare_text xs ys)

pub compare_text_trans :
    (s t u : Text)
    → compare_text s t ≡ Ordering.lt
    → compare_text t u ≡ Ordering.lt
    → compare_text s u ≡ Ordering.lt
unfolding compare_text
compare_text_trans [] [] u h k = cc
compare_text_trans [] (y ∷ ys) [] h k = cc
compare_text_trans [] (y ∷ ys) (z ∷ zs) h k = refl
compare_text_trans (x ∷ xs) [] u h k = cc
compare_text_trans (x ∷ xs) (y ∷ ys) [] h k = cc
compare_text_trans (x ∷ xs) (y ∷ ys) (z ∷ zs) h k = ground (arith, compare_text_trans xs ys zs)

pub compare_text_lt_of_gt :
    (s t : Text) → compare_text s t ≡ Ordering.gt → compare_text t s ≡ Ordering.lt
unfolding compare_text
compare_text_lt_of_gt [] [] h = cc
compare_text_lt_of_gt [] (y ∷ ys) h = cc
compare_text_lt_of_gt (x ∷ xs) [] h = refl
compare_text_lt_of_gt (x ∷ xs) (y ∷ ys) h = ground (arith, compare_text_lt_of_gt xs ys)

instance abbrev pub text_ord : Ord Text
text_ord = record {
  cmp = compare_text;
  cmp_refl = compare_text_refl;
  eq_of_cmp = eq_of_compare_text;
  lt_trans = compare_text_trans;
  lt_of_gt = compare_text_lt_of_gt;
}
