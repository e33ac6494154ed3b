-- ===== src/Map/Laws.antt =====
-- What a `BTreeMap` promises: reads after writes, and ascending keys.
use pingora_reverse_proxy.Prelude.{
  Ordering, ◌≡◌, refl, Bool, true, if◌then◌else◌, none, some, [], ◌∷◌, arith, All,
}
use pingora_reverse_proxy.Map.{Ord, is_eq, Map, get, insert, remove, keys}

abbrev pub same : {K : Type 0} ⦃o : Ord K⦄ → K → K → Bool
same ⦃o⦄ a b = is_eq (o.cmp a b)

pub eq_of_same : {K : Type 0} ⦃o : Ord K⦄ (a b : K) → same a b ≡ true → a ≡ b
eq_of_same ⦃o⦄ a b h = ground (arith, o.eq_of_cmp a b)

pub same_refl : {K : Type 0} ⦃o : Ord K⦄ (a : K) → same a a ≡ true
same_refl ⦃o⦄ a = rw (o.cmp_refl a)

module _ {K V : Type 0} ⦃o : Ord K⦄ where
  pub get-insert :
      (j k : K) (v : V) (m : Map K V)
      → get j (insert k v m) ≡ (if same j k then some v else get j m)
  unfolding get insert
  get-insert j k v [] = ground arith
  get-insert j k v ((i, w) ∷ m) =
      ground
        (arith, get-insert j k v m, o.eq_of_cmp k i, o.eq_of_cmp j i, o.eq_of_cmp j k, o.cmp_refl k)

  pub get-insert_self : (k : K) (v : V) (m : Map K V) → get k (insert k v m) ≡ some v
  get-insert_self k v m = rw (get-insert k k v m, o.cmp_refl k)

  pub get-remove :
      (j k : K) (m : Map K V) → get j (remove k m) ≡ (if same j k then none else get j m)
  unfolding get remove
  get-remove j k [] = ground arith
  get-remove j k ((i, w) ∷ m) =
      ground
        (arith, get-remove j k m, o.eq_of_cmp k i, o.eq_of_cmp j i, o.eq_of_cmp j k, o.cmp_refl k)

  -- The keys ascend, so none occurs twice.
  abbrev pub Above : K → Map K V → Type 0
  Above k m = All (λ j. o.cmp k j ≡ Ordering.lt) (keys m)

  abbrev pub IsSorted : Map K V → Type 0
  IsSorted [] = Unit
  IsSorted ((k, v) ∷ m) = Above k m × IsSorted m

  Above-trans : (a k : K) (m : Map K V) → o.cmp a k ≡ Ordering.lt → Above k m → Above a m
  Above-trans a k [] h t = tt
  Above-trans a k ((j, w) ∷ m) h (p, t) = (o.lt_trans a k j h p, Above-trans a k m h t)

  Above-insert :
      (a k : K) (v : V) (m : Map K V) → o.cmp a k ≡ Ordering.lt → Above a m → Above a (insert k v m)
  unfolding insert
  Above-insert a k v [] h t = (h, tt)
  Above-insert a k v ((j, w) ∷ m) h (p, t) = ground (arith, Above-insert a k v m h t)

  pub insert-IsSorted : (k : K) (v : V) (m : Map K V) → IsSorted m → IsSorted (insert k v m)
  unfolding insert
  insert-IsSorted k v [] h = (tt, tt)
  insert-IsSorted k v ((j, w) ∷ m) (above, h) = ground (
    arith,
    insert-IsSorted k v m h,
    o.eq_of_cmp k j,
    o.lt_of_gt k j,
    Above-trans k j m,
    Above-insert j k v m,
  )

  Above-remove : (a k : K) (m : Map K V) → Above a m → Above a (remove k m)
  unfolding remove
  Above-remove a k [] t = tt
  Above-remove a k ((j, w) ∷ m) (p, t) = ground (arith, Above-remove a k m t)

  pub remove-IsSorted : (k : K) (m : Map K V) → IsSorted m → IsSorted (remove k m)
  unfolding remove
  remove-IsSorted k [] h = tt
  remove-IsSorted k ((j, w) ∷ m) (above, h) =
      ground (arith, remove-IsSorted k m h, Above-remove j k m above)

  pub get-eq-none : (k : K) (m : Map K V) → Above k m → get k m ≡ none
  unfolding get
  get-eq-none k [] h = refl
  get-eq-none k ((j, w) ∷ m) (lt, h) = ground (arith, get-eq-none k m h)
