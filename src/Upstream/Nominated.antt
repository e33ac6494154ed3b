-- ===== src/Upstream/Nominated.antt =====
-- The headers that a request's `Connection` header names, and their way through the header policy
-- of src/upstream.rs.
use pingora_reverse_proxy.Prelude.{
  ◌≡◌, ◌≢◌, refl, sym, ap, Bool, true, false, not, ◌&&◌, Option, none, some, List, [], All, ◌∷◌,
  ◌++◌, map, any, ◌⊎◌, arith, Bool-cases, inl, inr, ok, err, Result, Text, text_eq, text_eq_refl,
  eq_of_text_eq, split, is_empty,
}
use pingora_reverse_proxy.Map.{Map}
use pingora_reverse_proxy.Config.{ProxyOptions}
use pingora_reverse_proxy.Upstream.Headers.{
  HttpHeaders, ProxyRequestError, connection, upgrade, host_header, forwarded_host, filter_map,
  filter, concat, trim, eq_ignore_ascii_case, connection_tokens, named, parse_value, cons_header,
  parse_custom,
}

abbrev pub Mem : {A : Type 0} → A → List A → Type 0
Mem a [] = ⊥
Mem a (x ∷ xs) = (a ≡ x) ⊎ Mem a xs

Mem-map :
    {A : Type 0} {B : Type 0} (f : A → B) (a : A) (xs : List A) → Mem a xs → Mem (f a) (map f xs)
Mem-map f a [] m = absurd m
Mem-map f a (x ∷ xs) (inl e) = inl (ap f e)
Mem-map f a (x ∷ xs) (inr m) = inr (Mem-map f a xs m)

Mem-append-right : {A : Type 0} (a : A) (xs ys : List A) → Mem a ys → Mem a (xs ++ ys)
Mem-append-right a [] ys m = m
Mem-append-right a (x ∷ xs) ys m = inr (Mem-append-right a xs ys m)

Mem-append-left : {A : Type 0} (a : A) (xs ys : List A) → Mem a xs → Mem a (xs ++ ys)
Mem-append-left a [] ys m = absurd m
Mem-append-left a (x ∷ xs) ys (inl e) = inl e
Mem-append-left a (x ∷ xs) ys (inr m) = inr (Mem-append-left a xs ys m)

Mem-concat :
    {A : Type 0} (a : A) (xs : List A) (xss : List (List A))
    → Mem a xs
    → Mem xs xss
    → Mem a (concat xss)
Mem-concat a xs [] m k = absurd k
Mem-concat a xs (ys ∷ xss) m (inl e) = Mem-append-left a ys (concat xss) (rw (sym e) m)
Mem-concat a xs (ys ∷ xss) m (inr k) = Mem-append-right a ys (concat xss) (Mem-concat a xs xss m k)

Mem-kept :
    (a x : Text) (xs : List Text) (b : Bool)
    → Mem a xs
    → Mem a (elim b [ true ↦ x ∷ xs | false ↦ xs ])
Mem-kept a x xs true m = inr m
Mem-kept a x xs false m = m

Mem-kept_some :
    (t : Text) (ts : List Text) (o : Option Text)
    → Mem t ts
    → Mem t (elim o [ none ↦ ts | some u ↦ u ∷ ts ])
Mem-kept_some t ts none m = m
Mem-kept_some t ts (some u) m = inr m

Mem-first :
    (a x : Text) (xs : List Text) (b : Bool)
    → a ≡ x
    → b ≡ true
    → Mem a (elim b [ true ↦ x ∷ xs | false ↦ xs ])
Mem-first a x xs true e h = inl e
Mem-first a x xs false e h = cc (h)

Mem-first_some :
    (t : Text) (ts : List Text) (o : Option Text)
    → o ≡ some t
    → Mem t (elim o [ none ↦ ts | some u ↦ u ∷ ts ])
Mem-first_some t ts none h = cc (h)
Mem-first_some t ts (some u) h = inl (cc (h))

Mem-filter :
    (p : Text → Bool) (a : Text) (xs : List Text) → p a ≡ true → Mem a xs → Mem a (filter p xs)
Mem-filter p a [] h m = absurd m
Mem-filter p a (x ∷ xs) h (inl e) = Mem-first a x (filter p xs) (p x) e (rw (sym e) h)
Mem-filter p a (x ∷ xs) h (inr m) = Mem-kept a x (filter p xs) (p x) (Mem-filter p a xs h m)

Mem-filter_map :
    {A : Type 0} (f : A → Option Text) (a : A) (t : Text) (xs : List A)
    → f a ≡ some t
    → Mem a xs
    → Mem t (filter_map f xs)
Mem-filter_map f a t [] h m = absurd m
Mem-filter_map f a t (x ∷ xs) h (inl e) = Mem-first_some t (filter_map f xs) (f x) (rw (sym e) h)
Mem-filter_map f a t (x ∷ xs) h (inr m) =
    Mem-kept_some t (filter_map f xs) (f x) (Mem-filter_map f a t xs h m)

pub any-Mem : (t : Text) (ts : List Text) → Mem t ts → any (text_eq t) ts ≡ true
any-Mem t [] m = absurd m
any-Mem t (u ∷ ts) (inl e) = rw (sym e, text_eq_refl t)
any-Mem t (u ∷ ts) (inr m) = ground (arith, any-Mem t ts m)

module _ {H V : Type 0} (http : HttpHeaders H V) where
  -- A value of the request's `Connection` header has the name between two commas, with blanks
  -- around it. For a websocket, `Upgrade` is not counted.
  pub record Nominates (before : H) (name : Text) : Type 0 where
    pub value : V
    pub whole : Text
    pub piece : Text
    pub is_value : Mem value (http.get_all connection before)
    pub is_text : http.to_str value ≡ some whole
    pub is_piece : Mem piece (split 44 whole)
    pub is_not_empty : is_empty (trim piece) ≡ false
    pub is_not_upgrade : eq_ignore_ascii_case (trim piece) upgrade ≡ false
    pub is_name : http.from_bytes (trim piece) ≡ some name

  Nominates-token :
      (before : H) (name : Text) (n : Nominates before name)
      → Mem (trim n.piece) (connection_tokens http before)
  unfolding connection_tokens
  Nominates-token before name n =
      Mem-filter (λ token. not (is_empty token)) (trim n.piece) _ (ap not n.is_not_empty)
        (Mem-map trim n.piece _ (
          Mem-concat n.piece (split 44 n.whole) _ n.is_piece (
            Mem-map (split 44) n.whole _
              (Mem-filter_map http.to_str n.value n.whole _ n.is_text n.is_value))))

  not-and : (a b : Bool) → b ≡ false → not (a && b) ≡ true
  not-and a b h = ground (arith, h)

  pub Nominates-named :
      (websocket : Bool) (before : H) (name : Text)
      → Nominates before name
      → any (text_eq name) (named http websocket before) ≡ true
  unfolding named
  Nominates-named websocket before name n = any-Mem name _ (
      Mem-filter_map http.from_bytes (trim n.piece) name _ n.is_name (
        Mem-filter (λ token. not (websocket && eq_ignore_ascii_case token upgrade)) (trim n.piece) _
          (not-and websocket _ n.is_not_upgrade) (Nominates-token before name n)))

  -- No custom header has the name.
  abbrev pub IsNotCustom : Text → Map Text Text → Type 0
  IsNotCustom name custom = All (λ entry. http.from_bytes entry.0 ≢ some name) custom

  -- The name is none that the policy writes after it has removed what `Connection` names.
  abbrev pub IsNotWritten : Text → ProxyOptions → Type 0
  IsNotWritten name options =
      (text_eq name connection ≡ false)
      × (text_eq name upgrade ≡ false)
      × (text_eq name host_header ≡ false)
      × (text_eq name forwarded_host ≡ false)
      × IsNotCustom name options.custom_headers

  abbrev pub Differ : Text → List (Text × V) → Type 0
  Differ name custom = All (λ entry. text_eq name entry.0 ≡ false) custom

  parse_value-Differ :
      (name k v : Text) (n : Option Text) (w : Option V) (x : Text × V)
      → n ≢ some name
      → parse_value http k v n w ≡ ok x
      → text_eq name x.0 ≡ false
  parse_value-Differ name k v none w x d h = cc (h)
  parse_value-Differ name k v (some n) none x d h = cc (h)
  parse_value-Differ name k v (some n) (some w) x d h = elim (Bool-cases (text_eq name x.0)) [
    | inl e ↦ absurd (d (cc (h, eq_of_text_eq name x.0 e)))
    | inr e ↦ e
  ]

  cons_header-ok :
      (r : Result ProxyRequestError (Text × V)) (rs : Result ProxyRequestError (List (Text × V)))
      (xs : List (Text × V))
      → cons_header http r rs ≡ ok xs
      → (y : Text × V) × (ys : List (Text × V)) × (r ≡ ok y) × (rs ≡ ok ys) × (y ∷ ys ≡ xs)
  cons_header-ok (err e) rs xs h = cc (h)
  cons_header-ok (ok y) (err e) xs h = cc (h)
  cons_header-ok (ok y) (ok ys) xs h = (y, ys, refl, refl, cc (h))

  pub parse_custom-Differ :
      (name : Text) (headers : Map Text Text) (custom : List (Text × V))
      → IsNotCustom name headers
      → parse_custom http headers ≡ ok custom
      → Differ name custom
  unfolding parse_custom
  parse_custom-Differ name [] [] d h = tt
  parse_custom-Differ name [] (x ∷ xs) d h = cc (h)
  parse_custom-Differ name ((k, v) ∷ headers) custom (d, ds) h =
      let (y, ys, a, b, c) = cons_header-ok _ (parse_custom http headers) custom h in
      rw (sym c) (
        parse_value-Differ name k v (http.from_bytes k) (http.from_str v) y d a,
        parse_custom-Differ name headers ys ds b,
      )
