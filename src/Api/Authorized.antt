-- ===== src/Api/Authorized.antt =====
-- Which requests src/api.rs authorises.
use pingora_reverse_proxy.Prelude.{
  ℕ, ◌≡◌, refl, sym, ap, ◌∙◌, ◌↔◌, Bool, true, false, Option, none, some, [], ◌∷◌, ◌++◌, length,
  ◌==◌, Text, text, text_eq, text_eq_refl, eq_of_text_eq, ==_iff, Bool-cases, inl, inr,
}
use pingora_reverse_proxy.Api.{
  javascript_whitespace_width, skip_whitespace, until_whitespace, token_after, search,
  extract_token, token_of, matches, authorized,
}

text_eq-length : (a b : Text) → (length a == length b) ≡ false → text_eq a b ≡ false
text_eq-length a b h = elim (Bool-cases (text_eq a b)) [
  | inl e ↦ cc (rw (eq_of_text_eq a b e) at h, (==_iff (length b) (length b)).1 refl)
  | inr e ↦ e
]

module _ (first_char : Text → Option ℕ) where
  matches-text :
      (constant_time_eq : Text → Text → Bool) (expected candidate : Text)
      → ((a b : Text) → length a ≡ length b → constant_time_eq a b ≡ text_eq a b)
      → matches first_char constant_time_eq expected (some candidate) ≡ text_eq candidate expected
  matches-text ct expected candidate law = elim (Bool-cases (length candidate == length expected)) [
    | inl e ↦ rw (e) (law candidate expected ((==_iff (length candidate) (length expected)).0 e))
    | inr e ↦ rw (e) (sym (text_eq-length candidate expected e))
  ]

  matches_iff :
      (constant_time_eq : Text → Text → Bool) (expected : Text) (candidate : Option Text)
      → ((a b : Text) → length a ≡ length b → constant_time_eq a b ≡ text_eq a b)
      → (matches first_char constant_time_eq expected candidate ≡ true)
        ↔ (candidate ≡ some expected)
  matches_iff ct expected none law = (λ h. cc (h), λ h. cc (h))
  matches_iff ct expected (some candidate) law = (
    λ h.
        ap some
          (eq_of_text_eq candidate expected (sym (matches-text ct expected candidate law) ∙ h)),
    λ h. matches-text ct expected candidate law ∙ cc (h, text_eq_refl expected),
  )

  -- With a comparison that is right on texts of one length, and a configured token: a request is
  -- authorised exactly when that token is what is extracted from its header. So a header without a
  -- token, or with one of another length, is refused.
  pub authorized_iff :
      (constant_time_eq : Text → Text → Bool) (expected : Text) (header : Option Text)
      → ((a b : Text) → length a ≡ length b → constant_time_eq a b ≡ text_eq a b)
      → (authorized first_char constant_time_eq (some expected) header ≡ true)
        ↔ (token_of first_char header ≡ some expected)
  unfolding authorized
  authorized_iff ct expected header law = matches_iff ct expected (token_of first_char header) law

  -- No whitespace begins anywhere in the text.
  abbrev pub IsDense : Text → Type 0
  IsDense [] = Unit
  IsDense (x ∷ xs) = (javascript_whitespace_width first_char (x ∷ xs) ≡ none) × IsDense xs

  until_whitespace-dense : (t : Text) → IsDense t → until_whitespace first_char t ≡ t
  unfolding until_whitespace
  until_whitespace-dense [] h = refl
  until_whitespace-dense (x ∷ xs) (h, d) = rw (until_whitespace, h, until_whitespace-dense xs d)

  skip_whitespace-dense :
      (x : ℕ) (xs : Text) → IsDense (x ∷ xs) → skip_whitespace first_char 0 (x ∷ xs) ≡ x ∷ xs
  unfolding skip_whitespace
  skip_whitespace-dense x xs (h, d) = rw (skip_whitespace, h)

  skip_whitespace-space :
      (s : Text) → skip_whitespace first_char 0 (32 ∷ s) ≡ skip_whitespace first_char 0 s
  unfolding skip_whitespace javascript_whitespace_width
  skip_whitespace-space s = refl

  token_after-dense :
      (x : ℕ) (xs : Text) → IsDense (x ∷ xs) → token_after first_char (32 ∷ x ∷ xs) ≡ some (x ∷ xs)
  unfolding token_after
  token_after-dense x xs d = rw (
    skip_whitespace-space (x ∷ xs),
    skip_whitespace-dense x xs d,
    until_whitespace-dense (x ∷ xs) d,
  )

  -- A header of `token`, a space, and a token that is not empty and has no whitespace gives the token.
  pub extract_token-token :
      (x : ℕ) (xs : Text)
      → IsDense (x ∷ xs)
      → extract_token first_char (text "token " ++ x ∷ xs) ≡ some (x ∷ xs)
  unfolding extract_token search
  extract_token-token x xs d = rw (token_after-dense x xs d)
