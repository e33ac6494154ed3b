-- ===== src/Tests/Api.antt =====
-- The authorisation. The decoder knows ASCII only.
use pingora_reverse_proxy.Prelude.{
  ℕ, ◌≡◌, refl, ◌↔◌, true, Option, none, some, [], ◌∷◌, ◌++◌, Text, text, text_eq,
}
use pingora_reverse_proxy.Api.{javascript_whitespace_width, extract_token, token_of, authorized}
use pingora_reverse_proxy.Api.Authorized.{IsDense, authorized_iff, extract_token-token}

abbrev ascii_char : Text → Option ℕ
ascii_char [] = none
ascii_char (x ∷ xs) = some x

abbrev secret : Text
secret = text "abc"

secret-IsDense : IsDense ascii_char secret
unfolding javascript_whitespace_width
secret-IsDense = (refl, (refl, (refl, tt)))

extract_token-token_example : extract_token ascii_char (text "token " ++ secret) ≡ some secret
extract_token-token_example = extract_token-token ascii_char 97 (text "bc") secret-IsDense

authorized_test :
    authorized ascii_char text_eq (some secret) (some (text "a token x token abc"))
    ≡ authorized ascii_char text_eq (some secret) none
unfolding authorized text_eq
authorized_test = refl

authorized_iff_example :
    (authorized ascii_char text_eq (some secret) (some (text "token abc")) ≡ true)
    ↔ (token_of ascii_char (some (text "token abc")) ≡ some secret)
authorized_iff_example =
    authorized_iff ascii_char text_eq secret (some (text "token abc")) (λ a b h. refl)
