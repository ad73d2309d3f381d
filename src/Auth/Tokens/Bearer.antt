-- ===== src/Auth/Tokens/Bearer.antt =====
-- core/auth/guards: both guards let in the subject of a token that the secret verifies.
use negare_api.Base.{
  ℕ, ◌≡◌, refl, sym, ap, Bool, true, false, ◌&&◌, not, [], ◌∷◌, ◌++◌, Option, some, String,
  Bool-cases, inl, inr, all, ◌==◌, ==_iff, subst,
}
use negare_api.Base.Text.{Text, codes, is_space, split, lower, lower_unit, text_eq}
use negare_api.Base.Exec.{ok}
use negare_api.Auth.Refresh.{is_blank}
use negare_api.Auth.Tokens.{Jws, Claims, is_plain}
use negare_api.Auth.Tokens.Guards.{
  HttpRequest, MockUserHeaderPayload, MockSettings, user_of, no_options, verify_token, jwt_guard,
  try_bearer, hybrid_guard, is_public_path, extract_bearer_token,
}

pub both : (a b : Bool) → (a && b) ≡ true → (a ≡ true) × (b ≡ true)
both true b h = (refl, h)
both false b h = absurd (cc h)

pub letter : (c : ℕ) → not (is_space c) ≡ true → (c == b' ') ≡ false
letter c h = elim (Bool-cases (c == b' ')) [
  | inr other ↦ other
  | inl space ↦ absurd (cc (subst (λ d. not (is_space d) ≡ true) ((==_iff c b' ').0 space) h))
]

pub split_plain : (t : Text) → all (λ d. not (is_space d)) t ≡ true → split b' ' t ≡ t ∷ []
unfolding split
split_plain [] h = refl
split_plain (c ∷ t) h =
    let (here, later) = both (not (is_space c)) (all (λ d. not (is_space d)) t) h in
    rw (letter c here, split_plain t later) refl

abbrev pub bearer_header : Text → Text
bearer_header token = codes "Bearer " ++ token

-- The parts of a header with a token that has letters.
pub split_bearer :
    (token : Text)
    → is_plain token ≡ true
    → (c : ℕ) × (t : Text) × (token ≡ c ∷ t)
      × (split b' ' (bearer_header token) ≡ codes "Bearer" ∷ (c ∷ t) ∷ [])
unfolding split
split_bearer [] h = absurd (cc h)
split_bearer (c ∷ t) h = (c, t, refl, rw (split_plain (c ∷ t) h) refl)

pub extracted-eq :
    (token : Text)
    → is_plain token ≡ true
    → extract_bearer_token (some (bearer_header token)) ≡ ok (some token)
unfolding extract_bearer_token text_eq lower lower_unit
extracted-eq token plain =
    let (a, t, e, parts) = split_bearer token plain in rw parts (ap (λ x. ok (some x)) (sym e))

module _ (jws : Jws) (secret : String) (now : ℕ) (token : Text) (c : Claims)
    (plain : is_plain token ≡ true) (known : jws.verify now secret no_options token ≡ some c)
    (named : is_blank c.sub ≡ false) where
  pub verify_token-eq : verify_token jws secret now token ≡ ok (user_of c)
  unfolding verify_token
  verify_token-eq = rw (known, named) refl

  pub tried-eq : try_bearer jws secret now (some (bearer_header token)) ≡ ok (some (user_of c))
  unfolding try_bearer text_eq lower lower_unit
  tried-eq =
      let (a, t, e, parts) = split_bearer token plain in
      rw parts (rw (sym e) (rw verify_token-eq refl))

  -- Both guards let the subject of a token in.
  pub jwt_admits :
      (req : HttpRequest)
      → req.authorization ≡ some (bearer_header token)
      → jwt_guard jws secret now req ≡ ok (user_of c)
  unfolding jwt_guard
  jwt_admits req header = rw (header, extracted-eq token plain) verify_token-eq

  pub hybrid_admits :
      (parse_mock : Text → Option MockUserHeaderPayload) (s : MockSettings) (req : HttpRequest)
      → req.authorization ≡ some (bearer_header token)
      → is_public_path req.path ≡ false
      → hybrid_guard jws secret parse_mock now s false req ≡ ok (some (user_of c))
  unfolding hybrid_guard
  hybrid_admits parse_mock s req header closed = rw (closed, header, tried-eq) refl
