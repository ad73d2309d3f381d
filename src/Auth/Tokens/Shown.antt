-- ===== src/Auth/Tokens/Shown.antt =====
-- core/auth/guards: what a request has shown that `HybridAuthGuard` lets in.
use negare_api.Base.{
  ℕ, ◌≡◌, refl, true, false, List, [], ◌∷◌, Option, none, some, String, Bool-cases, Option-cases,
  inl, inr,
}
use negare_api.Base.Text.{Text, split}
use negare_api.Base.Exec.{Result, ok, throws}
use negare_api.Auth.Refresh.{is_blank}
use negare_api.Auth.Tokens.{Jws, Claims}
use negare_api.Auth.Tokens.Guards.{
  HttpRequest, MockUserHeaderPayload, MockSettings, GuardFailure, user_of, no_options, verify_token,
  try_bearer, hybrid_guard, is_mock_enabled, is_public_path, is_bearer, try_parts, or_mock,
  some_user,
}
use negare_api.Users.Access.{CurrentUser}

pub some_user-ok :
    (r : Result GuardFailure CurrentUser) (u : CurrentUser) → some_user r ≡ ok (some u) → r ≡ ok u
some_user-ok (ok v) u h = cc h
some_user-ok (throws e) u h = absurd (cc h)

module _ (jws : Jws) (secret : String) (now : ℕ) where
  -- The parts of a header name a bearer whom the secret verifies.
  abbrev pub Presents : List Text → CurrentUser → Type 0
  Presents parts u =
      (scheme : Text) × (token : Text) × (rest : List Text) × (c : Claims) × (parts
        ≡ scheme ∷ token ∷ rest)
      × (is_bearer scheme ≡ true)
      × (jws.verify now secret no_options token ≡ some c)
      × (is_blank c.sub ≡ false)
      × (u ≡ user_of c)

  pub verified_shows :
      (scheme token : Text) (rest : List Text) (u : CurrentUser)
      → is_bearer scheme ≡ true
      → verify_token jws secret now token ≡ ok u
      → Presents (scheme ∷ token ∷ rest) u
  unfolding verify_token
  verified_shows scheme token rest u bearer h =
      elim (Option-cases (jws.verify now secret no_options token)) [
        | inl none_known ↦ absurd (cc (rw (verify_token, none_known) at h))
        | inr (c, known) ↦ elim (Bool-cases (is_blank c.sub)) [
          | inl blank ↦ absurd (cc (rw (verify_token, known, blank) at h))
          | inr named ↦ (
            scheme,
            token,
            rest,
            c,
            refl,
            bearer,
            known,
            named,
            cc (rw (verify_token, known, named) at h),
          )
        ]
      ]

  pub parts_show :
      (parts : List Text) (u : CurrentUser)
      → try_parts jws secret now parts ≡ ok (some u)
      → Presents parts u
  parts_show [] u h = absurd (cc h)
  parts_show (scheme ∷ []) u h = absurd (cc h)
  parts_show (scheme ∷ [] ∷ rest) u h = absurd (cc h)
  parts_show (scheme ∷ (c ∷ t) ∷ rest) u h = elim (Bool-cases (is_bearer scheme)) [
    | inl bearer ↦
        verified_shows scheme (c ∷ t) rest u bearer
          (some_user-ok (verify_token jws secret now (c ∷ t)) u (rw bearer at h))
    | inr away ↦ absurd (cc (rw away at h))
  ]

  pub header_shows :
      (o : Option Text) (u : CurrentUser)
      → try_bearer jws secret now o ≡ ok (some u)
      → (header : Text) × (o ≡ some header) × Presents (split b' ' header) u
  unfolding try_bearer
  header_shows none u h = absurd (cc h)
  header_shows (some []) u h = absurd (cc h)
  header_shows (some (c ∷ t)) u h = (c ∷ t, refl, parts_show (split b' ' (c ∷ t)) u h)

  pub not_mocked :
      (parse_mock : Text → Option MockUserHeaderPayload) (s : MockSettings) (req : HttpRequest)
      (r : Result GuardFailure (Option CurrentUser)) (user : Option CurrentUser)
      → is_mock_enabled s ≡ false
      → or_mock jws secret parse_mock s req r ≡ ok user
      → (u : CurrentUser) × (user ≡ some u) × (r ≡ ok (some u))
  not_mocked parse_mock s req (throws e) user off h = absurd (cc h)
  not_mocked parse_mock s req (ok none) user off h = absurd (cc (rw off at h))
  not_mocked parse_mock s req (ok (some u)) user off h = (u, cc h, refl)

-- Where mock users are not enabled, whoever is let in at a path that is not public has shown, as a
-- bearer, a token that the secret verifies, and is its subject, with its roles.
pub admitted_shows_token :
    (jws : Jws) (secret : String) (parse_mock : Text → Option MockUserHeaderPayload) (now : ℕ)
    (s : MockSettings) (req : HttpRequest) (user : Option CurrentUser)
    → is_mock_enabled s ≡ false
    → is_public_path req.path ≡ false
    → hybrid_guard jws secret parse_mock now s false req ≡ ok user
    → (u : CurrentUser) × (header : Text) × (user ≡ some u)
      × (req.authorization ≡ some header)
      × Presents jws secret now (split b' ' header) u
unfolding hybrid_guard
admitted_shows_token jws secret parse_mock now s req user off closed ran =
    let (u, is_user, tried) =
      not_mocked jws secret now parse_mock s req (try_bearer jws secret now req.authorization) user
        off (rw closed at ran) in
    let (header, there, shows) = header_shows jws secret now req.authorization u tried in
    (u, header, is_user, there, shows)
