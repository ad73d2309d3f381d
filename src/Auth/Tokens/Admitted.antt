-- ===== src/Auth/Tokens/Admitted.antt =====
-- core/auth/guards and core/auth/token/token.service.ts: whom the guards let in.
use negare_api.Base.{
  ℕ, ◌+◌, ◌<◌, ◌≡◌, refl, ap, ◌∙◌, true, false, List, [], ◌∷◌, Option, none, some, String,
  same_refl, arith, subst,
}
use mathlib.Core.Option
use negare_api.Base.Text.{Text}
use negare_api.Base.Exec.{ok, throws}
use negare_api.Auth.Refresh.{is_blank}
use negare_api.Auth.Tokens.{
  Jws, Claims, VerifyOptions, TokenConfig, invalid_token, meets, names_only, role_names,
  sign_options, access_claims, refresh_claims, sign_access, sign_refresh, safe_verify,
  verify_access,
}
use negare_api.Auth.Tokens.Guards.{
  HttpRequest, MockUserHeaderPayload, MockSettings, user_of, no_options, jwt_guard, hybrid_guard,
  is_public_path,
}
use negare_api.Users.Access.{CurrentUser}
use negare_api.Auth.Tokens.Bearer.{bearer_header, jwt_admits, hybrid_admits}

names_only-role_names : (roles : List String) → names_only (some (role_names roles)) ≡ true
names_only-role_names [] = refl
names_only-role_names (r ∷ rs) = names_only-role_names rs

abbrev pub user_with : (user_id : String) → (roles : List String) → CurrentUser
user_with user_id roles = record { id = user_id; roles = some roles; username = none }

user_of-access :
    (user_id : String) (roles : List String)
    → user_of (access_claims user_id roles) ≡ user_with user_id roles
user_of-access user_id [] = refl
user_of-access user_id (r ∷ rs) =
    ap (λ (u : CurrentUser). record u { roles = Option.map (λ xs. r ∷ xs) u.roles })
      (user_of-access user_id rs)

meets_self : (o : Option String) → meets o o ≡ true
meets_self none = refl
meets_self (some t) = same_refl t

module _ (jws : Jws) (cfg : TokenConfig) where
  abbrev own : VerifyOptions
  own = record {
    clock_tolerance = 5;
    ignore_expiration = false;
    issuer = cfg.issuer;
    audience = cfg.audience;
  }

  -- What the service signed with a secret it verifies with the secret.
  own_verified :
      (now later ttl : ℕ) (secret : String) (c : Claims)
      → later < now + ttl
      → jws.verify later secret own (jws.sign now secret (sign_options jws cfg ttl) c) ≡ some c
  own_verified now later ttl secret c alive =
      jws.verify-sign now later secret (sign_options jws cfg ttl) own c (omega arith)
        (rw (meets_self cfg.issuer, meets_self cfg.audience) refl)

  bare_verified :
      (now later ttl : ℕ) (secret : String) (c : Claims)
      → later < now + ttl
      → jws.verify later secret no_options (jws.sign now secret (sign_options jws cfg ttl) c)
        ≡ some c
  bare_verified now later ttl secret c alive =
      jws.verify-sign now later secret (sign_options jws cfg ttl) no_options c (omega arith) refl

module _ (jws : Jws) (cfg : TokenConfig) (parse_mock : Text → Option MockUserHeaderPayload) where
  -- As long as an access token of a user whose id is not blank has not expired, `verifyAccess` takes
  -- it, and both guards, with the secret of the service, let a request in that shows it as a bearer at
  -- a path that is not public: as the user it was signed for, with those roles.
  pub access_token_admits :
      (now later : ℕ) (user_id : String) (roles : List String) (s : MockSettings)
      (req : HttpRequest)
      → is_blank user_id ≡ false
      → later < now + cfg.access_ttl_sec
      → req.authorization ≡ some (bearer_header (sign_access jws cfg now user_id roles))
      → is_public_path req.path ≡ false
      → (verify_access jws cfg later (sign_access jws cfg now user_id roles)
          ≡ ok (access_claims user_id roles))
        × (jwt_guard jws cfg.access_secret later req ≡ ok (user_with user_id roles))
        × (hybrid_guard jws cfg.access_secret parse_mock later s false req
            ≡ ok (some (user_with user_id roles)))
  unfolding sign_access verify_access safe_verify
  access_token_admits now later user_id roles s req named alive header closed =
      let c = access_claims user_id roles in
      let options = sign_options jws cfg cfg.access_ttl_sec in
      let token = jws.sign now cfg.access_secret options c in
      let plain = jws.sign_plain now cfg.access_secret options c in
      let known = bare_verified jws cfg now later cfg.access_ttl_sec cfg.access_secret c alive in
      let own_known = own_verified jws cfg now later cfg.access_ttl_sec cfg.access_secret c alive in
      let user = user_of-access user_id roles in
      (
        rw (verify_access, safe_verify, own_known, names_only-role_names roles, named) refl,
        jwt_admits jws cfg.access_secret later token c plain known named req header ∙ rw user refl,
        hybrid_admits jws cfg.access_secret later token c plain known named parse_mock s req header
              closed
            ∙ rw user refl,
      )

  -- Where the two secrets are the same, a refresh token that has not expired, of a user whose id is not
  -- blank, shown as a bearer at a path that is not public, is let in by both guards, as its user
  -- without a role; `verifyAccess` refuses it.
  pub refresh_token_admitted :
      (now later : ℕ) (user_id session_id jti : String) (s : MockSettings) (req : HttpRequest)
      → cfg.refresh_secret ≡ cfg.access_secret
      → is_blank user_id ≡ false
      → later < now + cfg.refresh_ttl_sec
      → req.authorization ≡ some (bearer_header (sign_refresh jws cfg now user_id session_id jti))
      → is_public_path req.path ≡ false
      → (verify_access jws cfg later (sign_refresh jws cfg now user_id session_id jti)
          ≡ throws invalid_token)
        × (jwt_guard jws cfg.access_secret later req ≡ ok (user_with user_id []))
        × (hybrid_guard jws cfg.access_secret parse_mock later s false req
            ≡ ok (some (user_with user_id [])))
  unfolding sign_refresh verify_access safe_verify
  refresh_token_admitted now later user_id session_id jti s req same_secret named alive header
        closed =
      let c = refresh_claims user_id session_id jti in
      let options = sign_options jws cfg cfg.refresh_ttl_sec in
      let token = jws.sign now cfg.refresh_secret options c in
      let plain = jws.sign_plain now cfg.refresh_secret options c in
      let known : jws.verify later cfg.access_secret no_options token ≡ some c =
        subst (λ k. jws.verify later k no_options token ≡ some c) same_secret
          (bare_verified jws cfg now later cfg.refresh_ttl_sec cfg.refresh_secret c alive) in
      let own_known : jws.verify later cfg.access_secret (own jws cfg) token ≡ some c =
        subst (λ k. jws.verify later k (own jws cfg) token ≡ some c) same_secret
          (own_verified jws cfg now later cfg.refresh_ttl_sec cfg.refresh_secret c alive) in
      (
        rw (verify_access, safe_verify, own_known) refl,
        jwt_admits jws cfg.access_secret later token c plain known named req header,
        hybrid_admits jws cfg.access_secret later token c plain known named parse_mock s req header
            closed,
      )
