-- ===== src/Auth/Tokens/Guards.antt =====
-- core/auth/guards: `JwtAuthGuard` and `HybridAuthGuard`, which let requests in. Of a request they read
-- the header `authorization`, the cookie `access_token`, the header `x-mock-user` and the path; a
-- repeated header is left out. `parse_mock` is `JSON.parse` of a mock header.
use negare_api.Base.{
  ℕ, Bool, false, ◌||◌, not, List, [], ◌∷◌, map, Option, none, some, String, if◌then◌else◌, or_else,
}
use negare_api.Base.Text.{Text, codes, lower, text_eq, text_includes, split, starts_with}
use negare_api.Base.Exec.{Result, ok, throws}
use negare_api.Auth.Refresh.{is_blank, unique_names}
use negare_api.Auth.Tokens.{Jws, Claims, RoleClaim, VerifyOptions}
use negare_api.Users.Access.{CurrentUser}

pub record HttpRequest : Type 0 where
  pub path : Text
  pub authorization : Option Text
  pub access_token : Option Text
  pub mock_user : Option Text

-- `id` is `none` where it is no text; `roles` is `none` where it is missing or null, and `some none`
-- where it is another value that is no array.
pub record MockUserHeaderPayload : Type 0 where
  pub id : Option String
  pub roles : Option (Option (List String))

pub data GuardFailure : Type 0 where
  token_not_found : GuardFailure
  token_not_valid : GuardFailure
  scheme_not_supported : GuardFailure
  mock_not_valid : GuardFailure

abbrev shown : RoleClaim → String
shown (RoleClaim.name r) = r
shown (RoleClaim.other s) = s

abbrev shown_all : Option (List RoleClaim) → List String
shown_all none = []
shown_all (some rs) = map shown rs

abbrev pub user_of : Claims → CurrentUser
user_of c = record { id = c.sub; roles = some (shown_all c.roles); username = c.username }

-- `verify(token, secret)`
abbrev pub no_options : VerifyOptions
no_options = record {
  clock_tolerance = 0;
  ignore_expiration = false;
  issuer = none;
  audience = none;
}

abbrev with_subject : Option Claims → Result GuardFailure CurrentUser
with_subject none = throws token_not_valid
with_subject (some c) = if is_blank c.sub then throws token_not_valid else ok (user_of c)

abbrev pub is_bearer : Text → Bool
is_bearer scheme = text_eq (lower scheme) (codes "bearer")

-- `JwtAuthGuard.extractBearerToken`
abbrev second_part : List Text → Result GuardFailure (Option Text)
second_part (scheme ∷ (c ∷ t) ∷ rest) =
    if is_bearer scheme then ok (some (c ∷ t)) else throws token_not_found
second_part _ = throws token_not_found

unfoldable pub extract_bearer_token : Option Text → Result GuardFailure (Option Text)
extract_bearer_token none = ok none
extract_bearer_token (some []) = ok none
extract_bearer_token (some (c ∷ t)) = second_part (split b' ' (c ∷ t))

abbrev cookie_token : Option Text → Option Text
cookie_token none = none
cookie_token (some []) = none
cookie_token (some (c ∷ t)) = some (c ∷ t)

abbrev pub some_user : Result GuardFailure CurrentUser → Result GuardFailure (Option CurrentUser)
some_user (ok u) = ok (some u)
some_user (throws e) = throws e

module _ (jws : Jws) (access_secret : String) where
  unfoldable pub verify_token : (now : ℕ) → (token : Text) → Result GuardFailure CurrentUser
  verify_token now token = with_subject (jws.verify now access_secret no_options token)

  abbrev verified : (now : ℕ) → Option Text → Result GuardFailure CurrentUser
  verified now none = throws token_not_found
  verified now (some token) = verify_token now token

  -- The token of the header, else that of the cookie.
  abbrev chosen :
      (now : ℕ)
      → (cookie : Option Text) → Result GuardFailure (Option Text)
      → Result GuardFailure CurrentUser
  chosen now cookie (throws e) = throws e
  chosen now cookie (ok none) = verified now (cookie_token cookie)
  chosen now cookie (ok (some token)) = verify_token now token

  unfoldable pub jwt_guard : (now : ℕ) → HttpRequest → Result GuardFailure CurrentUser
  jwt_guard now req = chosen now req.access_token (extract_bearer_token req.authorization)

  -- `HybridAuthGuard.tryAuthenticateWithBearer`
  abbrev pub try_parts : (now : ℕ) → List Text → Result GuardFailure (Option CurrentUser)
  try_parts now (scheme ∷ (c ∷ t) ∷ rest) =
      if is_bearer scheme then some_user (verify_token now (c ∷ t)) else throws scheme_not_supported
  try_parts now _ = ok none

  unfoldable pub try_bearer : (now : ℕ) → Option Text → Result GuardFailure (Option CurrentUser)
  try_bearer now none = ok none
  try_bearer now (some []) = ok none
  try_bearer now (some (c ∷ t)) = try_parts now (split b' ' (c ∷ t))

-- `MOCK_AUTH_ENABLED` and `NODE_ENV`.
pub record MockSettings : Type 0 where
  pub mock_auth_enabled : Option Text
  pub node_env : Option Text

abbrev pub enabling : List Text
enabling = codes "1" ∷ codes "true" ∷ codes "yes" ∷ codes "on" ∷ []

unfoldable pub is_mock_enabled : MockSettings → Bool
is_mock_enabled s = elim s.mock_auth_enabled [
  | some flag ↦ text_includes enabling (lower flag)
  | none ↦ not (text_eq (or_else s.node_env (codes "development")) (codes "production"))
]

unfoldable pub is_public_path : (path : Text) → Bool
is_public_path path =
    starts_with (codes "/api/docs") path
    || starts_with (codes "/docs") path
    || starts_with (codes "/swagger-ui") path
    || starts_with (codes "/health") path

abbrev mock_roles : (id : String) → Option (Option (List String)) → Result GuardFailure CurrentUser
mock_roles id none = ok (record { id = id; roles = some []; username = none })
mock_roles id (some none) = throws mock_not_valid
mock_roles id (some (some rs)) =
    ok (record { id = id; roles = some (unique_names rs); username = none })

abbrev mock_user_of : Option MockUserHeaderPayload → Result GuardFailure CurrentUser
mock_user_of none = throws mock_not_valid
mock_user_of (some p) = elim p.id [
  | none ↦ throws mock_not_valid
  | some id ↦ if is_blank id then throws mock_not_valid else mock_roles id p.roles
]

module _ (parse_mock : Text → Option MockUserHeaderPayload) where
  unfoldable pub authenticate_with_mock_header : Option Text → Result GuardFailure CurrentUser
  authenticate_with_mock_header none = throws mock_not_valid
  authenticate_with_mock_header (some []) = throws mock_not_valid
  authenticate_with_mock_header (some (c ∷ t)) = mock_user_of (parse_mock (c ∷ t))

module _ (jws : Jws) (access_secret : String)
    (parse_mock : Text → Option MockUserHeaderPayload) where
  abbrev pub or_mock :
      MockSettings
      → HttpRequest
      → Result GuardFailure (Option CurrentUser)
      → Result GuardFailure (Option CurrentUser)
  or_mock s req (throws e) = throws e
  or_mock s req (ok (some u)) = ok (some u)
  or_mock s req (ok none) =
      if is_mock_enabled s
      then some_user (authenticate_with_mock_header parse_mock req.mock_user)
      else throws token_not_found

  -- The user that is set, if any; `throws` where the request is refused.
  unfoldable pub hybrid_guard :
      (now : ℕ)
      → MockSettings
      → (is_public : Bool) → HttpRequest
      → Result GuardFailure (Option CurrentUser)
  hybrid_guard now s is_public req =
      if is_public || is_public_path req.path
      then ok none
      else or_mock s req (try_bearer jws access_secret now req.authorization)
