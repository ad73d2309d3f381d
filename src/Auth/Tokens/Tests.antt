-- ===== src/Auth/Tokens/Tests.antt =====
-- The theorems on tokens and guards at one user, and runs of what reads headers.
use negare_api.Base.{◌≡◌, refl, true, false, [], ◌∷◌, Option, none, some, arith}
use negare_api.Base.Text.{Text, codes, trim, lower, text_eq, split, join}
use negare_api.Base.Exec.{ok, throws}
use negare_api.Redis.Memory.{memory}
use negare_api.Auth.Refresh.{unique_names}
use negare_api.Auth.Tokens.{
  TokenConfig, access_claims, sign_access, sign_refresh, verify_access, invalid_token,
  extract_bearer, split_words, allow_one_time, consume_one_time,
}
use negare_api.Auth.Tokens.Guards.{
  HttpRequest, MockUserHeaderPayload, MockSettings, GuardFailure, jwt_guard, hybrid_guard,
  is_mock_enabled, is_public_path, try_bearer, authenticate_with_mock_header, extract_bearer_token,
}
use negare_api.Auth.Tokens.Memory.{jws}
use negare_api.Auth.Tokens.Admitted.{access_token_admits, refresh_token_admitted, user_with}
use negare_api.Auth.Tokens.Bearer.{bearer_header}
use negare_api.Auth.Tokens.Shown.{admitted_shows_token, Presents}
use negare_api.Users.Access.{CurrentUser}

abbrev config : TokenConfig
config = record {
  access_secret = "changeme";
  refresh_secret = "changeme";
  issuer = none;
  audience = some "negare";
  access_ttl_sec = 600;
  refresh_ttl_sec = 2_592_000;
}

abbrev no_mock : Text → Option MockUserHeaderPayload
no_mock t = none

abbrev production : MockSettings
production = record { mock_auth_enabled = none; node_env = some (codes "production") }

abbrev with_token : Text → HttpRequest
with_token token = record {
  path = codes "/api/users";
  authorization = some (bearer_header token);
  access_token = none;
  mock_user = none;
}

abbrev access : Text
access = sign_access jws config 100 "u1" ("admin" ∷ [])

abbrev refresh : Text
refresh = sign_refresh jws config 100 "u1" "s1" "j1"

abbrev ann : CurrentUser
ann = user_with "u1" ("admin" ∷ [])

access_token_admits_example :
    (verify_access jws config 699 access ≡ ok (access_claims "u1" ("admin" ∷ [])))
    × (jwt_guard jws "changeme" 699 (with_token access) ≡ ok ann)
    × (hybrid_guard jws "changeme" no_mock 699 production false (with_token access) ≡ ok (some ann))
unfolding is_public_path
access_token_admits_example =
    access_token_admits jws config no_mock 100 699 "u1" ("admin" ∷ []) production
      (with_token access) refl (omega arith) refl refl

refresh_token_admitted_example :
    (verify_access jws config 699 refresh ≡ throws invalid_token)
    × (jwt_guard jws "changeme" 699 (with_token refresh) ≡ ok (user_with "u1" []))
    × (hybrid_guard jws "changeme" no_mock 699 production false (with_token refresh)
        ≡ ok (some (user_with "u1" [])))
unfolding is_public_path
refresh_token_admitted_example =
    refresh_token_admitted jws config no_mock 100 699 "u1" "s1" "j1" production (with_token refresh)
      refl refl (omega arith) refl refl

let_in :
    hybrid_guard jws "changeme" no_mock 699 production false (with_token access) ≡ ok (some ann)
let_in = let (_, _, entered) = access_token_admits_example in entered

admitted_shows_token_example :
    (u : CurrentUser) × (header : Text) × (some ann ≡ some u)
    × ((with_token access).authorization ≡ some header)
    × Presents jws "changeme" 699 (split b' ' header) u
unfolding is_mock_enabled is_public_path text_eq
admitted_shows_token_example =
    admitted_shows_token jws "changeme" no_mock 699 production (with_token access) (some ann) refl
      refl let_in

-- `JSON.parse` of the one header below.
abbrev parse_mock : Text → Option MockUserHeaderPayload
parse_mock t = some (record { id = some "u9"; roles = some (some ("admin" ∷ "admin" ∷ [])) })

headers : Unit {0}
unfolding hybrid_guard is_mock_enabled is_public_path try_bearer authenticate_with_mock_header
    unique_names extract_bearer split_words trim lower text_eq join extract_bearer_token split
headers = tt

-- With no setting at all, a header is enough to be an administrator.
mock_without_settings :
    hybrid_guard jws "changeme" parse_mock 699
      (record { mock_auth_enabled = none; node_env = none })
      false
      (record {
        path = codes "/api/users";
        authorization = none;
        access_token = none;
        mock_user = some (codes "x");
      })
    ≡ ok (some (user_with "u9" ("admin" ∷ [])))
unfolding headers
mock_without_settings = refl

-- Two spaces after the scheme: the service finds the token, the guard refuses the header.
two_spaces :
    (extract_bearer (some (codes "bearer  abc")) ≡ some (codes "abc"))
    × (extract_bearer_token (some (codes "bearer  abc")) ≡ throws GuardFailure.token_not_found)
unfolding headers
two_spaces = (refl, refl)

-- A token for one use, allowed with an hour of life, is good once.
used_once :
    let st = allow_one_time memory 5 "j1" 3600 (λ k. none) in
    let (first, st') = consume_one_time memory 6 "j1" st in
    let (second, st'') = consume_one_time memory 7 "j1" st' in (first ≡ true) × (second ≡ false)
unfolding allow_one_time consume_one_time
used_once = (refl, refl)
