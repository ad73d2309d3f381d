-- ===== src/Auth/Tokens.antt =====
-- core/auth/token/token.service.ts: the tokens of `TokenService`; the blacklist and the refresh tokens
-- as refresh.service.ts uses them are in Auth/Refresh. `Jws` is what the guards and the service rely
-- on of the package jsonwebtoken, with the algorithm HS256; a claim that is missing is the empty
-- text, and `now` is in seconds. A token is a text of base64 letters and dots.
pub mod Bearer
pub mod Shown
pub mod Guards
pub mod Admitted
pub mod Memory
mod Tests
use negare_api.Base.{
  ℕ, ◌+◌, ◌<◌, ◌≡◌, ◌⊎◌, Bool, true, false, ◌&&◌, ◌||◌, not, List, [], ◌∷◌, Option, none, some,
  String, same, if◌then◌else◌, ltb, all,
}
use negare_api.Base.Text.{Text, codes, is_space, trim, lower, text_eq, join, onto_first}
use negare_api.Base.Exec.{Result, ok, throws}
use negare_api.Redis.{Redis}
use negare_api.Auth.Refresh.{is_blank}

-- An entry of the claim `roles`: a text, or another value with what `String` makes of it.
pub data RoleClaim : Type 0 where
  name : String → RoleClaim
  other : (shown : String) → RoleClaim

-- `roles` is `none` where the claim is no array.
pub record Claims : Type 0 where
  pub sub : String
  pub sid : String
  pub jti : String
  pub typ : String
  pub roles : Option (List RoleClaim)
  pub username : Option String

pub record SignOptions : Type 0 where
  pub expires_in : ℕ
  pub issuer : Option String
  pub audience : Option String

pub record VerifyOptions : Type 0 where
  pub clock_tolerance : ℕ
  pub ignore_expiration : Bool
  pub issuer : Option String
  pub audience : Option String

-- What is asked for is what the token was signed with, or nothing.
abbrev pub meets : (asked given : Option String) → Bool
meets none given = true
meets (some a) none = false
meets (some a) (some g) = same a g

abbrev pub is_plain : Text → Bool
is_plain [] = false
is_plain (c ∷ t) = all (λ d. not (is_space d)) (c ∷ t)

pub record Jws : Type 0 where
  pub sign : (now : ℕ) → (secret : String) → SignOptions → Claims → Text
  pub verify : (now : ℕ) → (secret : String) → VerifyOptions → Text → Option Claims
  -- a token that is not expired is verified with the secret it was signed with
  pub verify-sign :
      (now later : ℕ) (secret : String) (s : SignOptions) (o : VerifyOptions) (c : Claims)
      → later < now + s.expires_in + o.clock_tolerance
      → (meets o.issuer s.issuer && meets o.audience s.audience) ≡ true
      → verify later secret o (sign now secret s c) ≡ some c
  pub sign_plain :
      (now : ℕ) (secret : String) (s : SignOptions) (c : Claims)
      → is_plain (sign now secret s c) ≡ true

pub data TokenFailure : Type 0 where
  invalid_token : TokenFailure
  invalid_token_type : TokenFailure
  malformed_access_token : TokenFailure

-- An issuer or an audience that is empty is none.
pub record TokenConfig : Type 0 where
  pub access_secret : String
  pub refresh_secret : String
  pub issuer : Option String
  pub audience : Option String
  pub access_ttl_sec : ℕ
  pub refresh_ttl_sec : ℕ

abbrev is_name : RoleClaim → Bool
is_name (RoleClaim.name r) = true
is_name (RoleClaim.other s) = false

abbrev pub names_only : Option (List RoleClaim) → Bool
names_only none = false
names_only (some rs) = all is_name rs

abbrev pub role_names : List String → List RoleClaim
role_names [] = []
role_names (r ∷ rs) = RoleClaim.name r ∷ role_names rs

abbrev pub access_claims : (user_id : String) → (roles : List String) → Claims
access_claims user_id roles = record {
  sub = user_id;
  sid = "";
  jti = "";
  typ = "access";
  roles = some (role_names roles);
  username = none;
}

abbrev pub refresh_claims : (user_id session_id jti : String) → Claims
refresh_claims user_id session_id jti = record {
  sub = user_id;
  sid = session_id;
  jti = jti;
  typ = "refresh";
  roles = none;
  username = none;
}

module _ (jws : Jws) (cfg : TokenConfig) where
  abbrev pub sign_options : ℕ → SignOptions
  sign_options ttl = record { expires_in = ttl; issuer = cfg.issuer; audience = cfg.audience }

  unfoldable pub sign_access : (now : ℕ) → (user_id : String) → (roles : List String) → Text
  sign_access now user_id roles =
      jws.sign now cfg.access_secret (sign_options cfg.access_ttl_sec) (access_claims user_id roles)

  unfoldable pub sign_refresh : (now : ℕ) → (user_id session_id jti : String) → Text
  sign_refresh now user_id session_id jti =
      jws.sign now cfg.refresh_secret (sign_options cfg.refresh_ttl_sec)
        (refresh_claims user_id session_id jti)

  -- Whatever fails is answered alike.
  unfoldable pub safe_verify :
      (now : ℕ)
      → (token : Text) → (secret : String) → (ignore_expiration : Bool) → (expected_typ : String)
      → Result TokenFailure Claims
  safe_verify now token secret ignore_expiration expected_typ =
      elim (jws.verify now secret
        (record {
          clock_tolerance = 5;
          ignore_expiration = ignore_expiration;
          issuer = cfg.issuer;
          audience = cfg.audience;
        })
        token) [
          | none ↦ throws invalid_token
          | some c ↦
              if not (is_blank c.typ) && not (same c.typ expected_typ)
              then throws invalid_token
              else ok c
        ]

  abbrev checked_access : Result TokenFailure Claims → Result TokenFailure Claims
  checked_access (throws e) = throws e
  checked_access (ok c) =
      if not (same c.typ "access")
      then throws invalid_token_type
      else if is_blank c.sub || not (names_only c.roles)
      then throws malformed_access_token
      else ok c

  unfoldable pub verify_access : (now : ℕ) → (token : Text) → Result TokenFailure Claims
  verify_access now token = checked_access (safe_verify now token cfg.access_secret false "access")

-- `split(/\s+/)`; `behind` says that a space stands in front.
unfoldable pub split_words : (behind : Bool) → Text → List Text
split_words behind [] = [] ∷ []
split_words behind (c ∷ t) =
    let word = split_words false t in
    let gap = split_words true t in
    if is_space c then (if behind then gap else [] ∷ gap) else onto_first c word

abbrev nonempty : Text → Option Text
nonempty [] = none
nonempty (c ∷ t) = some (c ∷ t)

abbrev bearer_of : List Text → Option Text
bearer_of [] = none
bearer_of (type ∷ rest) =
    if text_eq (lower type) (codes "bearer") then nonempty (join (codes " ") rest) else none

unfoldable pub extract_bearer : (auth_header : Option Text) → Option Text
extract_bearer none = none
extract_bearer (some []) = none
extract_bearer (some (c ∷ t)) = bearer_of (split_words false (trim (c ∷ t)))

-- The tokens that are good for one use.
module _ (once : Redis String) where
  unfoldable pub allow_one_time : (now : ℕ) → (jti : String) → (ttl_sec : ℕ) → once.St → once.St
  allow_one_time now jti ttl_sec st = once.set_ex now jti "1" ttl_sec st

  abbrev exists : Option String → Bool
  exists none = false
  exists (some x) = not (is_blank x)

  unfoldable pub consume_one_time : (now : ℕ) → (jti : String) → once.St → Bool × once.St
  consume_one_time now jti st =
      if exists (once.get now jti st) then (true, once.del jti st) else (false, st)
