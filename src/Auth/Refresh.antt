-- ===== src/Auth/Refresh.antt =====
-- core/auth/refresh.service.ts: `RefreshService`, on the part of token/token.service.ts that it
-- calls. `Jwt` is what these rely on of the package jsonwebtoken; a claim that is missing is the
-- empty text. The users are `find_user`. The random id of a new token is an argument, and Redis does
-- not fail. The branch of `parseAllowRecord` for the value '1' is never reached, since that is JSON.
pub mod Spent
pub mod Issued
pub mod Single
use negare_api.Base.{
  ℕ, ◌≤◌, ◌≡◌, Bool, true, false, ◌&&◌, ◌||◌, not, List, [], ◌∷◌, Option, none, some, String, same,
  if◌then◌else◌, max, or_else, filter,
}
use mathlib.Core.List.{filter_map}
use negare_api.Base.Exec.{
  Exec, Result, ok, throws, pure, throw, guard, lift, modify, gets, ◌>>=◌, ◌>>◌,
}
use negare_api.Redis.{Redis, Codec}
use negare_api.Auth.Sessions.{
  AuthRedis, AuthState, RefreshAllowRecord, link_refresh_jti, unlink_refresh_jti,
}

pub record RefreshTokenPayload : Type 0 where
  pub sub : String
  pub sid : String
  pub jti : String
  pub typ : String

pub record TokenPair : Type 0 where
  pub access_token : String
  pub refresh_token : String

-- A user with the names of the roles of its relations.
pub record UserWithRelations : Type 0 where
  pub id : String
  pub roles : List (Option String)

pub data AuthFailure : Type 0 where
  token_missing : AuthFailure
  verification_failed : AuthFailure
  malformed : AuthFailure
  no_longer_valid : AuthFailure
  state_mismatch : AuthFailure
  session_mismatch : AuthFailure
  user_not_found : AuthFailure

-- A token holds the same claims whenever it is read.
pub record Jwt : Type 0 where
  pub verify : (now : ℕ) → (ignore_expiration : Bool) → String → Option RefreshTokenPayload
  pub sign_refresh : (now : ℕ) → RefreshTokenPayload → String
  pub sign_access : (now : ℕ) → (user_id : String) → (roles : List String) → String
  pub verify_same :
      (now later : ℕ) (i j : Bool) (token : String) (c d : RefreshTokenPayload)
      → verify now i token ≡ some c
      → verify later j token ≡ some d
      → c ≡ d

abbrev pub is_blank : String → Bool
is_blank t = same t ""

-- A text that counts as true.
abbrev pub truthy : Option String → Bool
truthy none = false
truthy (some t) = not (is_blank t)

-- `Array.from(new Set(names))`
unfoldable pub unique_names : List String → List String
unique_names [] = []
unique_names (x ∷ xs) = x ∷ filter (λ y. not (same y x)) (unique_names xs)

abbrev role_name : Option String → Option String
role_name o = if truthy o then o else none

module _ (a : AuthRedis) (jwt : Jwt) (find_user : String → Option UserWithRelations)
    (session_ttl refresh_ttl : ℕ) where
  abbrev pub Method : Type 0 → Type 0
  Method A = Exec (AuthState a) AuthFailure A

  abbrev pub is_refresh_payload : RefreshTokenPayload → Bool
  is_refresh_payload c = same c.typ "refresh" && not (is_blank c.jti) && not (is_blank c.sid)

  abbrev pub holds_one : Option String → Bool
  holds_one none = false
  holds_one (some x) = same x "1"

  unfoldable pub is_refresh_blacklisted : (now : ℕ) → String → AuthState a → Bool
  is_refresh_blacklisted now jti st = holds_one (a.blacklist.get now jti st.blacklist)

  unfoldable pub blacklist_refresh_jti : (now : ℕ) → String → AuthState a → AuthState a
  blacklist_refresh_jti now jti st = record st {
    blacklist = a.blacklist.set_ex now jti "1" refresh_ttl st.blacklist;
  }

  -- `verifyRefresh`, any failure of which is the same to the client.
  unfoldable pub verify_refresh_token :
      (now : ℕ) → (ignore_expiration skip_blacklist : Bool) → String → Method RefreshTokenPayload
  verify_refresh_token now ignore_expiration skip_blacklist token st =
      if is_blank token
      then (throws token_missing, st)
      else elim (jwt.verify now ignore_expiration token) [
        | none ↦ (throws verification_failed, st)
        | some c ↦
            if is_refresh_payload c && (skip_blacklist || not (is_refresh_blacklisted now c.jti st))
            then (ok c, st)
            else (throws verification_failed, st)
      ]

  -- GETDEL on the allow list.
  unfoldable pub atomic_get_del : (now : ℕ) → (jti : String) → Method a.json.Json
  atomic_get_del now jti st = elim (a.allowed.get now jti st.allowed) [
    | none ↦ (throws no_longer_valid, record st { allowed = a.allowed.del jti st.allowed })
    | some stored ↦ (ok stored, record st { allowed = a.allowed.del jti st.allowed })
  ]

  unfoldable pub parse_allow_record :
      a.json.Json → (expected_user : String) → Option RefreshAllowRecord
  parse_allow_record stored expected_user = elim (a.json.parse stored) [
    | none ↦ none
    | some rec ↦
        if not (is_blank rec.user_id) && same rec.user_id expected_user then some rec else none
  ]

  unfoldable pub check_record :
      a.json.Json → RefreshTokenPayload → Result AuthFailure RefreshAllowRecord
  check_record stored c = elim (parse_allow_record stored c.sub) [
    | none ↦ throws state_mismatch
    | some rec ↦
        if truthy rec.session_id && not (same (or_else rec.session_id "") c.sid)
        then throws session_mismatch
        else ok rec
  ]

  abbrev pub unlink_if : Option String → (user_id jti : String) → AuthState a → AuthState a
  unlink_if none user_id jti st = st
  unlink_if (some sid) user_id jti st =
      if is_blank sid then st else unlink_refresh_jti a session_ttl user_id sid jti st

  abbrev pub link_if :
      (now : ℕ) → Option String → (user_id jti : String) → AuthState a → AuthState a
  link_if now none user_id jti st = st
  link_if now (some sid) user_id jti st =
      if is_blank sid then st else link_refresh_jti a session_ttl now user_id sid jti st

  abbrev pub user_result : Option UserWithRelations → Result AuthFailure UserWithRelations
  user_result none = throws user_not_found
  user_result (some u) = ok u

  abbrev pub allow_record : String → Option String → RefreshAllowRecord
  allow_record user_id session_id = record { user_id = user_id; session_id = session_id }

  abbrev pub new_payload : String → Option String → (jti : String) → RefreshTokenPayload
  new_payload user_id session_id jti = record {
    sub = user_id;
    sid = or_else session_id jti;
    jti = jti;
    typ = "refresh";
  }

  -- The new pair; its id goes on the allow list and is linked to the session.
  unfoldable pub build_pair :
      (now : ℕ) → (jti : String) → UserWithRelations → Option String → Method TokenPair
  build_pair now jti user session_id st =
      let stored = a.json.stringify (allow_record user.id session_id) in
      (
        ok (record {
          access_token =
              jwt.sign_access now user.id (unique_names (filter_map role_name user.roles));
          refresh_token = jwt.sign_refresh now (new_payload user.id session_id jti);
        }),
        link_if now session_id user.id jti (record st {
          allowed = a.allowed.set_ex now jti stored (max refresh_ttl 60) st.allowed;
        }),
      )

  unfoldable pub issue_tokens_for_user_id :
      (now : ℕ) → (jti user_id : String) → Option String → Method TokenPair
  issue_tokens_for_user_id now jti user_id session_id = do
    user ← lift (user_result (find_user user_id))
    build_pair now jti user session_id

  -- What follows when the id was on the allow list.
  unfoldable pub rotate :
      (now : ℕ) → (new_jti : String) → RefreshTokenPayload → a.json.Json → Method TokenPair
  rotate now new_jti c stored = do
    rec ← lift (check_record stored c)
    _ ← modify (blacklist_refresh_jti now c.jti)
    _ ← modify (unlink_if rec.session_id c.sub c.jti)
    user ← lift (user_result (find_user c.sub))
    build_pair now new_jti user (some (or_else rec.session_id c.sid))

  unfoldable pub refresh : (now : ℕ) → (new_jti token : String) → Method TokenPair
  refresh now new_jti token = do
    c ← verify_refresh_token now false false token
    _ ← guard (not (is_blank c.sub) && not (is_blank c.jti)) malformed
    stored ← atomic_get_del now c.jti
    rotate now new_jti c stored

  abbrev pub revoke_payload : (now : ℕ) → RefreshTokenPayload → AuthState a → AuthState a
  revoke_payload now c st =
      if is_blank c.sub || is_blank c.jti
      then st
      else unlink_if (some c.sid) c.sub c.jti
          (blacklist_refresh_jti now c.jti (record st { allowed = a.allowed.del c.jti st.allowed }))

  unfoldable pub revoke : (now : ℕ) → (token : String) → Method (Unit {0})
  revoke now token = do c ← verify_refresh_token now true true token; modify (revoke_payload now c)
