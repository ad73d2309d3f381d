-- ===== src/Auth/Service.antt =====
-- core/auth/auth.service.ts: `logout` and `rotate` of `AuthService`, with `peekRefresh` of
-- token/token.service.ts. `decode_unsafe` is jsonwebtoken's reading of a token that is not checked.
-- Redis does not fail, so the errors are those of the refresh service, all of them 401.
pub mod Logout
pub mod Login
pub mod SignedIn
use negare_api.Base.{
  ℕ, ◌≡◌, Bool, true, false, ◌&&◌, ◌||◌, not, Option, none, some, String, same, if◌then◌else◌,
}
use negare_api.Base.Exec.{Exec, Result, ok, throws}
use negare_api.Redis.{Redis, Codec}
use negare_api.Auth.Sessions.{
  AuthRedis, AuthState, Owner, SessionRecord, find_session_by_jti, touch,
}
use negare_api.Auth.Sessions.{revoke as revoke_session}
use negare_api.Auth.Refresh.{
  Jwt, RefreshTokenPayload, TokenPair, UserWithRelations, AuthFailure, is_blank, is_refresh_payload,
  is_refresh_blacklisted, revoke, refresh,
}

pub data ServiceFailure : Type 0 where
  missing_refresh : ServiceFailure
  invalid_refresh : ServiceFailure

module _ (a : AuthRedis) (jwt : Jwt) (find_user : String → Option UserWithRelations)
    (session_ttl refresh_ttl : ℕ) (decode_unsafe : String → Option RefreshTokenPayload) where
  -- A token of another type is read unchecked, as one that fails.
  unfoldable pub peek_refresh :
      (now : ℕ)
      → (ignore_expiration allow_blacklisted : Bool) → String
      → AuthState a
      → Option RefreshTokenPayload
  peek_refresh now ignore_expiration allow_blacklisted token st =
      elim (jwt.verify now ignore_expiration token) [
        | none ↦ decode_unsafe token
        | some c ↦
            if not (is_blank c.typ) && not (same c.typ "refresh")
            then decode_unsafe token
            else if is_refresh_payload a jwt find_user session_ttl refresh_ttl c
                && (allow_blacklisted
                    || not (
                        is_refresh_blacklisted a jwt find_user session_ttl refresh_ttl now c.jti
                          st))
            then some c
            else none
      ]

  abbrev pub Method : Type 0 → Type 0
  Method A = Exec (AuthState a) ServiceFailure A

  abbrev revoke_owner : Option Owner → AuthState a → AuthState a
  revoke_owner none st = st
  revoke_owner (some (user_id, session_id)) st = revoke_session a session_ttl user_id session_id st

  abbrev touched : Option (SessionRecord × AuthState a) → AuthState a → AuthState a
  touched none st = st
  touched (some (rec, st')) st = st'

  abbrev touch_owner : (now : ℕ) → Option Owner → AuthState a → AuthState a
  touch_owner now none st = st
  touch_owner now (some (user_id, session_id)) st =
      touched (touch a session_ttl now user_id session_id st) st

  -- The session that the token names, or the one that its id is linked to.
  abbrev pub session_of : (now : ℕ) → Option RefreshTokenPayload → AuthState a → Option Owner
  session_of now none st = none
  session_of now (some c) st =
      if not (is_blank c.sub) && not (is_blank c.sid)
      then some (c.sub, c.sid)
      else if is_blank c.jti
      then none
      else find_session_by_jti a session_ttl now c.jti st

  abbrev answered : {A : Type 0} → Result AuthFailure A → Result ServiceFailure A
  answered (ok x) = ok x
  answered (throws e) = throws invalid_refresh

  abbrev if_ok :
      {A : Type 0} → Result AuthFailure A → (AuthState a → AuthState a) → AuthState a → AuthState a
  if_ok (ok x) f st = f st
  if_ok (throws e) f st = st

  unfoldable pub logout : (now : ℕ) → (refresh_token : String) → Method (Unit {0})
  logout now refresh_token st =
      if is_blank refresh_token
      then (throws missing_refresh, st)
      else let payload = peek_refresh now true true refresh_token st in
        let (res, st') = revoke a jwt find_user session_ttl refresh_ttl now refresh_token st in
        (answered res, if_ok res (λ s. revoke_owner (session_of now payload s) s) st')

  unfoldable pub rotate : (now : ℕ) → (new_jti refresh_token : String) → Method TokenPair
  rotate now new_jti refresh_token st =
      if is_blank refresh_token
      then (throws missing_refresh, st)
      else let payload = peek_refresh now false true refresh_token st in
        let (res, st') =
          refresh a jwt find_user session_ttl refresh_ttl now new_jti refresh_token st in
        (answered res, if_ok res (λ s. touch_owner now (session_of now payload s) s) st')
