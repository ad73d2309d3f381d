-- ===== src/Auth/Service/Logout.antt =====
-- core/auth/auth.service.ts: a logout and what is refused after it.
use negare_api.Base.{
  ℕ, ◌≡◌, refl, ◌∙◌, subst, true, false, Option, none, some, String, same, same-eq, same_refl,
  Bool-cases, inl, inr,
}
use negare_api.Base.Exec.{ok}
use negare_api.Redis.Sets.{has}
use negare_api.Auth.Sessions.{AuthRedis, AuthState, pair_key, get, unlink_refresh_jti}
use negare_api.Auth.Sessions.{revoke as revoke_session}
use negare_api.Auth.Sessions.Revocation.{Revoked, revoke-Revoked, forget-keeps}
use negare_api.Auth.Refresh.{
  Jwt, RefreshTokenPayload, UserWithRelations, is_blank, revoke, revoke_payload,
  verify_refresh_token, blacklist_refresh_jti,
}
use negare_api.Auth.Refresh.{refresh}
use negare_api.Auth.Refresh.Single.{Refused, refuses}
use negare_api.Auth.Service.{missing_refresh, invalid_refresh, peek_refresh, logout, rotate}

module _ (a : AuthRedis) (jwt : Jwt) (find_user : String → Option UserWithRelations)
    (session_ttl refresh_ttl : ℕ) (decode_unsafe : String → Option RefreshTokenPayload) (now : ℕ)
    (token : String) (c : RefreshTokenPayload) where
  -- The token is one of a session, expired or not.
  pub record SessionToken : Type 0 where
    pub reads : jwt.verify now true token ≡ some c
    pub given : is_blank token ≡ false
    pub typed : same c.typ "refresh" ≡ true
    pub with_jti : is_blank c.jti ≡ false
    pub with_sid : is_blank c.sid ≡ false
    pub with_sub : is_blank c.sub ≡ false

  peek-eq :
      (st : AuthState a)
      → SessionToken
      → peek_refresh a jwt find_user session_ttl refresh_ttl decode_unsafe now true true token st
        ≡ some c
  unfolding peek_refresh
  peek-eq st w = elim (Bool-cases (is_blank c.typ)) [
    | inl blank ↦ rw (peek_refresh, w.reads, blank, w.typed, w.with_jti, w.with_sid)
    | inr typ ↦ rw (peek_refresh, w.reads, typ, w.typed, w.with_jti, w.with_sid)
  ]

  verify-eq :
      (st : AuthState a)
      → SessionToken
      → verify_refresh_token a jwt find_user session_ttl refresh_ttl now true true token st
        ≡ (ok c, st)
  unfolding verify_refresh_token
  verify-eq st w = rw (verify_refresh_token, w.given, w.reads, w.typed, w.with_jti, w.with_sid)

  revoke-eq :
      (st : AuthState a)
      → SessionToken
      → revoke a jwt find_user session_ttl refresh_ttl now token st
        ≡ (ok tt, revoke_payload a jwt find_user session_ttl refresh_ttl now c st)
  unfolding revoke
  revoke-eq st w = rw (revoke, verify-eq st w)

  logout-eq :
      (st : AuthState a)
      → SessionToken
      → logout a jwt find_user session_ttl refresh_ttl decode_unsafe now token st ≡ (
        ok tt,
        revoke_session a session_ttl c.sub c.sid
            (revoke_payload a jwt find_user session_ttl refresh_ttl now c st),
      )
  unfolding logout
  logout-eq st w = rw (logout, w.given, peek-eq st w, revoke-eq st w, w.with_sub, w.with_sid)

  -- What `revoke` of the token's own id leaves.
  own-Revoked :
      (later : ℕ) (st : AuthState a)
      → SessionToken
      → Revoked a session_ttl later c.jti
          (revoke_payload a jwt find_user session_ttl refresh_ttl now c st)
  unfolding blacklist_refresh_jti unlink_refresh_jti
  own-Revoked later st w =
      rw (w.with_sub, w.with_jti, w.with_sid)
        (a.allowed.get-del later c.jti c.jti st.allowed ∙ rw (same_refl c.jti))

  still-linked :
      (jti : String) (st : AuthState a)
      → SessionToken
      → same c.jti jti ≡ false
      → has (a.sets.members (pair_key c.sub c.sid) st.jtis) jti ≡ true
      → has
          (a.sets.members
            (pair_key c.sub c.sid)
            (revoke_payload a jwt find_user session_ttl refresh_ttl now c st).jtis)
          jti
        ≡ true
  unfolding blacklist_refresh_jti unlink_refresh_jti
  still-linked jti st w other linked =
      rw (w.with_sub, w.with_jti, w.with_sid)
        (a.sets.members-remove (pair_key c.sub c.sid) (pair_key c.sub c.sid) c.jti jti st.jtis
          ∙ rw (same_refl (pair_key c.sub c.sid), other) linked)

  revoke-keeps :
      (later : ℕ) (user_id session_id jti : String) (st : AuthState a)
      → Revoked a session_ttl later jti st
      → Revoked a session_ttl later jti (revoke_session a session_ttl user_id session_id st)
  unfolding revoke_session
  revoke-keeps later user_id session_id jti st h =
      forget-keeps a session_ttl later jti (a.sets.members (pair_key user_id session_id) st.jtis) st
        h

  session-Revoked :
      (later : ℕ) (jti : String) (st : AuthState a)
      → SessionToken
      → has (a.sets.members (pair_key c.sub c.sid) st.jtis) jti ≡ true
      → Revoked a session_ttl later jti (
          revoke_session a session_ttl c.sub c.sid
            (revoke_payload a jwt find_user session_ttl refresh_ttl now c st))
  session-Revoked later jti st w linked =
      let mid = revoke_payload a jwt find_user session_ttl refresh_ttl now c st in
      elim (Bool-cases (same c.jti jti)) [
        | inl eq ↦
            subst
              (λ x. Revoked a session_ttl later x (revoke_session a session_ttl c.sub c.sid mid))
              (same-eq c.jti jti eq)
              (revoke-keeps later c.sub c.sid c.jti mid (own-Revoked later st w))
        | inr ne ↦
            (revoke-Revoked a session_ttl later c.sub c.sid jti mid
              (still-linked jti st w ne linked)).0
      ]

  session-gone :
      (later : ℕ) (st : AuthState a)
      → get a session_ttl later c.sub c.sid (revoke_session a session_ttl c.sub c.sid st) ≡ none
  unfolding revoke_session get
  session-gone later st =
      a.records.get-del later (pair_key c.sub c.sid) (pair_key c.sub c.sid) _
      ∙ rw (same_refl (pair_key c.sub c.sid))

  rotate-Refused :
      (later : ℕ) (new_jti other : String) (st : AuthState a)
      → Refused (refresh a jwt find_user session_ttl refresh_ttl later new_jti other st).0
      → Refused
          (rotate a jwt find_user session_ttl refresh_ttl decode_unsafe later new_jti other st).0
  unfolding rotate
  rotate-Refused later new_jti other st (e, refused) = elim (Bool-cases (is_blank other)) [
    | inl blank ↦ (missing_refresh, rw (rotate, blank))
    | inr given ↦ (invalid_refresh, rw (rotate, given, refused))
  ]

  -- A logout with the token of a session returns. At any later time the session is not found, and a
  -- rotation is refused with any token whose id was linked to the session when it was closed.
  pub logout_refuses :
      (read_at later : ℕ) (new_jti other : String) (d : RefreshTokenPayload) (st : AuthState a)
      → SessionToken
      → jwt.verify read_at false other ≡ some d
      → has (a.sets.members (pair_key c.sub c.sid) st.jtis) d.jti ≡ true
      → let (res, st') =
          logout a jwt find_user session_ttl refresh_ttl decode_unsafe now token st in
        (res ≡ ok tt)
        × (get a session_ttl later c.sub c.sid st' ≡ none)
        × Refused
            (rotate a jwt find_user session_ttl refresh_ttl decode_unsafe later new_jti other st').0
  logout_refuses read_at later new_jti other d st w known linked = rw (logout-eq st w) (
    refl,
    session-gone later _,
    rotate-Refused later new_jti other _ (
        refuses a jwt find_user session_ttl refresh_ttl read_at later new_jti other d _ known
          (session-Revoked later d.jti st w linked)),
  )
