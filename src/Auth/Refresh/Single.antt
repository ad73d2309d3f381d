-- ===== src/Auth/Refresh/Single.antt =====
-- A refresh token is good for one refresh, and for none once its session is closed.
use negare_api.Base.{
  ℕ, ◌≤◌, ◌≡◌, refl, subst, Bool, true, false, ◌&&◌, not, Option, some, String, same, Option-cases,
  inl, inr,
}
use negare_api.Base.Exec.{Result, ok, throws, guard}
use negare_api.Base.Triple.{Triple, Ends, Triple-bind}
use negare_api.Redis.Sets.{has}
use negare_api.Auth.Sessions.{AuthRedis, AuthState, pair_key, revoke_all}
use negare_api.Auth.Sessions.Revocation.{Revoked, revoke_all-Revoked}
use negare_api.Auth.Refresh.{
  Jwt, RefreshTokenPayload, TokenPair, UserWithRelations, AuthFailure, atomic_get_del, refresh,
  is_blank,
}
use negare_api.Base.Caught.{Any}
use negare_api.Auth.Refresh.Spent.{verify-Triple, refresh-Revoked}

abbrev pub Refused {ℓ} : {E A : Type ℓ} → Result E A → Type ℓ
Refused {E} r = (e : E) × (r ≡ throws e)

always_throws : {S E A : Type 0} (r : Result E A) (s : S) → Ends (λ _ _. ⊥) Any r s → Refused r
always_throws (ok x) s bad = absurd bad
always_throws (throws e) s u = (e, refl)

module _ (a : AuthRedis) (jwt : Jwt) (find_user : String → Option UserWithRelations)
    (session_ttl refresh_ttl : ℕ) where
  -- A token whose id is off the allow list is refused.
  refused-Triple :
      (now : ℕ) (new_jti token : String) (w : AuthState a)
      → ((c : RefreshTokenPayload)
          → jwt.verify now false token ≡ some c
          → Revoked a session_ttl now c.jti w)
      → Triple
          (λ u. u ≡ w)
          (refresh a jwt find_user session_ttl refresh_ttl now new_jti token)
          (λ _ _. ⊥)
          Any
  unfolding refresh atomic_get_del
  refused-Triple now new_jti token w gone =
      Triple-bind (λ d u. (u ≡ w) × (jwt.verify now false token ≡ some d)) _ _
        (verify-Triple a jwt find_user session_ttl refresh_ttl now token w)
        λ d.
          Triple-bind (λ _ u. (u ≡ w) × (jwt.verify now false token ≡ some d))
            (guard (not (is_blank d.sub) && not (is_blank d.jti)) AuthFailure.malformed) _
            (record { run = λ u p. passes (not (is_blank d.sub) && not (is_blank d.jti)) u p })
            λ _.
              Triple-bind (λ _ _. ⊥)
                (atomic_get_del a jwt find_user session_ttl refresh_ttl now d.jti) _
                (record { run = λ u p. rw (p.0, atomic_get_del, gone d p.1) tt })
                λ stored. record { run = λ u bad. absurd bad }
    where
      passes :
          {d : RefreshTokenPayload} (b : Bool) (u : AuthState a)
          → (u ≡ w) × (jwt.verify now false token ≡ some d)
          → Ends
              (λ _ u. (u ≡ w) × (jwt.verify now false token ≡ some d))
              Any
              (guard {E = AuthFailure} b AuthFailure.malformed u).0
              (guard {E = AuthFailure} b AuthFailure.malformed u).1
      passes true u p = p
      passes false u p = tt

  gone_later :
      (now later : ℕ) (jti : String) (u : AuthState a)
      → now ≤ later
      → Revoked a session_ttl now jti u
      → Revoked a session_ttl later jti u
  gone_later now later jti u le gone = elim (Option-cases (a.allowed.get later jti u.allowed)) [
    | inl missing ↦ missing
    | inr (x, there) ↦ absurd (cc (a.allowed.get_earlier now later jti u.allowed x le there, gone))
  ]

  pub refuses :
      (now later : ℕ) (new_jti token : String) (c : RefreshTokenPayload) (u : AuthState a)
      → jwt.verify now false token ≡ some c
      → Revoked a session_ttl later c.jti u
      → Refused (refresh a jwt find_user session_ttl refresh_ttl later new_jti token u).0
  refuses now later new_jti token c u known gone = always_throws _ _ (
      (refused-Triple later new_jti token u (λ d e.
          subst (λ (x : RefreshTokenPayload). Revoked a session_ttl later x.jti u)
            (jwt.verify_same now later false false token c d known e) gone)).run
        u refl)

  -- After a refresh with a token has returned, with a new id unlike the token's, the next refresh with
  -- the same token, at whatever later time and from the state that the first left, is refused.
  pub refresh_single_use :
      (now later : ℕ) (new_jti next_jti token : String) (c : RefreshTokenPayload)
      (st st' : AuthState a) (pair : TokenPair)
      → now ≤ later
      → jwt.verify now false token ≡ some c
      → same new_jti c.jti ≡ false
      → refresh a jwt find_user session_ttl refresh_ttl now new_jti token st ≡ (ok pair, st')
      → Refused (refresh a jwt find_user session_ttl refresh_ttl later next_jti token st').0
  refresh_single_use now later new_jti next_jti token c st st' pair le known fresh h =
      refuses now later next_jti token c st' known (
        gone_later now later c.jti st' le (
          rw h at (
            (refresh-Revoked a jwt find_user session_ttl refresh_ttl now new_jti token c st known
                fresh).run
              st refl)))

  -- After `revokeAll`, every refresh is refused with a token that was linked to an indexed session
  -- of the user.
  pub revoke_all_refuses :
      (now later : ℕ) (new_jti token user_id session_id : String) (c : RefreshTokenPayload)
      (st : AuthState a)
      → jwt.verify now false token ≡ some c
      → has (a.sets.members user_id st.index) session_id ≡ true
      → has (a.sets.members (pair_key user_id session_id) st.jtis) c.jti ≡ true
      → Refused
          (refresh a jwt find_user session_ttl refresh_ttl later new_jti token
            (revoke_all a session_ttl user_id st)).0
  revoke_all_refuses now later new_jti token user_id session_id c st known indexed linked =
      refuses now later new_jti token c (revoke_all a session_ttl user_id st) known
        (revoke_all-Revoked a session_ttl later user_id session_id c.jti st indexed linked)
