-- ===== src/Auth/Sessions/Revocation.antt =====
-- Closing a session takes its refresh tokens along: `revoke` and `revokeAll`.
use negare_api.Base.{
  ℕ, ◌≡◌, ◌∙◌, sym, true, List, [], ◌∷◌, none, String, same, same-eq, subst, same_refl, Bool-cases,
  inl, inr,
}
use negare_api.Redis.Sets.{has}
use negare_api.Auth.Sessions.{
  AuthRedis, AuthState, pair_key, forget_jtis, revoke, delete_all, read_jtis, revoke_all, get,
}

module _ (a : AuthRedis) (session_ttl now : ℕ) where
  -- A token that no `refresh` accepts.
  abbrev pub Revoked : String → AuthState a → Type 0
  Revoked jti st = a.allowed.get now jti st.allowed ≡ none

  del-Revoked :
      (jti other : String) (st : a.allowed.St)
      → a.allowed.get now jti st ≡ none
      → a.allowed.get now jti (a.allowed.del other st) ≡ none
  del-Revoked jti other st h = elim (Bool-cases (same other jti)) [
    | inl eq ↦ a.allowed.get-del now other jti st ∙ rw eq
    | inr ne ↦ a.allowed.get-del now other jti st ∙ rw ne h
  ]

  pub forget-keeps :
      (jti : String) (jtis : List String) (st : AuthState a)
      → Revoked jti st
      → Revoked jti (forget_jtis a session_ttl jtis st)
  unfolding forget_jtis
  forget-keeps jti [] st h = h
  forget-keeps jti (j ∷ js) st h = forget-keeps jti js _ (del-Revoked jti j st.allowed h)

  forget-Revoked :
      (jti : String) (jtis : List String) (st : AuthState a)
      → has jtis jti ≡ true
      → Revoked jti (forget_jtis a session_ttl jtis st)
  unfolding forget_jtis
  forget-Revoked jti [] st h = cc
  forget-Revoked jti (j ∷ js) st h = elim (Bool-cases (same j jti)) [
    | inl eq ↦ forget-keeps jti js _ (a.allowed.get-del now j jti st.allowed ∙ rw eq)
    | inr ne ↦ forget-Revoked jti js _ (rw ne at h)
  ]

  -- After `revoke`, no refresh token that was linked to the session is on the allow list, and the
  -- session is gone.
  pub revoke-Revoked :
      (user_id session_id jti : String) (st : AuthState a)
      → has (a.sets.members (pair_key user_id session_id) st.jtis) jti ≡ true
      → Revoked jti (revoke a session_ttl user_id session_id st)
        × (get a session_ttl now user_id session_id (revoke a session_ttl user_id session_id st)
            ≡ none)
  unfolding revoke get
  revoke-Revoked user_id session_id jti st h = (
    forget-Revoked jti _ st h,
    a.records.get-del now (pair_key user_id session_id) (pair_key user_id session_id) _
        ∙ rw (same_refl (pair_key user_id session_id)),
  )

  delete_all-keeps :
      (jti user_id : String) (pairs : List (String × List String)) (st : AuthState a)
      → Revoked jti st
      → Revoked jti (delete_all a session_ttl user_id pairs st)
  unfolding delete_all
  delete_all-keeps jti user_id [] st h = h
  delete_all-keeps jti user_id ((sid, jtis) ∷ rest) st h =
      delete_all-keeps jti user_id rest _ (forget-keeps jti jtis st h)

  delete_all-Revoked :
      (jti user_id session_id : String) (sids : List String) (st0 st : AuthState a)
      → has sids session_id ≡ true
      → has (a.sets.members (pair_key user_id session_id) st0.jtis) jti ≡ true
      → Revoked jti (delete_all a session_ttl user_id (read_jtis a session_ttl user_id sids st0) st)
  unfolding delete_all
  delete_all-Revoked jti user_id session_id [] st0 st h linked = cc
  delete_all-Revoked jti user_id session_id (sid ∷ sids) st0 st h linked =
      elim (Bool-cases (same sid session_id)) [
        | inl eq ↦
            let here =
              subst (λ x. has (a.sets.members (pair_key user_id x) st0.jtis) jti ≡ true)
                (sym (same-eq sid session_id eq)) linked in
            delete_all-keeps jti user_id (read_jtis a session_ttl user_id sids st0) _
              (forget-Revoked jti _ st here)
        | inr ne ↦ delete_all-Revoked jti user_id session_id sids st0 _ (rw ne at h) linked
      ]

  -- After `revokeAll`, no refresh token that was linked to any indexed session of the user is on the
  -- allow list.
  pub revoke_all-Revoked :
      (user_id session_id jti : String) (st : AuthState a)
      → has (a.sets.members user_id st.index) session_id ≡ true
      → has (a.sets.members (pair_key user_id session_id) st.jtis) jti ≡ true
      → Revoked jti (revoke_all a session_ttl user_id st)
  unfolding revoke_all
  revoke_all-Revoked user_id session_id jti st indexed linked =
      delete_all-Revoked jti user_id session_id (a.sets.members user_id st.index) st st indexed
        linked
