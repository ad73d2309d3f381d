-- ===== src/Auth/Refresh/Spent.antt =====
-- core/auth/refresh.service.ts: a refresh takes the id of its token off the allow list.
use negare_api.Base.{
  ℕ, ◌≡◌, ◌∙◌, refl, sym, subst, false, ◌&&◌, ◌||◌, not, Option, none, some, String, same,
  same_refl, max, or_else, Bool-cases, Option-cases, inl, inr, arith,
}
use negare_api.Base.Exec.{guard, modify, ◌>>=◌}
use negare_api.Base.Caught.{Any, Triple-loose}
use negare_api.Base.Triple.{Triple, Triple-bind, Triple-check, Triple-lift}
use negare_api.Auth.Sessions.{AuthRedis, AuthState, link_refresh_jti, unlink_refresh_jti}
use negare_api.Auth.Sessions.Revocation.{Revoked}
use negare_api.Auth.Refresh.{
  Jwt, RefreshTokenPayload, UserWithRelations, AuthFailure, verify_refresh_token, atomic_get_del,
  check_record, blacklist_refresh_jti, unlink_if, link_if, build_pair, rotate, refresh, is_blank,
  is_refresh_payload, is_refresh_blacklisted, user_result,
}

module _ (a : AuthRedis) (jwt : Jwt) (find_user : String → Option UserWithRelations)
    (session_ttl refresh_ttl : ℕ) where
  pub verify-Triple :
      (now : ℕ) (token : String) (w : AuthState a)
      → Triple
          (λ u. u ≡ w)
          (verify_refresh_token a jwt find_user session_ttl refresh_ttl now false false token)
          (λ c u. (u ≡ w) × (jwt.verify now false token ≡ some c))
          Any
  unfolding verify_refresh_token
  verify-Triple now token w = record {
    run = λ u e. elim (Bool-cases (is_blank token)) [
      | inl blank ↦ rw (verify_refresh_token, blank) tt
      | inr given ↦ elim (Option-cases (jwt.verify now false token)) [
        | inl bad ↦ rw (verify_refresh_token, given, bad) tt
        | inr (c, good) ↦
            elim (Bool-cases (
              is_refresh_payload a jwt find_user session_ttl refresh_ttl c
              && (false
                  || not (
                      is_refresh_blacklisted a jwt find_user session_ttl refresh_ttl now c.jti
                        u)))) [
                          | inl fine ↦ rw (verify_refresh_token, given, good, fine) (e, refl)
                          | inr unfit ↦ rw (verify_refresh_token, given, good, unfit) tt
                        ]
      ]
    ];
  }

  pub take-Triple :
      (now : ℕ) (jti : String)
      → Triple Any
          (atomic_get_del a jwt find_user session_ttl refresh_ttl now jti)
          (λ _ u. Revoked a session_ttl now jti u)
          Any
  unfolding atomic_get_del
  take-Triple now jti = record {
    run = λ u _. elim (Option-cases (a.allowed.get now jti u.allowed)) [
      | inl missing ↦ rw (atomic_get_del, missing) tt
      | inr (stored, there) ↦
          rw (atomic_get_del, there) (a.allowed.get-del now jti jti u.allowed ∙ rw (same_refl jti))
    ];
  }

  pub unlink_if-allowed :
      (o : Option String) (user_id jti : String) (st : AuthState a)
      → (unlink_if a jwt find_user session_ttl refresh_ttl o user_id jti st).allowed ≡ st.allowed
  unfolding unlink_refresh_jti
  unlink_if-allowed none user_id jti st = refl
  unlink_if-allowed (some sid) user_id jti st = elim (Bool-cases (is_blank sid)) [
    | inl blank ↦ rw blank
    | inr given ↦ rw given
  ]

  pub link_if-allowed :
      (now : ℕ) (o : Option String) (user_id jti : String) (st : AuthState a)
      → (link_if a jwt find_user session_ttl refresh_ttl now o user_id jti st).allowed ≡ st.allowed
  unfolding link_refresh_jti
  link_if-allowed now none user_id jti st = refl
  link_if-allowed now (some sid) user_id jti st = elim (Bool-cases (is_blank sid)) [
    | inl blank ↦ rw blank
    | inr given ↦ rw given
  ]

  -- A new pair puts no other id on the allow list.
  pub build_pair-Revoked :
      (now : ℕ) (jti new_jti : String) (user : UserWithRelations) (session_id : Option String)
      → same new_jti jti ≡ false
      → Triple
          (Revoked a session_ttl now jti)
          (build_pair a jwt find_user session_ttl refresh_ttl now new_jti user session_id)
          (λ _. Revoked a session_ttl now jti)
          (Revoked a session_ttl now jti)
  unfolding build_pair
  build_pair-Revoked now jti new_jti user session_id fresh = record {
    run = λ u gone. rw (link_if-allowed now session_id user.id new_jti _) (
        a.allowed.get-set_ex now new_jti jti _ (max refresh_ttl 60) u.allowed (omega arith)
        ∙ rw fresh gone);
  }

  pub rotate-Revoked :
      (now : ℕ) (new_jti : String) (c : RefreshTokenPayload) (stored : a.json.Json)
      → same new_jti c.jti ≡ false
      → Triple
          (Revoked a session_ttl now c.jti)
          (rotate a jwt find_user session_ttl refresh_ttl now new_jti c stored)
          (λ _. Revoked a session_ttl now c.jti)
          (Revoked a session_ttl now c.jti)
  unfolding rotate blacklist_refresh_jti
  rotate-Revoked now new_jti c stored fresh =
      let P = Revoked a session_ttl now c.jti in
      Triple-bind (λ _. P) _ _
        (Triple-lift (check_record a jwt find_user session_ttl refresh_ttl stored c))
        λ rec.
          Triple-bind (λ _. P)
            (modify (blacklist_refresh_jti a jwt find_user session_ttl refresh_ttl now c.jti)) _
            (record { run = λ u gone. gone })
            λ _.
              Triple-bind (λ _. P)
                (modify
                  (unlink_if a jwt find_user session_ttl refresh_ttl rec.session_id c.sub c.jti))
                _
                (record {
                  run = λ u gone. rw (unlink_if-allowed rec.session_id c.sub c.jti u) gone;
                })
                λ _.
                  Triple-bind (λ _. P) _ _
                    (Triple-lift
                      (user_result a jwt find_user session_ttl refresh_ttl (find_user c.sub)))
                    λ user.
                      build_pair-Revoked now c.jti new_jti user
                        (some (or_else rec.session_id c.sid)) fresh

  -- The id of the token, once it is known, is off the allow list after a refresh that returns.
  pub refresh-Revoked :
      (now : ℕ) (new_jti token : String) (c : RefreshTokenPayload) (w : AuthState a)
      → jwt.verify now false token ≡ some c
      → same new_jti c.jti ≡ false
      → Triple
          (λ u. u ≡ w)
          (refresh a jwt find_user session_ttl refresh_ttl now new_jti token)
          (λ _. Revoked a session_ttl now c.jti)
          Any
  unfolding refresh
  refresh-Revoked now new_jti token c w known fresh =
      Triple-bind (λ d u. (u ≡ w) × (jwt.verify now false token ≡ some d)) _ _
        (verify-Triple now token w)
        λ d. record {
          run = λ u p.
              let same_claims : c ≡ d = jwt.verify_same now now false false token c d known p.1 in
              (rest d
                  (subst (λ (x : RefreshTokenPayload). same new_jti x.jti ≡ false) same_claims
                    fresh)
                  same_claims).run
                u tt;
        }
    where
      rest :
          (d : RefreshTokenPayload)
          → same new_jti d.jti ≡ false
          → c ≡ d
          → Triple Any
              (guard (not (is_blank d.sub) && not (is_blank d.jti)) AuthFailure.malformed >>= λ _.
                atomic_get_del a jwt find_user session_ttl refresh_ttl now d.jti >>= λ stored.
                rotate a jwt find_user session_ttl refresh_ttl now new_jti d stored)
              (λ _. Revoked a session_ttl now c.jti)
              Any
      rest d f same_claims =
          subst
            (λ (x : RefreshTokenPayload).
              Triple Any
                (guard (not (is_blank d.sub) && not (is_blank d.jti)) AuthFailure.malformed >>= λ _.
                  atomic_get_del a jwt find_user session_ttl refresh_ttl now d.jti >>= λ stored.
                  rotate a jwt find_user session_ttl refresh_ttl now new_jti d stored)
                (λ _. Revoked a session_ttl now x.jti) Any)
            (sym same_claims)
            (Triple-bind (λ _. Any) _ _ (Triple-check _ _)
              λ _.
                Triple-bind (λ _. Revoked a session_ttl now d.jti) _ _ (take-Triple now d.jti)
                  λ stored. Triple-loose _ (rotate-Revoked now new_jti d stored f))
