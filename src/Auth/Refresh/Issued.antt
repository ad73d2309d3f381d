-- ===== src/Auth/Refresh/Issued.antt =====
-- A refresh with a token in good order returns a new pair.
use negare_api.Base.{
  ℕ, ◌≡◌, ◌∙◌, refl, sym, subst, true, false, ◌&&◌, not, Option, some, String, same_refl, max,
  or_else, arith,
}
use negare_api.Base.Exec.{Exec, ok, guard, lift, modify, ◌>>=◌}
use negare_api.Base.Returns.{Returns, Returns-bind, Returns-modify, Returns-pass}
use negare_api.Auth.Sessions.{AuthRedis, AuthState, RefreshAllowRecord}
use negare_api.Auth.Refresh.{
  Jwt, RefreshTokenPayload, TokenPair, UserWithRelations, AuthFailure, verify_refresh_token,
  atomic_get_del, check_record, blacklist_refresh_jti, unlink_if, build_pair, rotate, refresh,
  is_blank, is_refresh_payload, is_refresh_blacklisted, user_result, new_payload, allow_record,
}
use negare_api.Auth.Refresh.Spent.{link_if-allowed}

module _ (a : AuthRedis) (jwt : Jwt) (find_user : String → Option UserWithRelations)
    (session_ttl refresh_ttl now : ℕ) where
  -- The pair of a user and a session: the token carries the new id, and the allow list has it.
  abbrev pub Issued : String → String → String → TokenPair → AuthState a → Type 0
  Issued user_id session_id jti pair u =
      (pair.refresh_token
        ≡ jwt.sign_refresh now
            (new_payload a jwt find_user session_ttl refresh_ttl user_id (some session_id) jti))
      × (a.allowed.get now jti u.allowed
          ≡ some (
              a.json.stringify
                (allow_record a jwt find_user session_ttl refresh_ttl user_id (some session_id))))

  build_pair-Issued :
      (jti : String) (user : UserWithRelations) (session_id : String) (st : AuthState a)
      → Returns
          (build_pair a jwt find_user session_ttl refresh_ttl now jti user (some session_id))
          st
          (Issued user.id session_id jti)
  unfolding build_pair
  build_pair-Issued jti user session_id st = record {
    value = _;
    after = _;
    runs = refl;
    post = (
      refl,
      rw
          (link_if-allowed a jwt find_user session_ttl refresh_ttl now (some session_id) user.id jti
            _)
          (a.allowed.get-set_ex now jti jti _ (max refresh_ttl 60) st.allowed (omega arith)
            ∙ rw (same_refl jti)),
    );
  }

  rotate-Issued :
      (jti : String) (c : RefreshTokenPayload) (stored : a.json.Json) (rec : RefreshAllowRecord)
      (user : UserWithRelations) (st : AuthState a)
      → check_record a jwt find_user session_ttl refresh_ttl stored c ≡ ok rec
      → find_user c.sub ≡ some user
      → Returns
          (rotate a jwt find_user session_ttl refresh_ttl now jti c stored)
          st
          (Issued user.id (or_else rec.session_id c.sid) jti)
  unfolding rotate
  rotate-Issued jti c stored rec user st known there =
      Returns-bind (λ r _. r ≡ rec) _ _ st
        (record { value = rec; after = st; runs = rw known; post = refl })
        λ r t same_rec.
          Returns-bind (λ _ _. Unit {0})
            (modify (blacklist_refresh_jti a jwt find_user session_ttl refresh_ttl now c.jti)) _ t
            (Returns-modify _ t tt)
            λ _ t1 _.
              Returns-bind (λ _ _. Unit {0})
                (modify
                  (unlink_if a jwt find_user session_ttl refresh_ttl r.session_id c.sub c.jti))
                _ t1 (Returns-modify _ t1 tt)
                λ _ t2 _.
                  Returns-bind (λ u _. u ≡ user)
                    (lift (user_result a jwt find_user session_ttl refresh_ttl (find_user c.sub))) _
                    t2 (record { value = user; after = t2; runs = rw there; post = refl })
                    λ u t3 same_user.
                      subst
                        (λ (x : UserWithRelations).
                          Returns
                            (build_pair a jwt find_user session_ttl refresh_ttl now jti u
                              (some (or_else r.session_id c.sid)))
                            t3 (Issued x.id (or_else rec.session_id c.sid) jti))
                        same_user
                        (subst
                          (λ (y : RefreshAllowRecord).
                            Returns
                              (build_pair a jwt find_user session_ttl refresh_ttl now jti u
                                (some (or_else r.session_id c.sid)))
                              t3 (Issued u.id (or_else y.session_id c.sid) jti))
                          same_rec (build_pair-Issued jti u (or_else r.session_id c.sid) t3))

  verify_returns :
      (token : String) (c : RefreshTokenPayload) (st : AuthState a)
      → is_blank token ≡ false
      → jwt.verify now false token ≡ some c
      → is_refresh_payload a jwt find_user session_ttl refresh_ttl c ≡ true
      → is_refresh_blacklisted a jwt find_user session_ttl refresh_ttl now c.jti st ≡ false
      → Returns
          (verify_refresh_token a jwt find_user session_ttl refresh_ttl now false false token)
          st
          (λ d t. (d ≡ c) × (t ≡ st))
  unfolding verify_refresh_token
  verify_returns token c st given verified suited unlisted = record {
    value = c;
    after = st;
    runs = rw (verify_refresh_token, given, verified, suited, unlisted);
    post = (refl, refl);
  }

  take_returns :
      (jti : String) (stored : a.json.Json) (st : AuthState a)
      → a.allowed.get now jti st.allowed ≡ some stored
      → Returns
          (atomic_get_del a jwt find_user session_ttl refresh_ttl now jti)
          st
          (λ x _. x ≡ stored)
  unfolding atomic_get_del
  take_returns jti stored st allowed = record {
    value = stored;
    after = record st { allowed = a.allowed.del jti st.allowed };
    runs = rw (atomic_get_del, allowed);
    post = refl;
  }

  -- A refresh with a token that verifies as one for refreshing, is not on the blacklist, has a
  -- subject, and has on the allow list a record that suits it, for a user who exists, returns: the
  -- new token is for that user and the same session, and its id is on the allow list.
  pub refresh_returns :
      (jti token : String) (c : RefreshTokenPayload) (stored : a.json.Json)
      (rec : RefreshAllowRecord) (user : UserWithRelations) (st : AuthState a)
      → is_blank token ≡ false
      → jwt.verify now false token ≡ some c
      → is_refresh_payload a jwt find_user session_ttl refresh_ttl c ≡ true
      → is_refresh_blacklisted a jwt find_user session_ttl refresh_ttl now c.jti st ≡ false
      → (not (is_blank c.sub) && not (is_blank c.jti)) ≡ true
      → a.allowed.get now c.jti st.allowed ≡ some stored
      → check_record a jwt find_user session_ttl refresh_ttl stored c ≡ ok rec
      → find_user c.sub ≡ some user
      → Returns
          (refresh a jwt find_user session_ttl refresh_ttl now jti token)
          st
          (Issued user.id (or_else rec.session_id c.sid) jti)
  unfolding refresh
  refresh_returns jti token c stored rec user st given verified suited unlisted named allowed known
        there =
      Returns-bind (λ d t. (d ≡ c) × (t ≡ st))
        (verify_refresh_token a jwt find_user session_ttl refresh_ttl now false false token)
        after_check st (verify_returns token c st given verified suited unlisted)
        λ d t same_state.
          subst
            (λ (x : RefreshTokenPayload).
              Returns (after_check x) t (Issued user.id (or_else rec.session_id c.sid) jti))
            (sym same_state.0)
            (subst
              (λ (u : AuthState a).
                Returns (after_check c) u (Issued user.id (or_else rec.session_id c.sid) jti))
              (sym same_state.1)
              (Returns-pass (not (is_blank c.sub) && not (is_blank c.jti)) _ _ st named (
                Returns-bind (λ x _. x ≡ stored)
                  (atomic_get_del a jwt find_user session_ttl refresh_ttl now c.jti) _ st
                  (take_returns c.jti stored st allowed)
                  λ x u taken.
                    subst
                      (λ y.
                        Returns (rotate a jwt find_user session_ttl refresh_ttl now jti c y) u
                          (Issued user.id (or_else rec.session_id c.sid) jti))
                      (sym taken) (rotate-Issued jti c stored rec user u known there))))
    where
      after_check : RefreshTokenPayload → Exec (AuthState a) AuthFailure TokenPair
      after_check d =
          guard (not (is_blank d.sub) && not (is_blank d.jti)) AuthFailure.malformed >>= λ _.
          atomic_get_del a jwt find_user session_ttl refresh_ttl now d.jti >>= λ x.
          rotate a jwt find_user session_ttl refresh_ttl now jti d x
