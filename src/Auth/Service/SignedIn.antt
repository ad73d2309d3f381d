-- ===== src/Auth/Service/SignedIn.antt =====
-- core/auth/auth.service.ts: what a login leaves is what a refresh asks for.
use negare_api.Base.{
  ℕ, ◌<◌, ◌≡◌, refl, ◌∙◌, false, Option, none, some, String, same_refl, max, arith,
}
use negare_api.Base.Text.{Text}
use negare_api.Base.Exec.{ok}
use negare_api.Base.Returns.{Returns}
use negare_api.Auth.Users.{User, has_id, find_first}
use negare_api.Auth.Password.Types.{Passwords}
use negare_api.Auth.Password.{login as password_login}
use negare_api.Auth.Sessions.{AuthRedis, AuthState, new_record, create, get, pair_key}
use negare_api.Auth.Refresh.{
  Jwt, RefreshTokenPayload, TokenPair, UserWithRelations, is_blank, is_refresh_blacklisted,
  check_record, parse_allow_record, issue_tokens_for_user_id, build_pair, new_payload, allow_record,
  refresh,
}
use negare_api.Auth.Refresh.Issued.{Issued, refresh_returns}
use negare_api.Auth.Refresh.Spent.{link_if-allowed}
use negare_api.Auth.Service.Login.{
  Client, LoginState, LoginOutput, is_empty, output, login, session_input, link_if-keeps,
}

module _ (p : Passwords) (a : AuthRedis) (jwt : Jwt) (find_user : String → Option UserWithRelations)
    (session_ttl refresh_ttl now : ℕ) (sid jti : String) (client : Client)
    (user : UserWithRelations) where
  abbrev claims : RefreshTokenPayload
  claims = new_payload a jwt find_user session_ttl refresh_ttl user.id (some sid) jti

  abbrev token : String
  token = jwt.sign_refresh now claims

  -- The user is there, the ids are no empty texts, and the token that is signed for them verifies.
  pub record Ready (auth : AuthState a) : Type 0 where
    pub there : find_user user.id ≡ some user
    pub lives : 0 < session_ttl
    pub user_named : is_blank user.id ≡ false
    pub sid_given : is_blank sid ≡ false
    pub jti_given : is_blank jti ≡ false
    pub signed : is_blank token ≡ false
    pub verifies : jwt.verify now false token ≡ some claims
    pub unlisted :
        is_refresh_blacklisted a jwt find_user session_ttl refresh_ttl now jti auth ≡ false

  abbrev with_session : AuthState a → AuthState a
  with_session auth =
      (create a session_ttl now sid
        (session_input p a jwt find_user session_ttl refresh_ttl user.id client) auth).1

  abbrev IssuedHere : AuthState a → TokenPair → AuthState a → Type 0
  IssuedHere auth pair u =
      Issued a jwt find_user session_ttl refresh_ttl now user.id sid jti pair u
      × (u.blacklist ≡ auth.blacklist)
      × (u.records ≡ auth.records)

  build_pair-IssuedHere :
      (auth : AuthState a)
      → Returns
          (build_pair a jwt find_user session_ttl refresh_ttl now jti user (some sid))
          auth
          (IssuedHere auth)
  unfolding build_pair
  build_pair-IssuedHere auth = record {
    value = _;
    after = _;
    runs = refl;
    post = (
      (
        refl,
        rw (link_if-allowed a jwt find_user session_ttl refresh_ttl now (some sid) user.id jti _) (
            a.allowed.get-set_ex now jti jti _ (max refresh_ttl 60) auth.allowed (omega arith)
            ∙ rw (same_refl jti)),
      ),
      (link_if-keeps p a jwt find_user session_ttl refresh_ttl now (some sid) user.id jti _).0,
      (link_if-keeps p a jwt find_user session_ttl refresh_ttl now (some sid) user.id jti _).1,
    );
  }

  issue-Returns :
      (auth : AuthState a)
      → find_user user.id ≡ some user
      → Returns
          (issue_tokens_for_user_id a jwt find_user session_ttl refresh_ttl now jti user.id
            (some sid))
          auth
          (IssuedHere auth)
  unfolding issue_tokens_for_user_id
  issue-Returns auth there =
      let r = build_pair-IssuedHere auth in
      record {
        value = r.value;
        after = r.after;
        runs = rw (issue_tokens_for_user_id, there) r.runs;
        post = r.post;
      }

  -- The record of the allow list suits the token.
  own_record :
      is_blank user.id ≡ false
      → is_blank sid ≡ false
      → check_record a jwt find_user session_ttl refresh_ttl
          (a.json.stringify
            (allow_record a jwt find_user session_ttl refresh_ttl user.id (some sid)))
          claims
        ≡ ok (allow_record a jwt find_user session_ttl refresh_ttl user.id (some sid))
  unfolding check_record parse_allow_record
  own_record named given =
      rw
        (
          check_record,
          parse_allow_record,
          a.json.parse-stringify
              (allow_record a jwt find_user session_ttl refresh_ttl user.id (some sid)),
          named,
          same_refl user.id,
          given,
          same_refl sid,
        )
        refl

  -- The token that was issued is good for a refresh.
  token_good :
      (next_jti : String) (auth u : AuthState a) (pair : TokenPair)
      → Ready auth
      → IssuedHere (with_session auth) pair u
      → Returns
          (refresh a jwt find_user session_ttl refresh_ttl now next_jti token)
          u
          (Issued a jwt find_user session_ttl refresh_ttl now user.id sid next_jti)
  unfolding is_refresh_blacklisted create
  token_good next_jti auth u pair r ((signed_as, allowed), blacklist, records) =
      refresh_returns a jwt find_user session_ttl refresh_ttl now next_jti token claims
        (a.json.stringify (allow_record a jwt find_user session_ttl refresh_ttl user.id (some sid)))
        (allow_record a jwt find_user session_ttl refresh_ttl user.id (some sid)) user u r.signed
        r.verifies (rw (r.jti_given, r.sid_given) refl) (rw blacklist (r.unlisted))
        (rw (r.user_named, r.jti_given) refl) allowed (own_record r.user_named r.sid_given) r.there

  output_token :
      (pair : TokenPair) (o : Option User)
      → (output pair user.id o).refresh_token ≡ pair.refresh_token
  output_token pair none = refl
  output_token pair (some u) = refl

  login-eq :
      (identifier password : Text) (st : LoginState p a) (pair : TokenPair) (u : AuthState a)
      → is_empty identifier ≡ false
      → is_empty password ≡ false
      → (password_login p identifier password client.ip st.passwords).0 ≡ ok user.id
      → issue_tokens_for_user_id a jwt find_user session_ttl refresh_ttl now jti user.id
          (some sid)
          (with_session st.auth)
        ≡ (ok pair, u)
      → let passwords = (password_login p identifier password client.ip st.passwords).1 in
        login p a jwt find_user session_ttl refresh_ttl now sid jti identifier password client st
        ≡ (
          ok (output pair user.id (find_first (has_id user.id) passwords.users)),
          record { passwords = passwords; auth = u },
        )
  unfolding login create
  login-eq identifier password st pair u given secret accepted runs =
      rw (login, given, secret, accepted, runs) refl

  session-stored :
      (u auth : AuthState a)
      → 0 < session_ttl
      → u.records ≡ (with_session auth).records
      → get a session_ttl now user.id sid u
        ≡ some (
            new_record a session_ttl now sid
              (session_input p a jwt find_user session_ttl refresh_ttl user.id client))
  unfolding get create
  session-stored u auth lives e = rw e (
      a.records.get-set_ex now (pair_key user.id sid) (pair_key user.id sid) _ session_ttl
        auth.records lives
      ∙ rw (same_refl (pair_key user.id sid)) refl)

  -- With an identifier and a password that the password service accepts, for a user who exists, a
  -- login returns. Its session is stored, and a refresh with its refresh token, at the same time,
  -- returns a new token for that user and session, given that the token that is signed verifies.
  pub login_then_refresh :
      (identifier password : Text) (next_jti : String) (st : LoginState p a)
      → is_empty identifier ≡ false
      → is_empty password ≡ false
      → (password_login p identifier password client.ip st.passwords).0 ≡ ok user.id
      → Ready st.auth
      → let (res, st') =
          login p a jwt find_user session_ttl refresh_ttl now sid jti identifier password client
            st in
        (out : LoginOutput) × (res ≡ ok out)
        × (out.refresh_token ≡ token)
        × (get a session_ttl now user.id sid st'.auth
            ≡ some (
                new_record a session_ttl now sid
                  (session_input p a jwt find_user session_ttl refresh_ttl user.id client)))
        × Returns
            (refresh a jwt find_user session_ttl refresh_ttl now next_jti out.refresh_token)
            st'.auth
            (Issued a jwt find_user session_ttl refresh_ttl now user.id sid next_jti)
  unfolding login create get
  login_then_refresh identifier password next_jti st given secret accepted r =
      let made = issue-Returns (with_session st.auth) r.there in
      let pair = made.value in
      let u = made.after in
      let passwords = (password_login p identifier password client.ip st.passwords).1 in
      let out = output pair user.id (find_first (has_id user.id) passwords.users) in
      let same_token : out.refresh_token ≡ token =
        output_token pair (find_first (has_id user.id) passwords.users) ∙ made.post.0.0 in
      rw (login-eq identifier password st pair u given secret accepted made.runs) (
        out,
        refl,
        same_token,
        session-stored u st.auth r.lives made.post.2,
        rw same_token (token_good next_jti st.auth u pair r made.post),
      )
