-- ===== src/Auth/Service/Login.antt =====
-- core/auth/auth.service.ts: `login` of `AuthService`, which joins the passwords, the sessions and the
-- refresh tokens. An error of the password service is passed on; any other is `login_failed`.
use negare_api.Base.{
  ℕ, ◌≡◌, refl, Bool, true, false, ◌||◌, [], ◌∷◌, Option, none, some, String, if◌then◌else◌,
  Bool-cases, inl, inr,
}
use negare_api.Base.Text.{Text}
use negare_api.Base.Exec.{Exec, Result, ok, throws}
use negare_api.Auth.Users.{User, has_id, find_first}
use negare_api.Auth.Password.Types.{Passwords, PasswordState, PasswordFailure}
use negare_api.Auth.Password.{login as password_login}
use negare_api.Auth.Sessions.{AuthRedis, AuthState, CreateSessionInput, create, link_refresh_jti}
use negare_api.Auth.Refresh.{
  Jwt, TokenPair, UserWithRelations, AuthFailure, is_blank, issue_tokens_for_user_id, link_if,
}

pub data LoginFailure : Type 0 where
  invalid_input : LoginFailure
  refused : PasswordFailure → LoginFailure
  login_failed : LoginFailure

pub record LoginOutput : Type 0 where
  pub access_token : String
  pub refresh_token : String
  pub id : String
  pub username : Option Text
  pub email : Option Text

pub record Client : Type 0 where
  pub ip : Option String
  pub user_agent : Option String

pub record LoginState (p : Passwords) (a : AuthRedis) : Type 0 where
  pub passwords : PasswordState p
  pub auth : AuthState a

abbrev pub is_empty : Text → Bool
is_empty [] = true
is_empty (c ∷ t) = false

-- What the catch makes of an error of the password service.
abbrev pub known : PasswordFailure → LoginFailure
known PasswordFailure.database_error = login_failed
known e = refused e

-- The summary of the user, who may be gone.
abbrev pub output : TokenPair → (user_id : String) → Option User → LoginOutput
output pair user_id none = record {
  access_token = pair.access_token;
  refresh_token = pair.refresh_token;
  id = user_id;
  username = none;
  email = none;
}
output pair user_id (some u) = record {
  access_token = pair.access_token;
  refresh_token = pair.refresh_token;
  id = u.id;
  username = u.username;
  email = u.email;
}

module _ (p : Passwords) (a : AuthRedis) (jwt : Jwt) (find_user : String → Option UserWithRelations)
    (session_ttl refresh_ttl : ℕ) where
  abbrev pub Method : Type 0 → Type 0
  Method A = Exec (LoginState p a) LoginFailure A

  abbrev pub session_input : String → Client → CreateSessionInput
  session_input user_id client = record {
    user_id = user_id;
    ip = client.ip;
    user_agent = client.user_agent;
    device = none;
  }

  abbrev issued :
      (user_id : String) → Result AuthFailure TokenPair × AuthState a → Method LoginOutput
  issued user_id (ok pair, auth) st = (
    ok (output pair user_id (find_first (has_id user_id) st.passwords.users)),
    record st { auth = auth },
  )
  issued user_id (throws e, auth) st = (throws login_failed, record st { auth = auth })

  abbrev open_session : (now : ℕ) → (sid jti user_id : String) → Client → Method LoginOutput
  open_session now sid jti user_id client st =
      let (rec, auth) = create a session_ttl now sid (session_input user_id client) st.auth in
      issued user_id
        (issue_tokens_for_user_id a jwt find_user session_ttl refresh_ttl now jti user_id
          (some rec.id) auth)
        st

  abbrev pub after_password :
      (now : ℕ) → (sid jti : String) → Client → Result PasswordFailure String → Method LoginOutput
  after_password now sid jti client (ok user_id) st = open_session now sid jti user_id client st
  after_password now sid jti client (throws e) st = (throws (known e), st)

  unfoldable pub login :
      (now : ℕ) → (sid jti : String) → (identifier password : Text) → Client → Method LoginOutput
  login now sid jti identifier password client st =
      if is_empty identifier || is_empty password
      then (throws invalid_input, st)
      else let (res, passwords) = password_login p identifier password client.ip st.passwords in
        after_password now sid jti client res (record st { passwords = passwords })

  pub link_if-keeps :
      (now : ℕ) (o : Option String) (user_id jti : String) (st : AuthState a)
      → ((link_if a jwt find_user session_ttl refresh_ttl now o user_id jti st).blacklist
          ≡ st.blacklist)
        × ((link_if a jwt find_user session_ttl refresh_ttl now o user_id jti st).records
            ≡ st.records)
  unfolding link_refresh_jti
  link_if-keeps now none user_id jti st = (refl, refl)
  link_if-keeps now (some sid) user_id jti st = elim (Bool-cases (is_blank sid)) [
    | inl blank ↦ rw blank (refl, refl)
    | inr given ↦ rw given (refl, refl)
  ]
