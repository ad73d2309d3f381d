-- ===== src/Auth/Password.antt =====
-- core/auth/password/password.service.ts: `PasswordService`. `Passwords` is what it relies on of the
-- packages bcrypt and jsonwebtoken and of Node's hashes and buffers; a claim that is missing is
-- `none`, or the empty text. The random numbers and the id of a new row are arguments. Redis and the
-- database do not fail, but for a value that is not unique; the log is left out, and the mail of
-- welcome is a list.
pub mod Saved
pub mod Types
pub mod Accounts
pub mod Handover
pub mod Login
mod Tests
pub mod Ticket
use negare_api.Base.{
  ℕ, zero, suc, ◌+◌, ◌<◌, ◌≡◌, Bool, true, false, ◌&&◌, ◌||◌, not, List, [], ◌∷◌, ◌++◌, Option,
  none, some, String, ◌+++◌, same, if◌then◌else◌, leb, ltb, ◌==◌, or_else, is_some, filter, all,
  includes, length, take,
}
use negare_api.Base.Text.{
  Text, codes, to_string, trim, lower, is_digit, is_lower, decimal, text_eq, starts_with, drop,
}
use negare_api.Base.Exec.{
  Exec, Result, ok, throws, pure, throw, guard, gets, modify, lift, catch, ◌>>=◌, ◌>>◌,
}
use negare_api.Redis.{Redis}
use negare_api.Auth.RateLimit.{Counters}
use negare_api.Auth.Otp.Types.{OtpChannel, OtpPurpose}
use negare_api.Auth.Users.{
  User, Identifier, has_id, has_email, has_phone, has_username, matches, find_first, update_first,
  create,
}
use negare_api.Auth.Password.Types.{
  TicketClaims, SetPasswordPayload, PasswordFailure, Passwords, PasswordState, filled,
  normalize_email, is_e164, iranian, normalize_phone, only_email, only_phone, split_identifier,
  is_alnum, or_user, username_base, candidate, free_username, generate_username, Draws,
  invalid_or_expired_token, missing_jti, incomplete_payload, ticket_used_or_missing,
  ticket_integrity, weak_password, invalid_phone, invalid_email, database_error,
  invalid_credentials, too_many_attempts,
}

module _ (p : Passwords) where
  abbrev pub Method : Type 0 → Type 0
  Method A = Exec (PasswordState p) PasswordFailure A

  unfoldable pub issue_set_password_ticket :
      (now : ℕ) → (token jti : String) → (ttl_sec : Option ℕ) → PasswordState p → PasswordState p
  issue_set_password_ticket now token jti ttl_sec st = record st {
    tickets =
        p.tickets.set_ex now jti (p.sha256 token)
          (or_else ttl_sec (or_else p.set_pwd_jwt_expires_sec 600)) st.tickets;
  }

  abbrev pub safe_eq_hex : String → String → Bool
  safe_eq_hex a b = text_eq (p.from_hex a) (p.from_hex b)

  abbrev pub read_claims : Option TicketClaims → Result PasswordFailure TicketClaims
  read_claims none = throws invalid_or_expired_token
  read_claims (some c) = ok c

  -- The claims that must be there.
  abbrev pub complete : TicketClaims → Result PasswordFailure SetPasswordPayload
  complete c = if same c.jti "" then throws missing_jti else elim (filled c.identifier) [
    | none ↦ throws incomplete_payload
    | some identifier ↦ elim c.channel [
      | none ↦ throws incomplete_payload
      | some channel ↦ elim c.purpose [
        | none ↦ throws incomplete_payload
        | some purpose ↦
            ok (record {
              purpose = purpose;
              channel = channel;
              identifier = identifier;
              jti = c.jti;
            })
      ]
    ]
  ]

  -- GETDEL
  abbrev pub take_ticket : (now : ℕ) → (jti : String) → Method (Option String)
  take_ticket now jti st =
      (ok (p.tickets.get now jti st.tickets), record st { tickets = p.tickets.del jti st.tickets })

  abbrev pub check_ticket : (token : String) → Option String → Method (Unit {0})
  check_ticket token none = throw ticket_used_or_missing
  check_ticket token (some hex) =
      if same hex ""
      then throw ticket_used_or_missing
      else guard (safe_eq_hex hex (p.sha256 token)) ticket_integrity

  unfoldable pub verify_and_consume_otp_ticket :
      (now : ℕ) → (token : String) → Method SetPasswordPayload
  verify_and_consume_otp_ticket now token = do
    decoded ← lift (read_claims (p.verify now token))
    payload ← lift (complete decoded)
    stored ← take_ticket now payload.jti
    _ ← check_ticket token stored
    pure payload

  abbrev pub set_hash : String → User → User
  set_hash hash u = record u { password_hash = some hash }

  abbrev pub set_phone : Text → User → User
  set_phone phone u = record u { phone = some phone }

  abbrev pub set_email : Text → User → User
  set_email email u = record u { email = some email }

  -- Prisma's `upsert` on one unique value; `none` is the error P2002.
  abbrev pub upsert : (User → Bool) → (new : User) → (User → User) → List User → Option (List User)
  upsert found new change users = elim (find_first found users) [
    | some u ↦ some (update_first found change users)
    | none ↦ create new users
  ]

  abbrev pub saved_as : List User → Option User → Method User
  saved_as users none st = (throws database_error, st)
  saved_as users (some u) st = (ok u, record st { users = users })

  -- The answer is the row that is found afterwards; P2002 with no row to be found is an error.
  abbrev pub saved : (User → Bool) → (rescue : User → User) → Option (List User) → Method User
  saved found rescue (some users) st = saved_as users (find_first found users) st
  saved found rescue none st =
      let users = update_first found rescue st.users in saved_as users (find_first found users) st

  abbrev pub new_user :
      Draws → List User → (seed : Text) → (email phone : Option Text) → String → User
  new_user d users seed email phone hash = record {
    id = d.new_id;
    username = some (generate_username seed d.random users);
    email = email;
    phone = phone;
    name = none;
    bio = none;
    city = none;
    avatar_url = none;
    password_hash = some hash;
  }

  unfoldable pub upsert_phone : Draws → (phone : Text) → (hash : String) → Method User
  upsert_phone d phone hash st =
      let change = λ (u : User). set_phone phone (set_hash hash u) in
      let new = new_user d st.users phone none (some phone) hash in
      saved (has_phone phone) (set_hash hash) (upsert (has_phone phone) new change st.users) st

  unfoldable pub upsert_email : Draws → (email : Text) → (hash : String) → Method User
  upsert_email d email hash st =
      let change = λ (u : User). set_email email (set_hash hash u) in
      let new = new_user d st.users email (some email) none hash in
      saved (has_email email) (set_hash hash) (upsert (has_email email) new change st.users) st

  abbrev pub present : PasswordFailure → Option Text → Result PasswordFailure Text
  present e none = throws e
  present e (some t) = ok t

  unfoldable pub upsert_user_for_channel :
      Draws → OtpChannel → (identifier : Text) → (hash : String) → Method User
  upsert_user_for_channel d OtpChannel.sms identifier hash = do
    phone ← lift (present invalid_phone (normalize_phone identifier))
    upsert_phone d phone hash
  upsert_user_for_channel d OtpChannel.email identifier hash = do
    email ← lift (present invalid_email (normalize_email identifier))
    upsert_email d email hash

  -- The mail of welcome, if there is an address.
  abbrev pub welcome : (address : Option Text) → (name : Text) → PasswordState p → PasswordState p
  welcome none name st = st
  welcome (some []) name st = st
  welcome (some (c ∷ t)) name st = record st { welcomes = (c ∷ t, name) ∷ st.welcomes }

  -- The id of the user is the answer.
  unfoldable pub set_password : Draws → (token : String) → (password : Text) → Method String
  set_password d token password = do
    payload ← verify_and_consume_otp_ticket d.now token
    _ ← guard (not (ltb (length password) 8)) weak_password
    u ← upsert_user_for_channel d payload.channel payload.identifier (p.bcrypt_hash d.salt password)
    _ ← modify (welcome u.email (or_else u.name (or_else u.username payload.identifier)))
    pure u.id

  abbrev pub throttle_key : (idn : Text) → (ip : Option String) → String
  throttle_key idn none = "auth:login:throttle:" +++ to_string idn
  throttle_key idn (some ip) =
      if same ip ""
      then "auth:login:throttle:" +++ to_string idn
      else "auth:login:throttle:" +++ (to_string idn +++ (":" +++ ip))

  abbrev pub count_login : (k : String) → Method ℕ
  count_login k st =
      let c = p.counters.incr k st.throttle in
      (
        ok (p.counters.count k c),
        record st {
          throttle =
              if p.counters.count k c == 1
              then p.counters.expire k (or_else p.login_throttle_window_sec 300) c
              else c;
        },
      )

  -- The error 429 is caught with the errors of Redis.
  unfoldable pub throttle : (k : String) → Method (Unit {0})
  throttle k =
      catch
        (do
          attempts ← count_login k
          guard (leb attempts (or_else p.login_throttle_limit 6)) too_many_attempts)
        (λ e. pure tt)

  -- The hash of no user is a fixed one, so that the time taken is the same.
  abbrev pub hash_to_check : Option User → String
  hash_to_check none = p.dummy_bcrypt_hash
  hash_to_check (some u) = or_else u.password_hash p.dummy_bcrypt_hash

  abbrev pub finish_login : (k : String) → Option User → (ok_bcrypt : Bool) → Method String
  finish_login k (some u) true st =
      if same u.id ""
      then (throws invalid_credentials, record st { throttle = p.counters.incr k st.throttle })
      else (ok u.id, record st { throttle = p.counters.del k st.throttle })
  finish_login k _ _ st =
      (throws invalid_credentials, record st { throttle = p.counters.incr k st.throttle })

  unfoldable pub login : (identifier password : Text) → (ip : Option String) → Method String
  login identifier password ip = do
    idn ← pure (trim identifier)
    _ ← guard (is_some (filled idn)) invalid_credentials
    _ ← throttle (throttle_key idn ip)
    user ← gets (λ st. find_first (matches (split_identifier idn)) st.users)
    finish_login (throttle_key idn ip) user (p.bcrypt_compare password (hash_to_check user))

  abbrev stored_hash : Option User → Result PasswordFailure String
  stored_hash none = throws invalid_credentials
  stored_hash (some u) = elim u.password_hash [
    | none ↦ throws invalid_credentials
    | some h ↦ if same h "" then throws invalid_credentials else ok h
  ]

  unfoldable pub change_password :
      (salt : ℕ) → (user_id : String) → (current_password new_password : Text) → Method (Unit {0})
  change_password salt user_id current_password new_password = do
    user ← gets (λ st. find_first (has_id user_id) st.users)
    hash ← lift (stored_hash user)
    _ ← guard (p.bcrypt_compare current_password hash) invalid_credentials
    _ ← guard (not (ltb (length new_password) 8)) weak_password
    modify (λ st. record st {
      users = update_first (has_id user_id) (set_hash (p.bcrypt_hash salt new_password)) st.users;
    })
