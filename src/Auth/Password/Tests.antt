-- ===== src/Auth/Password/Tests.antt =====
-- The theorems on passwords at a new user, with Redis in memory.
use mathlib.Core.Option.{some-injective}
use negare_api.Base.{
  Bool, ◌∷◌, ℕ, ◌≡◌, refl, sym, ◌∙◌, false, [], Option, none, some, String, same, same_refl, arith,
  if◌then◌else◌,
}
use negare_api.Base.Text.{Text, codes, to_string, text_eq}
use negare_api.Base.Exec.{ok, returns}
use negare_api.Redis.Memory.{memory}
use negare_api.Auth.Tests.{counters}
use negare_api.Auth.Otp.Types.{OtpChannel, OtpPurpose}
use negare_api.Auth.Otp.Tests.{env, ann, requested, ticket, verified, verify_runs}
use negare_api.Auth.Otp.Tests.{everything as otp_service}
use negare_api.Auth.Users.{find_first, update_first, create, has_username}
use negare_api.Auth.Password.{
  verify_and_consume_otp_ticket, upsert_phone, upsert_email, upsert_user_for_channel, set_password,
  throttle, login, change_password,
}
use negare_api.Auth.Password.Types.{
  Passwords, PasswordState, TicketClaims, Draws, normalize_email, is_e164, iranian, normalize_phone,
  split_identifier, username_base, free_username, generate_username, candidate,
}
use negare_api.Base.Returns.{Returns}
use negare_api.Auth.Tests.{redis, users}
use negare_api.Auth.Sessions.{AuthState, get, new_record}
use negare_api.Auth.Refresh.{Jwt, RefreshTokenPayload, is_refresh_blacklisted, refresh}
use negare_api.Auth.Refresh.Issued.{Issued}
use negare_api.Auth.Service.Login.{LoginOutput, session_input}
use negare_api.Auth.Service.Login.{login as login_service}
use negare_api.Auth.Service.SignedIn.{login_then_refresh}
use negare_api.Auth.Password.Handover.{sharing, claims_of, payload_of, otp_ticket_accepted}
use negare_api.Auth.Password.Login.{login_unthrottled, set_password_logs_in}
use negare_api.Auth.Password.Ticket.{ticket_single_use}

abbrev address : Text
address = codes "ann@negare.io"

abbrev claims : TicketClaims
claims = claims_of OtpPurpose.login OtpChannel.email address "j"

abbrev read : ℕ → String → Option TicketClaims
read now token = if same token "ticket:j" then some claims else none

read_same :
    (now later : ℕ) (token : String) (c d : TicketClaims)
    → read now token ≡ some c
    → read later token ≡ some d
    → c ≡ d
read_same now later token c d h k = some-injective c d (sym h ∙ k)

abbrev passwords : Passwords
passwords = record {
  tickets = memory;
  counters = counters;
  sha256 = λ s. s;
  from_hex = codes;
  verify = read;
  bcrypt_hash = λ salt password. to_string password;
  bcrypt_compare = λ password hash. same (to_string password) hash;
  dummy_bcrypt_hash = "$";
  set_pwd_jwt_expires_sec = none;
  login_throttle_limit = none;
  login_throttle_window_sec = none;
  verify_same = read_same;
  compare-hash = λ salt password. same_refl (to_string password);
}

abbrev draws : Draws
draws = record { now = 7000; new_id = "u1"; salt = 0; random = 0 }

-- The ticket of the code that was accepted, and no user.
abbrev start : PasswordState passwords
start = record { tickets = verified.tickets; throttle = λ k. 0; users = []; welcomes = [] }

abbrev secret : Text
secret = codes "correct horse"

everything : Unit {0}
unfolding otp_service find_first update_first create normalize_email is_e164 iranian normalize_phone
    split_identifier username_base free_username generate_username verify_and_consume_otp_ticket
    upsert_phone upsert_email upsert_user_for_channel set_password throttle login change_password
    text_eq
everything = tt

abbrev set : PasswordState passwords
set = (set_password passwords draws "ticket:j" secret start).1

set_runs : set_password passwords draws "ticket:j" secret start ≡ (ok "u1", set)
unfolding everything
set_runs = refl

good_ticket :
    (verify_and_consume_otp_ticket passwords 7000 "ticket:j" start).0
    ≡ ok (payload_of OtpPurpose.login OtpChannel.email address "j")
unfolding everything
good_ticket = refl

-- A phone number in three ways of writing.
phones :
    (normalize_phone (codes "0912 345 6789") ≡ some (codes "+989123456789"))
    × (normalize_phone (codes "00989123456789") ≡ some (codes "+989123456789"))
    × (normalize_phone (codes "ann") ≡ none)
unfolding everything
phones = (refl, refl, refl)

set_password_logs_in_example : (login passwords address secret none set).0 ≡ ok "u1"
set_password_logs_in_example =
    set_password_logs_in passwords draws "ticket:j" secret none
      (payload_of OtpPurpose.login OtpChannel.email address "j") "u1" start set good_ticket refl
      set_runs refl

-- A weak password uses the ticket up.
ticket_single_use_example :
    returns
      (set_password passwords draws "ticket:j" secret
        (set_password passwords draws "ticket:j" (codes "short") start).1).0
    ≡ false
ticket_single_use_example =
    ticket_single_use passwords draws draws "ticket:j" (codes "short") secret claims start refl

login_unthrottled_example :
    (login passwords address secret none set).0
    ≡ (login passwords address secret none (record set { throttle = λ k. 1000 })).0
login_unthrottled_example = login_unthrottled passwords address secret none set (λ k. 1000)

taken :
    find_first (has_username (candidate (codes "annnegareio") 0)) set.users
    ≡ some (record {
      id = "u1";
      username = some (codes "annnegareio");
      email = some address;
      phone = none;
      name = none;
      bio = none;
      city = none;
      avatar_url = none;
      password_hash = some "correct horse";
    })
unfolding everything
taken = refl

second_free : find_first (has_username (candidate (username_base address) 1)) set.users ≡ none
unfolding everything
second_free = refl

otp_ticket_accepted_example :
    (verify_and_consume_otp_ticket (sharing env passwords) 7000 "ticket:j" start).0
    ≡ ok (payload_of OtpPurpose.login OtpChannel.email address "j")
unfolding everything
otp_ticket_accepted_example =
    otp_ticket_accepted env passwords OtpPurpose.login OtpChannel.email ann "j" 6000 7000 "000042"
      none requested verified ticket start (omega arith) (omega arith) refl refl refl verify_runs
      refl refl refl

logged_in : (login passwords address secret none set).0 ≡ ok "u1"
unfolding everything
logged_in = refl

abbrev refresh_claims : RefreshTokenPayload
refresh_claims = record { sub = "u1"; sid = "s1"; jti = "j1"; typ = "refresh" }

abbrev read_token : ℕ → Bool → String → Option RefreshTokenPayload
read_token now ignore token = if same token "t1" then some refresh_claims else none

read_token_same :
    (now later : ℕ) (i j : Bool) (token : String) (c d : RefreshTokenPayload)
    → read_token now i token ≡ some c
    → read_token later j token ≡ some d
    → c ≡ d
read_token_same now later i j token c d h k = some-injective c d (sym h ∙ k)

abbrev jwt : Jwt
jwt = record {
  verify = read_token;
  sign_refresh = λ now c. "t1";
  sign_access = λ now user_id roles. "access";
  verify_same = read_token_same;
}

abbrev nobody : AuthState redis
nobody = record {
  records = λ k. none;
  index = λ k. [];
  index_z = [];
  jtis = λ k. [];
  owners = λ k. none;
  allowed = λ k. none;
  blacklist = λ k. none;
}

login_then_refresh_example :
    let (res, st') =
      login_service passwords redis jwt users 100 100 5 "s1" "j1" address secret
        (record { ip = none; user_agent = none })
        (record { passwords = set; auth = nobody }) in
    (out : LoginOutput) × (res ≡ ok out)
    × (out.refresh_token ≡ "t1")
    × (get redis 100 5 "u1" "s1" st'.auth
        ≡ some (
            new_record redis 100 5 "s1" (
              session_input passwords redis jwt users 100 100 "u1"
                (record { ip = none; user_agent = none }))))
    × Returns
        (refresh redis jwt users 100 100 5 "j2" out.refresh_token)
        st'.auth
        (Issued redis jwt users 100 100 5 "u1" "s1" "j2")
unfolding is_refresh_blacklisted
login_then_refresh_example =
    login_then_refresh passwords redis jwt users 100 100 5 "s1" "j1"
      (record { ip = none; user_agent = none }) (record { id = "u1"; roles = some "USER" ∷ [] })
      address secret "j2" (record { passwords = set; auth = nobody }) refl refl logged_in
      (record {
        there = refl;
        lives = omega arith;
        user_named = refl;
        sid_given = refl;
        jti_given = refl;
        signed = refl;
        verifies = refl;
        unlisted = refl;
      })
