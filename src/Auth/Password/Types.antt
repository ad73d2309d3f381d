-- ===== src/Auth/Password/Types.antt =====
-- core/auth/password/password.service.ts: the types of `PasswordService`, what the service is built
-- on, and its functions without state.
use negare_api.Base.{
  ℕ, zero, suc, ◌+◌, ◌≡◌, Bool, true, false, ◌&&◌, ◌||◌, List, [], ◌∷◌, ◌++◌, Option, none, some,
  String, if◌then◌else◌, leb, ◌==◌, filter, all, includes, length, take,
}
use negare_api.Base.Text.{Text, codes, trim, lower, is_digit, is_lower, decimal, starts_with, drop}
use negare_api.Redis.{Redis}
use negare_api.Auth.RateLimit.{Counters}
use negare_api.Auth.Otp.Types.{OtpChannel, OtpPurpose}
use negare_api.Auth.Users.{User, Identifier, has_username, find_first}

pub record TicketClaims : Type 0 where
  pub purpose : Option OtpPurpose
  pub channel : Option OtpChannel
  pub identifier : Text
  pub jti : String

pub record SetPasswordPayload : Type 0 where
  pub purpose : OtpPurpose
  pub channel : OtpChannel
  pub identifier : Text
  pub jti : String

pub data PasswordFailure : Type 0 where
  invalid_or_expired_token : PasswordFailure
  missing_jti : PasswordFailure
  incomplete_payload : PasswordFailure
  ticket_used_or_missing : PasswordFailure
  ticket_integrity : PasswordFailure
  weak_password : PasswordFailure
  invalid_phone : PasswordFailure
  invalid_email : PasswordFailure
  database_error : PasswordFailure
  invalid_credentials : PasswordFailure
  too_many_attempts : PasswordFailure

pub record Passwords : Type 1 where
  pub tickets : Redis String
  pub counters : Counters
  pub sha256 : String → String
  -- `Buffer.from(text, 'hex')`
  pub from_hex : String → Text
  pub verify : (now : ℕ) → String → Option TicketClaims
  pub bcrypt_hash : (salt : ℕ) → Text → String
  pub bcrypt_compare : Text → String → Bool
  pub dummy_bcrypt_hash : String
  pub set_pwd_jwt_expires_sec : Option ℕ
  pub login_throttle_limit : Option ℕ
  pub login_throttle_window_sec : Option ℕ
  -- a token holds the same claims whenever it is read
  pub verify_same :
      (now later : ℕ) (token : String) (c d : TicketClaims)
      → verify now token ≡ some c
      → verify later token ≡ some d
      → c ≡ d
  pub compare-hash :
      (salt : ℕ) (password : Text) → bcrypt_compare password (bcrypt_hash salt password) ≡ true

pub record PasswordState (p : Passwords) : Type 0 where
  pub tickets : p.tickets.St
  pub throttle : p.counters.St
  pub users : List User
  pub welcomes : List (Text × Text)

-- An empty text counts as missing.
abbrev pub filled : Text → Option Text
filled [] = none
filled (c ∷ t) = some (c ∷ t)

unfoldable pub normalize_email : Text → Option Text
normalize_email raw = let v = trim raw in if includes v b'@' then some (lower v) else none

-- `/^\+\d{7,15}$/`
unfoldable pub is_e164 : Text → Bool
is_e164 [] = false
is_e164 (c ∷ t) = c == b'+' && all is_digit t && leb 7 (length t) && leb (length t) 15

-- The digits of a number, with the code of the country.
unfoldable pub iranian : Text → Option Text
iranian [] = none
iranian (d ∷ ds) =
    let digits = d ∷ ds in
    if starts_with (codes "0098") digits
    then some (b'+' ∷ drop 2 digits)
    else if starts_with (codes "98") digits
    then some (b'+' ∷ digits)
    else if starts_with (codes "0") digits && length digits == 11
    then some (codes "+98" ++ drop 1 digits)
    else if length digits == 10 && starts_with (codes "9") digits
    then some (codes "+98" ++ digits)
    else none

unfoldable pub normalize_phone : Text → Option Text
normalize_phone raw = let v = trim raw in if is_e164 v then some v else iranian (filter is_digit v)

abbrev pub only_email : Text → Identifier
only_email t = record { email = some t; phone = none; username = none }

abbrev pub only_phone : Text → Identifier
only_phone t = record { email = none; phone = some t; username = none }

unfoldable pub split_identifier : Text → Identifier
split_identifier raw = elim (normalize_email raw) [
  | some email ↦ only_email email
  | none ↦ elim (normalize_phone raw) [
    | some phone ↦ only_phone phone
    | none ↦ record { email = none; phone = none; username = filled (lower (trim raw)) }
  ]
]

abbrev pub is_alnum : ℕ → Bool
is_alnum c = is_lower c || is_digit c

abbrev pub or_user : Text → Text
or_user [] = codes "user"
or_user (c ∷ t) = c ∷ t

unfoldable pub username_base : (seed : Text) → Text
username_base seed = or_user (take 20 (filter is_alnum (lower seed)))

abbrev pub candidate : (base : Text) → (i : ℕ) → Text
candidate base i = if i == 0 then base else base ++ decimal (i + 1)

-- The first of the candidates `i`, `i + 1`, ... that nobody has; else one with a random number.
unfoldable pub free_username : (rounds i : ℕ) → (base : Text) → (random : ℕ) → List User → Text
free_username zero i base random users = base ++ decimal random
free_username (suc rounds) i base random users =
    elim (find_first (has_username (candidate base i)) users) [
      | none ↦ candidate base i
      | some u ↦ free_username rounds (suc i) base random users
    ]

unfoldable pub generate_username : (seed : Text) → (random : ℕ) → List User → Text
generate_username seed random users = free_username 1000 0 (username_base seed) random users

-- What is not fixed by the state: the time, and the numbers that are drawn.
pub record Draws : Type 0 where
  pub now : ℕ
  pub new_id : String
  pub salt : ℕ
  pub random : ℕ
