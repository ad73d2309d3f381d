-- ===== src/Auth/Otp/Types.antt =====
-- core/auth/otp/otp.service.ts: the state of `OtpService`, what it is built on, and its functions without
-- state. The keys of each kind are one part of the state: active codes, blocks and cooldowns by the hash
-- of the identifier, tickets by their id, and the counters of otp-rate-limit.service.ts. The numbers in
-- the fields of a hash are numbers here. `sha256` and `sign_ticket` are the packages'; the random number
-- and the random id are arguments, and `delivers` says whether the gateway of the channel takes the
-- message. Audit records are left out.
use negare_api.Base.{
  ℕ, suc, ◌/◌, Bool, not, List, [], ◌∷◌, ◌++◌, Option, none, some, String, or_else, filter,
}
use negare_api.Base.Text.{Text, codes, trim, lower, is_space, to_string, decimal, pad_start, split}
use negare_api.Base.Exec.{Result, ok, throws}
use negare_api.Redis.{Redis}
use negare_api.Redis.Hashes.{Hashes}
use negare_api.Auth.RateLimit.{Counters, RateConfig, TooMany}

pub data OtpChannel : Type 0 where
  sms email : OtpChannel

pub data OtpPurpose : Type 0 where
  signup login reset : OtpPurpose

-- The fields of an active code.
pub record OtpHash : Type 0 where
  pub code_hash : Option String
  pub attempts : Option ℕ
  pub max_attempts : Option ℕ
  pub exp : Option ℕ
  pub resend_at : Option ℕ
  pub send_count : Option ℕ
  pub ip : Option Text
  pub ch : Option OtpChannel
  pub pu : Option OtpPurpose

pub record TicketPayload : Type 0 where
  pub purpose : OtpPurpose
  pub channel : OtpChannel
  pub identifier : Text

pub record OtpMessage : Type 0 where
  pub channel : OtpChannel
  pub identifier : Text
  pub code : String

pub data OtpFailure : Type 0 where
  too_many_requests : OtpFailure
  too_many_attempts : OtpFailure
  invalid_code : OtpFailure
  not_delivered : OtpFailure

pub record OtpRequested : Type 0 where
  pub already_active : Bool
  pub expires_in : ℕ
  pub resend_available_in : ℕ

pub record OtpVerified : Type 0 where
  pub ticket : String
  pub next : String
  pub expires_in : ℕ

pub record OtpConfig : Type 0 where
  pub rate : RateConfig
  pub block_window : Option ℕ
  pub ticket_ttl_sec : ℕ

-- What the service is built on.
pub record OtpEnv : Type 1 where
  pub active : Hashes OtpHash
  pub blocks : Redis String
  pub cooldowns : Redis String
  pub tickets : Redis String
  pub counters : Counters
  pub config : OtpConfig
  pub sha256 : String → String
  -- the hash of otp-rate-limit.service.ts
  pub digest : String → String
  pub sign_ticket : (now : ℕ) → (jti : String) → TicketPayload → String
  -- the gateway of the channel takes the message
  pub delivers : OtpChannel → Text → String → Bool

pub record OtpState (e : OtpEnv) : Type 0 where
  pub active : e.active.St
  pub blocks : e.blocks.St
  pub cooldowns : e.cooldowns.St
  pub tickets : e.tickets.St
  pub counters : e.counters.St
  pub sent : List OtpMessage

abbrev pub channel_name : OtpChannel → String
channel_name OtpChannel.sms = "sms"
channel_name OtpChannel.email = "email"

abbrev pub purpose_name : OtpPurpose → String
purpose_name OtpPurpose.signup = "signup"
purpose_name OtpPurpose.login = "login"
purpose_name OtpPurpose.reset = "reset"

unfoldable pub normalize_identifier : OtpChannel → Text → Text
normalize_identifier OtpChannel.sms raw = filter (λ c. not (is_space c)) (trim raw)
normalize_identifier OtpChannel.email raw = lower (trim raw)

unfoldable pub random_6_digits : (random : ℕ) → String
random_6_digits random = to_string (pad_start 6 (decimal random))

abbrev pub now_epoch : (now : ℕ) → ℕ
now_epoch now = now / 1000

-- The parts of an address of version 4 without the last one.
abbrev pub mask_parts : Text → List Text → Text
mask_parts ip (p ∷ q ∷ r ∷ s ∷ []) = p ++ (b'.' ∷ (q ++ (b'.' ∷ (r ++ codes ".0/24"))))
mask_parts ip _ = ip

unfoldable pub mask_ip : Option Text → Option Text
mask_ip none = none
mask_ip (some []) = none
mask_ip (some (c ∷ t)) = some (mask_parts (c ∷ t) (split b'.' (c ∷ t)))

abbrev pub fresh : OtpHash
fresh = record {
  code_hash = none;
  attempts = none;
  max_attempts = none;
  exp = none;
  resend_at = none;
  send_count = none;
  ip = none;
  ch = none;
  pu = none;
}

-- HINCRBY on `attempts`.
abbrev pub add_attempt : Option OtpHash → OtpHash
add_attempt o = let h = or_else o fresh in record h { attempts = some (suc (or_else h.attempts 0)) }

abbrev pub from_limit : Result TooMany (Unit {0}) → Result OtpFailure (Unit {0})
from_limit (ok u) = ok u
from_limit (throws e) = throws OtpFailure.too_many_requests
