-- ===== src/Auth/Otp/Tests.antt =====
-- The theorems on one-time codes at one request, with Redis in memory.
use negare_api.Base.{◌≤◌, ◌≡◌, refl, true, false, [], ◌∷◌, none, String, ◌+++◌, arith}
use negare_api.Base.Text.{Text, codes}
use negare_api.Base.Exec.{ok, throws, returns}
use negare_api.Base.Returns.{Returns}
use negare_api.Redis.Memory.{memory}
use negare_api.Redis.HashMemory.{hash_memory}
use negare_api.Auth.Tests.{counters, defaults}
use negare_api.Base.Text.{digits, decimal, pad_start, trim, trim_start, lower, lower_unit, split}
use negare_api.Auth.RateLimit.{
  key, bump, consume_key, consume_ip, consume_bucket, consume_request_bucket, consume_verify_bucket,
}
use negare_api.Auth.Otp.{
  verify_otp, resend_otp, count_attempt, try_active, admit_attempt, issue_ticket,
}
use negare_api.Auth.Otp.Request.{
  request_otp, key_base, limit_requests, limit_verifies, issue_new_code, issued,
}
use negare_api.Auth.Otp.Types.{
  OtpEnv, OtpState, OtpChannel, OtpPurpose, OtpVerified, normalize_identifier, random_6_digits,
  mask_ip, invalid_code,
}
use negare_api.Auth.Otp.Guesses.{Try, guesses}
use negare_api.Auth.Otp.Issue.{code_guesses_bound}
use negare_api.Auth.Otp.Once.{code_single_use}
use negare_api.Auth.Otp.Accepted.{sent_code_accepted, Ticketed, Awaited}

abbrev pub env : OtpEnv
env = record {
  active = hash_memory;
  blocks = memory;
  cooldowns = memory;
  tickets = memory;
  counters = counters;
  config = record { rate = defaults; block_window = none; ticket_ttl_sec = 600 };
  sha256 = λ s. s;
  digest = λ s. s;
  sign_ticket = λ now jti p. "ticket:" +++ jti;
  delivers = λ channel identifier code. true;
}

abbrev pub empty : OtpState env
empty = record {
  active = λ k. none;
  blocks = λ k. none;
  cooldowns = λ k. none;
  tickets = λ k. none;
  counters = λ k. 0;
  sent = [];
}

abbrev pub ann : Text
ann = codes " Ann@Negare.io "

unfoldable pub everything : Unit {0}
unfolding request_otp verify_otp resend_otp normalize_identifier random_6_digits mask_ip key_base
    limit_requests limit_verifies issue_new_code count_attempt try_active admit_attempt issue_ticket
    key bump consume_key consume_ip consume_bucket consume_request_bucket consume_verify_bucket
    digits decimal pad_start trim trim_start lower lower_unit split guesses
everything = tt

abbrev pub requested : OtpState env
requested = (request_otp env 5000 42 OtpPurpose.login OtpChannel.email ann none empty).1

request_runs :
    request_otp env 5000 42 OtpPurpose.login OtpChannel.email ann none empty
    ≡ (ok (issued env), requested)
unfolding everything
request_runs = refl

code_sent :
    requested.sent
    ≡ record { channel = OtpChannel.email; identifier = codes "ann@negare.io"; code = "000042" }
      ∷ []
unfolding everything
code_sent = refl

abbrev pub verified : OtpState env
verified = (verify_otp env 6000 "j" OtpPurpose.login OtpChannel.email ann "000042" none requested).1

abbrev pub ticket : OtpVerified
ticket = record { ticket = "ticket:j"; next = "set-password"; expires_in = 600 }

pub verify_runs :
    verify_otp env 6000 "j" OtpPurpose.login OtpChannel.email ann "000042" none requested
    ≡ (ok ticket, verified)
unfolding everything
verify_runs = refl

wrong_code :
    (verify_otp env 6000 "j" OtpPurpose.login OtpChannel.email ann "000043" none requested).0
    ≡ throws invalid_code
unfolding everything
wrong_code = refl

abbrev try_of : String → Try
try_of code = record { delay = 1000; jti = "j"; code = code; ip = none }

code_guesses_bound_example :
    guesses env OtpPurpose.login OtpChannel.email 5000 ann
      (try_of "000001" ∷ try_of "000002" ∷ [])
      requested
    ≤ 5
code_guesses_bound_example =
    code_guesses_bound env OtpPurpose.login OtpChannel.email 5000 42 none (omega arith) ann
      (issued env) empty requested (try_of "000001" ∷ try_of "000002" ∷ []) request_runs refl

two_guesses :
    guesses env OtpPurpose.login OtpChannel.email 5000 ann
      (try_of "000001" ∷ try_of "000002" ∷ [])
      requested
    ≡ 2
unfolding everything
two_guesses = refl

code_single_use_example :
    returns (verify_otp env 7000 "k" OtpPurpose.login OtpChannel.email ann "000042" none verified).0
    ≡ false
code_single_use_example =
    code_single_use env OtpPurpose.login OtpChannel.email 6000 7000 ann "j" "k" "000042" "000042"
      none none requested verified ticket (omega arith) verify_runs

awaited : Awaited env OtpPurpose.login OtpChannel.email 5000 42 none 6000 ann none requested
unfolding everything
awaited = record { in_time = omega arith; kept = refl; unblocked = refl; within_limits = refl }

sent_code_accepted_example :
    Returns
      (verify_otp env 6000 "j" OtpPurpose.login OtpChannel.email ann (random_6_digits 42) none)
      requested
      (Ticketed env OtpPurpose.login OtpChannel.email 5000 42 none 6000 ann "j")
sent_code_accepted_example =
    sent_code_accepted env OtpPurpose.login OtpChannel.email 5000 42 none 6000 ann "j" none
      (issued env) empty requested (omega arith) (omega arith) (omega arith) (omega arith)
      request_runs refl awaited

abbrev wrong : OtpState env → OtpState env
wrong s = (verify_otp env 6000 "j" OtpPurpose.login OtpChannel.email ann "000043" none s).1

-- Five wrong codes, and the window of the counters is over.
abbrev worn : OtpState env
worn = record (wrong (wrong (wrong (wrong (wrong requested))))) { counters = λ k. 0 }

abbrev locked : OtpState env
locked = (verify_otp env 6000 "j" OtpPurpose.login OtpChannel.email ann "000042" none worn).1
