-- ===== src/Auth/Otp.antt =====
-- core/auth/otp/otp.service.ts: `verifyOtp` and `resendOtp` of `OtpService`.
pub mod Shut
pub mod Request
pub mod Types
pub mod Accepted
pub mod Guesses
pub mod Issue
pub mod Lockout
pub mod Once
pub mod Tests
use negare_api.Base.{
  ℕ, suc, ◌+◌, ◌-◌, ◌*◌, ◌/◌, ◌≤◌, ◌≡◌, Bool, true, false, not, List, [], ◌∷◌, ◌++◌, Option, none,
  some, String, ◌+++◌, same, if◌then◌else◌, leb, ltb, ◌==◌, or_else, is_some, filter,
}
use Prim.Native.String.{slice}
use negare_api.Base.Text.{Text, codes, trim, lower, is_space, to_string, decimal, pad_start, split}
use negare_api.Base.Exec.{Exec, Result, ok, throws, pure, throw, guard, gets, modify, ◌>>=◌, ◌>>◌}
use negare_api.Redis.{Redis}
use negare_api.Redis.Hashes.{Hashes}
use negare_api.Auth.RateLimit.{
  Counters, RateConfig, TooMany, consume_request_bucket, consume_verify_bucket,
}
use negare_api.Auth.Otp.Types.{
  OtpChannel, OtpPurpose, OtpHash, TicketPayload, OtpMessage, OtpFailure, OtpRequested, OtpVerified,
  OtpConfig, OtpEnv, OtpState, channel_name, purpose_name, normalize_identifier, random_6_digits,
  now_epoch, mask_parts, mask_ip, fresh, add_attempt, from_limit, too_many_attempts, invalid_code,
  not_delivered,
}
use negare_api.Auth.Otp.Request.{
  Method, otp_max_attempts, key_base, limit_requests, limit_verifies, cooling, answer_or_issue,
  is_blocked, find_active, request_otp,
}

module _ (e : OtpEnv) where
  -- An expired code, and one that was tried too often, is dropped.
  abbrev pub drop_active : OtpPurpose → OtpChannel → (identifier : Text) → OtpState e → OtpState e
  drop_active purpose channel identifier st = record st {
    active = e.active.del (key_base e purpose channel identifier) st.active;
  }

  abbrev pub block_window_seconds : ℕ
  block_window_seconds = or_else e.config.block_window 900

  abbrev pub block :
      (now : ℕ) → OtpPurpose → OtpChannel → (identifier : Text) → OtpState e → OtpState e
  block now purpose channel identifier st =
      let k = key_base e purpose channel identifier in
      record st {
        active = e.active.del k st.active;
        blocks = e.blocks.set_ex now k "1" block_window_seconds st.blocks;
      }

  abbrev pub attempts_of : Option OtpHash → ℕ
  attempts_of o = or_else (or_else o fresh).attempts 0

  -- One more attempt at the code; `h` was read before.
  unfoldable pub count_attempt :
      (now : ℕ) → OtpPurpose → OtpChannel → (identifier : Text) → OtpHash → Method e OtpHash
  count_attempt now purpose channel identifier h st =
      let k = key_base e purpose channel identifier in
      let st' = record st { active = e.active.change now k add_attempt st.active } in
      if leb (attempts_of (e.active.hgetall now k st'.active))
        (or_else h.max_attempts (otp_max_attempts e))
      then (ok h, st')
      else (throws too_many_attempts, block now purpose channel identifier st')

  unfoldable pub try_active :
      (now : ℕ) → OtpPurpose → OtpChannel → (identifier : Text) → Option OtpHash → Method e OtpHash
  try_active now purpose channel identifier none = throw invalid_code
  try_active now purpose channel identifier (some h) =
      if leb (or_else h.exp 0) (now_epoch now)
      then (modify (drop_active purpose channel identifier) >> throw invalid_code)
      else count_attempt now purpose channel identifier h

  -- `verifyOtp` up to where it looks at the code.
  unfoldable pub admit_attempt :
      (now : ℕ)
      → OtpPurpose
      → OtpChannel
      → (identifier : Text) → (ip : Option Text) → Method e OtpHash
  admit_attempt now purpose channel identifier ip = do
    _ ← limit_verifies e purpose channel identifier ip
    blocked ← gets (is_blocked e now purpose channel identifier)
    _ ← guard (not blocked) too_many_attempts
    hash ← gets (find_active e now purpose channel identifier)
    try_active now purpose channel identifier hash

  abbrev pub payload : OtpPurpose → OtpChannel → (identifier : Text) → TicketPayload
  payload purpose channel identifier = record {
    purpose = purpose;
    channel = channel;
    identifier = identifier;
  }

  abbrev pub next_step : OtpPurpose → String
  next_step OtpPurpose.reset = "reset-password"
  next_step _ = "set-password"

  -- The code is used up, and its ticket is stored by its hash.
  unfoldable pub issue_ticket :
      (now : ℕ)
      → (jti : String) → OtpPurpose
      → OtpChannel
      → (identifier : Text) → Method e OtpVerified
  issue_ticket now jti purpose channel identifier st =
      let k = key_base e purpose channel identifier in
      let ticket = e.sign_ticket now jti (payload purpose channel identifier) in
      (
        ok (record {
          ticket = ticket;
          next = next_step purpose;
          expires_in = e.config.ticket_ttl_sec;
        }),
        record st {
          active = e.active.del k st.active;
          cooldowns = e.cooldowns.del k st.cooldowns;
          tickets = e.tickets.set_ex now jti (e.sha256 ticket) e.config.ticket_ttl_sec st.tickets;
        },
      )

  abbrev pub is_code : OtpHash → (code : String) → Bool
  is_code h code = elim h.code_hash [ none ↦ false | some x ↦ same x (e.sha256 code) ]

  unfoldable pub verify_otp :
      (now : ℕ)
      → (jti : String) → OtpPurpose
      → OtpChannel
      → (raw_identifier : Text) → (code : String) → (ip : Option Text) → Method e OtpVerified
  verify_otp now jti purpose channel raw_identifier code ip = do
    identifier ← pure (normalize_identifier channel raw_identifier)
    hash ← admit_attempt now purpose channel identifier ip
    _ ← guard (is_code hash code) invalid_code
    issue_ticket now jti purpose channel identifier

  abbrev pub resend_active :
      (now random : ℕ)
      → OtpPurpose
      → OtpChannel
      → (identifier : Text) → (ip : Option Text) → Option OtpHash
      → Method e OtpRequested
  resend_active now random purpose channel identifier ip none =
      request_otp e now random purpose channel identifier ip
  resend_active now random purpose channel identifier ip (some h) =
      answer_or_issue e now random purpose channel identifier ip (cooling e now h)

  unfoldable pub resend_otp :
      (now random : ℕ)
      → OtpPurpose
      → OtpChannel
      → (raw_identifier : Text) → (ip : Option Text) → Method e OtpRequested
  resend_otp now random purpose channel raw_identifier ip = do
    identifier ← pure (normalize_identifier channel raw_identifier)
    _ ← limit_requests e purpose channel identifier ip
    hash ← gets (find_active e now purpose channel identifier)
    resend_active now random purpose channel identifier ip hash
