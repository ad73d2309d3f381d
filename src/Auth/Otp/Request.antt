-- ===== src/Auth/Otp/Request.antt =====
-- core/auth/otp/otp.service.ts: `requestOtp` of `OtpService`, and the new codes.
use negare_api.Base.{
  ℕ, ◌+◌, ◌-◌, Bool, true, false, not, [], ◌∷◌, Option, none, some, String, ◌+++◌, if◌then◌else◌,
  ltb, or_else, is_some,
}
use Prim.Native.String.{slice}
use negare_api.Base.Text.{Text, to_string}
use negare_api.Base.Exec.{Exec, ok, throws, pure, guard, gets, modify, ◌>>=◌}
use negare_api.Auth.RateLimit.{consume_request_bucket, consume_verify_bucket}
use negare_api.Auth.Otp.Types.{
  OtpChannel, OtpPurpose, OtpHash, OtpFailure, OtpRequested, OtpEnv, OtpState, channel_name,
  purpose_name, normalize_identifier, random_6_digits, now_epoch, mask_ip, from_limit,
  too_many_attempts, not_delivered,
}

module _ (e : OtpEnv) where
  abbrev pub Method : Type 0 → Type 0
  Method A = Exec (OtpState e) OtpFailure A

  abbrev pub otp_ttl : ℕ
  otp_ttl = or_else e.config.rate.verify_window 300

  abbrev pub resend_cooldown : ℕ
  resend_cooldown = or_else e.config.rate.request_window 120

  abbrev pub otp_max_attempts : ℕ
  otp_max_attempts = or_else e.config.rate.verify_max 5

  unfoldable pub key_base : OtpPurpose → OtpChannel → (identifier : Text) → String
  key_base purpose channel identifier =
      slice
        (e.sha256 (
          purpose_name purpose
          +++ ("|" +++ (channel_name channel +++ ("|" +++ to_string identifier)))))
        0 40

  unfoldable pub limit_requests :
      OtpPurpose → OtpChannel → (identifier : Text) → (ip : Option Text) → Method (Unit {0})
  limit_requests purpose channel identifier ip st =
      let (res, counters) =
        consume_request_bucket e.counters e.digest e.config.rate (to_string identifier)
          (elim ip [ none ↦ none | some t ↦ some (to_string t) ]) (some (channel_name channel))
          (some (purpose_name purpose)) st.counters in
      (from_limit res, record st { counters = counters })

  unfoldable pub limit_verifies :
      OtpPurpose → OtpChannel → (identifier : Text) → (ip : Option Text) → Method (Unit {0})
  limit_verifies purpose channel identifier ip st =
      let (res, counters) =
        consume_verify_bucket e.counters e.digest e.config.rate (to_string identifier)
          (elim ip [ none ↦ none | some t ↦ some (to_string t) ]) (some (channel_name channel))
          (some (purpose_name purpose)) st.counters in
      (from_limit res, record st { counters = counters })

  abbrev pub new_hash :
      (now : ℕ) → OtpPurpose → OtpChannel → (ip : Option Text) → (code : String) → OtpHash
  new_hash now purpose channel ip code = record {
    code_hash = some (e.sha256 code);
    attempts = some 0;
    max_attempts = some otp_max_attempts;
    exp = some (now_epoch now + otp_ttl);
    resend_at = some (now_epoch now + resend_cooldown);
    send_count = some 1;
    ip = some (or_else (mask_ip ip) []);
    ch = some channel;
    pu = some purpose;
  }

  -- Every field is written, so nothing is left of an older code.
  abbrev pub store_code :
      (now : ℕ)
      → OtpPurpose
      → OtpChannel
      → (identifier : Text) → (ip : Option Text) → (code : String) → OtpState e
      → OtpState e
  store_code now purpose channel identifier ip code st =
      let k = key_base purpose channel identifier in
      record st {
        active =
            e.active.expire now k otp_ttl
              (e.active.change now k (λ o. new_hash now purpose channel ip code) st.active);
        cooldowns = e.cooldowns.set_ex now k "1" resend_cooldown st.cooldowns;
      }

  abbrev pub send : OtpChannel → (identifier : Text) → (code : String) → Method (Unit {0})
  send channel identifier code st =
      if e.delivers channel identifier code
      then (
        ok tt,
        record st {
          sent = record { channel = channel; identifier = identifier; code = code } ∷ st.sent;
        },
      )
      else (throws not_delivered, st)

  unfoldable pub issue_new_code :
      (now random : ℕ)
      → OtpPurpose
      → OtpChannel
      → (identifier : Text) → (ip : Option Text) → Method (Unit {0})
  issue_new_code now random purpose channel identifier ip = do
    _ ← modify (store_code now purpose channel identifier ip (random_6_digits random))
    send channel identifier (random_6_digits random)

  -- The answer while the code in use is too young for another.
  abbrev pub cooling : (now : ℕ) → OtpHash → Option OtpRequested
  cooling now h =
      let remaining = or_else h.resend_at 0 - now_epoch now in
      if ltb 0 remaining
      then some (record {
        already_active = true;
        expires_in = or_else h.exp 0 - now_epoch now;
        resend_available_in = remaining;
      })
      else none

  abbrev pub issued : OtpRequested
  issued = record {
    already_active = false;
    expires_in = otp_ttl;
    resend_available_in = resend_cooldown;
  }

  -- Answers as before, or issues a code.
  abbrev pub answer_or_issue :
      (now random : ℕ)
      → OtpPurpose
      → OtpChannel
      → (identifier : Text) → (ip : Option Text) → Option OtpRequested
      → Method OtpRequested
  answer_or_issue now random purpose channel identifier ip (some answer) = pure answer
  answer_or_issue now random purpose channel identifier ip none = do
    _ ← issue_new_code now random purpose channel identifier ip
    pure issued

  abbrev pub is_blocked :
      (now : ℕ) → OtpPurpose → OtpChannel → (identifier : Text) → OtpState e → Bool
  is_blocked now purpose channel identifier st =
      is_some (e.blocks.get now (key_base purpose channel identifier) st.blocks)

  abbrev pub find_active :
      (now : ℕ) → OtpPurpose → OtpChannel → (identifier : Text) → OtpState e → Option OtpHash
  find_active now purpose channel identifier st =
      e.active.hgetall now (key_base purpose channel identifier) st.active

  abbrev pub cooling_of : (now : ℕ) → Option OtpHash → Option OtpRequested
  cooling_of now none = none
  cooling_of now (some h) = cooling now h

  unfoldable pub request_otp :
      (now random : ℕ)
      → OtpPurpose
      → OtpChannel
      → (raw_identifier : Text) → (ip : Option Text) → Method OtpRequested
  request_otp now random purpose channel raw_identifier ip = do
    identifier ← pure (normalize_identifier channel raw_identifier)
    _ ← limit_requests purpose channel identifier ip
    blocked ← gets (is_blocked now purpose channel identifier)
    _ ← guard (not blocked) too_many_attempts
    hash ← gets (find_active now purpose channel identifier)
    answer_or_issue now random purpose channel identifier ip (cooling_of now hash)
