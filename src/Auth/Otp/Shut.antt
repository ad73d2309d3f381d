-- ===== src/Auth/Otp/Shut.antt =====
-- core/auth/otp/otp.service.ts: what is answered while an identifier is blocked.
use negare_api.Base.{ℕ, ◌≡◌, true, String, Option, none, List}
use negare_api.Base.Text.{Text}
use negare_api.Base.Trim.{filter-trim_idem, lower-trim_idem}
use negare_api.Base.Triple.{Triple, Triple-bind, state-Ends}
use negare_api.Auth.Otp.{admit_attempt, verify_otp, resend_otp}
use negare_api.Auth.Otp.Request.{
  limit_requests, limit_verifies, find_active, is_blocked, request_otp,
}
use negare_api.Auth.Otp.Types.{
  OtpEnv, OtpState, OtpChannel, OtpPurpose, OtpMessage, normalize_identifier,
}

module _ (e : OtpEnv) (purpose : OtpPurpose) (channel : OtpChannel) (now : ℕ) (id : Text)
    (out : List OtpMessage) where
  -- Blocked, with no code in use and no message sent since.
  pub record Shut (s : OtpState e) : Type 0 where
    pub blocked : is_blocked e now purpose channel id s ≡ true
    pub gone : find_active e now purpose channel id s ≡ none
    pub silent : s.sent ≡ out

  abbrev pub Nothing : {A : Type 0} → A → OtpState e → Type 0
  Nothing a s = ⊥

  pub limited-Shut :
      (s : OtpState e) (c : e.counters.St) → Shut s → Shut (record s { counters = c })
  limited-Shut s c p = record { blocked = p.blocked; gone = p.gone; silent = p.silent }

  pub admit-Shut :
      (ip : Option Text) → Triple Shut (admit_attempt e now purpose channel id ip) Nothing Shut
  unfolding admit_attempt limit_verifies
  admit-Shut ip =
      Triple-bind (λ _. Shut) (limit_verifies e purpose channel id ip) _
        (record { run = λ s p. state-Ends Shut _ _ (limited-Shut s _ p) })
        (λ _. record { run = λ s p. rw p.blocked p })

  pub verify-Shut :
      (raw : Text) (jti code : String) (ip : Option Text)
      → normalize_identifier channel raw ≡ id
      → Triple Shut (verify_otp e now jti purpose channel raw code ip) Nothing Shut
  unfolding verify_otp
  verify-Shut raw jti code ip h = rw h (
      Triple-bind Nothing (admit_attempt e now purpose channel id ip) _ (admit-Shut ip)
        (λ a. record { run = λ s p. absurd p }))

  pub request-Shut :
      (raw : Text) (random : ℕ) (ip : Option Text)
      → normalize_identifier channel raw ≡ id
      → Triple Shut (request_otp e now random purpose channel raw ip) Nothing Shut
  unfolding request_otp limit_requests
  request-Shut raw random ip h = rw h (
      Triple-bind (λ _. Shut) (limit_requests e purpose channel id ip) _
        (record { run = λ s p. state-Ends Shut _ _ (limited-Shut s _ p) })
        (λ _. record { run = λ s p. rw p.blocked p }))

  pub resend-Shut :
      (raw : Text) (random : ℕ) (ip : Option Text)
      → normalize_identifier channel raw ≡ id
      → normalize_identifier channel id ≡ id
      → Triple Shut (resend_otp e now random purpose channel raw ip) Nothing Shut
  unfolding resend_otp limit_requests
  resend-Shut raw random ip h i = rw h (
      Triple-bind (λ _. Shut) (limit_requests e purpose channel id ip) _
        (record { run = λ s p. state-Ends Shut _ _ (limited-Shut s _ p) })
        (λ _. record { run = λ s p. rw p.gone ((request-Shut id random ip i).run s p) }))

pub normalize_idem :
    (channel : OtpChannel) (raw : Text)
    → normalize_identifier channel (normalize_identifier channel raw)
      ≡ normalize_identifier channel raw
unfolding normalize_identifier
normalize_idem OtpChannel.sms raw = filter-trim_idem raw
normalize_idem OtpChannel.email raw = lower-trim_idem raw
