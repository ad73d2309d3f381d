-- ===== src/Auth/Otp/Lockout.antt =====
-- core/auth/otp/otp.service.ts: what is answered when a code was tried too often.
use negare_api.Base.{ℕ, ◌≤◌, ◌<◌, ◌/◌, ◌≡◌, false, some, List, or_else}
use negare_api.Base.Text.{Text}
use negare_api.Base.Exec.{Result, throws, returns}
use negare_api.Auth.Otp.Request.{find_active, is_blocked, otp_max_attempts}
use negare_api.Auth.Otp.Types.{
  OtpEnv, OtpState, OtpHash, OtpChannel, OtpPurpose, OtpFailure, OtpVerified, OtpMessage,
  too_many_attempts,
}
use negare_api.Auth.Otp.Shut.{Shut}

module _ (e : OtpEnv) (purpose : OtpPurpose) (channel : OtpChannel) where
  -- The code in use was tried as often as it may be.
  pub record Exhausted (now : ℕ) (id : Text) (s : OtpState e) : Type 0 where
    pub hash : OtpHash
    pub found : find_active e now purpose channel id s ≡ some hash
    pub unexpired : now / 1000 < or_else hash.exp 0
    pub used : or_else hash.max_attempts (otp_max_attempts e) ≤ or_else hash.attempts 0
    pub open_still : is_blocked e now purpose channel id s ≡ false

  abbrev Locked :
      (now : ℕ) → (id : Text) → OtpState e → Result OtpFailure OtpVerified × OtpState e → Type 0
  Locked now id s p = (p.0 ≡ throws too_many_attempts) × Shut e purpose channel now id s.sent p.1

module _ (e : OtpEnv) where
  -- The call is refused, and no message goes out.
  abbrev pub Refused : {A : Type 0} → List OtpMessage → Result OtpFailure A × OtpState e → Type 0
  Refused out p = (returns p.0 ≡ false) × (p.1.sent ≡ out)
