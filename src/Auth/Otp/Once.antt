-- ===== src/Auth/Otp/Once.antt =====
-- core/auth/otp/otp.service.ts: a code is good for one ticket.
use negare_api.Base.{
  ℕ, ◌≤◌, ◌≡◌, refl, false, String, same_refl, Option, arith, Bool-cases, inl, inr,
}
use negare_api.Base.Text.{Text}
use negare_api.Base.Exec.{Result, ok, throws, guard, continue, returns, ◌>>◌}
use negare_api.Base.Triple.{Ends}
use negare_api.Auth.Otp.{admit_attempt, issue_ticket, verify_otp, is_code}
use negare_api.Auth.Otp.Request.{key_base, find_active}
use negare_api.Auth.Otp.Types.{
  OtpEnv, OtpState, OtpHash, OtpChannel, OtpPurpose, OtpFailure, OtpVerified, invalid_code,
  normalize_identifier,
}
use negare_api.Auth.Otp.Guesses.{attempts_left, admit-Spent, attempts_later, Within, Spent}

module _ (e : OtpEnv) (purpose : OtpPurpose) (channel : OtpChannel) where
  abbrev pub SpentUp : (now : ℕ) → (raw : Text) → OtpState e → Type 0
  SpentUp now raw s =
      attempts_left e purpose channel
        (find_active e now purpose channel (normalize_identifier channel raw) s)
      ≡ 0

  ticket-SpentUp :
      (now : ℕ) (raw : Text) (jti : String) (s : OtpState e)
      → SpentUp now raw
          (issue_ticket e now jti purpose channel (normalize_identifier channel raw) s).1
  unfolding issue_ticket attempts_left
  ticket-SpentUp now raw jti s =
      let k = key_base e purpose channel (normalize_identifier channel raw) in
      rw (e.active.hgetall-del now k k s.active, same_refl k) refl

  verified :
      (now : ℕ) (raw : Text) (jti code : String) (res : Result OtpFailure OtpHash) (s : OtpState e)
      (a : OtpVerified) (t : OtpState e)
      → continue res
          (λ h.
            guard (is_code e h code) invalid_code
            >> issue_ticket e now jti purpose channel (normalize_identifier channel raw))
          s
        ≡ (ok a, t)
      → SpentUp now raw t
  verified now raw jti code (ok h) s a t ran = elim (Bool-cases (is_code e h code)) [
    | inl right ↦ rw (rw right at ran) at (ticket-SpentUp now raw jti s)
    | inr wrong ↦ absurd (cc (rw wrong at ran))
  ]
  verified now raw jti code (throws x) s a t ran = absurd (cc ran)

  not_compared :
      (now : ℕ) (id : Text) (jti code : String) (res : Result OtpFailure OtpHash) (s : OtpState e)
      → Ends (λ _. Spent e purpose channel now id 0) (Within e purpose channel now id 0) res s
      → returns
          (continue res
            (λ h.
              guard (is_code e h code) invalid_code >> issue_ticket e now jti purpose channel id)
            s).0
        ≡ false
  not_compared now id jti code (ok h) s p = absurd (omega arith)
  not_compared now id jti code (throws x) s p = refl

  pub spent_up_refuses :
      (now : ℕ) (raw : Text) (jti code : String) (ip : Option Text) (s : OtpState e)
      → SpentUp now raw s
      → returns (verify_otp e now jti purpose channel raw code ip s).0 ≡ false
  unfolding verify_otp
  spent_up_refuses now raw jti code ip s spent =
      let id = normalize_identifier channel raw in
      let m = admit_attempt e now purpose channel id ip in
      not_compared now id jti code (m s).0 (m s).1
        ((admit-Spent e purpose channel now id 0 ip).run s (omega arith))

  -- After a code was accepted, the next call for the same identifier and purpose, from the state that
  -- the acceptance left, is not accepted, whatever the code and however late.
  pub code_single_use :
      (now later : ℕ) (raw : Text) (jti jti' code code' : String) (ip ip' : Option Text)
      (s t : OtpState e) (a : OtpVerified)
      → now ≤ later
      → verify_otp e now jti purpose channel raw code ip s ≡ (ok a, t)
      → returns (verify_otp e later jti' purpose channel raw code' ip' t).0 ≡ false
  unfolding verify_otp
  code_single_use now later raw jti jti' code code' ip ip' s t a h ran =
      let id = normalize_identifier channel raw in
      let m = admit_attempt e now purpose channel id ip in
      let gone = verified now raw jti code (m s).0 (m s).1 a t ran in
      spent_up_refuses later raw jti' code' ip' t
        (omega (arith, attempts_later e purpose channel now later id t h))
