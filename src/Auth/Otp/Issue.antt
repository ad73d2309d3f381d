-- ===== src/Auth/Otp/Issue.antt =====
-- core/auth/otp/otp.service.ts: what a request leaves behind.
use negare_api.Base.{
  ℕ, ◌-◌, ◌/◌, ◌≤◌, ◌<◌, ◌≡◌, refl, false, not, List, Option, none, some, String, same_refl, ltb,
  or_else, arith, Bool-cases, inl, inr,
}
use negare_api.Base.Text.{Text}
use negare_api.Base.Exec.{ok, guard, gets, modify}
use negare_api.Base.Triple.{Triple, Triple-bind, Triple-check, state-Ends}
use negare_api.Auth.Otp.Request.{
  key_base, limit_requests, issue_new_code, request_otp, find_active, new_hash, store_code,
  answer_or_issue, cooling_of, is_blocked, otp_max_attempts, send, otp_ttl,
}
use negare_api.Auth.Otp.Types.{
  OtpEnv, OtpState, OtpHash, OtpChannel, OtpPurpose, OtpRequested, normalize_identifier,
  random_6_digits, too_many_attempts,
}
use negare_api.Auth.Otp.Guesses.{Try, guesses, attempts_left, guesses_left}

-- Nothing is known.
abbrev Anything : {S : Type 0} → S → Type 0
Anything s = Unit

module _ (e : OtpEnv) (purpose : OtpPurpose) (channel : OtpChannel) (now random : ℕ)
    (ip : Option Text) (lasts : 0 < otp_ttl e) where
  abbrev pub Holds : (id : Text) → OtpState e → Type 0
  Holds id s =
      find_active e now purpose channel id s
      ≡ some (new_hash e now purpose channel ip (random_6_digits random))

  abbrev Fresh : (id : Text) → OtpRequested → OtpState e → Type 0
  Fresh id a s = a.already_active ≡ false → Holds id s

  store-Holds :
      (id : Text) (s : OtpState e)
      → Holds id (store_code e now purpose channel id ip (random_6_digits random) s)
  store-Holds id s =
      let k = key_base e purpose channel id in
      let set =
        e.active.change now k (λ _. new_hash e now purpose channel ip (random_6_digits random))
          s.active in
      rw (e.active.hgetall-expire now k k (otp_ttl e) set lasts) (
        rw
          (
            e.active.hgetall-change now k k
                (λ _. new_hash e now purpose channel ip (random_6_digits random)) s.active,
            same_refl k,
          )
          refl)

  send-Holds :
      (id : Text) (code : String)
      → Triple (Holds id) (send e channel id code) (λ _. Holds id) Anything
  send-Holds id code = record {
    run = λ s p. elim (Bool-cases (e.delivers channel id code)) [
      | inl sent ↦ rw sent p
      | inr lost ↦ rw lost tt
    ];
  }

  pub issue-Holds :
      (id : Text)
      → Triple Anything (issue_new_code e now random purpose channel id ip) (λ _. Holds id) Anything
  unfolding issue_new_code
  issue-Holds id =
      Triple-bind (λ _. Holds id)
        (modify (store_code e now purpose channel id ip (random_6_digits random))) _
        (record { run = λ s _. store-Holds id s }) (λ _. send-Holds id (random_6_digits random))

  new_answer-Fresh :
      (id : Text)
      → Triple Anything
          (answer_or_issue e now random purpose channel id ip none)
          (Fresh id)
          Anything
  new_answer-Fresh id =
      Triple-bind (λ _. Holds id) (issue_new_code e now random purpose channel id ip) _
        (issue-Holds id) (λ _. record { run = λ s p _. p })

  answer-Fresh :
      (id : Text) (o : Option OtpHash)
      → Triple Anything
          (answer_or_issue e now random purpose channel id ip (cooling_of e now o))
          (Fresh id)
          Anything
  answer-Fresh id none = new_answer-Fresh id
  answer-Fresh id (some h) = elim (Bool-cases (ltb 0 (or_else h.resend_at 0 - now / 1000))) [
    | inl young ↦ rw young (record { run = λ s p eq. absurd (cc eq) })
    | inr old ↦ rw old (new_answer-Fresh id)
  ]

  pub request-Fresh :
      (raw : Text)
      → Triple Anything
          (request_otp e now random purpose channel raw ip)
          (Fresh (normalize_identifier channel raw))
          Anything
  unfolding request_otp
  request-Fresh raw =
      let id = normalize_identifier channel raw in
      Triple-bind (λ _. Anything) (limit_requests e purpose channel id ip) _
        (record { run = λ s p. state-Ends Anything _ _ tt })
        (λ _.
          Triple-bind (λ _. Anything) (gets (is_blocked e now purpose channel id)) _
            (record { run = λ s p. tt })
            (λ blocked.
              Triple-bind (λ _. Anything) (guard (not blocked) too_many_attempts) _
                (Triple-check (not blocked) too_many_attempts)
                (λ _.
                  Triple-bind (λ _. Anything) (gets (find_active e now purpose channel id)) _
                    (record { run = λ s p. tt }) (answer-Fresh id))))

  -- With a positive lifetime of codes: however the codes are guessed after a request that issued a
  -- code, and whenever, no more than OTP_VERIFY_MAX guesses are compared with it, as long as no other
  -- code is requested.
  pub code_guesses_bound :
      (raw : Text) (answer : OtpRequested) (s t : OtpState e) (tries : List Try)
      → request_otp e now random purpose channel raw ip s ≡ (ok answer, t)
      → answer.already_active ≡ false
      → guesses e purpose channel now raw tries t ≤ otp_max_attempts e
  unfolding attempts_left
  code_guesses_bound raw answer s t tries ran new =
      let held : Holds (normalize_identifier channel raw) t =
        (rw ran at ((request-Fresh raw).run s tt)) new in
      omega (arith, rw held at (guesses_left e purpose channel now raw tries t))
