-- ===== src/Auth/Otp/Guesses.antt =====
-- core/auth/otp/otp.service.ts: how many guesses a code stands.
use negare_api.Base.{
  ℕ, suc, ◌+◌, ◌-◌, ◌/◌, ◌≤◌, ◌<◌, ◌≡◌, refl, sym, not, List, [], ◌∷◌, Option, none, some, String,
  same_refl, if◌then◌else◌, leb, or_else, arith, Bool-cases, Option-cases, inl, inr,
}
use negare_api.Base.Text.{Text}
use negare_api.Base.Exec.{Result, ok, throws, guard, gets, continue, returns, ◌>>◌}
use negare_api.Base.Triple.{Triple, Ends, Triple-bind, Triple-check, Triple-state, state-Ends}
use negare_api.Auth.Otp.{
  count_attempt, try_active, admit_attempt, issue_ticket, verify_otp, is_code, drop_active,
}
use negare_api.Auth.Otp.Request.{
  key_base, limit_verifies, find_active, is_blocked, otp_max_attempts,
}
use negare_api.Auth.Otp.Types.{
  OtpEnv, OtpState, OtpHash, OtpChannel, OtpPurpose, OtpFailure, invalid_code, too_many_attempts,
  normalize_identifier, add_attempt,
}

-- A call of `verifyOtp`, some time after the one before it.
pub record Try : Type 0 where
  pub delay : ℕ
  pub jti : String
  pub code : String
  pub ip : Option Text

module _ (e : OtpEnv) (purpose : OtpPurpose) (channel : OtpChannel) where
  abbrev Keeps : (OtpState e → Type 0) → Type 0
  Keeps P = (s : OtpState e) (c : e.counters.St) → P s → P (record s { counters = c })

  -- The attempts that a code has left.
  unfoldable pub attempts_left : Option OtpHash → ℕ
  attempts_left none = 0
  attempts_left (some h) = or_else h.max_attempts (otp_max_attempts e) - or_else h.attempts 0

  -- The calls, one after the other, that get as far as the comparison with the code.
  unfoldable pub guesses : (now : ℕ) → (raw_identifier : Text) → List Try → OtpState e → ℕ
  guesses now raw [] st = 0
  guesses now raw (t ∷ ts) st =
      let time = now + t.delay in
      let rest =
        guesses time raw ts (verify_otp e time t.jti purpose channel raw t.code t.ip st).1 in
      if returns (admit_attempt e time purpose channel (normalize_identifier channel raw) t.ip st).0
      then suc rest
      else rest

  pub key-change :
      (now : ℕ) (id : Text) (h : OtpHash) (s : OtpState e)
      → some h ≡ find_active e now purpose channel id s
      → e.active.hgetall now
          (key_base e purpose channel id)
          (e.active.change now (key_base e purpose channel id) add_attempt s.active)
        ≡ some (add_attempt (some h))
  key-change now id h s found =
      let k = key_base e purpose channel id in
      rw (e.active.hgetall-change now k k add_attempt s.active, same_refl k, sym found) refl

  module _ (now : ℕ) (id : Text) (b : ℕ) where
    abbrev pub Within : OtpState e → Type 0
    Within s = attempts_left (find_active e now purpose channel id s) ≤ b

    abbrev pub Spent : OtpState e → Type 0
    Spent s = attempts_left (find_active e now purpose channel id s) < b

    gone-Within : (s : OtpState e) → find_active e now purpose channel id s ≡ none → Within s
    unfolding attempts_left
    gone-Within s gone = rw gone (omega arith)

    limit-Within :
        (ip : Option Text)
        → Triple Within (limit_verifies e purpose channel id ip) (λ _. Within) Within
    unfolding limit_verifies
    limit-Within ip = record { run = λ s p. state-Ends Within _ _ p }

    drop-Within : (s : OtpState e) → Within (drop_active e purpose channel id s)
    drop-Within s =
        let k = key_base e purpose channel id in
        gone-Within (drop_active e purpose channel id s)
          (rw (e.active.hgetall-del now k k s.active, same_refl k) refl)

    count-Spent :
        (h : OtpHash) (s : OtpState e)
        → Within s
        → some h ≡ find_active e now purpose channel id s
        → Ends
            (λ _. Spent)
            Within
            (count_attempt e now purpose channel id h s).0
            (count_attempt e now purpose channel id h s).1
    unfolding count_attempt attempts_left
    count-Spent h s p found =
        elim (Bool-cases
          (leb (suc (or_else h.attempts 0)) (or_else h.max_attempts (otp_max_attempts e)))) [
            | inl few ↦
                let before = rw (sym found) at p in
                rw (key-change now id h s found)
                  (rw few (rw (key-change now id h s found) (ground arith)))
            | inr many ↦
                let k = key_base e purpose channel id in
                rw (key-change now id h s found) (
                  rw many (
                    rw
                      (
                        e.active.hgetall-del now k k (e.active.change now k add_attempt s.active),
                        same_refl k,
                      )
                      (omega arith)))
          ]

    try-Spent :
        (o : Option OtpHash)
        → Triple
            (λ s. Within s × (o ≡ find_active e now purpose channel id s))
            (try_active e now purpose channel id o)
            (λ _. Spent)
            Within
    unfolding try_active
    try-Spent none = record { run = λ s p. p.0 }
    try-Spent (some h) = record {
      run = λ s p. elim (Bool-cases (leb (or_else h.exp 0) (now / 1000))) [
        | inl old ↦ rw old (drop-Within s)
        | inr young ↦ rw young (count-Spent h s p.0 p.1)
      ];
    }

    pub admit-Spent :
        (ip : Option Text)
        → Triple Within (admit_attempt e now purpose channel id ip) (λ _. Spent) Within
    unfolding admit_attempt
    admit-Spent ip =
        Triple-bind (λ _. Within) _ _ (limit-Within ip)
          (λ _.
            Triple-bind (λ _. Within) (gets (is_blocked e now purpose channel id)) _
              (record { run = λ s p. p })
              (λ blocked.
                Triple-bind (λ _. Within) (guard (not blocked) too_many_attempts) _
                  (Triple-check (not blocked) too_many_attempts)
                  (λ _.
                    Triple-bind (λ o s. Within s × (o ≡ find_active e now purpose channel id s))
                      (gets (find_active e now purpose channel id)) _
                      (record { run = λ s p. (p, refl) }) try-Spent)))

    ticket-Within :
        (jti : String)
        → Triple Within (issue_ticket e now jti purpose channel id) (λ _. Within) Within
    unfolding issue_ticket
    ticket-Within jti = record { run = λ s p. drop-Within s }

    verify_tail-Within :
        (jti code : String) (hash : OtpHash)
        → Triple Within
            (guard (is_code e hash code) invalid_code >> issue_ticket e now jti purpose channel id)
            (λ _. Within)
            Within
    verify_tail-Within jti code hash =
        Triple-bind (λ _. Within) (guard (is_code e hash code) invalid_code) _
          (Triple-check (is_code e hash code) invalid_code) (λ _. ticket-Within jti)

  after_guess :
      (now : ℕ) (id : Text) (b : ℕ) (jti code : String) (res : Result OtpFailure OtpHash)
      (s : OtpState e)
      → Ends (λ _. Spent now id b) (Within now id b) res s
      → attempts_left (
            find_active e now purpose channel id
              (continue res
                (λ h.
                  guard (is_code e h code) invalid_code
                  >> issue_ticket e now jti purpose channel id)
                s).1)
          + (if returns res then 1 else 0)
        ≤ b
  after_guess now id b jti code (ok h) s p =
      omega (arith, Triple-state _ (verify_tail-Within now id (b - 1) jti code h) s (omega arith))
  after_guess now id b jti code (throws x) s p = omega arith

  -- A call takes away what it may have used of the attempts.
  verify_spends :
      (now : ℕ) (raw : Text) (jti code : String) (ip : Option Text) (s : OtpState e)
      → attempts_left (
            find_active e now purpose channel
              (normalize_identifier channel raw)
              (verify_otp e now jti purpose channel raw code ip s).1)
          + (if returns
                (admit_attempt e now purpose channel (normalize_identifier channel raw) ip s).0
              then 1
              else 0)
        ≤ attempts_left (find_active e now purpose channel (normalize_identifier channel raw) s)
  unfolding verify_otp
  verify_spends now raw jti code ip s =
      let id = normalize_identifier channel raw in
      let b = attempts_left (find_active e now purpose channel id s) in
      let m = admit_attempt e now purpose channel id ip in
      after_guess now id b jti code (m s).0 (m s).1 ((admit-Spent now id b ip).run s (omega arith))

  pub attempts_later :
      (now later : ℕ) (id : Text) (s : OtpState e)
      → now ≤ later
      → attempts_left (find_active e later purpose channel id s)
        ≤ attempts_left (find_active e now purpose channel id s)
  unfolding attempts_left
  attempts_later now later id s h = elim (Option-cases (find_active e later purpose channel id s)) [
    | inl gone ↦ rw gone (omega arith)
    | inr (g, found) ↦
        rw
          (
            found,
            e.active.hgetall_earlier now later (key_base e purpose channel id) s.active g h found,
          )
          (omega arith)
  ]

  pub guesses_left :
      (now : ℕ) (raw : Text) (ts : List Try) (s : OtpState e)
      → guesses now raw ts s
        ≤ attempts_left (find_active e now purpose channel (normalize_identifier channel raw) s)
  unfolding guesses
  guesses_left now raw [] s = omega arith
  guesses_left now raw (t ∷ ts) s =
      let time = now + t.delay in
      ground (
        arith,
        attempts_later now time (normalize_identifier channel raw) s (omega arith),
        verify_spends time raw t.jti t.code t.ip s,
        guesses_left time raw ts (verify_otp e time t.jti purpose channel raw t.code t.ip s).1,
      )
