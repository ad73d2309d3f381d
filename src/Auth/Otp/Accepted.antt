-- ===== src/Auth/Otp/Accepted.antt =====
-- core/auth/otp/otp.service.ts: the code that was sent is accepted.
use negare_api.Base.{
  ℕ, ◌+◌, ◌≤◌, ◌<◌, ◌/◌, ◌≡◌, refl, sym, ◌∙◌, true, false, String, same_refl, leb, Option, some,
  arith, Option-cases, inl, inr, is_some,
}
use negare_api.Base.Text.{Text}
use negare_api.Base.Exec.{ok}
use negare_api.Base.Returns.{Returns, Returns-bind, Returns-pass}
use negare_api.Auth.Otp.{
  payload, admit_attempt, issue_ticket, verify_otp, try_active, count_attempt, is_code, next_step,
}
use negare_api.Auth.Otp.Request.{
  limit_verifies, key_base, request_otp, find_active, is_blocked, otp_max_attempts, otp_ttl,
  new_hash,
}
use negare_api.Auth.Otp.Types.{
  OtpEnv, OtpState, OtpHash, OtpChannel, OtpPurpose, OtpRequested, OtpVerified,
  normalize_identifier, random_6_digits, invalid_code, add_attempt,
}
use negare_api.Auth.Otp.Issue.{request-Fresh}
use negare_api.Auth.Otp.Guesses.{key-change}

module _ (e : OtpEnv) (purpose : OtpPurpose) (channel : OtpChannel) (now random : ℕ)
    (sent_ip : Option Text) where
  -- What stands in the way of the code sent at `now`.
  pub record Awaited (later : ℕ) (raw : Text) (ip : Option Text) (s : OtpState e) : Type 0 where
    pub in_time : later / 1000 < now / 1000 + otp_ttl e
    pub kept :
        is_some (find_active e later purpose channel (normalize_identifier channel raw) s) ≡ true
    pub unblocked : is_blocked e later purpose channel (normalize_identifier channel raw) s ≡ false
    pub within_limits :
        (limit_verifies e purpose channel (normalize_identifier channel raw) ip s).0 ≡ ok tt

  abbrev sent_hash : OtpHash
  sent_hash = new_hash e now purpose channel sent_ip (random_6_digits random)

  attempt_returns :
      (later : ℕ) (id : Text) (s : OtpState e)
      → later / 1000 < now / 1000 + otp_ttl e
      → 0 < otp_max_attempts e
      → find_active e later purpose channel id s ≡ some sent_hash
      → Returns (try_active e later purpose channel id (some sent_hash)) s (λ h _. h ≡ sent_hash)
  unfolding try_active count_attempt
  attempt_returns later id s young some_left found =
      let k = key_base e purpose channel id in
      let unexpired : leb (now / 1000 + otp_ttl e) (later / 1000) ≡ false = ground arith in
      let few : leb 1 (otp_max_attempts e) ≡ true = ground arith in
      record {
        value = sent_hash;
        after = record s { active = e.active.change later k add_attempt s.active };
        runs =
            rw unexpired
              (rw (key-change e purpose channel later id sent_hash s (sym found)) (rw few refl));
        post = refl;
      }

  limited-find :
      (later : ℕ) (id : Text) (ip : Option Text) (s : OtpState e)
      → find_active e later purpose channel id (limit_verifies e purpose channel id ip s).1
        ≡ find_active e later purpose channel id s
  unfolding limit_verifies
  limited-find later id ip s = refl

  limited-blocked :
      (later : ℕ) (id : Text) (ip : Option Text) (s : OtpState e)
      → is_blocked e later purpose channel id (limit_verifies e purpose channel id ip s).1
        ≡ is_blocked e later purpose channel id s
  unfolding limit_verifies
  limited-blocked later id ip s = refl

  admit-eq :
      (later : ℕ) (raw : Text) (ip : Option Text) (s : OtpState e)
      → Awaited later raw ip s
      → find_active e later purpose channel (normalize_identifier channel raw) s ≡ some sent_hash
      → admit_attempt e later purpose channel (normalize_identifier channel raw) ip s
        ≡ try_active e later purpose channel
            (normalize_identifier channel raw)
            (some sent_hash)
            (limit_verifies e purpose channel (normalize_identifier channel raw) ip s).1
  unfolding admit_attempt
  admit-eq later raw ip s w found =
      let id = normalize_identifier channel raw in
      rw
        (
          w.within_limits,
          limited-blocked later id ip s,
          w.unblocked,
          limited-find later id ip s,
          found,
        )
        refl

  still_sent :
      (later : ℕ) (raw : Text) (ip : Option Text) (s : OtpState e)
      → now ≤ later
      → Awaited later raw ip s
      → find_active e now purpose channel (normalize_identifier channel raw) s ≡ some sent_hash
      → find_active e later purpose channel (normalize_identifier channel raw) s ≡ some sent_hash
  still_sent later raw ip s h w sent =
      elim (Option-cases
        (find_active e later purpose channel (normalize_identifier channel raw) s)) [
          | inl gone ↦ absurd (cc (rw gone at w.kept))
          | inr (g, found) ↦
              found
              ∙ sym (
                  e.active.hgetall_earlier now later
                    (key_base e purpose channel (normalize_identifier channel raw)) s.active g h
                    found)
              ∙ sent
        ]

  -- The ticket, and where its hash is kept.
  abbrev pub Ticketed :
      (later : ℕ) → (raw : Text) → (jti : String) → OtpVerified → OtpState e → Type 0
  Ticketed later raw jti a s =
      (a.ticket
        ≡ e.sign_ticket later jti (payload e purpose channel (normalize_identifier channel raw)))
      × (e.tickets.get later jti s.tickets ≡ some (e.sha256 a.ticket))

  pub ticket_returns :
      (later : ℕ) (raw : Text) (jti : String) (s : OtpState e)
      → 0 < e.config.ticket_ttl_sec
      → Returns
          (issue_ticket e later jti purpose channel (normalize_identifier channel raw))
          s
          (Ticketed later raw jti)
  unfolding issue_ticket
  ticket_returns later raw jti s lasts =
      let id = normalize_identifier channel raw in
      let (answer, s') = issue_ticket e later jti purpose channel id s in
      record {
        value = record {
          ticket = e.sign_ticket later jti (payload e purpose channel id);
          next = next_step e purpose;
          expires_in = e.config.ticket_ttl_sec;
        };
        after = s';
        runs = refl;
        post = (
          refl,
          rw
              (
                e.tickets.get-set_ex later jti jti
                    (e.sha256 (e.sign_ticket later jti (payload e purpose channel id)))
                    e.config.ticket_ttl_sec s.tickets lasts,
                same_refl jti,
              )
              refl,
        );
      }

  admit_returns :
      (later : ℕ) (raw : Text) (ip : Option Text) (s : OtpState e)
      → 0 < otp_max_attempts e
      → Awaited later raw ip s
      → find_active e later purpose channel (normalize_identifier channel raw) s ≡ some sent_hash
      → Returns
          (admit_attempt e later purpose channel (normalize_identifier channel raw) ip)
          s
          (λ h _. h ≡ sent_hash)
  admit_returns later raw ip s left w found =
      let id = normalize_identifier channel raw in
      let s1 = (limit_verifies e purpose channel id ip s).1 in
      let tried = attempt_returns later id s1 w.in_time left (limited-find later id ip s ∙ found) in
      record {
        value = tried.value;
        after = tried.after;
        runs = admit-eq later raw ip s w found ∙ tried.runs;
        post = tried.post;
      }

  -- With positive lifetimes and a positive number of attempts: the code of a request that issued one
  -- is accepted later, as long as it has not expired, is still in Redis, and the identifier is neither
  -- blocked nor over its limits; the answer is the ticket for this identifier, whose hash is then
  -- stored under its id.
  pub sent_code_accepted :
      (later : ℕ) (raw : Text) (jti : String) (ip : Option Text) (answer : OtpRequested)
      (s t : OtpState e)
      → 0 < otp_ttl e
      → 0 < otp_max_attempts e
      → 0 < e.config.ticket_ttl_sec
      → now ≤ later
      → request_otp e now random purpose channel raw sent_ip s ≡ (ok answer, t)
      → answer.already_active ≡ false
      → Awaited later raw ip t
      → Returns
          (verify_otp e later jti purpose channel raw (random_6_digits random) ip)
          t
          (Ticketed later raw jti)
  unfolding verify_otp
  sent_code_accepted later raw jti ip answer s t ttl left lasts h ran new w =
      let id = normalize_identifier channel raw in
      let sent =
        (rw ran at ((request-Fresh e purpose channel now random sent_ip ttl raw).run s tt)) new in
      Returns-bind (λ hash _. hash ≡ sent_hash) (admit_attempt e later purpose channel id ip) _ t
        (admit_returns later raw ip t left w (still_sent later raw ip t h w sent))
        (λ hash u eq.
          Returns-pass (is_code e hash (random_6_digits random)) invalid_code _ u
            (rw eq (same_refl (e.sha256 (random_6_digits random))))
            (ticket_returns later raw jti u lasts))
