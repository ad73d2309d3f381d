-- ===== src/Auth/Password/Handover.antt =====
-- The ticket of core/auth/otp/otp.service.ts is what core/auth/password/password.service.ts accepts.
use negare_api.Base.{
  ℕ, ◌≤◌, ◌<◌, ◌≡◌, refl, sym, ap, ◌∙◌, subst, true, false, Option, none, some, String, same,
  Option-cases, inl, inr, is_some,
}
use negare_api.Base.Text.{Text, text_eq_refl}
use negare_api.Base.Exec.{Result, ok, guard, >>=-eq-ok}
use negare_api.Base.Triple.{Ends}
use negare_api.Auth.Otp.{admit_attempt, verify_otp, is_code}
use negare_api.Auth.Otp.Types.{
  OtpEnv, OtpState, OtpChannel, OtpPurpose, OtpVerified, invalid_code, normalize_identifier,
  OtpFailure,
}
use negare_api.Auth.Otp.Accepted.{Ticketed, ticket_returns}
use negare_api.Auth.Password.{verify_and_consume_otp_ticket, complete}
use negare_api.Auth.Password.Types.{
  Passwords, PasswordState, TicketClaims, SetPasswordPayload, filled,
}

-- The services share the hash and the keys of the tickets.
abbrev pub sharing : OtpEnv → Passwords → Passwords
sharing e p = record p { tickets = e.tickets; sha256 = e.sha256 }

abbrev pub claims_of : OtpPurpose → OtpChannel → (identifier : Text) → (jti : String) → TicketClaims
claims_of purpose channel identifier jti = record {
  purpose = some purpose;
  channel = some channel;
  identifier = identifier;
  jti = jti;
}

abbrev pub payload_of :
    OtpPurpose → OtpChannel → (identifier : Text) → (jti : String) → SetPasswordPayload
payload_of purpose channel identifier jti = record {
  purpose = purpose;
  channel = channel;
  identifier = identifier;
  jti = jti;
}

complete_claims :
    (p : Passwords) (purpose : OtpPurpose) (channel : OtpChannel) (identifier : Text) (jti : String)
    → same jti "" ≡ false
    → filled identifier ≡ some identifier
    → complete p (claims_of purpose channel identifier jti)
      ≡ ok (payload_of purpose channel identifier jti)
complete_claims p purpose channel identifier jti h k = rw (h, k) refl

module _ (e : OtpEnv) (p : Passwords) (purpose : OtpPurpose) (channel : OtpChannel) (raw : Text)
    (jti : String) (now : ℕ) where
  verified-Ticketed :
      (code : String) (ip : Option Text) (s t : OtpState e) (a : OtpVerified)
      → 0 < e.config.ticket_ttl_sec
      → verify_otp e now jti purpose channel raw code ip s ≡ (ok a, t)
      → Ticketed e purpose channel 0 0 none now raw jti a t
  unfolding verify_otp
  verified-Ticketed code ip s t a lasts ran =
      let id = normalize_identifier channel raw in
      let (h, s1, admitted, ran1) = >>=-eq-ok (admit_attempt e now purpose channel id ip) _ s ran in
      let (u, s2, right, ran2) = >>=-eq-ok (guard (is_code e h code) invalid_code) _ s1 ran1 in
      let made = ticket_returns e purpose channel 0 0 none now raw jti s2 lasts in
      subst
        (λ (q : Result OtpFailure OtpVerified × OtpState e).
          Ends (Ticketed e purpose channel 0 0 none now raw jti) (λ _. Unit) q.0 q.1)
        (sym made.runs ∙ ran2) made.post

  -- With a positive lifetime of tickets, an id and a hash that are not empty and an identifier that is
  -- not: the ticket of a code that was accepted is accepted in turn, for the same identifier, as long
  -- as it is still in Redis and is read as it was signed.
  pub otp_ticket_accepted :
      (later : ℕ) (code : String) (ip : Option Text) (s t : OtpState e) (a : OtpVerified)
      (u : PasswordState (sharing e p))
      → 0 < e.config.ticket_ttl_sec
      → now ≤ later
      → same jti "" ≡ false
      → same (e.sha256 a.ticket) "" ≡ false
      → filled (normalize_identifier channel raw) ≡ some (normalize_identifier channel raw)
      → verify_otp e now jti purpose channel raw code ip s ≡ (ok a, t)
      → u.tickets ≡ t.tickets
      → is_some (e.tickets.get later jti t.tickets) ≡ true
      → p.verify later a.ticket
        ≡ some (claims_of purpose channel (normalize_identifier channel raw) jti)
      → (verify_and_consume_otp_ticket (sharing e p) later a.ticket u).0
        ≡ ok (payload_of purpose channel (normalize_identifier channel raw) jti)
  unfolding verify_and_consume_otp_ticket
  otp_ticket_accepted later code ip s t a u lasts h named hashed identified ran shared alive reads =
      let id = normalize_identifier channel raw in
      let (_, stored) = verified-Ticketed code ip s t a lasts ran in
      let kept : e.tickets.get later jti t.tickets ≡ some (e.sha256 a.ticket) =
        elim (Option-cases (e.tickets.get later jti t.tickets)) [
          | inl gone ↦ absurd (cc (rw gone at alive))
          | inr (x, found) ↦
              found ∙ sym (e.tickets.get_earlier now later jti t.tickets x h found) ∙ stored
        ] in
      let here : e.tickets.get later jti u.tickets ≡ some (e.sha256 a.ticket) =
        ap (λ (x : e.tickets.St). e.tickets.get later jti x) shared ∙ kept in
      rw
        (
          reads,
          complete_claims (sharing e p) purpose channel id jti named identified,
          here,
          hashed,
          text_eq_refl (p.from_hex (e.sha256 a.ticket)),
        )
        refl
