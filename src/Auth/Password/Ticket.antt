-- ===== src/Auth/Password/Ticket.antt =====
-- core/auth/password/password.service.ts: a ticket is good for one call of `setPassword`.
use negare_api.Base.{
  ℕ, ◌≡◌, refl, subst, Bool, false, not, List, Option, none, some, String, same_refl, Option-cases,
  Bool-cases, inl, inr, ltb, length, or_else, same, [], ◌∷◌,
}
use negare_api.Base.Text.{Text}
use negare_api.Base.Exec.{Result-cases, Exec, ok, pure, guard, lift, modify, returns, ◌>>=◌}
use negare_api.Base.Triple.{Triple, Triple-bind, Triple-check, Triple-lift, Triple-state}
use negare_api.Auth.Otp.Types.{OtpChannel}
use negare_api.Auth.Users.{User, find_first, update_first}
use negare_api.Auth.Password.{
  complete, take_ticket, check_ticket, verify_and_consume_otp_ticket, set_password, safe_eq_hex,
  upsert_user_for_channel, upsert_phone, upsert_email, saved, saved_as, welcome, present,
}
use negare_api.Auth.Password.Types.{
  Passwords, PasswordState, PasswordFailure, TicketClaims, SetPasswordPayload, Draws, weak_password,
  ticket_integrity, invalid_phone, invalid_email, normalize_phone, normalize_email,
}

module _ (p : Passwords) (later : ℕ) (jti : String) where
  abbrev Gone : PasswordState p → Type 0
  Gone s = p.tickets.get later jti s.tickets ≡ none

  abbrev Keeps : {A : Type 0} → Exec (PasswordState p) PasswordFailure A → Type 0
  Keeps m = Triple Gone m (λ _. Gone) Gone

  saved_as-Keeps : (users : List User) (o : Option User) → Keeps (saved_as p users o)
  saved_as-Keeps users none = record { run = λ s g. g }
  saved_as-Keeps users (some u) = record { run = λ s g. g }

  saved-Keeps :
      (found : User → Bool) (rescue : User → User) (o : Option (List User))
      → Keeps (saved p found rescue o)
  saved-Keeps found rescue (some users) = saved_as-Keeps users (find_first found users)
  saved-Keeps found rescue none = record {
    run = λ s.
        let users = update_first found rescue s.users in
        (saved_as-Keeps users (find_first found users)).run s;
  }

  upsert-Keeps :
      (d : Draws) (channel : OtpChannel) (identifier : Text) (hash : String)
      → Keeps (upsert_user_for_channel p d channel identifier hash)
  unfolding upsert_user_for_channel upsert_phone upsert_email
  upsert-Keeps d OtpChannel.sms identifier hash =
      Triple-bind (λ _. Gone) (lift (present p invalid_phone (normalize_phone identifier))) _
        (Triple-lift (present p invalid_phone (normalize_phone identifier)))
        (λ phone. record { run = λ s g. (saved-Keeps _ _ _).run s g })
  upsert-Keeps d OtpChannel.email identifier hash =
      Triple-bind (λ _. Gone) (lift (present p invalid_email (normalize_email identifier))) _
        (Triple-lift (present p invalid_email (normalize_email identifier)))
        (λ email. record { run = λ s g. (saved-Keeps _ _ _).run s g })

  welcome-Gone :
      (o : Option Text) (name : Text) (s : PasswordState p) → Gone s → Gone (welcome p o name s)
  welcome-Gone none name s g = g
  welcome-Gone (some []) name s g = g
  welcome-Gone (some (c ∷ t)) name s g = g

  -- What `setPassword` does once the ticket is taken.
  abbrev after_ticket :
      Draws → (password : Text) → SetPasswordPayload → Exec (PasswordState p) PasswordFailure String
  after_ticket d password payload = do
    _ ← guard (not (ltb (length password) 8)) weak_password
    u ←
        upsert_user_for_channel p d payload.channel payload.identifier
          (p.bcrypt_hash d.salt password)
    _ ← modify (welcome p u.email (or_else u.name (or_else u.username payload.identifier)))
    pure u.id

  after-Keeps :
      (d : Draws) (password : Text) (payload : SetPasswordPayload)
      → Keeps (after_ticket d password payload)
  after-Keeps d password payload =
      Triple-bind (λ _. Gone) (guard (not (ltb (length password) 8)) weak_password) _
        (Triple-check (not (ltb (length password) 8)) weak_password)
        (λ _.
          Triple-bind (λ _. Gone)
            (upsert_user_for_channel p d payload.channel payload.identifier
              (p.bcrypt_hash d.salt password))
            _ (upsert-Keeps d payload.channel payload.identifier (p.bcrypt_hash d.salt password))
            (λ u. record {
              run = λ s g.
                  welcome-Gone u.email (or_else u.name (or_else u.username payload.identifier)) s g;
            }))

  check-Keeps : (token : String) (o : Option String) → Keeps (check_ticket p token o)
  check-Keeps token none = record { run = λ s g. g }
  check-Keeps token (some hex) = elim (Bool-cases (same hex "")) [
    | inl blank ↦ rw blank (record { run = λ s g. g })
    | inr filled ↦ rw filled (Triple-check (safe_eq_hex p hex (p.sha256 token)) ticket_integrity)
  ]

  take-Gone : (now : ℕ) (s : PasswordState p) → Gone (take_ticket p now jti s).1
  take-Gone now s = rw (p.tickets.get-del later jti jti s.tickets, same_refl jti) refl

module _ (p : Passwords) where
  first_call :
      (d : Draws) (later : ℕ) (token : String) (password : Text) (c : TicketClaims)
      (payload : SetPasswordPayload) (s : PasswordState p)
      → p.verify d.now token ≡ some c
      → complete p c ≡ ok payload
      → p.tickets.get later payload.jti (set_password p d token password s).1.tickets ≡ none
  unfolding set_password verify_and_consume_otp_ticket
  first_call d later token password c payload s reads full =
      let jti = payload.jti in
      rw (reads, full)
        (Triple-state {P = Gone p later jti} _
          (Triple-bind (λ _. Gone p later jti)
            (do _ ← check_ticket p token (p.tickets.get d.now jti s.tickets); pure payload) _
            (Triple-bind (λ _. Gone p later jti)
              (check_ticket p token (p.tickets.get d.now jti s.tickets)) _
              (check-Keeps p later jti token (p.tickets.get d.now jti s.tickets))
              (λ _. record { run = λ u g. g }))
            (after-Keeps p later jti d password))
          (take_ticket p d.now jti s).1 (take-Gone p later jti d.now s))

  -- A token that is not read, or whose ticket is gone.
  refused_call :
      (d : Draws) (token : String) (password : Text) (s : PasswordState p)
      → ((c : TicketClaims) (payload : SetPasswordPayload)
          → p.verify d.now token ≡ some c
          → complete p c ≡ ok payload
          → p.tickets.get d.now payload.jti s.tickets ≡ none)
      → returns (set_password p d token password s).0 ≡ false
  unfolding set_password verify_and_consume_otp_ticket
  refused_call d token password s gone = elim (Option-cases (p.verify d.now token)) [
    | inl unread ↦ rw unread refl
    | inr (c, reads) ↦ elim (Result-cases (complete p c)) [
      | inl (payload, full) ↦ rw (reads, full, gone c payload reads full) refl
      | inr (x, bad) ↦ rw (reads, bad) refl
    ]
  ]

  -- Once `setPassword` was called with a token that was read, however the call ended, no later call with that token
  -- sets a password: a call that was refused for a weak password uses the ticket up, too.
  pub ticket_single_use :
      (d d' : Draws) (token : String) (password password' : Text) (c : TicketClaims)
      (s : PasswordState p)
      → p.verify d.now token ≡ some c
      → returns (set_password p d' token password' (set_password p d token password s).1).0 ≡ false
  ticket_single_use d d' token password password' c s reads =
      refused_call d' token password' (set_password p d token password s).1
        (λ c' payload again full. first_call d d'.now token password c payload s reads (
          subst (λ (x : TicketClaims). complete p x ≡ ok payload)
            (p.verify_same d'.now d.now token c' c again reads) full))
