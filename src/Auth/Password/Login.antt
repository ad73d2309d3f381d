-- ===== src/Auth/Password/Login.antt =====
-- core/auth/password/password.service.ts: who may log in.
use negare_api.Base.{
  ℕ, ◌≡◌, refl, sym, ap, ◌∙◌, subst, Bool, true, false, not, [], ◌∷◌, Option, none, some, String,
  same, if◌then◌else◌, Bool-cases, inl, inr, ltb, leb, length, or_else, is_some, arith, includes,
}
use negare_api.Base.Text.{Text, trim, lower}
use negare_api.Base.Trim.{trim_idem}
use negare_api.Base.Exec.{Result, ok, throws, guard, >>=-eq-ok}
use negare_api.Auth.Otp.Types.{OtpChannel}
use negare_api.Auth.Users.{User, has_email, matches, find_first}
use negare_api.Auth.Users.Rows.{find_first_same}
use negare_api.Auth.Password.{
  login, throttle, throttle_key, finish_login, hash_to_check, set_password,
  verify_and_consume_otp_ticket, upsert_user_for_channel, saved, welcome,
}
use negare_api.Auth.Password.Types.{
  Passwords, PasswordState, PasswordFailure, SetPasswordPayload, Draws, invalid_credentials, filled,
  split_identifier, normalize_email, only_email, weak_password,
}
use negare_api.Auth.Password.Saved.{value_or, Saved, by_channel-Saved, moved-Saved}

module _ (p : Passwords) where
  -- The counter is all that changes.
  throttle_passes :
      (k : String) (s : PasswordState p)
      → ((throttle p k s).0 ≡ ok tt) × ((throttle p k s).1.users ≡ s.users)
  unfolding throttle
  throttle_passes k s =
      elim (Bool-cases (
        leb (p.counters.count k (p.counters.incr k s.throttle))
          (or_else p.login_throttle_limit 6))) [
            | inl few ↦ rw few (refl, refl)
            | inr many ↦ rw many (refl, refl)
          ]

  finish_same :
      (k : String) (o : Option User) (b : Bool) (s t : PasswordState p)
      → (finish_login p k o b s).0 ≡ (finish_login p k o b t).0
  finish_same k none b s t = refl
  finish_same k (some u) false s t = refl
  finish_same k (some u) true s t = elim (Bool-cases (same u.id "")) [
    | inl blank ↦ rw blank refl
    | inr id ↦ rw id refl
  ]

  pub login-eq :
      (identifier password : Text) (ip : Option String) (s : PasswordState p)
      → is_some (filled (trim identifier)) ≡ true
      → (login p identifier password ip s).0 ≡ (
          let user = find_first (matches (split_identifier (trim identifier))) s.users in
          (finish_login p
            (throttle_key p (trim identifier) ip)
            user
            (p.bcrypt_compare password (hash_to_check p user))
            s).0)
  unfolding login
  login-eq identifier password ip s named =
      let k = throttle_key p (trim identifier) ip in
      let (passes, users) = throttle_passes k s in
      let user = find_first (matches (split_identifier (trim identifier))) s.users in
      rw (named, passes, users)
        (finish_same k user (p.bcrypt_compare password (hash_to_check p user)) (throttle p k s).1 s)

  login_blank :
      (identifier password : Text) (ip : Option String) (s : PasswordState p)
      → is_some (filled (trim identifier)) ≡ false
      → (login p identifier password ip s).0 ≡ throws invalid_credentials
  unfolding login
  login_blank identifier password ip s blank = rw blank refl

  -- The answer of `login` does not depend on how often it was called: the limit of logins is never enforced.
  pub login_unthrottled :
      (identifier password : Text) (ip : Option String) (s : PasswordState p) (c : p.counters.St)
      → (login p identifier password ip s).0
        ≡ (login p identifier password ip (record s { throttle = c })).0
  login_unthrottled identifier password ip s c =
      elim (Bool-cases (is_some (filled (trim identifier)))) [
        | inl named ↦
            let user = find_first (matches (split_identifier (trim identifier))) s.users in
            login-eq identifier password ip s named
            ∙ finish_same (throttle_key p (trim identifier) ip) user
                (p.bcrypt_compare password (hash_to_check p user)) s (record s { throttle = c })
            ∙ sym (login-eq identifier password ip (record s { throttle = c }) named)
        | inr blank ↦
            login_blank identifier password ip s blank
            ∙ sym (login_blank identifier password ip (record s { throttle = c }) blank)
      ]

  welcome-users :
      (o : Option Text) (name : Text) (s : PasswordState p) → (welcome p o name s).users ≡ s.users
  welcome-users none name s = refl
  welcome-users (some []) name s = refl
  welcome-users (some (c ∷ t)) name s = refl

  normalize_email-trim : (raw : Text) → normalize_email (trim raw) ≡ normalize_email raw
  unfolding normalize_email
  normalize_email-trim raw =
      ap (λ (v : Text). if includes v b'@' then some (lower v) else none) (trim_idem raw)

  split_address :
      (raw email : Text)
      → normalize_email raw ≡ some email
      → split_identifier raw ≡ only_email email
  unfolding split_identifier
  split_address raw email h = rw (h, split_identifier) refl

  filled_address : (u : Text) → includes u b'@' ≡ true → is_some (filled u) ≡ true
  filled_address [] e = absurd (cc e)
  filled_address (c ∷ u) e = refl

  named_address :
      (raw email : Text) → normalize_email raw ≡ some email → is_some (filled (trim raw)) ≡ true
  unfolding normalize_email
  named_address raw email h = elim (Bool-cases (includes (trim raw) b'@')) [
    | inl at ↦ filled_address (trim raw) at
    | inr none_at ↦ absurd (cc (rw none_at at h))
  ]

  matches_email : (email : Text) (u : User) → matches (only_email email) u ≡ has_email email u
  matches_email email u = ground arith

  account_logs_in :
      (identifier email password : Text) (ip : Option String) (salt : ℕ) (u : User)
      (s : PasswordState p)
      → normalize_email identifier ≡ some email
      → Saved p (has_email email) (p.bcrypt_hash salt password) u s
      → same u.id "" ≡ false
      → (login p identifier password ip s).0 ≡ ok u.id
  account_logs_in identifier email password ip salt u s h saved named =
      let split = split_address (trim identifier) email (normalize_email-trim identifier ∙ h) in
      let found : find_first (matches (split_identifier (trim identifier))) s.users ≡ some u =
        rw split (
          find_first_same (matches (only_email email)) (has_email email) s.users
            (matches_email email))
        ∙ saved.row in
      login-eq identifier password ip s (named_address identifier email h)
      ∙ rw (found, saved.has_hash, p.compare-hash salt password, named) refl

  -- A user who sets a password with a good ticket of an address can log in with the address, as the
  -- ticket has it, and the password, and is the user that `setPassword` answered, if that id is not
  -- empty.
  pub set_password_logs_in :
      (d : Draws) (token : String) (password : Text) (ip : Option String)
      (payload : SetPasswordPayload) (id : String) (s t : PasswordState p)
      → (verify_and_consume_otp_ticket p d.now token s).0 ≡ ok payload
      → payload.channel ≡ OtpChannel.email
      → set_password p d token password s ≡ (ok id, t)
      → same id "" ≡ false
      → (login p payload.identifier password ip t).0 ≡ ok id
  unfolding set_password
  set_password_logs_in d token password ip payload id s t good channel ran named =
      let (tt, s1, strong, ran1) =
        >>=-eq-ok (guard (not (ltb (length password) 8)) weak_password) _
          (verify_and_consume_otp_ticket p d.now token s).1 (rw good at ran) in
      let (u, s2, upserted, ran2) =
        >>=-eq-ok
          (upsert_user_for_channel p d payload.channel payload.identifier
            (p.bcrypt_hash d.salt password))
          _ s1 ran1 in
      let (email, address, saved) =
        by_channel-Saved p d payload.channel payload.identifier (p.bcrypt_hash d.salt password) s1
          s2 u channel upserted in
      let same_id : u.id ≡ id =
        ap (λ (q : Result PasswordFailure String × PasswordState p). value_or u.id q.0) ran2 in
      let rows =
        sym (welcome-users u.email (or_else u.name (or_else u.username payload.identifier)) s2)
        ∙ ap (λ (q : Result PasswordFailure String × PasswordState p). q.1.users) ran2 in
      account_logs_in payload.identifier email password ip d.salt u t address
        (moved-Saved p (has_email email) (p.bcrypt_hash d.salt password) u s2 t rows saved)
        (subst (λ (x : String). same x "" ≡ false) (sym same_id) named)
      ∙ ap ok same_id
