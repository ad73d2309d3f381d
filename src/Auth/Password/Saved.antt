-- ===== src/Auth/Password/Saved.antt =====
-- core/auth/password/password.service.ts: the row that is left when a password is set.
use negare_api.Base.{
  ◌≡◌, refl, sym, ap, ◌∙◌, subst, Bool, true, false, List, [], ◌∷◌, ◌++◌, Option, none, some,
  String, Option-cases, Bool-cases, inl, inr, any,
}
use mathlib.Core.Option.{some-injective}
use negare_api.Base.Text.{Text, lower, text_eq_refl}
use negare_api.Base.Exec.{Result, ok, throws}
use negare_api.Auth.Otp.Types.{OtpChannel}
use negare_api.Auth.Users.{User, has_email, find_first, update_first, create, conflicts}
use negare_api.Auth.Users.Rows.{find_first-update_first, find_first_added, change_found}
use negare_api.Auth.Password.{
  upsert_user_for_channel, upsert_email, upsert, saved, saved_as, set_hash, set_email, new_user,
}
use negare_api.Auth.Password.Types.{
  Passwords, PasswordState, PasswordFailure, Draws, normalize_email,
}

abbrev pub value_or {ℓ} : {E A : Type ℓ} → A → Result E A → A
value_or d (ok a) = a
value_or d (throws e) = d

module _ (p : Passwords) where
  -- The row that is saved has the new hash, and is the one that is found.
  pub record Saved (found : User → Bool) (hash : String) (u : User) (s : PasswordState p)
      : Type 0 where
    pub row : find_first found s.users ≡ some u
    pub has_hash : u.password_hash ≡ some hash

  pub saved_as-Saved :
      (found : User → Bool) (hash : String) (users : List User) (o : Option User)
      (s t : PasswordState p) (u : User)
      → find_first found users ≡ o
      → ((v : User) → o ≡ some v → v.password_hash ≡ some hash)
      → saved_as p users o s ≡ (ok u, t)
      → Saved found hash u t
  saved_as-Saved found hash users none s t u e h ran = absurd (cc ran)
  saved_as-Saved found hash users (some v) s t u e h ran =
      let same_user : v ≡ u =
        ap (λ (q : Result PasswordFailure User × PasswordState p). value_or v q.0) ran in
      let same_rows : users ≡ t.users =
        ap (λ (q : Result PasswordFailure User × PasswordState p). q.1.users) ran in
      record {
        row =
            subst (λ (x : List User). find_first found x ≡ some u) same_rows
              (e ∙ ap some same_user);
        has_hash = subst (λ (x : User). x.password_hash ≡ some hash) same_user (h v refl);
      }

  pub upsert_found :
      (found : User → Bool) (new : User) (change : User → User) (users : List User) (v : User)
      → find_first found users ≡ some v
      → upsert p found new change users ≡ some (update_first found change users)
  upsert_found found new change users v old = rw (old, upsert) refl

  pub upsert_absent :
      (found : User → Bool) (new : User) (change : User → User) (users : List User)
      (o : Option (List User))
      → find_first found users ≡ none
      → create new users ≡ o
      → upsert p found new change users ≡ o
  upsert_absent found new change users o nobody e = rw (nobody, upsert) e

  pub create_taken :
      (new : User) (users : List User) → any (conflicts new) users ≡ true → create new users ≡ none
  unfolding create
  create_taken new users e = rw e refl

  pub create_free :
      (new : User) (users : List User)
      → any (conflicts new) users ≡ false
      → create new users ≡ some (users ++ (new ∷ []))
  unfolding create
  create_free new users e = rw e refl

  -- What `saved` answers, once it is known what is written and which row is then found.
  pub saved_written :
      (found : User → Bool) (rescue : User → User) (s t : PasswordState p) (u : User)
      (o : Option (List User)) (users : List User) (row : Option User)
      → o ≡ some users
      → find_first found users ≡ row
      → saved p found rescue o s ≡ (ok u, t)
      → saved_as p users row s ≡ (ok u, t)
  saved_written found rescue s t u o users row written finds ran =
      sym (ap (λ (r : Option User). saved_as p users r s) finds)
      ∙ sym (ap (λ (x : Option (List User)). saved p found rescue x s) written)
      ∙ ran

  pub saved_rescued :
      (found : User → Bool) (rescue : User → User) (s t : PasswordState p) (u : User)
      (o : Option (List User)) (row : Option User)
      → o ≡ none
      → find_first found (update_first found rescue s.users) ≡ row
      → saved p found rescue o s ≡ (ok u, t)
      → saved_as p (update_first found rescue s.users) row s ≡ (ok u, t)
  saved_rescued found rescue s t u o row lost finds ran =
      sym (ap (λ (r : Option User). saved_as p (update_first found rescue s.users) r s) finds)
      ∙ sym (ap (λ (x : Option (List User)). saved p found rescue x s) lost)
      ∙ ran

  pub saved-Saved :
      (found : User → Bool) (change rescue : User → User) (new : User) (hash : String)
      (s t : PasswordState p) (u : User)
      → ((v : User) → found v ≡ true → found (change v) ≡ true)
      → ((v : User) → found v ≡ true → found (rescue v) ≡ true)
      → found new ≡ true
      → ((v : User) → (change v).password_hash ≡ some hash)
      → new.password_hash ≡ some hash
      → saved p found rescue (upsert p found new change s.users) s ≡ (ok u, t)
      → Saved found hash u t
  saved-Saved found change rescue new hash s t u kc kr kn hc hn ran =
      elim (Option-cases (find_first found s.users)) [
        | inr (v, old) ↦
            let row =
              find_first-update_first found change s.users kc ∙ ap (change_found change) old in
            saved_as-Saved found hash (update_first found change s.users) (some (change v)) s t u
              row
              (λ w e.
                subst (λ (x : User). x.password_hash ≡ some hash) (some-injective (change v) w e)
                  (hc v))
              (saved_written found rescue s t u (upsert p found new change s.users)
                (update_first found change s.users) (some (change v))
                (upsert_found found new change s.users v old) row ran)
        | inl nobody ↦ elim (Bool-cases (any (conflicts new) s.users)) [
          | inl taken ↦
              let no_row =
                find_first-update_first found rescue s.users kr ∙ ap (change_found rescue) nobody in
              absurd (
                cc (
                  saved_rescued found rescue s t u (upsert p found new change s.users) none
                    (upsert_absent found new change s.users none nobody
                      (create_taken new s.users taken))
                    no_row ran))
          | inr free ↦
              let row = find_first_added found s.users new kn nobody in
              saved_as-Saved found hash (s.users ++ (new ∷ [])) (some new) s t u row
                (λ w e.
                  subst (λ (x : User). x.password_hash ≡ some hash) (some-injective new w e) hn)
                (saved_written found rescue s t u (upsert p found new change s.users)
                  (s.users ++ (new ∷ [])) (some new)
                  (upsert_absent found new change s.users (some (s.users ++ (new ∷ []))) nobody
                    (create_free new s.users free))
                  row ran)
        ]
      ]

  pub upsert_email-Saved :
      (d : Draws) (email : Text) (hash : String) (s t : PasswordState p) (u : User)
      → upsert_email p d email hash s ≡ (ok u, t)
      → Saved (has_email email) hash u t
  unfolding upsert_email
  upsert_email-Saved d email hash s t u ran =
      saved-Saved (has_email email) (λ (v : User). set_email p email (set_hash p hash v))
        (set_hash p hash) (new_user p d s.users email (some email) none hash) hash s t u
        (λ v _. text_eq_refl (lower email)) (λ v e. e) (text_eq_refl (lower email)) (λ v. refl) refl
        ran

  pub email_upsert-Saved :
      (d : Draws) (identifier : Text) (hash : String) (s t : PasswordState p) (u : User)
      → upsert_user_for_channel p d OtpChannel.email identifier hash s ≡ (ok u, t)
      → (email : Text) × (normalize_email identifier ≡ some email)
        × Saved (has_email email) hash u t
  unfolding upsert_user_for_channel
  email_upsert-Saved d identifier hash s t u ran =
      elim (Option-cases (normalize_email identifier)) [
        | inl bad ↦ absurd (cc (rw bad at ran))
        | inr (email, good) ↦ (email, good, upsert_email-Saved d email hash s t u (rw good at ran))
      ]

  pub by_channel-Saved :
      (d : Draws) (channel : OtpChannel) (identifier : Text) (hash : String) (s t : PasswordState p)
      (u : User)
      → channel ≡ OtpChannel.email
      → upsert_user_for_channel p d channel identifier hash s ≡ (ok u, t)
      → (email : Text) × (normalize_email identifier ≡ some email)
        × Saved (has_email email) hash u t
  by_channel-Saved d channel identifier hash s t u eq ran =
      email_upsert-Saved d identifier hash s t u (
        subst (λ (c : OtpChannel). upsert_user_for_channel p d c identifier hash s ≡ (ok u, t)) eq
          ran)

  pub moved-Saved :
      (found : User → Bool) (hash : String) (u : User) (s t : PasswordState p)
      → s.users ≡ t.users
      → Saved found hash u s
      → Saved found hash u t
  moved-Saved found hash u s t rows saved = record {
    row = subst (λ (x : List User). find_first found x ≡ some u) rows saved.row;
    has_hash = saved.has_hash;
  }
