-- ===== src/Auth/Password/Accounts.antt =====
-- core/auth/password/password.service.ts: the names that are made for new users.
use negare_api.Base.{
  ℕ, zero, suc, ◌+◌, ◌<◌, ◌≤◌, ◌≡◌, List, none, arith, Option-cases, Bool-cases, ◌==◌, inl, inr,
}
use negare_api.Base.Text.{Text}
use negare_api.Auth.Users.{User, has_username, find_first}
use negare_api.Auth.Password.Types.{candidate, free_username, generate_username, username_base}

free_username_free :
    (rounds i j : ℕ) (base : Text) (random : ℕ) (users : List User)
    → i ≤ j
    → j < i + rounds
    → find_first (has_username (candidate base j)) users ≡ none
    → find_first (has_username (free_username rounds i base random users)) users ≡ none
unfolding free_username
free_username_free zero i j base random users h k free = absurd (omega arith)
free_username_free (suc rounds) i j base random users h k free =
    elim (Option-cases (find_first (has_username (candidate base i)) users)) [
      | inl now_free ↦ rw (now_free, free_username) now_free
      | inr (u, taken) ↦ elim (Bool-cases (i == j)) [
        | inl here ↦ let at_once : i ≡ j = ground arith in absurd (cc (rw at_once at taken, free))
        | inr later ↦
            rw (taken, free_username)
              (free_username_free rounds (suc i) j base random users (ground arith) (omega arith)
                free)
      ]
    ]

-- The name that is made for a new user is nobody's, when one of the 1000 candidates is.
pub generated_username_free :
    (seed : Text) (random j : ℕ) (users : List User)
    → j < 1000
    → find_first (has_username (candidate (username_base seed) j)) users ≡ none
    → find_first (has_username (generate_username seed random users)) users ≡ none
unfolding generate_username
generated_username_free seed random j users h free =
    free_username_free 1000 0 j (username_base seed) random users (omega arith) (omega arith) free
