-- ===== src/Auth/Users/Rows.antt =====
-- Rows found after rows were written.
use negare_api.Base.{
  ◌≡◌, refl, subst, Bool, true, List, [], ◌∷◌, ◌++◌, Option, none, some, Bool-cases, inl, inr,
}
use mathlib.Core.Option.{some-injective}
use negare_api.Auth.Users.{User, find_first, update_first}

abbrev pub change_found : (User → User) → Option User → Option User
change_found f none = none
change_found f (some u) = some (f u)

-- The change keeps the value that the row is found by.
pub find_first-update_first :
    (p : User → Bool) (f : User → User) (us : List User)
    → ((u : User) → p u ≡ true → p (f u) ≡ true)
    → find_first p (update_first p f us) ≡ change_found f (find_first p us)
unfolding find_first update_first
find_first-update_first p f [] keeps = refl
find_first-update_first p f (u ∷ us) keeps = elim (Bool-cases (p u)) [
  | inl here ↦ rw here (rw (keeps u here) refl)
  | inr there ↦ rw there (rw there (find_first-update_first p f us keeps))
]

pub find_first_added :
    (p : User → Bool) (us : List User) (new : User)
    → p new ≡ true
    → find_first p us ≡ none
    → find_first p (us ++ (new ∷ [])) ≡ some new
unfolding find_first
find_first_added p [] new fits free = rw fits refl
find_first_added p (u ∷ us) new fits free = elim (Bool-cases (p u)) [
  | inl here ↦ absurd (cc (rw here at free))
  | inr there ↦ rw there (find_first_added p us new fits (rw there at free))
]

pub find_first_same :
    (p q : User → Bool) (us : List User)
    → ((u : User) → p u ≡ q u)
    → find_first p us ≡ find_first q us
unfolding find_first
find_first_same p q [] h = refl
find_first_same p q (u ∷ us) h = rw (h u, find_first_same p q us h) refl

pub find_first_fits :
    (p : User → Bool) (us : List User) (u : User) → find_first p us ≡ some u → p u ≡ true
unfolding find_first
find_first_fits p [] u found = absurd (cc found)
find_first_fits p (v ∷ us) u found = elim (Bool-cases (p v)) [
  | inl here ↦ subst (λ (w : User). p w ≡ true) (some-injective v u (rw here at found)) here
  | inr there ↦ find_first_fits p us u (rw there at found)
]
