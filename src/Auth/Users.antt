-- ===== src/Auth/Users.antt =====
-- The rows of the table of users of prisma/schema.prisma that core/auth/password/password.service.ts
-- and core/users read and write, with the calls of Prisma that they make. `username` and `email` are texts of
-- Postgres that ignore the case; the three are unique. The lengths of columns are left out.
pub mod Rows
use negare_api.Base.{
  ℕ, ◌≡◌, Bool, true, false, ◌&&◌, ◌||◌, List, [], ◌∷◌, ◌++◌, Option, none, some, String, same,
  if◌then◌else◌, any,
}
use negare_api.Base.Text.{Text, text_eq, lower}

pub record User : Type 0 where
  pub id : String
  pub username : Option Text
  pub email : Option Text
  pub phone : Option Text
  pub name : Option Text
  pub bio : Option Text
  pub city : Option Text
  pub avatar_url : Option Text
  pub password_hash : Option String

pub record Identifier : Type 0 where
  pub email : Option Text
  pub phone : Option Text
  pub username : Option Text

abbrev pub citext_eq : Text → Text → Bool
citext_eq s t = text_eq (lower s) (lower t)

-- A column that is NULL equals nothing.
abbrev pub holds : (eq : Text → Text → Bool) → Option Text → Option Text → Bool
holds eq (some s) (some t) = eq s t
holds eq _ _ = false

abbrev pub has_username : Text → User → Bool
has_username t u = holds citext_eq (some t) u.username

abbrev pub has_email : Text → User → Bool
has_email t u = holds citext_eq (some t) u.email

abbrev pub has_phone : Text → User → Bool
has_phone t u = holds text_eq (some t) u.phone

abbrev pub has_id : String → User → Bool
has_id id u = same id u.id

-- `OR` over the parts that there are.
abbrev pub matches : Identifier → User → Bool
matches i u =
    holds citext_eq i.email u.email
    || holds text_eq i.phone u.phone
    || holds citext_eq i.username u.username

unfoldable pub find_first : (User → Bool) → List User → Option User
find_first p [] = none
find_first p (u ∷ us) = let rest = find_first p us in if p u then some u else rest

-- The first row that fits, as a unique column has no other.
unfoldable pub update_first : (User → Bool) → (User → User) → List User → List User
update_first p f [] = []
update_first p f (u ∷ us) = let rest = update_first p f us in if p u then f u ∷ us else u ∷ rest

-- A row with one of the unique values is there: the error P2002.
abbrev pub conflicts : User → User → Bool
conflicts u v =
    holds citext_eq u.username v.username
    || holds citext_eq u.email v.email
    || holds text_eq u.phone v.phone

unfoldable pub create : User → List User → Option (List User)
create u us = if any (conflicts u) us then none else some (us ++ (u ∷ []))
