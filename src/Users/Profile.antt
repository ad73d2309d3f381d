-- ===== src/Users/Profile.antt =====
-- core/users/profile/profile.service.ts with username.rules.ts: `ProfileService`, on the table of users.
-- A field of a request that is `undefined` is `none`. The roles that `serialize` adds are left out.
pub mod Names
use negare_api.Base.{
  ℕ, ◌≡◌, Bool, true, false, ◌&&◌, ◌||◌, not, List, [], ◌∷◌, Option, none, some, String,
  if◌then◌else◌, ltb, ◌==◌, is_some, all, any, length, last?,
}
use negare_api.Base.Text.{Text, codes, trim, lower, text_eq}
use negare_api.Base.Exec.{Exec, Result, ok, throws, pure, lift, guard, gets, ◌>>=◌, ◌>>◌}
use negare_api.Auth.Users.{User, has_id, has_username, find_first, update_first}
use negare_api.Auth.Password.Types.{filled, is_alnum}

pub record UpdateProfile : Type 0 where
  pub name : Option (Option Text)
  pub bio : Option (Option Text)
  pub city : Option (Option Text)
  pub avatar_url : Option (Option Text)
  pub email : Option (Option Text)
  pub phone : Option (Option Text)

-- The reasons for a name that is refused.
pub data UsernameAvailability : Type 0 where
  available : UsernameAvailability
  empty : UsernameAvailability
  wrong_length : UsernameAvailability
  wrong_form : UsernameAvailability
  reserved : UsernameAvailability
  taken : UsernameAvailability

pub data ProfileFailure : Type 0 where
  profile_not_found : ProfileFailure
  contact_change : ProfileFailure
  invalid_username : ProfileFailure
  username_taken_or_reserved : ProfileFailure
  record_not_found : ProfileFailure

abbrev pub Method : Type 0 → Type 0
Method A = Exec (List User) ProfileFailure A

abbrev pub username_min : ℕ
username_min = 3

abbrev pub username_max : ℕ
username_max = 20

abbrev pub is_word : ℕ → Bool
is_word c = is_alnum c || c == b'_'

abbrev ends_well : Option ℕ → Bool
ends_well none = true
ends_well (some c) = is_alnum c

-- `/^[a-z0-9](?:[a-z0-9_]*[a-z0-9])?$/`
unfoldable pub matches_username_regex : Text → Bool
matches_username_regex [] = false
matches_username_regex (c ∷ t) = is_alnum c && all is_word t && ends_well (last? t)

abbrev pub reserved_usernames : List Text
reserved_usernames =
    codes "admin"
    ∷ codes "root"
    ∷ codes "system"
    ∷ codes "support"
    ∷ codes "help"
    ∷ codes "contact"
    ∷ codes "negare"
    ∷ codes "api"
    ∷ codes "docs"
    ∷ codes "blog"
    ∷ codes "news"
    ∷ codes "about"
    ∷ codes "login"
    ∷ codes "signup"
    ∷ []

abbrev pub is_reserved : Text → Bool
is_reserved t = any (text_eq t) reserved_usernames

unfoldable pub normalize_username : Text → Text
normalize_username raw = lower (trim raw)

abbrev pub normalize_nullable : Option (Option Text) → Option (Option Text)
normalize_nullable none = none
normalize_nullable (some none) = some none
normalize_nullable (some (some t)) = some (filled (trim t))

abbrev field : Option (Option Text) → Option Text → Option Text
field none old = old
field (some new) old = new

abbrev found : ProfileFailure → Option User → Result ProfileFailure User
found e none = throws e
found e (some u) = ok u

unfoldable pub get_profile : (user_id : String) → Method User
get_profile user_id = do
  user ← gets (find_first (has_id user_id))
  lift (found profile_not_found user)

-- `update` of the row with the id; `e` is the answer when there is none.
abbrev pub update_row : (e : ProfileFailure) → (user_id : String) → (User → User) → Method User
update_row e user_id f us = elim (find_first (has_id user_id) us) [
  | none ↦ (throws e, us)
  | some u ↦ (ok (f u), update_first (has_id user_id) f us)
]

abbrev pub profile_data : UpdateProfile → User → User
profile_data dto u = record u {
  name = field (normalize_nullable dto.name) u.name;
  bio = field (normalize_nullable dto.bio) u.bio;
  city = field (normalize_nullable dto.city) u.city;
  avatar_url = field (normalize_nullable dto.avatar_url) u.avatar_url;
}

unfoldable pub update_profile : (user_id : String) → UpdateProfile → Method User
update_profile user_id dto = do
  _ ← guard (not (is_some dto.email || is_some dto.phone)) contact_change
  update_row profile_not_found user_id (profile_data dto)

unfoldable pub update_avatar : (user_id : String) → (avatar_url : Text) → Method User
update_avatar user_id avatar_url =
    update_row profile_not_found user_id (λ u. record u { avatar_url = filled (trim avatar_url) })

unfoldable pub check_username_availability : (raw : Text) → List User → UsernameAvailability
check_username_availability raw us =
    let username = normalize_username raw in
    if not (is_some (filled username))
    then empty
    else if ltb (length username) username_min || ltb username_max (length username)
    then wrong_length
    else if not (matches_username_regex username)
    then wrong_form
    else if is_reserved username
    then reserved
    else if is_some (find_first (has_username username) us)
    then taken
    else available

abbrev pub accepted : UsernameAvailability → Result ProfileFailure (Unit {0})
accepted available = ok tt
accepted reserved = throws username_taken_or_reserved
accepted taken = throws username_taken_or_reserved
accepted _ = throws invalid_username

abbrev pub set_username : Text → User → User
set_username username u = record u { username = some username }

unfoldable pub update_username : (user_id : String) → (raw : Text) → Method User
update_username user_id raw = do
  check ← gets (check_username_availability raw)
  _ ← lift (accepted check)
  update_row record_not_found user_id (set_username (normalize_username raw))
