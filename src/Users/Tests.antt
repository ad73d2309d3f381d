-- ===== src/Users/Tests.antt =====
-- The theorems on names at a user who takes a new one.
use negare_api.Base.{◌≡◌, refl, true, List, [], ◌∷◌, none, some, String}
use negare_api.Base.Text.{codes, trim, trim_start, lower, lower_unit, text_eq}
use negare_api.Base.Exec.{ok, throws}
use negare_api.Auth.Users.{User, find_first, update_first}
use negare_api.Catalog.Likes.{to_big_int}
use negare_api.Users.Profile.{
  taken, reserved, wrong_form, available, matches_username_regex, normalize_username,
  check_username_availability, update_username,
}
use negare_api.Users.Access.{
  CurrentUser, roles_guard, supplier_ownership_guard, is_admin, is_supplier, forbidden,
}

everything : Unit {0}
unfolding trim trim_start lower lower_unit text_eq find_first update_first to_big_int
    matches_username_regex normalize_username check_username_availability update_username
    roles_guard supplier_ownership_guard is_admin is_supplier
everything = tt

abbrev user : String → String → User
user id username = record {
  id = id;
  username = some (codes username);
  email = none;
  phone = none;
  name = none;
  bio = none;
  city = none;
  avatar_url = none;
  password_hash = none;
}

abbrev table : List User
table = user "u1" "ann" ∷ user "u2" "Bob" ∷ []

checks :
    (check_username_availability (codes " BOB") table ≡ taken)
    × (check_username_availability (codes "admin") table ≡ reserved)
    × (check_username_availability (codes "_ann") table ≡ wrong_form)
    × (check_username_availability (codes "a__b") table ≡ available)
unfolding everything
checks = (refl, refl, refl, refl)

rename_runs :
    update_username "u1" (codes "Ann_2") table
    ≡ (ok (user "u1" "ann_2"), user "u1" "ann_2" ∷ user "u2" "Bob" ∷ [])
unfolding everything
rename_runs = refl

abbrev supplier : CurrentUser
supplier = record { id = "u2"; roles = some ("supplier" ∷ []); username = none }

guards :
    (supplier_ownership_guard
        (record { product_id = 7; user_id = "u2" } ∷ [])
        (some supplier)
        (codes "7")
      ≡ ok true)
    × (supplier_ownership_guard [] (some supplier) (codes "7") ≡ throws forbidden)
    × (roles_guard (some ("admin" ∷ [])) (some supplier) ≡ throws forbidden)
unfolding everything
guards = (refl, refl, refl)
