-- ===== src/Users/Access.antt =====
-- common/guards/roles.guard.ts, catalog/policies/catalog.policies.ts and
-- catalog/guards/supplier-ownership.guard.ts: who may do what. The links of products to suppliers are
-- a table.
use negare_api.Base.{
  ℕ, Bool, true, false, ◌&&◌, ◌||◌, not, List, [], ◌∷◌, Option, none, some, String, same,
  if◌then◌else◌, ◌==◌, any,
}
use negare_api.Base.Text.{Text}
use negare_api.Base.Exec.{Result, ok, throws}
use negare_api.Redis.Sets.{has}
use negare_api.Catalog.Likes.{to_big_int}

-- `CurrentUserPayload`; the roles may be missing.
pub record CurrentUser : Type 0 where
  pub id : String
  pub roles : Option (List String)
  pub username : Option String

pub record SupplierLink : Type 0 where
  pub product_id : ℕ
  pub user_id : String

pub data AccessFailure : Type 0 where
  forbidden : AccessFailure
  bad_request : AccessFailure

abbrev pub has_role : String → Option (List String) → Bool
has_role role none = false
has_role role (some roles) = has roles role

abbrev some_role : List String → Option (List String) → Bool
some_role required none = false
some_role required (some roles) = any (has required) roles

-- `RolesGuard.canActivate`
unfoldable pub roles_guard :
    (required : Option (List String)) → Option CurrentUser → Result AccessFailure Bool
roles_guard none user = ok true
roles_guard (some []) user = ok true
roles_guard (some (r ∷ rs)) none = throws forbidden
roles_guard (some (r ∷ rs)) (some u) =
    if some_role (r ∷ rs) u.roles then ok true else throws forbidden

unfoldable pub is_admin : CurrentUser → Bool
is_admin u = has_role "admin" u.roles

unfoldable pub is_supplier : CurrentUser → Bool
is_supplier u = has_role "supplier" u.roles

unfoldable pub can_manage_product : Option CurrentUser → Bool
can_manage_product none = false
can_manage_product (some u) = is_admin u || is_supplier u

abbrev pub is_link : (product_id : ℕ) → (user_id : String) → SupplierLink → Bool
is_link product_id user_id l = product_id == l.product_id && same user_id l.user_id

abbrev owner_check : CurrentUser → List SupplierLink → Option ℕ → Result AccessFailure Bool
owner_check u links none = throws bad_request
owner_check u links (some id) = if any (is_link id u.id) links then ok true else throws forbidden

-- A parameter that is missing is the empty text.
unfoldable pub supplier_ownership_guard :
    List SupplierLink → Option CurrentUser → (product_id : Text) → Result AccessFailure Bool
supplier_ownership_guard links none product_id = throws forbidden
supplier_ownership_guard links (some u) product_id =
    if is_admin u
    then ok true
    else if not (is_supplier u)
    then throws forbidden
    else owner_check u links (to_big_int product_id)
