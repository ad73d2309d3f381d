-- ===== src/Catalog/Categories.antt =====
-- catalog/categories/categories.service.ts: `CategoriesService`, on the rows of the categories and of
-- their links to products. The database takes a new id, keeps slugs unique and lets no row name a
-- parent that is not there; when a row is deleted, what still names it as the parent becomes a root
-- (ON DELETE SET NULL). `before` is the order of names of the database; rows that it does not tell
-- apart keep their order.
pub mod Tree
pub mod Paths
pub mod Removal
pub mod Moves
mod Tests
use negare_api.Base.{
  ℕ, zero, suc, Bool, true, false, ◌&&◌, ◌||◌, not, List, [], ◌∷◌, ◌++◌, map, Option, none, some,
  if◌then◌else◌, ltb, ◌==◌, or_else, min, max, is_some, filter, any, all, find?, take, length,
}
use mathlib.Core.Option
use mathlib.Core.List.{reverse}
use negare_api.Base.Text.{Text, text_eq, trim, is_digit, decimal, contains_insensitive}
use negare_api.Base.Exec.{Exec, Result, ok, throws, pure, lift, gets, modify, guard, ◌>>=◌}
use negare_api.Catalog.Likes.{to_big_int}

pub record Category : Type 0 where
  pub id : ℕ
  pub name : Text
  pub slug : Text
  pub parent_id : Option ℕ

pub record CategoryLink : Type 0 where
  pub product_id : ℕ
  pub category_id : ℕ

pub record CategoriesState : Type 0 where
  pub categories : List Category
  pub product_links : List CategoryLink
  pub last_id : ℕ

pub data CategoriesFailure : Type 0 where
  invalid_category_id : CategoriesFailure
  category_not_found : CategoriesFailure
  record_not_found : CategoriesFailure
  unique_constraint : CategoriesFailure
  foreign_key : CategoriesFailure

pub record CategoryDto : Type 0 where
  pub id : Text
  pub name : Text
  pub slug : Text
  pub parent_id : Option Text

pub record CreateCategoryDto : Type 0 where
  pub name : Text
  pub slug : Text
  pub parent_id : Option Text

-- A parent that is not given stays, one that is null or empty is detached.
pub record UpdateCategoryDto : Type 0 where
  pub name : Option Text
  pub slug : Option Text
  pub parent_id : Option (Option Text)

pub record CategoryFindQueryDto : Type 0 where
  pub q : Option Text
  pub parent_id : Option Text
  pub limit : Option ℕ

abbrev pub Method : Type 0 → Type 0
Method A = Exec CategoriesState CategoriesFailure A

-- The number 0 is falsy, as `null` is.
abbrev pub truthy_id : Option ℕ → Option ℕ
truthy_id none = none
truthy_id (some zero) = none
truthy_id (some (suc n)) = some (suc n)

abbrev pub big_int_of : Option Text → Option ℕ
big_int_of none = none
big_int_of (some t) = to_big_int t

abbrev pub has_id : ℕ → Category → Bool
has_id id c = id == c.id

abbrev pub find_unique : ℕ → List Category → Option Category
find_unique id rows = find? (has_id id) rows

abbrev pub to_dto : Category → CategoryDto
to_dto c = record {
  id = decimal c.id;
  name = c.name;
  slug = c.slug;
  parent_id = Option.map decimal (truthy_id c.parent_id);
}

abbrev refers : Option ℕ → List Category → Bool
refers none rows = true
refers (some id) rows = any (has_id id) rows

abbrev valid : Option ℕ → Result CategoriesFailure ℕ
valid none = throws invalid_category_id
valid (some id) = ok id

abbrev found : {A : Type 0} → Option A → Result CategoriesFailure A
found none = throws category_not_found
found (some c) = ok c

unfoldable pub create : CreateCategoryDto → Method CategoryDto
create dto = do
  let parent_id = big_int_of dto.parent_id
  rows ← gets (λ st. st.categories)
  _ ← guard (not (any (λ c. text_eq dto.slug c.slug) rows)) unique_constraint
  _ ← guard (refers parent_id rows) foreign_key
  id ← gets (λ st. suc st.last_id)
  let created : Category = record {
    id = id;
    name = dto.name;
    slug = dto.slug;
    parent_id = parent_id;
  }
  _ ← modify (λ st. record st { categories = st.categories ++ (created ∷ []); last_id = id })
  pure (to_dto created)

-- What the update does to the parent: nothing, a parent to connect, or none.
abbrev pub parent_change : Option (Option Text) → Option (Option ℕ)
parent_change none = none
parent_change (some none) = some none
parent_change (some (some t)) = some (to_big_int t)

unfoldable pub with_data : UpdateCategoryDto → Category → Category
with_data dto c = record c {
  name = or_else dto.name c.name;
  slug = or_else dto.slug c.slug;
  parent_id = or_else (parent_change dto.parent_id) c.parent_id;
}

abbrev pub update_rows : ℕ → (Category → Category) → List Category → List Category
update_rows id f rows = map (λ c. if has_id id c then f c else c) rows

abbrev pub takes_slug : (id : ℕ) → Option Text → List Category → Bool
takes_slug id none rows = false
takes_slug id (some slug) rows = any (λ c. not (has_id id c) && text_eq slug c.slug) rows

unfoldable pub update : (id_str : Text) → UpdateCategoryDto → Method CategoryDto
update id_str dto = do
  id ← lift (valid (truthy_id (to_big_int id_str)))
  rows ← gets (λ st. st.categories)
  _ ← guard (any (has_id id) rows) record_not_found
  _ ← guard (refers (or_else (parent_change dto.parent_id) none) rows) record_not_found
  _ ← guard (not (takes_slug id dto.slug rows)) unique_constraint
  _ ← modify (λ st. record st { categories = update_rows id (with_data dto) st.categories })
  updated ← gets (λ st. find_unique id st.categories)
  c ← lift (found updated)
  pure (to_dto c)

-- A text of digits is an id, any other a slug.
abbrev by_id_or_slug : Option ℕ → Text → Category → Bool
by_id_or_slug none t c = text_eq t c.slug
by_id_or_slug (some id) t c = has_id id c

unfoldable pub find_one : (id_or_slug : Text) → Method CategoryDto
find_one id_or_slug = do
  c ← gets (λ st. find? (by_id_or_slug (to_big_int id_or_slug) id_or_slug) st.categories)
  row ← lift (found c)
  pure (to_dto row)

abbrev is_parent : Option ℕ → Option ℕ → Bool
is_parent none none = true
is_parent (some p) (some q) = p == q
is_parent _ _ = false

-- A root comes last: Postgres puts NULL behind all numbers.
abbrev by_parent : (same_parent : Bool) → Option ℕ → Option ℕ → Bool
by_parent same_parent none none = same_parent
by_parent same_parent none (some q) = false
by_parent same_parent (some p) none = true
by_parent same_parent (some p) (some q) = ltb p q || (p == q && same_parent)

abbrev sorts_before : (before : Text → Text → Bool) → Category → Category → Bool
sorts_before before c d = by_parent (before c.name d.name) c.parent_id d.parent_id

module _ (before : Text → Text → Bool) where
  unfoldable insert_row : Category → List Category → List Category
  insert_row c [] = c ∷ []
  insert_row c (d ∷ ds) =
      let rest = insert_row c ds in if sorts_before before d c then d ∷ rest else c ∷ d ∷ ds

  unfoldable pub ordered : List Category → List Category
  unfolding insert_row
  ordered [] = []
  ordered (c ∷ cs) = insert_row c (ordered cs)

  abbrev matches_text : Option Text → Category → Bool
  matches_text none c = true
  matches_text (some t) c = elim (trim t) [
    | [] ↦ true
    | (u ∷ us) ↦ contains_insensitive (u ∷ us) c.name || contains_insensitive (u ∷ us) c.slug
  ]

  abbrev matches_parent : Option Text → Category → Bool
  matches_parent none c = true
  matches_parent (some t) c = is_parent (to_big_int t) c.parent_id

  unfoldable pub find_all : CategoryFindQueryDto → Method (List CategoryDto)
  find_all q = do
    rows ← gets (λ st. st.categories)
    let fits = λ (c : Category). matches_text q.q c && matches_parent q.parent_id c
    pure (map to_dto (take (min (max (or_else q.limit 100) 1) 200) (filter fits (ordered rows))))

-- The loop goes up from a row; `none` means that the rounds ran out.
unfoldable pub climb : (fuel : ℕ) → (current : Option ℕ) → List Category → Option (List Category)
climb zero current rows = none
climb (suc fuel) none rows = some []
climb (suc fuel) (some id) rows = elim (find_unique id rows) [
  | none ↦ some []
  | some c ↦ Option.map (λ path. c ∷ path) (climb fuel (truthy_id c.parent_id) rows)
]

abbrev pub shown : List Category → List CategoryDto
shown path = map to_dto (reverse path)

-- The path from the root to the category; `none` as above.
unfoldable pub breadcrumbs :
    (fuel : ℕ)
    → (id_str : Text) → CategoriesState
    → Option (Result CategoriesFailure (List CategoryDto))
breadcrumbs fuel id_str st = elim (truthy_id (to_big_int id_str)) [
  | none ↦ some (throws invalid_category_id)
  | some id ↦ Option.map (λ path. ok (shown path)) (climb fuel (some id) st.categories)
]

abbrev pub is_child : ℕ → Category → Bool
is_child id c = is_parent (some id) c.parent_id

abbrev pub repoint : (id : ℕ) → (to : Option ℕ) → Category → Category
repoint id to c = if is_child id c then record c { parent_id = to } else c

abbrev pub delete_row : ℕ → List Category → List Category
delete_row id rows = map (repoint id none) (filter (λ c. not (has_id id c)) rows)

-- Children go to the parent of the row.
unfoldable pub remove : (id_str : Text) → Method (Unit {0})
remove id_str = do
  id ← lift (valid (truthy_id (to_big_int id_str)))
  stored ← gets (λ st. find_unique id st.categories)
  node ← lift (found stored)
  _ ← modify (λ st. record st { categories = map (repoint id node.parent_id) st.categories })
  _ ←
      modify (λ st. record st {
        product_links = filter (λ l. not (id == l.category_id)) st.product_links;
      })
  modify (λ st. record st { categories = delete_row id st.categories })
