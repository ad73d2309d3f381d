-- ===== src/Catalog/Categories/Moves.antt =====
-- catalog/categories/categories.service.ts: `update` does not look where it moves a category.
use mathlib.Core.Option
use mathlib.Core.Option.{some-injective}
use negare_api.Base.{
  ℕ, zero, suc, ◌≡◌, refl, ◌∙◌, Bool, true, false, List, [], ◌∷◌, Option, none, some, Bool-cases,
  inl, inr, any, any-find?, if◌then◌else◌, find?-holds,
}
use negare_api.Base.Text.{Text}
use negare_api.Base.Exec.{returns, ok}
use negare_api.Catalog.Likes.{to_big_int}
use negare_api.Catalog.Categories.{
  Category, UpdateCategoryDto, has_id, find_unique, CategoriesState, parent_change, takes_slug,
  to_dto, update, breadcrumbs, truthy_id, update_rows, with_data, climb,
}
use negare_api.Catalog.Categories.Paths.{WayUp, climb_found}

-- The category is on a way up.
abbrev pub passes : ℕ → List Category → Bool
passes id path = any (has_id id) path

module _ (id : ℕ) (dto : UpdateCategoryDto) where
  abbrev f : Category → Category
  f c = with_data dto c

  find-update_rows :
      (n : ℕ) (rows : List Category)
      → find_unique n (update_rows id f rows)
        ≡ Option.map (λ c. if has_id id c then f c else c) (find_unique n rows)
  unfolding with_data
  find-update_rows n [] = refl
  find-update_rows n (c ∷ cs) = elim (Bool-cases (has_id id c)) [
    | inl here ↦ elim (Bool-cases (has_id n c)) [
      | inl found ↦ rw (here, found) (rw here refl)
      | inr later ↦ rw (here, later) (find-update_rows n cs)
    ]
    | inr other ↦ elim (Bool-cases (has_id n c)) [
      | inl found ↦ rw (other, found) (rw other refl)
      | inr later ↦ rw (other, later) (find-update_rows n cs)
    ]
  ]

  -- Below a category that was moved below itself, the loop does not end.
  circle :
      (fuel : ℕ) (p : ℕ) (rows : List Category)
      → ((c : Category) → truthy_id (f c).parent_id ≡ some p)
      → {cur : Option ℕ} {low path : List Category} → WayUp rows (some p) low
      → passes id low ≡ true
      → WayUp rows cur path
      → passes id path ≡ true
      → climb fuel cur (update_rows id f rows) ≡ none
  unfolding climb
  circle zero p rows to low_way low_passes w h = refl
  circle (suc fuel) p rows to low_way low_passes WayUp.root h = cc
  circle (suc fuel) p rows to low_way low_passes (WayUp.missing {id = n} gone) h = cc
  circle (suc fuel) p rows to low_way low_passes (WayUp.up {id = n} {c} {path} there w) h =
      elim (Bool-cases (has_id id c)) [
        | inl here ↦
            climb_found (update_rows id f rows) fuel n (f c)
              (find-update_rows n rows ∙ rw there (rw here refl))
            ∙ rw (to c, circle fuel p rows to low_way low_passes low_way low_passes) refl
        | inr other ↦
            climb_found (update_rows id f rows) fuel n c
              (find-update_rows n rows ∙ rw there (rw other refl))
            ∙ rw (circle fuel p rows to low_way low_passes w (rw other at h)) refl
      ]

-- An update whose guards pass.
update_passes :
    (id_str : Text) (id p : ℕ) (dto : UpdateCategoryDto) (c d : Category) (st : CategoriesState)
    → truthy_id (to_big_int id_str) ≡ some id
    → parent_change dto.parent_id ≡ some (some p)
    → find_unique id st.categories ≡ some c
    → find_unique p st.categories ≡ some d
    → takes_slug id dto.slug st.categories ≡ false
    → update id_str dto st ≡ (
      ok (to_dto (with_data dto c)),
      record st { categories = update_rows id (with_data dto) st.categories },
    )
unfolding update
update_passes id_str id p dto c d st id_given change at_id at_p free =
    let rows = st.categories in
    let there : find_unique id (update_rows id (with_data dto) rows) ≡ some (with_data dto c) =
      find-update_rows id dto id rows ∙ rw at_id (rw (find?-holds (has_id id) rows at_id) refl) in
    rw (
      update,
      id_given,
      any-find? (has_id id) rows at_id,
      change,
      any-find? (has_id p) rows at_p,
      free,
      there,
    )

-- An update that names as the parent a category whose way up passes the category itself, and no slug
-- that another category has, is carried out. After it the loop of `breadcrumbs` does not end, however many rounds it takes, for each
-- category whose way up passed the moved one; the moved one and its new parent are among these.
pub update_closes_circle :
    (id_str p_str other_str : Text) (id p other : ℕ) (dto : UpdateCategoryDto) (c d : Category)
    (low path : List Category) (st : CategoriesState) (fuel : ℕ)
    → truthy_id (to_big_int id_str) ≡ some id
    → dto.parent_id ≡ some (some p_str)
    → to_big_int p_str ≡ some p
    → truthy_id (to_big_int other_str) ≡ some other
    → find_unique id st.categories ≡ some c
    → find_unique p st.categories ≡ some d
    → takes_slug id dto.slug st.categories ≡ false
    → truthy_id (some p) ≡ some p
    → WayUp st.categories (some p) low
    → passes id low ≡ true
    → WayUp st.categories (some other) path
    → passes id path ≡ true
    → let (res, st') = update id_str dto st in
      (returns res ≡ true) × (breadcrumbs fuel other_str st' ≡ none)
unfolding breadcrumbs with_data
update_closes_circle id_str p_str other_str id p other dto c d low path st fuel id_given to to_p
      other_given at_id at_p free real low_way low_passes way passes_id =
    let change : parent_change dto.parent_id ≡ some (some p) = rw (to, to_p) refl in
    let goes_to : (e : Category) → truthy_id (with_data dto e).parent_id ≡ some p =
      λ e. rw change real in
    rw (update_passes id_str id p dto c d st id_given change at_id at_p free) (
      refl,
      rw
          (
            breadcrumbs,
            other_given,
            circle id dto fuel p st.categories goes_to low_way low_passes way passes_id,
          )
          refl,
    )
