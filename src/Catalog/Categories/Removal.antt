-- ===== src/Catalog/Categories/Removal.antt =====
-- catalog/categories/categories.service.ts: `remove` takes one row out of the ways up.
use mathlib.Core.Option
use mathlib.Core.Option.{some-injective}
use negare_api.Base.{
  ℕ, zero, suc, ◌+◌, ◌<◌, ◌≡◌, refl, sym, ap, ◌∙◌, subst, true, false, not, List, [], ◌∷◌, map,
  Option, none, some, arith, length, Bool-cases, inl, inr, filter, any, find?-holds, ◌==◌,
}
use negare_api.Base.Text.{Text}
use negare_api.Base.Exec.{ok}
use negare_api.Catalog.Likes.{to_big_int}
use negare_api.Catalog.Categories.{
  Category, CategoryLink, CategoriesState, has_id, find_unique, truthy_id, is_parent, is_child,
  repoint, delete_row, remove,
}
use negare_api.Catalog.Categories.Paths.{WayUp, climb-WayUp}

abbrev pub id_of : Category → ℕ
id_of c = c.id

abbrev pub without : ℕ → List ℕ → List ℕ
without id ns = filter (λ n. not (id == n)) ns

repoint_id : (id : ℕ) (to : Option ℕ) (c : Category) → (repoint id to c).id ≡ c.id
repoint_id id to c = ground arith

is_parent_eq : (id : ℕ) (o : Option ℕ) → is_parent (some id) o ≡ true → o ≡ some id
is_parent_eq id none h = cc
is_parent_eq id (some p) h = ground arith

truthy_other :
    (id : ℕ) (o : Option ℕ)
    → is_parent (some id) o ≡ false
    → is_parent (some id) (truthy_id o) ≡ false
truthy_other id none h = refl
truthy_other id (some zero) h = refl
truthy_other id (some (suc n)) h = h

truthy_self : (o : Option ℕ) (id : ℕ) → truthy_id o ≡ some id → truthy_id (some id) ≡ some id
truthy_self none id h = cc
truthy_self (some zero) id h = cc
truthy_self (some (suc n)) id h = ap truthy_id (sym h) ∙ h

module _ (rows : List Category) where
  WayUp-unique :
      {cur : Option ℕ} {p q : List Category} → WayUp rows cur p → WayUp rows cur q → p ≡ q
  WayUp-unique {cur} {p} {q} v w =
      let fuel = suc (length p + length q) in
      some-injective p q
        (sym (climb-WayUp rows fuel v (omega arith)) ∙ climb-WayUp rows fuel w (omega arith))

  -- Inversion at a row that is there.
  way_on :
      {cur : Option ℕ} {path : List Category} (n : ℕ) (c : Category)
      → WayUp rows cur path
      → cur ≡ some n
      → find_unique n rows ≡ some c
      → (rest : List Category) × (path ≡ c ∷ rest) × WayUp rows (truthy_id c.parent_id) rest
  way_on n c WayUp.root e h = cc
  way_on n c (WayUp.missing {id} gone) e h =
      let same_id : id ≡ n = some-injective id n e in absurd (cc (rw same_id at gone, h))
  way_on n c (WayUp.up {id} {c = d} {path} there w) e h =
      let same_id : id ≡ n = some-injective id n e in
      let same_row : d ≡ c = some-injective d c (sym (rw same_id at there) ∙ h) in
      (
        path,
        ap (λ x. x ∷ path) same_row,
        subst (λ (x : Category). WayUp rows (truthy_id x.parent_id) path) same_row w,
      )

module _ (id : ℕ) (to : Option ℕ) where
  -- A row that stays, after its parent was changed and the row was deleted.
  abbrev moved : Category → Category
  moved c = repoint id none (repoint id to c)

  abbrev left : List Category → List Category
  left rows = delete_row id (map (repoint id to) rows)

  moved_id : (c : Category) → (moved c).id ≡ c.id
  moved_id c = repoint_id id none (repoint id to c) ∙ repoint_id id to c

  -- A row with another id is found as before.
  find-left :
      (j : ℕ) (rows : List Category)
      → (id == j) ≡ false
      → find_unique j (left rows) ≡ Option.map moved (find_unique j rows)
  find-left j [] other = refl
  find-left j (c ∷ cs) other = elim (Bool-cases (has_id id c)) [
    | inl dropped ↦
        let away : has_id j c ≡ false = ground arith in
        rw (repoint_id id to c, dropped, away) (find-left j cs other)
    | inr kept ↦ elim (Bool-cases (has_id j c)) [
      | inl here ↦ rw (repoint_id id to c, kept, moved_id c, here) refl
      | inr away ↦ rw (repoint_id id to c, kept, moved_id c, away) (find-left j cs other)
    ]
  ]

  -- The deleted row is no longer found.
  find-left_deleted : (rows : List Category) → find_unique id (left rows) ≡ none
  find-left_deleted [] = refl
  find-left_deleted (c ∷ cs) = elim (Bool-cases (has_id id c)) [
    | inl dropped ↦ rw (repoint_id id to c, dropped) (find-left_deleted cs)
    | inr kept ↦ rw (repoint_id id to c, kept, moved_id c, kept) (find-left_deleted cs)
  ]

  moved_other : (c : Category) → is_child id c ≡ false → (moved c).parent_id ≡ c.parent_id
  moved_other c h = rw (h, h) refl

  moved_child :
      (c : Category)
      → is_child id c ≡ true
      → is_parent (some id) to ≡ false
      → (moved c).parent_id ≡ to
  moved_child c h k = rw (h, k) refl

  module _ (rows : List Category) (node : Category) (stored : find_unique id rows ≡ some node)
      (given : truthy_id (some id) ≡ some id) where
    -- A way that comes back to its start would have no end.
    not_own_parent :
        {path : List Category}
        → WayUp rows (truthy_id node.parent_id) path
        → is_parent (some id) node.parent_id ≡ false
    not_own_parent {path} w = elim (Bool-cases (is_parent (some id) node.parent_id)) [
      | inr other ↦ other
      | inl own ↦
          let e : truthy_id node.parent_id ≡ some id =
            ap truthy_id (is_parent_eq id node.parent_id own) ∙ given in
          let (rest, whole, above) = way_on rows id node w e stored in
          absurd (omega (arith, ap length (WayUp-unique rows w above), ap length whole))
    ]

module _ (rows : List Category) (id : ℕ) (node : Category)
    (stored : find_unique id rows ≡ some node) (given : truthy_id (some id) ≡ some id) where
  abbrev remaining : List Category
  remaining = left id node.parent_id rows

  abbrev pub Shorter : Option ℕ → List Category → Type 0
  Shorter cur path =
      (path' : List Category) × WayUp remaining cur path'
      × (map id_of path' ≡ without id (map id_of path))

  -- A row that stays is on its way as before.
  step_up :
      (n : ℕ) (c : Category) (cur : Option ℕ) (path : List Category)
      → (id == n) ≡ false
      → find_unique n rows ≡ some c
      → truthy_id (moved id node.parent_id c).parent_id ≡ cur
      → Shorter cur path
      → Shorter (some n) (c ∷ path)
  step_up n c cur path other there e (path', w, ids) =
      let m = moved id node.parent_id c in
      let kept : (id == c.id) ≡ false = ground (arith, find?-holds (has_id n) rows there) in
      (
        m ∷ path',
        WayUp.up (find-left id node.parent_id n rows other ∙ rw there refl)
            (subst (λ o. WayUp remaining o path') (sym e) w),
        rw (kept, moved_id id node.parent_id c) (ap (λ ns. c.id ∷ ns) ids),
      )

  shorten :
      (bound : ℕ) {cur : Option ℕ} {path : List Category}
      → WayUp rows cur path
      → length path < bound
      → is_parent (some id) cur ≡ false
      → Shorter cur path
  shorten zero w h other = absurd (omega arith)
  shorten (suc bound) WayUp.root h other = ([], WayUp.root, refl)
  shorten (suc bound) (WayUp.missing {id = n} gone) h other =
      ([], WayUp.missing (find-left id node.parent_id n rows other ∙ rw gone refl), refl)
  shorten (suc bound) (WayUp.up {id = n} {c} {path} there w) h other =
      elim (Bool-cases (is_child id c)) [
        | inr not_child ↦
            step_up n c (truthy_id c.parent_id) path other there
              (ap truthy_id (moved_other id node.parent_id c not_child))
              (shorten bound w (omega arith) (truthy_other id c.parent_id not_child))
        | inl child ↦
            let at_node : truthy_id c.parent_id ≡ some id =
              ap truthy_id (is_parent_eq id c.parent_id child) ∙ given in
            let (rest, whole, above) = way_on rows id node w at_node stored in
            let apart = not_own_parent id node.parent_id rows node stored given above in
            let (path', v, ids) =
              shorten bound above (omega (arith, ap length whole))
                (truthy_other id node.parent_id apart) in
            let here : (id == node.id) ≡ true = find?-holds (has_id id) rows stored in
            let skipped : without id (map id_of path) ≡ without id (map id_of rest) =
              rw whole (rw here refl) in
            step_up n c (truthy_id node.parent_id) path other there
              (ap truthy_id (moved_child id node.parent_id c child apart))
              (path', v, ids ∙ sym skipped)
      ]

none_left :
    (id : ℕ) (links : List CategoryLink)
    → any (λ l. id == l.category_id) (filter (λ l. not (id == l.category_id)) links) ≡ false
none_left id [] = refl
none_left id (l ∷ ls) = elim (Bool-cases (id == l.category_id)) [
  | inl dropped ↦ rw dropped (none_left id ls)
  | inr kept ↦ rw (kept, kept) (none_left id ls)
]

-- A removal of a category that is there returns, and the category is then not found. The way up of any
-- other category, where it ended before, then has the same ids in the same order, without that of the
-- removed category, and no product is linked to that category.
pub remove_shortens :
    (id_str : Text) (id other : ℕ) (node : Category) (path : List Category) (st : CategoriesState)
    → truthy_id (to_big_int id_str) ≡ some id
    → find_unique id st.categories ≡ some node
    → (id == other) ≡ false
    → WayUp st.categories (some other) path
    → let (res, st') = remove id_str st in
      (res ≡ ok tt)
      × (find_unique id st'.categories ≡ none)
      × ((path' : List Category) × WayUp st'.categories (some other) path'
          × (map id_of path' ≡ without id (map id_of path)))
      × (any (λ l. id == l.category_id) st'.product_links ≡ false)
unfolding remove
remove_shortens id_str id other node path st parsed stored apart w =
    rw (remove, parsed, stored)
      (
        refl,
        find-left_deleted id node.parent_id st.categories,
        shorten st.categories id node stored (truthy_self (to_big_int id_str) id parsed)
            (suc (length path)) w (omega arith) apart,
        none_left id st.product_links,
      )
