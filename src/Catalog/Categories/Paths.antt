-- ===== src/Catalog/Categories/Paths.antt =====
-- catalog/categories/categories.service.ts: the loop of `breadcrumbs` against the way up to the root.
use mathlib.Core.Option
use negare_api.Base.{
  ℕ, zero, suc, ◌<◌, ◌≤◌, ◌≡◌, refl, sym, ap, ◌∙◌, List, [], ◌∷◌, Option, none, some, arith, length,
  Option-cases, inl, inr, subst, All, All-find?, find?-holds, ==_iff, ◌+◌,
}
use mathlib.Core.Option.{some-injective}
use negare_api.Catalog.Categories.{
  Category, has_id, find_unique, truthy_id, climb, CategoriesState, breadcrumbs, shown,
}
use negare_api.Catalog.Likes.{to_big_int}
use negare_api.Base.Text.{Text}
use negare_api.Base.Exec.{ok}

-- The rows that are met on the way up from an id, until there is no parent or no row.
pub data WayUp (rows : List Category) : Option ℕ → List Category → Type 0 where
  root : WayUp rows none []
  missing : {id : ℕ} → find_unique id rows ≡ none → WayUp rows (some id) []
  up :
      {id : ℕ} {c : Category} {path : List Category}
      → find_unique id rows ≡ some c
      → WayUp rows (truthy_id c.parent_id) path
      → WayUp rows (some id) (c ∷ path)

abbrev pub Under : (rank : ℕ → ℕ) → ℕ → Option ℕ → Type 0
Under rank n none = Unit
Under rank n (some p) = rank p < rank n

module _ (rows : List Category) where
  -- One round of the loop.
  pub climb_found :
      (fuel id : ℕ) (c : Category)
      → find_unique id rows ≡ some c
      → climb (suc fuel) (some id) rows
        ≡ Option.map (λ path. c ∷ path) (climb fuel (truthy_id c.parent_id) rows)
  unfolding climb
  climb_found fuel id c h = rw (climb, h) refl

  climb_missing :
      (fuel id : ℕ) → find_unique id rows ≡ none → climb (suc fuel) (some id) rows ≡ some []
  unfolding climb
  climb_missing fuel id h = rw (climb, h) refl

  -- Rounds that exceed the length of the way are enough.
  pub climb-WayUp :
      {cur : Option ℕ} {path : List Category} (fuel : ℕ)
      → WayUp rows cur path
      → length path < fuel
      → climb fuel cur rows ≡ some path
  unfolding climb
  climb-WayUp zero w h = absurd (omega arith)
  climb-WayUp (suc fuel) WayUp.root h = refl
  climb-WayUp (suc fuel) (WayUp.missing {id} gone) h = climb_missing fuel id gone
  climb-WayUp (suc fuel) (WayUp.up {id} {c} there w) h =
      climb_found fuel id c there ∙ rw (climb-WayUp fuel w (omega arith)) refl

  map-some :
      (c : Category) (o : Option (List Category)) (path : List Category)
      → Option.map (λ p. c ∷ p) o ≡ some path
      → (rest : List Category) × (o ≡ some rest) × (path ≡ c ∷ rest)
  map-some c none path h = absurd (cc h)
  map-some c (some rest) path h = (rest, refl, cc h)

  pub WayUp-climb :
      (fuel : ℕ) (cur : Option ℕ) (path : List Category)
      → climb fuel cur rows ≡ some path
      → WayUp rows cur path
  unfolding climb
  WayUp-climb zero cur path h = absurd (cc h)
  WayUp-climb (suc fuel) none path h = subst (WayUp rows none) (some-injective _ _ h) WayUp.root
  WayUp-climb (suc fuel) (some id) path h = elim (Option-cases (find_unique id rows)) [
    | inl gone ↦
        subst (WayUp rows (some id)) (some-injective _ _ (sym (climb_missing fuel id gone) ∙ h))
          (WayUp.missing gone)
    | inr (c, there) ↦
        let (above, e, whole) =
          map-some c (climb fuel (truthy_id c.parent_id) rows) path
            (sym (climb_found fuel id c there) ∙ h) in
        subst (WayUp rows (some id)) (sym whole)
          (WayUp.up there (WayUp-climb fuel (truthy_id c.parent_id) above e))
  ]

  -- Each row with a parent has a greater number than its parent.
  abbrev pub Climbs : (rank : ℕ → ℕ) → Category → Type 0
  Climbs rank c = Under rank c.id (truthy_id c.parent_id)

  abbrev WayWithin : (bound : ℕ) → Option ℕ → Type 0
  WayWithin bound cur = (path : List Category) × WayUp rows cur path × (length path ≤ bound)

  above :
      (rank : ℕ → ℕ) (bound n : ℕ) (cur : Option ℕ)
      → ((p : ℕ) → rank p < bound → WayWithin (rank p + 1) (some p))
      → rank n < suc bound
      → Under rank n cur
      → WayWithin (rank n) cur
  above rank bound n none ways h under = ([], WayUp.root, omega arith)
  above rank bound n (some p) ways h under =
      let (path, w, short) = ways p (omega arith) in (path, w, omega arith)

  -- In a forest the way up is not longer than the rank.
  forest_way :
      (rank : ℕ → ℕ) (bound id : ℕ)
      → All (Climbs rank) rows
      → rank id < bound
      → WayWithin (rank id + 1) (some id)
  forest_way rank zero id hs h = absurd (omega arith)
  forest_way rank (suc bound) id hs h = elim (Option-cases (find_unique id rows)) [
    | inl gone ↦ ([], WayUp.missing gone, omega arith)
    | inr (c, there) ↦
        let under = All-find? (Climbs rank) (has_id id) rows hs there in
        let e : id ≡ c.id = (==_iff id c.id).0 (find?-holds (has_id id) rows there) in
        let (path, w, short) =
          above rank bound c.id (truthy_id c.parent_id) (λ p k. forest_way rank bound p hs k)
            (subst (λ n. rank n < suc bound) e h) under in
        (c ∷ path, WayUp.up there w, omega (arith, ap rank e))
  ]

-- When each category has a greater number than its parent, in some numbering, the loop of
-- `breadcrumbs` ends after at most as many rounds as the number of the category and two, and the
-- answer is the rows on its way up, the root first.
pub breadcrumbs_returns :
    (rank : ℕ → ℕ) (fuel id : ℕ) (id_str : Text) (st : CategoriesState)
    → All (Climbs st.categories rank) st.categories
    → truthy_id (to_big_int id_str) ≡ some id
    → rank id + 1 < fuel
    → (path : List Category) × WayUp st.categories (some id) path
      × (breadcrumbs fuel id_str st ≡ some (ok (shown path)))
unfolding breadcrumbs
breadcrumbs_returns rank fuel id id_str st hs parsed h =
    let rows = st.categories in
    let (path, w, short) = forest_way rows rank (rank id + 1) id hs (omega arith) in
    (path, w, rw (breadcrumbs, parsed, climb-WayUp rows fuel w (omega arith)) refl)
