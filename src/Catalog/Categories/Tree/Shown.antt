-- ===== src/Catalog/Categories/Tree/Shown.antt =====
-- catalog/categories/categories.service.ts: which categories `tree` shows, against `breadcrumbs`.
use mathlib.Core.Option
use mathlib.Core.Option.{some-injective}
use negare_api.Base.{
  ℕ, suc, ◌≡◌, ◌↔◌, refl, sym, ap, ◌∙◌, subst, Bool, true, false, List, [], ◌∷◌, map, Option, none,
  some, arith, length, is_some, ◌==◌, ==_iff, Bool-cases, Option-cases, inl, inr, filter, any,
  find?, any-find?, find?-holds, includes, All, All-find?,
}
use negare_api.Base.Text.{Text}
use negare_api.Catalog.Likes.{to_big_int}
use negare_api.Catalog.Categories.{
  Category, CategoriesState, has_id, find_unique, truthy_id, is_parent, ordered, insert_row,
  sorts_before, climb, breadcrumbs,
}
use negare_api.Catalog.Categories.Paths.{WayUp, climb-WayUp, WayUp-climb}
use negare_api.Catalog.Categories.Tree.{TreeNode, Forest, to_tree_node, tree}
use negare_api.Catalog.Categories.Tree.Shape.{
  Distinct, Distinct-ordered, is_below, is_root, ids, tree_of, tree-eq, any-ordered,
}

-- The nodes that are met from the roots downwards.
pub data Shown (f : Forest) : ℕ → Type 0 where
  root : {id : ℕ} → includes f.roots id ≡ true → Shown f id
  child :
      {p id : ℕ} {n : TreeNode}
      → Shown f p
      → find? (λ (m : TreeNode). p == m.id) f.nodes ≡ some n
      → includes n.children id ≡ true
      → Shown f id

-- The parent of a row is a row.
abbrev pub Hangs : List Category → Category → Type 0
Hangs rows c = (p : ℕ) → truthy_id c.parent_id ≡ some p → any (has_id p) rows ≡ true

found_there :
    (p : ℕ) (rows : List Category)
    → any (has_id p) rows ≡ true
    → (c : Category) × (find_unique p rows ≡ some c)
found_there p [] h = absurd (cc h)
found_there p (d ∷ ds) h = elim (Bool-cases (has_id p d)) [
  | inl here ↦ rw here (d, refl)
  | inr other ↦ rw other (found_there p ds (ground arith))
]

-- Where ids are distinct, the order of the rows does not matter to a search.
find-insert_row :
    (before : Text → Text → Bool) (id : ℕ) (c : Category) (cs : List Category)
    → any (has_id c.id) cs ≡ false
    → find_unique id (insert_row before c cs) ≡ find_unique id (c ∷ cs)
unfolding insert_row
find-insert_row before id c [] new = refl
find-insert_row before id c (d ∷ ds) new =
    let later = find-insert_row before id c ds (ground arith) in
    elim (Bool-cases (sorts_before before d c)) [
      | inr first ↦ rw first refl
      | inl last ↦ elim (Bool-cases (id == d.id)) [
        | inl here ↦
            let away : (id == c.id) ≡ false = ground (arith, here) in rw (last, here, away) refl
        | inr other ↦ rw last (rw other later)
      ]
    ]

find-ordered :
    (before : Text → Text → Bool) (id : ℕ) (cs : List Category)
    → Distinct cs
    → find_unique id (ordered before cs) ≡ find_unique id cs
unfolding ordered
find-ordered before id [] hs = refl
find-ordered before id (c ∷ cs) (new, hs) =
    find-insert_row before id c (ordered before cs) (any-ordered before (has_id c.id) cs ∙ new)
    ∙ rw (find-ordered before id cs hs) refl

-- A row with another id in front hides no row.
behind :
    (q : Category → Bool) (id : ℕ) (d : Category) (ds : List Category)
    → any (has_id d.id) ds ≡ false
    → (c : Category) × (find_unique id ds ≡ some c) × (q c ≡ true)
    → (c : Category) × (find_unique id (d ∷ ds) ≡ some c) × (q c ≡ true)
behind q id d ds new (c, there, good) = elim (Bool-cases (id == d.id)) [
  | inr other ↦ rw other (c, there, good)
  | inl here ↦
      let e : id ≡ d.id = (==_iff id d.id).0 here in
      absurd (cc (any-find? (has_id id) ds there, rw (← e) at new))
]

-- A row that is listed is the one with its id.
listed_row :
    (q : Category → Bool) (id : ℕ) (rows : List Category)
    → Distinct rows
    → includes (ids (filter q rows)) id ≡ true
    → (c : Category) × (find_unique id rows ≡ some c) × (q c ≡ true)
listed_row q id [] hs h = absurd (cc h)
listed_row q id (d ∷ ds) (new, hs) h = elim (Bool-cases (q d)) [
  | inl good ↦ elim (Bool-cases (d.id == id)) [
    | inl here ↦
        let same_id : (id == d.id) ≡ true = ground (arith, here) in rw same_id (d, refl, good)
    | inr other ↦ behind q id d ds new (listed_row q id ds hs (rw (good, other) at h))
  ]
  | inr bad ↦ behind q id d ds new (listed_row q id ds hs (rw bad at h))
]

row_listed :
    (q : Category → Bool) (id : ℕ) (rows : List Category) (c : Category)
    → find_unique id rows ≡ some c
    → q c ≡ true
    → includes (ids (filter q rows)) id ≡ true
row_listed q id [] c h good = absurd (cc h)
row_listed q id (d ∷ ds) c h good = elim (Bool-cases (id == d.id)) [
  | inl here ↦
      let e : d ≡ c = some-injective d c (rw here at h) in
      let kept : q d ≡ true = rw e good in
      let same_id : (d.id == id) ≡ true = ground (arith, here) in rw kept (rw same_id refl)
  | inr other ↦
      let rest = row_listed q id ds c (rw other at h) good in
      elim (Bool-cases (q d)) [
        | inl kept ↦ rw kept (ground (arith, rest))
        | inr dropped ↦ rw dropped rest
      ]
]

node_found :
    (make : Category → List ℕ) (p : ℕ) (rows : List Category)
    → find? (λ (m : TreeNode). p == m.id) (map (λ (c : Category). to_tree_node c (make c)) rows)
      ≡ Option.map (λ (c : Category). to_tree_node c (make c)) (find_unique p rows)
node_found make p [] = refl
node_found make p (d ∷ ds) = elim (Bool-cases (p == d.id)) [
  | inl here ↦ rw here refl
  | inr other ↦ rw other (node_found make p ds)
]

module _ (before : Text → Text → Bool) (st : CategoriesState)
    (distinct : Distinct st.categories) where
  abbrev rows : List Category
  rows = ordered before st.categories

  same_row : (id : ℕ) → find_unique id rows ≡ find_unique id st.categories
  same_row id = find-ordered before id st.categories distinct

  listed :
      (q : Category → Bool) (id : ℕ)
      → includes (ids (filter q rows)) id ≡ true
      → (c : Category) × (find_unique id st.categories ≡ some c) × (q c ≡ true)
  listed q id h =
      let (c, there, good) =
        listed_row q id rows (Distinct-ordered before st.categories distinct) h in
      (c, sym (same_row id) ∙ there, good)

  unlisted :
      (q : Category → Bool) (id : ℕ) (c : Category)
      → find_unique id st.categories ≡ some c
      → q c ≡ true
      → includes (ids (filter q rows)) id ≡ true
  unlisted q id c there good = row_listed q id rows c (same_row id ∙ there) good

  is_root_eq : (o : Option ℕ) → is_parent none o ≡ true → o ≡ none
  is_root_eq none h = refl
  is_root_eq (some p) h = absurd (cc h)

  is_below_eq : (p : ℕ) (o : Option ℕ) → is_parent (some p) o ≡ true → o ≡ some p
  is_below_eq p none h = absurd (cc h)
  is_below_eq p (some q) h = ground (arith, h)

  nodes_found :
      (p : ℕ)
      → find? (λ (m : TreeNode). p == m.id) (tree_of rows).nodes
        ≡ Option.map
            (λ (c : Category). to_tree_node c (ids (filter (is_below c.id) rows)))
            (find_unique p st.categories)
  nodes_found p = node_found (λ c. ids (filter (is_below c.id) rows)) p rows ∙ rw (same_row p) refl

  node_of :
      (p : ℕ) (c : Category)
      → find_unique p st.categories ≡ some c
      → find? (λ (m : TreeNode). p == m.id) (tree_of rows).nodes
        ≡ some (to_tree_node c (ids (filter (is_below p) rows)))
  node_of p c there =
      let e : p ≡ c.id = (==_iff p c.id).0 (find?-holds (has_id p) st.categories there) in
      nodes_found p ∙ rw (there, e) refl

  children_of :
      (p : ℕ) (n : TreeNode)
      → find? (λ (m : TreeNode). p == m.id) (tree_of rows).nodes ≡ some n
      → n.children ≡ ids (filter (is_below p) rows)
  children_of p n h = elim (Option-cases (find_unique p st.categories)) [
    | inl gone ↦ absurd (cc (nodes_found p, rw gone at (nodes_found p), h))
    | inr (c, there) ↦
        ap (λ (m : TreeNode). m.children) (some-injective _ _ (sym h ∙ node_of p c there))
  ]

  -- Down the tree to a node, and up from its row.
  Shown-WayUp :
      {id : ℕ}
      → Shown (tree_of rows) id
      → (path : List Category) × WayUp st.categories (some id) path
  Shown-WayUp (Shown.root {id} h) =
      let (c, there, top) = listed is_root id h in
      (c ∷ [], WayUp.up there (rw (is_root_eq (truthy_id c.parent_id) top) WayUp.root))
  Shown-WayUp (Shown.child {p} {id} {n} above node h) =
      let (path, way) = Shown-WayUp above in
      let (c, there, below) = listed (is_below p) id (rw (children_of p n node) at h) in
      (c ∷ path, WayUp.up there (rw (is_below_eq p (truthy_id c.parent_id) below) way))

  WayUp-Shown :
      (hangs : All (Hangs st.categories) st.categories) {cur : Option ℕ} {path : List Category}
      → WayUp st.categories cur path
      → (id : ℕ) (c : Category) → cur ≡ some id
      → find_unique id st.categories ≡ some c
      → Shown (tree_of rows) id
  WayUp-Shown hangs WayUp.root id c e there = absurd (cc e)
  WayUp-Shown hangs (WayUp.missing {id = i} gone) id c e there =
      let same_id : i ≡ id = some-injective i id e in absurd (cc (rw same_id at gone, there))
  WayUp-Shown hangs (WayUp.up {id = i} {c = d} found way) id c e there =
      let same_id : i ≡ id = some-injective i id e in
      let same : d ≡ c = some-injective d c (sym (rw same_id at found) ∙ there) in
      elim (Option-cases (truthy_id c.parent_id)) [
        | inl none_above ↦ Shown.root (unlisted is_root id c there (rw none_above refl))
        | inr (p, above) ↦
            let (parent, has_parent) =
              found_there p st.categories
                (All-find? (Hangs st.categories) (has_id id) st.categories hangs there p above) in
            let up : Shown (tree_of rows) p =
              WayUp-Shown hangs way p parent (rw same above) has_parent in
            Shown.child up (node_of p parent has_parent)
              (unlisted (is_below p) id c there (rw above (ground arith)))
      ]

-- Where ids are distinct and every parent is a row: a category stands in the tree exactly when the loop
-- of `breadcrumbs` ends for it, with enough rounds.
pub tree_shows :
    (before : Text → Text → Bool) (st : CategoriesState) (id_str : Text) (id : ℕ) (c : Category)
    → Distinct st.categories
    → All (Hangs st.categories) st.categories
    → truthy_id (to_big_int id_str) ≡ some id
    → find_unique id st.categories ≡ some c
    → Shown (tree before none st) id ↔ ((fuel : ℕ) × (is_some (breadcrumbs fuel id_str st) ≡ true))
unfolding breadcrumbs
tree_shows before st id_str id c distinct hangs parsed there =
    let built = tree-eq before st distinct in
    (
      λ in_tree.
          let (path, way) =
            Shown-WayUp before st distinct (subst (λ (f : Forest). Shown f id) built in_tree) in
          (
            suc (length path),
            rw
                (
                  breadcrumbs,
                  parsed,
                  climb-WayUp st.categories (suc (length path)) way (omega arith),
                )
                refl,
          ),
      λ (fuel, ends). elim (Option-cases (climb fuel (some id) st.categories)) [
        | inl out ↦ absurd (cc (rw (breadcrumbs, parsed, out) at ends))
        | inr (path, e) ↦
            subst (λ (f : Forest). Shown f id) (sym built)
              (WayUp-Shown before st distinct hangs
                (WayUp-climb st.categories fuel (some id) path e) id c refl there)
      ],
    )
