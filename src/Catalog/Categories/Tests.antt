-- ===== src/Catalog/Categories/Tests.antt =====
-- The theorems on categories at a chain of three: 3 below 2 below 1.

use negare_api.Base.{
  ℕ, ◌≡◌, refl, true, false, List, [], ◌∷◌, map, Option, none, some, arith, any, ◌==◌, ◌↔◌, Bool,
  is_some,
}
use mathlib.Core.Option.{some-injective}
use negare_api.Base.Text.{Text, codes, decimal, text_eq}
use negare_api.Base.Exec.{ok, throws, returns}
use negare_api.Catalog.Likes.{to_big_int}
use negare_api.Catalog.Categories.{
  find_unique, Category, CategoriesState, CategoriesFailure, UpdateCategoryDto, climb, breadcrumbs,
  remove, update, with_data, create, find_one, find_all, shown, ordered,
}
use negare_api.Catalog.Categories.Paths.{WayUp, breadcrumbs_returns}
use negare_api.Catalog.Categories.Removal.{remove_shortens, id_of, without}
use negare_api.Catalog.Categories.Moves.{update_closes_circle}
use negare_api.Catalog.Categories.Tree.{TreeNode, tree, hang_all}
use negare_api.Catalog.Categories.Tree.Shape.{tree-eq, tree_of}
use negare_api.Catalog.Categories.Tree.Shown.{Shown, tree_shows}

abbrev row : ℕ → Option ℕ → Category
row id parent_id = record { id = id; name = codes "a"; slug = decimal id; parent_id = parent_id }

abbrev chain : CategoriesState
chain = record {
  categories = row 1 none ∷ row 2 (some 1) ∷ row 3 (some 2) ∷ [];
  product_links = record { product_id = 7; category_id = 2 } ∷ [];
  last_id = 3;
}

way_of_three : WayUp chain.categories (some 3) (row 3 (some 2) ∷ row 2 (some 1) ∷ row 1 none ∷ [])
way_of_three = WayUp.up refl (WayUp.up refl (WayUp.up refl WayUp.root))

way_of_one : WayUp chain.categories (some 1) (row 1 none ∷ [])
way_of_one = WayUp.up refl WayUp.root

breadcrumbs_returns_example :
    (path : List Category) × WayUp chain.categories (some 3) path
    × (breadcrumbs 5 (codes "3") chain ≡ some (ok (shown path)))
unfolding to_big_int
breadcrumbs_returns_example =
    breadcrumbs_returns (λ n. n) 5 3 (codes "3") chain (omega arith) refl (omega arith)

remove_shortens_example :
    let (res, st') = remove (codes "2") chain in
    (res ≡ ok tt)
    × (find_unique 2 st'.categories ≡ none)
    × ((path' : List Category) × WayUp st'.categories (some 3) path'
        × (map id_of path' ≡ without 2 (3 ∷ 2 ∷ 1 ∷ [])))
    × (any (λ l. 2 == l.category_id) st'.product_links ≡ false)
unfolding to_big_int
remove_shortens_example =
    remove_shortens (codes "2") 2 3 (row 2 (some 1))
      (row 3 (some 2) ∷ row 2 (some 1) ∷ row 1 none ∷ []) chain refl refl refl way_of_three

abbrev below_three : UpdateCategoryDto
below_three = record { name = none; slug = none; parent_id = some (some (codes "3")) }

update_closes_circle_example :
    let (res, st') = update (codes "1") below_three chain in
    (returns res ≡ true) × (breadcrumbs 1000 (codes "1") st' ≡ none)
unfolding to_big_int
update_closes_circle_example =
    update_closes_circle (codes "1") (codes "3") (codes "1") 1 3 1 below_three (row 1 none)
      (row 3 (some 2)) (row 3 (some 2) ∷ row 2 (some 1) ∷ row 1 none ∷ []) (row 1 none ∷ []) chain
      1000 refl refl refl refl refl refl refl refl way_of_three refl way_of_one refl

abbrev by_id : Text → Text → Bool
by_id s t = false

tree-eq_example : tree by_id none chain ≡ tree_of (ordered by_id chain.categories)
tree-eq_example = tree-eq by_id chain (refl, (refl, (refl, tt)))

tree_shows_example :
    Shown (tree by_id none chain) 3
    ↔ ((fuel : ℕ) × (is_some (breadcrumbs fuel (codes "3") chain) ≡ true))
unfolding to_big_int
tree_shows_example =
    tree_shows by_id chain (codes "3") 3 (row 3 (some 2)) (refl, (refl, (refl, tt)))
      (
        λ p e. absurd (cc e),
        (λ p e. rw (← some-injective 1 p e) refl, (λ p e. rw (← some-injective 2 p e) refl, tt)),
      )
      refl refl

categories : Unit {0}
unfolding to_big_int with_data tree hang_all climb breadcrumbs remove update create find_one ordered
    find_all decimal text_eq
categories = tt

-- A slug of digits is not found: it is read as an id.
slug_of_digits :
    (find_one
      (codes "2")
      (record chain { categories = record (row 5 none) { slug = codes "2" } ∷ [] })).0
    ≡ throws CategoriesFailure.category_not_found
unfolding categories
slug_of_digits = refl

created_below :
    (create
      (record { name = codes "b"; slug = codes "b"; parent_id = some (codes "3") })
      chain).1.last_id
    ≡ 4
unfolding categories
created_below = refl

create_without_parent :
    (create (record { name = codes "b"; slug = codes "b"; parent_id = some (codes "9") }) chain).0
    ≡ throws CategoriesFailure.foreign_key
unfolding categories
create_without_parent = refl

children_of_one :
    (find_all
      (λ s t. false)
      (record { q = none; parent_id = some (codes "1"); limit = none })
      chain).0
    ≡ ok (shown (row 2 (some 1) ∷ []))
unfolding categories
children_of_one = refl

tree_of_chain :
    map (λ (n : TreeNode). n.id ∷ n.children) (tree by_id none chain).nodes
    ≡ (2 ∷ 3 ∷ []) ∷ (3 ∷ []) ∷ (1 ∷ 2 ∷ []) ∷ []
unfolding categories
tree_of_chain = refl

-- A number is taken as a text: one with a zero in front finds no node.
tree_from_text : (tree by_id (some (codes "02")) chain).roots ≡ []
unfolding categories
tree_from_text = refl

-- After a category was moved below itself, the tree leaves out the whole circle.
circle_left_out : (tree by_id none (update (codes "1") below_three chain).1).roots ≡ []
unfolding categories
circle_left_out = refl
