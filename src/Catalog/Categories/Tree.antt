-- ===== src/Catalog/Categories/Tree.antt =====
-- catalog/categories/categories.service.ts: `tree`. The nodes are shared objects: a child is named by
-- the id of its row, and the map by id holds the nodes in the order of the rows. The answer is the
-- roots, and what hangs below them.
pub mod Shape
pub mod Shown
use negare_api.Base.{
  ℕ, Bool, true, false, List, [], ◌∷◌, ◌++◌, map, Option, none, some, if◌then◌else◌, ◌==◌, is_some,
  find?,
}
use negare_api.Base.Text.{Text, text_eq, decimal}
use negare_api.Catalog.Likes.{to_big_int}
use negare_api.Catalog.Categories.{
  Category, CategoryDto, CategoriesState, has_id, find_unique, truthy_id, is_parent, to_dto,
  ordered,
}

pub record TreeNode : Type 0 where
  pub id : ℕ
  pub dto : CategoryDto
  pub children : List ℕ

pub record Forest : Type 0 where
  pub nodes : List TreeNode
  pub roots : List ℕ

abbrev pub to_tree_node : Category → List ℕ → TreeNode
to_tree_node c children = record { id = c.id; dto = to_dto c; children = children }

abbrev parent_of : Option Category → Option ℕ
parent_of none = none
parent_of (some r) = truthy_id r.parent_id

-- The key of the parent of a node, from the first row with the id of the node.
abbrev pub parent_key : (rows : List Category) → (id : ℕ) → Option ℕ
parent_key rows id = parent_of (find_unique id rows)

abbrev pub push_child : (parent child : ℕ) → TreeNode → TreeNode
push_child parent child n =
    if parent == n.id then record n { children = n.children ++ (child ∷ []) } else n

-- A node without a parent is a root; one whose parent has no node is put nowhere.
abbrev pub hang : (key : Option ℕ) → (child : ℕ) → Forest → Forest
hang none child f = record f { roots = f.roots ++ (child ∷ []) }
hang (some p) child f = record f { nodes = map (push_child p child) f.nodes }

unfoldable pub hang_all : (rows nodes : List Category) → Forest → Forest
hang_all rows [] f = f
hang_all rows (c ∷ cs) f = hang_all rows cs (hang (parent_key rows c.id) c.id f)

abbrev only : Option TreeNode → List ℕ
only none = []
only (some n) = n.id ∷ []

-- With a text of digits, the one node that has it as its id, if there is one.
abbrev pub roots_for : Option Text → Forest → List ℕ
roots_for none f = f.roots
roots_for (some t) f =
    if is_some (to_big_int t)
    then only (find? (λ (n : TreeNode). text_eq t (decimal n.id)) f.nodes)
    else f.roots

unfoldable pub tree :
    (before : Text → Text → Bool) → (root_id_str : Option Text) → CategoriesState → Forest
tree before root_id_str st =
    let rows = ordered before st.categories in
    let f = hang_all rows rows (record { nodes = map (λ c. to_tree_node c []) rows; roots = [] }) in
    record f { roots = roots_for root_id_str f }
