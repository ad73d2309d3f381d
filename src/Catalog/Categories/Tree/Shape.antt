-- ===== src/Catalog/Categories/Tree/Shape.antt =====
-- catalog/categories/categories.service.ts: what the tree holds, said without the pushing of nodes.
use mathlib.Core.List.{append_assoc, append-nil}
use negare_api.Base.{
  ℕ, ◌≡◌, refl, sym, ◌∙◌, Bool, true, false, ◌||◌, List, [], ◌∷◌, ◌++◌, map, none, some, arith,
  ◌==◌, Bool-cases, Option-cases, inl, inr, filter, any, All,
}
use negare_api.Base.Text.{Text}
use negare_api.Catalog.Categories.{
  Category, CategoriesState, has_id, find_unique, truthy_id, is_parent, ordered, insert_row,
  sorts_before,
}
use negare_api.Catalog.Categories.Tree.{
  TreeNode, Forest, to_tree_node, push_child, hang, hang_all, tree,
}

-- No two rows have the same id.
abbrev pub Distinct : List Category → Type 0
Distinct [] = Unit
Distinct (c ∷ cs) = (any (has_id c.id) cs ≡ false) × Distinct cs

any-insert_row :
    (before : Text → Text → Bool) (p : Category → Bool) (c : Category) (cs : List Category)
    → any p (insert_row before c cs) ≡ (p c || any p cs)
unfolding insert_row
any-insert_row before p c [] = refl
any-insert_row before p c (d ∷ ds) = ground (arith, any-insert_row before p c ds)

pub any-ordered :
    (before : Text → Text → Bool) (p : Category → Bool) (cs : List Category)
    → any p (ordered before cs) ≡ any p cs
unfolding ordered
any-ordered before p [] = refl
any-ordered before p (c ∷ cs) =
    any-insert_row before p c (ordered before cs) ∙ rw (any-ordered before p cs) refl

has_id_sym : (c d : Category) → has_id c.id d ≡ has_id d.id c
has_id_sym c d = ground arith

Distinct-insert_row :
    (before : Text → Text → Bool) (c : Category) (cs : List Category)
    → any (has_id c.id) cs ≡ false
    → Distinct cs
    → Distinct (insert_row before c cs)
unfolding insert_row
Distinct-insert_row before c [] new hs = (refl, tt)
Distinct-insert_row before c (d ∷ ds) new (h, hs) = elim (Bool-cases (sorts_before before d c)) [
  | inl later ↦ rw later (
    any-insert_row before (has_id d.id) c ds ∙ ground (arith, has_id_sym c d),
    Distinct-insert_row before c ds (ground arith) hs,
  )
  | inr first ↦ rw first (new, (h, hs))
]

pub Distinct-ordered :
    (before : Text → Text → Bool) (cs : List Category) → Distinct cs → Distinct (ordered before cs)
unfolding ordered
Distinct-ordered before [] hs = tt
Distinct-ordered before (c ∷ cs) (new, hs) =
    Distinct-insert_row before c (ordered before cs) (any-ordered before (has_id c.id) cs ∙ new)
      (Distinct-ordered before cs hs)

abbrev Keyed : List Category → Category → Type 0
Keyed rows c = find_unique c.id rows ≡ some c

-- A row in front with another id changes no search.
All-Keyed-cons :
    (rows : List Category) (d : Category) (cs : List Category)
    → any (has_id d.id) cs ≡ false
    → All (Keyed rows) cs
    → All (Keyed (d ∷ rows)) cs
All-Keyed-cons rows d [] new hs = tt
All-Keyed-cons rows d (c ∷ cs) new (h, hs) =
    let other : has_id c.id d ≡ false = ground (arith, has_id_sym c d) in
    (rw other h, All-Keyed-cons rows d cs (ground arith) hs)

Distinct-Keyed : (rows : List Category) → Distinct rows → All (Keyed rows) rows
Distinct-Keyed [] hs = tt
Distinct-Keyed (c ∷ cs) (new, hs) =
    let here : has_id c.id c ≡ true = ground arith in
    (rw here refl, All-Keyed-cons cs c cs new (Distinct-Keyed cs hs))

-- The rows that name `id` as their parent, and those that name none.
abbrev pub is_below : ℕ → Category → Bool
is_below id c = is_parent (some id) (truthy_id c.parent_id)

abbrev pub is_root : Category → Bool
is_root c = is_parent none (truthy_id c.parent_id)

abbrev pub ids : List Category → List ℕ
ids cs = map (λ (c : Category). c.id) cs

abbrev more : List Category → TreeNode → TreeNode
more cs n = record n { children = n.children ++ ids (filter (is_below n.id) cs) }

abbrev grown : List Category → Forest → Forest
grown cs f = record { nodes = map (more cs) f.nodes; roots = f.roots ++ ids (filter is_root cs) }

map_same :
    (f : TreeNode → TreeNode) (ns : List TreeNode) → ((n : TreeNode) → f n ≡ n) → map f ns ≡ ns
map_same f [] h = refl
map_same f (n ∷ ns) h = rw (h n, map_same f ns h) refl

map_alike :
    (f g : TreeNode → TreeNode) (ns : List TreeNode)
    → ((n : TreeNode) → f n ≡ g n)
    → map f ns ≡ map g ns
map_alike f g [] h = refl
map_alike f g (n ∷ ns) h = rw (h n, map_alike f g ns h) refl

map_twice :
    (f g k : TreeNode → TreeNode) (ns : List TreeNode)
    → ((n : TreeNode) → f (g n) ≡ k n)
    → map f (map g ns) ≡ map k ns
map_twice f g k [] h = refl
map_twice f g k (n ∷ ns) h = rw (h n, map_twice f g k ns h) refl

grown-nil : (f : Forest) → grown [] f ≡ f
grown-nil f =
    let same_nodes : map (more []) f.nodes ≡ f.nodes =
      map_same (more []) f.nodes λ n. rw (append-nil n.children) refl in
    rw (same_nodes, append-nil f.roots) refl

pushed_one :
    (c : Category) (cs : List Category) (p : ℕ) (n : TreeNode)
    → truthy_id c.parent_id ≡ some p
    → more cs (push_child p c.id n) ≡ more (c ∷ cs) n
pushed_one c cs p n below = elim (Bool-cases (p == n.id)) [
  | inl here ↦
      let back : (n.id == p) ≡ true = ground (arith, here) in
      rw (below, here, back)
        (rw (append_assoc n.children (c.id ∷ []) (ids (filter (is_below n.id) cs))) refl)
  | inr other ↦
      let away : (n.id == p) ≡ false = ground (arith, other) in rw (below, other, away) refl
]

grown-hang :
    (c : Category) (cs : List Category) (f : Forest)
    → grown cs (hang (truthy_id c.parent_id) c.id f) ≡ grown (c ∷ cs) f
grown-hang c cs f = elim (Option-cases (truthy_id c.parent_id)) [
  | inl root ↦
      let same_nodes : map (more cs) f.nodes ≡ map (more (c ∷ cs)) f.nodes =
        map_alike (more cs) (more (c ∷ cs)) f.nodes λ n. rw root refl in
      rw (root, same_nodes, append_assoc f.roots (c.id ∷ []) (ids (filter is_root cs))) refl
  | inr (p, below) ↦
      let pushed : map (more cs) (map (push_child p c.id) f.nodes) ≡ map (more (c ∷ cs)) f.nodes =
        map_twice (more cs) (push_child p c.id) (more (c ∷ cs)) f.nodes
          λ n. pushed_one c cs p n below in
      rw (below, pushed) refl
]

hang_all-grown :
    (rows cs : List Category) (f : Forest) → All (Keyed rows) cs → hang_all rows cs f ≡ grown cs f
unfolding hang_all
hang_all-grown rows [] f hs = sym (grown-nil f)
hang_all-grown rows (c ∷ cs) f (h, hs) =
    rw h (hang_all-grown rows cs (hang (truthy_id c.parent_id) c.id f) hs ∙ grown-hang c cs f)

-- The tree as the rows have it: every row has its node, with the rows that name it as their parent
-- below it, and the roots are the rows that name none, all in the order of the rows.
abbrev pub tree_of : List Category → Forest
tree_of rows = record {
  nodes = map (λ (c : Category). to_tree_node c (ids (filter (is_below c.id) rows))) rows;
  roots = ids (filter is_root rows);
}

map_made :
    (rows cs : List Category)
    → map (more rows) (map (λ (c : Category). to_tree_node c []) cs)
      ≡ map (λ (c : Category). to_tree_node c (ids (filter (is_below c.id) rows))) cs
map_made rows [] = refl
map_made rows (c ∷ cs) = rw (map_made rows cs) refl

-- The pushing of nodes into nodes builds the tree that the rows describe.
pub tree-eq :
    (before : Text → Text → Bool) (st : CategoriesState)
    → Distinct st.categories
    → tree before none st ≡ tree_of (ordered before st.categories)
unfolding tree
tree-eq before st distinct =
    let rows = ordered before st.categories in
    rw
      (hang_all-grown rows rows
        (record { nodes = map (λ (c : Category). to_tree_node c []) rows; roots = [] })
        (Distinct-Keyed rows (Distinct-ordered before st.categories distinct)))
      (rw (map_made rows rows) refl)
