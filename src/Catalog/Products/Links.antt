-- ===== src/Catalog/Products/Links.antt =====
-- catalog/product/product.service.ts: the links of a product to categories and tags in `update`, and
-- to its authors.
use negare_api.Base.{
  ℕ, ◌≡◌, refl, ◌∙◌, Bool, ◌&&◌, ◌||◌, not, List, [], ◌∷◌, ◌++◌, String, same, same-eq, same_refl,
  if◌then◌else◌, ◌==◌, ==_iff, arith, Bool-cases, inl, inr, filter, any, includes,
}
use negare_api.Catalog.Products.{Link, SupplierLink, is_supplier}

abbrev pub is_link : (product_id target : ℕ) → Link → Bool
is_link product_id target l = product_id == l.product_id && target == l.target

abbrev pub insert_link : (product_id target : ℕ) → List Link → List Link
insert_link product_id target links =
    if any (is_link product_id target) links
    then links
    else links ++ (record { product_id = product_id; target = target } ∷ [])

-- `createMany` with `skipDuplicates`
unfoldable pub create_links : (product_id : ℕ) → List ℕ → List Link → List Link
create_links product_id [] links = links
create_links product_id (t ∷ ts) links = create_links product_id ts (insert_link product_id t links)

-- `deleteMany` where the product has it and it is none of the targets
unfoldable pub delete_others : (product_id : ℕ) → List ℕ → List Link → List Link
delete_others product_id targets links =
    filter (λ l. not (product_id == l.product_id && not (includes targets l.target))) links

-- The targets that the product has no link to.
abbrev pub missing : (product_id : ℕ) → List ℕ → List Link → List ℕ
missing product_id targets links = filter (λ t. not (any (is_link product_id t) links)) targets

unfoldable pub sync_links : (product_id : ℕ) → List ℕ → List Link → List Link
sync_links product_id targets links =
    let kept = delete_others product_id targets links in
    create_links product_id (missing product_id targets kept) kept

abbrev pub insert_supplier : (product_id : ℕ) → String → List SupplierLink → List SupplierLink
insert_supplier product_id user_id links =
    if any (is_supplier product_id user_id) links
    then links
    else links ++ (record { product_id = product_id; user_id = user_id } ∷ [])

unfoldable pub create_suppliers :
    (product_id : ℕ) → List String → List SupplierLink → List SupplierLink
create_suppliers product_id [] links = links
create_suppliers product_id (u ∷ us) links =
    create_suppliers product_id us (insert_supplier product_id u links)

unfoldable pub sync_suppliers :
    (product_id : ℕ) → List String → List SupplierLink → List SupplierLink
sync_suppliers product_id authors links =
    create_suppliers product_id authors (filter (λ l. not (product_id == l.product_id)) links)

any-append :
    {A : Type 0} (p : A → Bool) (xs ys : List A) → any p (xs ++ ys) ≡ (any p xs || any p ys)
any-append p [] ys = refl
any-append p (x ∷ xs) ys = ground (arith, any-append p xs ys)

any-insert_link :
    (q t product_id target : ℕ) (links : List Link)
    → any (is_link q t) (insert_link product_id target links)
      ≡ ((q == product_id && t == target) || any (is_link q t) links)
any-insert_link q t product_id target links =
    elim (Bool-cases (any (is_link product_id target) links)) [
      | inl old ↦ elim (Bool-cases (q == product_id && t == target)) [
        | inl here ↦
            let e : q ≡ product_id = ground (arith, here) in
            let k : t ≡ target = ground (arith, here) in rw (old, e, k) (rw old (ground arith))
        | inr other ↦ rw (old, other) refl
      ]
      | inr new ↦ rw new (
          any-append (is_link q t) links (record { product_id = product_id; target = target } ∷ [])
          ∙ ground arith)
    ]

any-create_links :
    (q t product_id : ℕ) (targets : List ℕ) (links : List Link)
    → any (is_link q t) (create_links product_id targets links)
      ≡ ((q == product_id && includes targets t) || any (is_link q t) links)
unfolding create_links
any-create_links q t product_id [] links = ground arith
any-create_links q t product_id (x ∷ xs) links =
    any-create_links q t product_id xs (insert_link product_id x links)
    ∙ ground (arith, any-insert_link q t product_id x links)

any-delete_others :
    (q t product_id : ℕ) (targets : List ℕ) (links : List Link)
    → any (is_link q t) (delete_others product_id targets links)
      ≡ ((not (q == product_id) || includes targets t) && any (is_link q t) links)
unfolding delete_others
any-delete_others q t product_id targets [] = ground arith
any-delete_others q t product_id targets (l ∷ ls) =
    ground (arith, any-delete_others q t product_id targets ls)

includes-filter :
    (p : ℕ → Bool) (xs : List ℕ) (n : ℕ) → includes (filter p xs) n ≡ (includes xs n && p n)
includes-filter p [] n = refl
includes-filter p (x ∷ xs) n = elim (Bool-cases (x == n)) [
  | inl here ↦
      let e : x ≡ n = (==_iff x n).0 here in
      elim (Bool-cases (p n)) [
        | inl kept ↦ ground (arith, includes-filter p xs n)
        | inr dropped ↦ ground (arith, includes-filter p xs n)
      ]
  | inr other ↦ ground (arith, includes-filter p xs n)
]

-- After the links of a product were brought in line it has exactly the targets, and the links of
-- the other products are what they were.
pub any-sync_links :
    (q t product_id : ℕ) (targets : List ℕ) (links : List Link)
    → any (is_link q t) (sync_links product_id targets links)
      ≡ (if q == product_id then includes targets t else any (is_link q t) links)
unfolding sync_links
any-sync_links q t product_id targets links =
    let kept = delete_others product_id targets links in
    any-create_links q t product_id (missing product_id targets kept) kept
    ∙ ground (
      arith,
      includes-filter (λ n. not (any (is_link product_id n) kept)) targets t,
      any-delete_others q t product_id targets links,
    )

any-insert_supplier :
    (q : ℕ) (u : String) (product_id : ℕ) (user_id : String) (links : List SupplierLink)
    → any (is_supplier q u) (insert_supplier product_id user_id links)
      ≡ ((q == product_id && same u user_id) || any (is_supplier q u) links)
any-insert_supplier q u product_id user_id links =
    elim (Bool-cases (any (is_supplier product_id user_id) links)) [
      | inl old ↦ elim (Bool-cases (q == product_id && same u user_id)) [
        | inl here ↦
            let e : q ≡ product_id = ground (arith, here) in
            let k : u ≡ user_id = same-eq u user_id (ground (arith, here)) in
            rw (old, e, k) (rw (old, same_refl user_id) (ground arith))
        | inr other ↦ rw (old, other) refl
      ]
      | inr new ↦ rw new (
          any-append (is_supplier q u) links
            (record { product_id = product_id; user_id = user_id } ∷ [])
          ∙ ground arith)
    ]

any-create_suppliers :
    (q : ℕ) (u : String) (product_id : ℕ) (authors : List String) (links : List SupplierLink)
    → any (is_supplier q u) (create_suppliers product_id authors links)
      ≡ ((q == product_id && any (same u) authors) || any (is_supplier q u) links)
unfolding create_suppliers
any-create_suppliers q u product_id [] links = ground arith
any-create_suppliers q u product_id (x ∷ xs) links =
    any-create_suppliers q u product_id xs (insert_supplier product_id x links)
    ∙ ground (arith, any-insert_supplier q u product_id x links)

any-others :
    (q : ℕ) (u : String) (product_id : ℕ) (links : List SupplierLink)
    → any (is_supplier q u) (filter (λ l. not (product_id == l.product_id)) links)
      ≡ (not (q == product_id) && any (is_supplier q u) links)
any-others q u product_id [] = ground arith
any-others q u product_id (l ∷ ls) = ground (arith, any-others q u product_id ls)

pub any-sync_suppliers :
    (q : ℕ) (u : String) (product_id : ℕ) (authors : List String) (links : List SupplierLink)
    → any (is_supplier q u) (sync_suppliers product_id authors links)
      ≡ (if q == product_id then any (same u) authors else any (is_supplier q u) links)
unfolding sync_suppliers
any-sync_suppliers q u product_id authors links =
    any-create_suppliers q u product_id authors
      (filter (λ l. not (product_id == l.product_id)) links)
    ∙ ground (arith, any-others q u product_id links)
