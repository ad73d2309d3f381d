-- ===== src/Catalog/Products/Update.antt =====
-- catalog/product/product.service.ts: what `update` leaves of the links, and who may call it.
use negare_api.Base.{
  ℕ, ◌≡◌, refl, ap, ◌∙◌, Bool, true, false, ◌&&◌, not, List, [], ◌∷◌, Option, none, some, String,
  same, same-eq, same-ne, same_refl, if◌then◌else◌, ltb, ◌==◌, length, filter, any, all, includes,
  find?, arith, Bool-cases, inl, inr,
}
use mathlib.Core.Option
use negare_api.Base.Text.{Text, text_eq}
use negare_api.Base.Exec.{ok, throws}
use negare_api.Catalog.Likes.{to_big_int}
use negare_api.Catalog.Products.{
  Product, ProductsState, Actor, has_id, uniq, big_ints, find_one, by_id_or_slug, can_edit,
  is_supplier, update_rows, remove, forbidden,
}
use negare_api.Catalog.Products.Links.{
  is_link, sync_links, sync_suppliers, any-sync_links, any-sync_suppliers,
}
use negare_api.Catalog.Products.Editing.{
  UpdateProductDto, too_many, known_users, write_authors, write_categories, write_tags,
  write_product, with_data, change_file, file_change, takes_slug, update,
}

all-filter : (p q : ℕ → Bool) (xs : List ℕ) → all p xs ≡ true → all p (filter q xs) ≡ true
all-filter p q [] h = refl
all-filter p q (x ∷ xs) h = ground (arith, all-filter p q xs)

any-filter :
    (p q : String → Bool) (xs : List String) → any p (filter q xs) ≡ any (λ x. p x && q x) xs
any-filter p q [] = refl
any-filter p q (x ∷ xs) = ground (arith, any-filter p q xs)

any_apart :
    (u x : String) (xs : List String)
    → same u x ≡ false
    → any (λ y. same u y && not (same x y)) xs ≡ any (same u) xs
any_apart u x [] h = refl
any_apart u x (y ∷ ys) h = elim (Bool-cases (same u y)) [
  | inr other ↦ rw other (any_apart u x ys h)
  | inl here ↦
      let e : u ≡ y = same-eq u y here in
      let apart : same x y ≡ false = same-ne x y (λ k. cc (h, same_refl u, e, k)) in
      rw (here, apart) refl
]

any-uniq : (u : String) (us : List String) → any (same u) (uniq same us) ≡ any (same u) us
unfolding uniq
any-uniq u [] = refl
any-uniq u (x ∷ xs) = elim (Bool-cases (same u x)) [
  | inl here ↦ rw here refl
  | inr other ↦ rw other (
      any-filter (same u) (λ y. not (same x y)) (uniq same xs)
      ∙ any_apart u x (uniq same xs) other
      ∙ any-uniq u xs)
]

find-update_rows :
    (now id : ℕ) (dto : UpdateProductDto) (ps : List Product) {p : Product}
    → find? (has_id id) ps ≡ some p
    → find? (has_id id) (update_rows id (with_data now dto) ps) ≡ some (with_data now dto p)
unfolding with_data
find-update_rows now id dto [] h = absurd (cc h)
find-update_rows now id dto (p ∷ ps) h = elim (Bool-cases (has_id id p)) [
  | inl here ↦ rw (here, here) (ap (Option.map (with_data now dto)) (rw here at h))
  | inr later ↦ rw (later, later) (find-update_rows now id dto ps (rw later at h))
]

module _ (connect_file : (product_id file_id : ℕ) → List Product → Option (List Product)) (now : ℕ)
    (id_or_slug : Text) (dto : UpdateProductDto) (actor : Actor) (st : ProductsState)
    (product : Product) (us : List String) (cs ts : List Text) (cats tags : List ℕ) where
  -- An update that names authors, categories and tags, and no file, of someone who may edit.
  pub record IsAllowed : Type 0 where
    pub stored : find? (by_id_or_slug (to_big_int id_or_slug) id_or_slug) st.products ≡ some product
    pub by_id : find? (has_id product.id) st.products ≡ some product
    pub may_edit : can_edit product.id actor st ≡ true
    pub names_authors : dto.author_ids ≡ some us
    pub few : ltb 3 (length (uniq same us)) ≡ false
    pub users_known : known_users (uniq same us) st ≡ true
    pub names_categories : dto.category_ids ≡ some cs
    pub categories_read : big_ints (uniq text_eq cs) ≡ some cats
    pub categories_known : all (includes st.categories) cats ≡ true
    pub names_tags : dto.tag_ids ≡ some ts
    pub tags_read : big_ints (uniq text_eq ts) ≡ some tags
    pub tags_known : all (includes st.tags) tags ≡ true
    pub no_file : dto.file_id ≡ none
    pub slug_free : takes_slug product.id dto.slug st.products ≡ false

  abbrev linked : ProductsState
  linked = record st {
    supplier_links = sync_suppliers product.id (uniq same us) st.supplier_links;
    category_links = sync_links product.id cats st.category_links;
    tag_links = sync_links product.id tags st.tag_links;
  }

  write_authors-eq :
      IsAllowed
      → write_authors product.id dto.author_ids st
        ≡ (ok tt, record st { supplier_links = linked.supplier_links })
  unfolding write_authors
  write_authors-eq a = rw (a.names_authors, write_authors, a.users_known) refl

  write_categories-eq :
      (w : ProductsState)
      → w.categories ≡ st.categories
      → w.category_links ≡ st.category_links
      → IsAllowed
      → write_categories product.id dto.category_ids w
        ≡ (ok tt, record w { category_links = linked.category_links })
  unfolding write_categories
  write_categories-eq w e k a =
      rw
        (
          a.names_categories,
          write_categories,
          a.categories_read,
          e,
          k,
          all-filter (includes st.categories) _ cats a.categories_known,
        )
        refl

  write_tags-eq :
      (w : ProductsState)
      → w.tags ≡ st.tags
      → w.tag_links ≡ st.tag_links
      → IsAllowed
      → write_tags product.id dto.tag_ids w ≡ (ok tt, record w { tag_links = linked.tag_links })
  unfolding write_tags
  write_tags-eq w e k a =
      rw
        (
          a.names_tags,
          write_tags,
          a.tags_read,
          e,
          k,
          all-filter (includes st.tags) _ tags a.tags_known,
        )
        refl

  write_product-eq :
      (w : ProductsState)
      → w.products ≡ st.products
      → IsAllowed
      → write_product connect_file now product.id dto none w ≡ (
        ok (with_data now dto product),
        record w { products = update_rows product.id (with_data now dto) st.products },
      )
  unfolding write_product change_file
  write_product-eq w e a =
      rw (write_product, e, a.slug_free, find-update_rows now product.id dto st.products a.by_id)
        refl

  update-eq :
      IsAllowed
      → update connect_file now id_or_slug dto actor st ≡ (
        ok (with_data now dto product),
        record linked { products = update_rows product.id (with_data now dto) st.products },
      )
  unfolding update find_one
  update-eq a =
      let few : too_many dto.author_ids ≡ false = rw (a.names_authors, a.few) refl in
      let kept : file_change dto.file_id ≡ ok none = rw a.no_file refl in
      let v = record st { supplier_links = linked.supplier_links } in
      let w = record v { category_links = linked.category_links } in
      rw
        (
          update,
          find_one,
          a.stored,
          a.may_edit,
          few,
          kept,
          write_authors-eq a,
          write_categories-eq v refl refl a,
          write_tags-eq w refl refl a,
          write_product-eq linked refl a,
        )
        refl

  -- An update that names authors, categories and tags, and no file, of someone who may edit, whose
  -- guards pass, returns the product with its new columns. The product then has exactly the authors,
  -- the categories and the tags that were named, and every other product has those it had.
  pub update_relinks :
      (q t : ℕ) (u : String)
      → IsAllowed
      → let (res, st') = update connect_file now id_or_slug dto actor st in
        (res ≡ ok (with_data now dto product))
        × (any (is_supplier q u) st'.supplier_links ≡ (
            if q == product.id then any (same u) us else any (is_supplier q u) st.supplier_links))
        × (any (is_link q t) st'.category_links
            ≡ (if q == product.id then includes cats t else any (is_link q t) st.category_links))
        × (any (is_link q t) st'.tag_links
            ≡ (if q == product.id then includes tags t else any (is_link q t) st.tag_links))
  update_relinks q t u a = rw (update-eq a) (
    refl,
    any-sync_suppliers q u product.id (uniq same us) st.supplier_links ∙ rw (any-uniq u us) refl,
    any-sync_links q t product.id cats st.category_links,
    any-sync_links q t product.id tags st.tag_links,
  )

-- Someone who is no admin and not linked to a product neither changes nor archives it: both calls
-- are refused as forbidden, and the state stays as it is.
pub stranger_changes_nothing :
    (connect_file : (product_id file_id : ℕ) → List Product → Option (List Product)) (now : ℕ)
    (id_or_slug : Text) (dto : UpdateProductDto) (actor : Actor) (st : ProductsState)
    (product : Product)
    → find? (by_id_or_slug (to_big_int id_or_slug) id_or_slug) st.products ≡ some product
    → actor.is_admin ≡ false
    → any (is_supplier product.id actor.id) st.supplier_links ≡ false
    → (update connect_file now id_or_slug dto actor st ≡ (throws forbidden, st))
      × (remove now id_or_slug actor st ≡ (throws forbidden, st))
unfolding update remove find_one
stranger_changes_nothing connect_file now id_or_slug dto actor st product stored plain no_link = (
  rw (update, find_one, stored, plain, no_link) refl,
  rw (remove, find_one, stored, plain, no_link) refl,
)
