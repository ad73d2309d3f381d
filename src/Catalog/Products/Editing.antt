-- ===== src/Catalog/Products/Editing.antt =====
-- catalog/product/product.service.ts: `create` and `update`.
use negare_api.Base.{
  ℕ, suc, Bool, false, ◌&&◌, ◌||◌, not, List, [], ◌∷◌, ◌++◌, map, Option, none, some, String, same,
  ltb, or_else, length, any, all, includes, find?,
}
use negare_api.Base.Text.{Text, text_eq}
use negare_api.Base.Exec.{Result, ok, throws, pure, lift, gets, modify, guard, ◌>>=◌}
use negare_api.Catalog.Likes.{to_big_int}
use negare_api.Catalog.Products.{
  Product, PricingType, ProductStatus, Link, ProductsState, ProductFailure, Actor, CreateProductDto,
  Method, not_a_number, too_many_authors, forbidden, unique_constraint, foreign_key,
  record_not_found, uniq, big_ints, numbers, has_id, found, find_one, can_edit, update_rows,
}
use negare_api.Catalog.Products.Links.{missing, delete_others, sync_links, sync_suppliers}

-- What is not given stays. A price that is null is taken away, and so is a file that is null or empty.
pub record UpdateProductDto : Type 0 where
  pub slug : Option Text
  pub title : Option Text
  pub description : Option Text
  pub cover_url : Option Text
  pub file_id : Option (Option Text)
  pub topic : Option Text
  pub graphic_format : Option String
  pub seo_title : Option Text
  pub seo_description : Option Text
  pub seo_keywords : Option (List Text)
  pub pricing_type : Option PricingType
  pub price : Option (Option ℕ)
  pub status : Option ProductStatus
  pub published_at : Option ℕ
  pub author_ids : Option (List String)
  pub category_ids : Option (List Text)
  pub tag_ids : Option (List Text)

abbrev number : Option ℕ → Result ProductFailure (Option ℕ)
number none = throws not_a_number
number (some n) = ok (some n)

-- An empty id is none.
abbrev pub file_number : Option Text → Result ProductFailure (Option ℕ)
file_number none = ok none
file_number (some []) = ok none
file_number (some (c ∷ t)) = number (to_big_int (c ∷ t))

abbrev changed : Result ProductFailure (Option ℕ) → Result ProductFailure (Option (Option ℕ))
changed (ok f) = ok (some f)
changed (throws e) = throws e

abbrev pub file_change : Option (Option Text) → Result ProductFailure (Option (Option ℕ))
file_change none = ok none
file_change (some t) = changed (file_number t)

abbrev pub authors_or : String → List String → List String
authors_or user_id [] = user_id ∷ []
authors_or user_id (u ∷ us) = u ∷ us

abbrev pub known_users : List String → ProductsState → Bool
known_users us st = all (λ u. any (same u) st.users) us

abbrev repeats : List ℕ → Bool
repeats [] = false
repeats (n ∷ ns) = includes ns n || repeats ns

abbrev optional : {A : Type 0} → Option A → Option A → Option A
optional none old = old
optional (some x) old = some x

-- All of the writes, or none.
abbrev pub committed : {A : Type 0} → Result ProductFailure A × ProductsState → Method A
committed (ok a, st') st = (ok a, st')
committed (throws e, st') st = (throws e, st)

abbrev pub atomic : {A : Type 0} → Method A → Method A
atomic m st = committed (m st) st

abbrev new_product : (now id : ℕ) → CreateProductDto → Product
new_product now id dto = record {
  id = id;
  slug = dto.slug;
  title = dto.title;
  description = dto.description;
  cover_url = dto.cover_url;
  file_id = none;
  topic = dto.topic;
  graphic_format = dto.graphic_format;
  seo_title = dto.seo_title;
  seo_description = dto.seo_description;
  seo_keywords = or_else dto.seo_keywords [];
  pricing_type = dto.pricing_type;
  price = dto.price;
  status = or_else dto.status ProductStatus.draft;
  published_at = dto.published_at;
  views_count = 0;
  downloads_count = 0;
  likes_count = 0;
  created_at = now;
  updated_at = now;
}

abbrev links_to : (product_id : ℕ) → List ℕ → List Link
links_to product_id ts = map (λ t. record { product_id = product_id; target = t }) ts

abbrev pub too_many : Option (List String) → Bool
too_many none = false
too_many (some us) = ltb 3 (length (uniq same us))

unfoldable pub write_authors : (product_id : ℕ) → Option (List String) → Method (Unit {0})
write_authors product_id none = pure tt
write_authors product_id (some us) = do
  let authors = uniq same us
  known ← gets (known_users authors)
  _ ← guard known foreign_key
  modify (λ st. record st { supplier_links = sync_suppliers product_id authors st.supplier_links })

unfoldable pub write_categories : (product_id : ℕ) → Option (List Text) → Method (Unit {0})
write_categories product_id none = pure tt
write_categories product_id (some ts) = do
  cats ← lift (numbers (big_ints (uniq text_eq ts)))
  known ← gets (λ st.
      all (includes st.categories)
        (missing product_id cats (delete_others product_id cats st.category_links)))
  _ ← guard known foreign_key
  modify (λ st. record st { category_links = sync_links product_id cats st.category_links })

unfoldable pub write_tags : (product_id : ℕ) → Option (List Text) → Method (Unit {0})
write_tags product_id none = pure tt
write_tags product_id (some ts) = do
  tags ← lift (numbers (big_ints (uniq text_eq ts)))
  known ← gets (λ st.
      all (includes st.tags) (missing product_id tags (delete_others product_id tags st.tag_links)))
  _ ← guard known foreign_key
  modify (λ st. record st { tag_links = sync_links product_id tags st.tag_links })

unfoldable pub with_data : (now : ℕ) → UpdateProductDto → Product → Product
with_data now dto p = record p {
  slug = or_else dto.slug p.slug;
  title = or_else dto.title p.title;
  description = optional dto.description p.description;
  cover_url = optional dto.cover_url p.cover_url;
  topic = optional dto.topic p.topic;
  graphic_format = or_else dto.graphic_format p.graphic_format;
  seo_title = optional dto.seo_title p.seo_title;
  seo_description = optional dto.seo_description p.seo_description;
  seo_keywords = or_else dto.seo_keywords p.seo_keywords;
  pricing_type = or_else dto.pricing_type p.pricing_type;
  price = or_else dto.price p.price;
  status = or_else dto.status p.status;
  published_at = optional dto.published_at p.published_at;
  updated_at = now;
}

abbrev pub takes_slug : (product_id : ℕ) → Option Text → List Product → Bool
takes_slug product_id none ps = false
takes_slug product_id (some slug) ps =
    any (λ p. not (has_id product_id p) && text_eq slug p.slug) ps

module _ (connect_file : (product_id file_id : ℕ) → List Product → Option (List Product)) where
  abbrev connected : Option (List Product) → Result ProductFailure (List Product)
  connected none = throws record_not_found
  connected (some ps) = ok ps

  abbrev with_file :
      (product_id : ℕ) → Option ℕ → List Product → Result ProductFailure (List Product)
  with_file product_id none ps = ok ps
  with_file product_id (some f) ps = connected (connect_file product_id f ps)

  unfoldable pub create : (now : ℕ) → CreateProductDto → Actor → Method Product
  create now dto actor = do
    let authors = authors_or actor.id (uniq same (or_else dto.author_ids []))
    _ ← guard (not (ltb 3 (length authors))) too_many_authors
    file ← lift (file_number dto.file_id)
    cats ← lift (numbers (big_ints (uniq text_eq (or_else dto.category_ids []))))
    tags ← lift (numbers (big_ints (uniq text_eq (or_else dto.tag_ids []))))
    taken ← gets (λ st. any (λ p. text_eq dto.slug p.slug) st.products)
    _ ← guard (not taken && not (repeats cats) && not (repeats tags)) unique_constraint
    known ← gets (λ st.
        known_users authors st && all (includes st.categories) cats && all (includes st.tags) tags)
    _ ← guard known foreign_key
    id ← gets (λ st. suc st.last_id)
    old ← gets (λ st. st.products)
    products ← lift (with_file id file (old ++ (new_product now id dto ∷ [])))
    _ ← modify (λ st. record st {
      products = products;
      last_id = id;
      supplier_links =
          st.supplier_links ++ map (λ u. record { product_id = id; user_id = u }) authors;
      category_links = st.category_links ++ links_to id cats;
      tag_links = st.tag_links ++ links_to id tags;
    })
    created ← gets (λ st. find? (has_id id) st.products)
    lift (found created)

  -- Nothing, the file taken away, or a file to connect.
  unfoldable pub change_file :
      (product_id : ℕ) → Option (Option ℕ) → List Product → Result ProductFailure (List Product)
  change_file product_id none ps = ok ps
  change_file product_id (some none) ps =
      ok (update_rows product_id (λ p. record p { file_id = none }) ps)
  change_file product_id (some (some f)) ps = connected (connect_file product_id f ps)

  unfoldable pub write_product :
      (now product_id : ℕ) → UpdateProductDto → Option (Option ℕ) → Method Product
  write_product now product_id dto file = do
    taken ← gets (λ st. takes_slug product_id dto.slug st.products)
    _ ← guard (not taken) unique_constraint
    old ← gets (λ st. st.products)
    products ← lift (change_file product_id file (update_rows product_id (with_data now dto) old))
    _ ← modify (λ st. record st { products = products })
    updated ← gets (λ st. find? (has_id product_id) st.products)
    lift (found updated)

  unfoldable pub update :
      (now : ℕ) → (id_or_slug : Text) → UpdateProductDto → Actor → Method Product
  update now id_or_slug dto actor = do
    product ← find_one id_or_slug
    allowed ← gets (can_edit product.id actor)
    _ ← guard allowed forbidden
    _ ← guard (not (too_many dto.author_ids)) too_many_authors
    file ← lift (file_change dto.file_id)
    atomic (
        write_authors product.id dto.author_ids >>= λ _.
        write_categories product.id dto.category_ids >>= λ _.
        write_tags product.id dto.tag_ids >>= λ _. write_product now product.id dto file)
