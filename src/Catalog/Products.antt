-- ===== src/Catalog/Products.antt =====
-- catalog/product/product.service.ts: `ProductService`, on the rows of the products and of their links.
-- A method answers with the row; what product.mapper.ts shows of it is left out, as are the columns
-- that only other services write. The DTOs let texts of digits pass for ids, and times are in
-- milliseconds. `connect_file` is what Prisma does to give a product a file: nothing, if it is not there.
pub mod Links
pub mod Editing
pub mod Listing
pub mod Paging
pub mod Popular
pub mod Update
mod Reactions
mod Tests
use negare_api.Base.{
  ℕ, zero, suc, ◌+◌, ◌≡◌, Bool, true, false, ◌&&◌, ◌||◌, not, List, [], ◌∷◌, ◌++◌, map, Option,
  none, some, String, same, if◌then◌else◌, ltb, ◌==◌, or_else, is_some, length, filter, any, all,
  includes, find?,
}
use negare_api.Base.Text.{Text, text_eq, is_digit}
use negare_api.Base.Exec.{Exec, Result, ok, throws, pure, lift, gets, modify, guard, ◌>>=◌}
use negare_api.Catalog.Likes.{to_big_int}

pub data PricingType : Type 0 where
  free : PricingType
  subscription : PricingType
  paid : PricingType
  paid_or_subscription : PricingType

pub data ProductStatus : Type 0 where
  draft : ProductStatus
  published : ProductStatus
  archived : ProductStatus

-- A graphic format is taken by its name.
pub record Product : Type 0 where
  pub id : ℕ
  pub slug : Text
  pub title : Text
  pub description : Option Text
  pub cover_url : Option Text
  pub file_id : Option ℕ
  pub topic : Option Text
  pub graphic_format : String
  pub seo_title : Option Text
  pub seo_description : Option Text
  pub seo_keywords : List Text
  pub pricing_type : PricingType
  pub price : Option ℕ
  pub status : ProductStatus
  pub published_at : Option ℕ
  pub views_count : ℕ
  pub downloads_count : ℕ
  pub likes_count : ℕ
  pub created_at : ℕ
  pub updated_at : ℕ

pub record SupplierLink : Type 0 where
  pub product_id : ℕ
  pub user_id : String

-- A row of the links to categories, or of those to tags.
pub record Link : Type 0 where
  pub product_id : ℕ
  pub target : ℕ

pub record ProductView : Type 0 where
  pub product_id : ℕ
  pub user_id : Option String
  pub ip : Option Text
  pub ua : Option Text

pub record ProductDownload : Type 0 where
  pub product_id : ℕ
  pub user_id : String
  pub bytes : Option ℕ
  pub price_paid : Option ℕ
  pub ip : Option Text

pub record ProductsState : Type 0 where
  pub products : List Product
  pub last_id : ℕ
  pub supplier_links : List SupplierLink
  pub category_links : List Link
  pub tag_links : List Link
  pub views : List ProductView
  pub downloads : List ProductDownload
  pub users : List String
  pub categories : List ℕ
  pub tags : List ℕ

pub data ProductFailure : Type 0 where
  too_many_authors : ProductFailure
  forbidden : ProductFailure
  product_not_found : ProductFailure
  invalid_product_id : ProductFailure
  not_a_number : ProductFailure
  unique_constraint : ProductFailure
  foreign_key : ProductFailure
  record_not_found : ProductFailure
  malformed_cursor : ProductFailure

pub record Actor : Type 0 where
  pub id : String
  pub is_admin : Bool

pub record CreateProductDto : Type 0 where
  pub slug : Text
  pub title : Text
  pub description : Option Text
  pub cover_url : Option Text
  pub file_id : Option Text
  pub topic : Option Text
  pub graphic_format : String
  pub seo_title : Option Text
  pub seo_description : Option Text
  pub seo_keywords : Option (List Text)
  pub pricing_type : PricingType
  pub price : Option ℕ
  pub status : Option ProductStatus
  pub published_at : Option ℕ
  pub author_ids : Option (List String)
  pub category_ids : Option (List Text)
  pub tag_ids : Option (List Text)

abbrev pub Method : Type 0 → Type 0
Method A = Exec ProductsState ProductFailure A

-- `Array.from(new Set(xs))`: the first of the equal ones stays.
unfoldable pub uniq : {A : Type 0} → (eq : A → A → Bool) → List A → List A
uniq eq [] = []
uniq eq (x ∷ xs) = x ∷ filter (λ y. not (eq x y)) (uniq eq xs)

abbrev pub consed : {A : Type 0} → Option A → Option (List A) → Option (List A)
consed (some x) (some xs) = some (x ∷ xs)
consed _ _ = none

-- `ids.map(BigInt)`
unfoldable pub big_ints : List Text → Option (List ℕ)
big_ints [] = some []
big_ints (t ∷ ts) = consed (to_big_int t) (big_ints ts)

abbrev pub numbers : Option (List ℕ) → Result ProductFailure (List ℕ)
numbers none = throws not_a_number
numbers (some ns) = ok ns

abbrev pub has_id : ℕ → Product → Bool
has_id id p = id == p.id

-- A text of digits is an id, any other a slug.
abbrev pub by_id_or_slug : Option ℕ → Text → Product → Bool
by_id_or_slug none t p = text_eq t p.slug
by_id_or_slug (some id) t p = has_id id p

abbrev pub found : Option Product → Result ProductFailure Product
found none = throws product_not_found
found (some p) = ok p

unfoldable pub find_one : (id_or_slug : Text) → Method Product
find_one id_or_slug = do
  p ← gets (λ st. find? (by_id_or_slug (to_big_int id_or_slug) id_or_slug) st.products)
  lift (found p)

abbrev pub is_supplier : (product_id : ℕ) → (user_id : String) → SupplierLink → Bool
is_supplier product_id user_id l = product_id == l.product_id && same user_id l.user_id

abbrev pub can_edit : ℕ → Actor → ProductsState → Bool
can_edit product_id actor st =
    actor.is_admin || any (is_supplier product_id actor.id) st.supplier_links

abbrev pub update_rows : ℕ → (Product → Product) → List Product → List Product
update_rows id f rows = map (λ p. if has_id id p then f p else p) rows

unfoldable pub remove : (now : ℕ) → (id_or_slug : Text) → Actor → Method Product
remove now id_or_slug actor = do
  product ← find_one id_or_slug
  allowed ← gets (can_edit product.id actor)
  _ ← guard allowed forbidden
  _ ← modify (λ st. record st {
    products =
        update_rows product.id (λ p. record p { status = ProductStatus.archived; updated_at = now })
          st.products;
  })
  updated ← gets (λ st. find? (has_id product.id) st.products)
  lift (found updated)

abbrev updatable : (id : ℕ) → Method (Unit {0})
updatable id st = guard (any (has_id id) st.products) record_not_found st

abbrev knows : Option String → ProductsState → Bool
knows none st = true
knows (some u) st = any (same u) st.users

unfoldable pub increment_view :
    (now product_id : ℕ) → (viewer_id : Option String) → (ip ua : Option Text) → Method (Unit {0})
increment_view now product_id viewer_id ip ua = do
  _ ← updatable product_id
  known ← gets (knows viewer_id)
  _ ← guard known foreign_key
  modify (λ st. record st {
    products =
        update_rows product_id (λ p. record p { views_count = p.views_count + 1; updated_at = now })
          st.products;
    views = record { product_id = product_id; user_id = viewer_id; ip = ip; ua = ua } ∷ st.views;
  })

abbrev parsed : Option ℕ → Result ProductFailure ℕ
parsed none = throws invalid_product_id
parsed (some id) = ok id

unfoldable pub register_download :
    (now : ℕ)
    → (product_id_str : Text) → (user_id : String) → (bytes price_paid : Option ℕ)
    → (ip : Option Text) → Method (Unit {0})
register_download now product_id_str user_id bytes price_paid ip = do
  product_id ← lift (parsed (to_big_int product_id_str))
  _ ← updatable product_id
  known ← gets (λ st. any (same user_id) st.users)
  _ ← guard known foreign_key
  modify (λ st. record st {
    products =
        update_rows product_id
          (λ p. record p { downloads_count = p.downloads_count + 1; updated_at = now }) st.products;
    downloads =
        record {
          product_id = product_id;
          user_id = user_id;
          bytes = bytes;
          price_paid = price_paid;
          ip = ip;
        }
        ∷ st.downloads;
  })
