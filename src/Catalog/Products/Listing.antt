-- ===== src/Catalog/Products/Listing.antt =====
-- catalog/product/product.service.ts: `findAll`, the lists of products with filters, four orders and a
-- cursor. The counts of products are not negative, and `sort` is one of the four.
use negare_api.Base.{
  ℕ, zero, suc, ◌≡◌, Bool, true, false, ◌&&◌, ◌||◌, List, [], ◌∷◌, ◌++◌, Option, none, some, String,
  same, if◌then◌else◌, ltb, ◌==◌, or_else, length, filter, any, take, last?,
}
use negare_api.Base.Text.{Text, trim, contains_insensitive}
use negare_api.Base.Exec.{Result, ok, throws}
use negare_api.Catalog.Likes.{to_big_int}
use negare_api.Catalog.Keyset.{Cursor, Page, fits, newest_first, page_size}
use negare_api.Catalog.Products.{
  Product, PricingType, ProductStatus, ProductsState, ProductFailure, malformed_cursor, is_supplier,
}
use negare_api.Catalog.Products.Links.{is_link}

pub data ProductSort : Type 0 where
  latest : ProductSort
  popular : ProductSort
  viewed : ProductSort
  liked : ProductSort

pub record ProductFindQueryDto : Type 0 where
  pub q : Option Text
  pub category_id : Option Text
  pub tag_id : Option Text
  pub author_id : Option String
  pub pricing_type : Option PricingType
  pub graphic_format : Option String
  pub status : Option ProductStatus
  pub sort : Option ProductSort
  pub limit : Option ℕ
  pub cursor : Option String

-- What a text says: nothing that is JSON in base64, an object that is no cursor of the order, which
-- `BigInt`, `Date` or Prisma throw at, or a cursor.
pub data Decoded : Type 0 where
  no_cursor : Decoded
  malformed : Decoded
  at : Cursor → Decoded

-- The first part of a cursor is the time or the count that the order goes by.
pub record ProductCursors : Type 0 where
  pub encode_cursor : ProductSort → Cursor → String
  pub decode_cursor : ProductSort → String → Decoded
  pub decode-encode :
      (s : ProductSort) (c : Cursor) → decode_cursor s (encode_cursor s c) ≡ Decoded.at c
  pub encode-nonempty : (s : ProductSort) (c : Cursor) → same (encode_cursor s c) "" ≡ false

abbrev contained : Text → Option Text → Bool
contained term none = false
contained term (some t) = contains_insensitive term t

abbrev matches_term : Text → Product → Bool
matches_term [] p = true
matches_term (c ∷ t) p =
    contains_insensitive (c ∷ t) p.title
    || contained (c ∷ t) p.description
    || contained (c ∷ t) p.topic
    || contains_insensitive (c ∷ t) p.slug

abbrev matches_text : Option Text → Product → Bool
matches_text none p = true
matches_text (some q) p = matches_term (trim q) p

abbrev pricing_number : PricingType → ℕ
pricing_number PricingType.free = 0
pricing_number PricingType.subscription = 1
pricing_number PricingType.paid = 2
pricing_number PricingType.paid_or_subscription = 3

abbrev status_number : ProductStatus → ℕ
status_number ProductStatus.draft = 0
status_number ProductStatus.published = 1
status_number ProductStatus.archived = 2

abbrev has_pricing : Option PricingType → Product → Bool
has_pricing none p = true
has_pricing (some t) p = pricing_number t == pricing_number p.pricing_type

abbrev has_status : Option ProductStatus → Product → Bool
has_status none p = true
has_status (some s) p = status_number s == status_number p.status

-- An empty name is no filter.
abbrev has_format : Option String → Product → Bool
has_format none p = true
has_format (some f) p = same f "" || same f p.graphic_format

-- A text that is no number, or the number 0, is no filter.
abbrev linked_to : Option ℕ → (ℕ → Bool) → Bool
linked_to none has = true
linked_to (some zero) has = true
linked_to (some (suc n)) has = has (suc n)

abbrev by_text : Option Text → (ℕ → Bool) → Bool
by_text none has = true
by_text (some t) has = linked_to (to_big_int t) has

abbrev has_author : Option String → ProductsState → Product → Bool
has_author none st p = true
has_author (some u) st p = same u "" || any (is_supplier p.id u) st.supplier_links

-- All of the filters that are given.
unfoldable pub matches : ProductFindQueryDto → ProductsState → Product → Bool
matches query st p =
    matches_text query.q p
    && has_pricing query.pricing_type p
    && has_format query.graphic_format p
    && has_status query.status p
    && by_text query.category_id (λ c. any (is_link p.id c) st.category_links)
    && by_text query.tag_id (λ t. any (is_link p.id t) st.tag_links)
    && has_author query.author_id st p

abbrev pub primary : ProductSort → Product → ℕ
primary ProductSort.latest p = p.created_at
primary ProductSort.popular p = p.downloads_count
primary ProductSort.viewed p = p.views_count
primary ProductSort.liked p = p.likes_count

abbrev pub cursor_of : ProductSort → Product → Cursor
cursor_of s p = record { created_at = primary s p; number = p.id }

-- `downloadsCount`, `likesCount` and `id`, each descending
abbrev pub more_popular : Product → Product → Bool
more_popular p q =
    ltb q.downloads_count p.downloads_count
    || (q.downloads_count == p.downloads_count
        && (ltb q.likes_count p.likes_count || (q.likes_count == p.likes_count && ltb q.id p.id)))

unfoldable pub insert_popular : Product → List Product → List Product
insert_popular p [] = p ∷ []
insert_popular p (q ∷ qs) =
    let rest = insert_popular p qs in if more_popular p q then p ∷ q ∷ qs else q ∷ rest

unfoldable pub popular_first : List Product → List Product
unfolding insert_popular
popular_first [] = []
popular_first (p ∷ ps) = insert_popular p (popular_first ps)

abbrev pub in_order : ProductSort → List Product → List Product
in_order ProductSort.popular rows = popular_first rows
in_order ProductSort.latest rows = newest_first (cursor_of ProductSort.latest) rows
in_order ProductSort.viewed rows = newest_first (cursor_of ProductSort.viewed) rows
in_order ProductSort.liked rows = newest_first (cursor_of ProductSort.liked) rows

abbrev pub sort_of : ProductFindQueryDto → ProductSort
sort_of query = or_else query.sort ProductSort.latest

module _ (cursors : ProductCursors) where
  abbrev pub read_cursor : ProductSort → Option String → Decoded
  read_cursor s none = Decoded.no_cursor
  read_cursor s (some t) = if same t "" then Decoded.no_cursor else cursors.decode_cursor s t

  abbrev pub next_after : ProductSort → Option Product → Option String
  next_after s none = none
  next_after s (some p) = some (cursors.encode_cursor s (cursor_of s p))

  abbrev pub page_of : ProductFindQueryDto → Option Cursor → List Product → Page Product
  page_of query c rows =
      let s = sort_of query in
      let n = page_size (cursor_of s) query.limit in
      let page = take n (filter (fits (cursor_of s) c) (in_order s rows)) in
      record {
        items = page;
        next_cursor = if length page == n then next_after s (last? page) else none;
      }

  abbrev pub page_at :
      ProductFindQueryDto → Decoded → List Product → Result ProductFailure (Page Product)
  page_at query Decoded.malformed rows = throws malformed_cursor
  page_at query Decoded.no_cursor rows = ok (page_of query none rows)
  page_at query (Decoded.at c) rows = ok (page_of query (some c) rows)

  unfoldable pub find_all :
      ProductFindQueryDto → ProductsState → Result ProductFailure (Page Product)
  find_all query st =
      page_at query (read_cursor (sort_of query) query.cursor)
        (filter (matches query st) st.products)

  -- A client that asks for page after page, and stops at an error.
  unfoldable pub read_pages : (fuel : ℕ) → ProductFindQueryDto → ProductsState → List Product
  read_pages zero query st = []
  read_pages (suc fuel) query st = elim (find_all query st) [
    | throws e ↦ []
    | ok page ↦ elim page.next_cursor [
      | none ↦ page.items
      | some t ↦ page.items ++ read_pages fuel (record query { cursor = some t }) st
    ]
  ]
