-- ===== src/Catalog/Products/Tests.antt =====
-- The theorems on products at three rows with as many downloads.
use negare_api.Base.{
  ℕ, ◌≡◌, refl, ap, Bool, true, false, List, [], ◌∷◌, map, Option, none, some, String, same,
  same-ne, any, filter, includes, if◌then◌else◌, ◌==◌, All, arith,
}
use negare_api.Base.Text.{codes}
use negare_api.Base.Exec.{ok}
use negare_api.Catalog.Likes.{to_big_int}
use negare_api.Catalog.Keyset.{Cursor, Page, insert_newest, newest_first}
use negare_api.Catalog.Keyset.Order.{Strict, count, same_cursor}
use negare_api.Catalog.RowTests.{codec}
use negare_api.Catalog.Products.{
  Product, PricingType, ProductStatus, ProductsState, Actor, is_supplier, uniq, big_ints,
}
use negare_api.Catalog.Products.Links.{is_link}
use negare_api.Catalog.Products.Editing.{UpdateProductDto, update, with_data}
use negare_api.Catalog.Products.Update.{update_relinks}
use negare_api.Catalog.Products.Listing.{
  ProductSort, ProductFindQueryDto, ProductCursors, Decoded, cursor_of, matches, more_popular,
  popular_first, insert_popular, find_all, read_pages,
}
use negare_api.Catalog.Products.Paging.{read_pages_complete}
use negare_api.Catalog.Products.Popular.{popular_skips, popular_cursor}

abbrev product : (id downloads likes : ℕ) → Product
product id downloads likes = record {
  id = id;
  slug = b'p' ∷ [];
  title = codes "Icons";
  description = none;
  cover_url = none;
  file_id = none;
  topic = none;
  graphic_format = "SVG";
  seo_title = none;
  seo_description = none;
  seo_keywords = [];
  pricing_type = PricingType.free;
  price = none;
  status = ProductStatus.draft;
  published_at = none;
  views_count = 0;
  downloads_count = downloads;
  likes_count = likes;
  created_at = 5;
  updated_at = 5;
}

abbrev shop : ProductsState
shop = record {
  products = product 1 4 9 ∷ product 2 4 3 ∷ product 3 4 1 ∷ [];
  last_id = 3;
  supplier_links = record { product_id = 1; user_id = "ann" } ∷ [];
  category_links =
      record { product_id = 1; target = 7 } ∷ record { product_id = 2; target = 7 } ∷ [];
  tag_links = [];
  views = [];
  downloads = [];
  users = "ann" ∷ "bob" ∷ [];
  categories = 7 ∷ 8 ∷ [];
  tags = 5 ∷ [];
}

abbrev found : Option Cursor → Decoded
found none = Decoded.no_cursor
found (some c) = Decoded.at c

abbrev decode : String → Decoded
decode String.[] = Decoded.no_cursor
decode (String.◌∷◌ c t) = found (codec.decode_cursor t)

some_text : (t : String) → same (String.◌∷◌ "c" t) "" ≡ false
some_text t = same-ne (String.◌∷◌ "c" t) "" (λ e. cc e)

abbrev cursors : ProductCursors
cursors = record {
  encode_cursor = λ s c. String.◌∷◌ "c" (codec.encode_cursor c);
  decode_cursor = λ s t. decode t;
  decode-encode = λ s c. ap found (codec.decode-encode c);
  encode-nonempty = λ s c. some_text (codec.encode_cursor c);
}

abbrev all_products : ProductSort → ProductFindQueryDto
all_products s = record {
  q = none;
  category_id = none;
  tag_id = none;
  author_id = none;
  pricing_type = none;
  graphic_format = none;
  status = none;
  sort = some s;
  limit = some 1;
  cursor = none;
}

abbrev after_first : ProductFindQueryDto
after_first = record (all_products ProductSort.popular) {
  cursor = some (cursors.encode_cursor ProductSort.popular (popular_cursor (product 1 4 9)));
}

popular_skips_example :
    (more_popular (product 1 4 9) (product 2 4 3) ≡ true)
    × ((page : Page Product) × (find_all cursors after_first shop ≡ ok page)
        × All
            (λ y. same_cursor (popular_cursor y) (popular_cursor (product 2 4 3)) ≡ false)
            page.items)
popular_skips_example =
    popular_skips cursors after_first shop (product 1 4 9) (product 2 4 3) refl refl refl
      (omega arith) (omega arith)

listing : Unit {0}
unfolding insert_newest newest_first matches insert_popular popular_first find_all read_pages
listing = tt

-- Of three products one is shown.
popular_pages :
    map (λ p. p.id) (read_pages cursors 9 (all_products ProductSort.popular) shop) ≡ 1 ∷ []
unfolding listing
popular_pages = refl

latest_pages :
    map (λ p. p.id) (read_pages cursors 9 (all_products ProductSort.latest) shop) ≡ 3 ∷ 2 ∷ 1 ∷ []
unfolding listing
latest_pages = refl

read_pages_complete_example :
    let shown = read_pages cursors 9 (all_products ProductSort.liked) shop in
    let taken = filter (matches (all_products ProductSort.liked) shop) shop.products in
    Strict (cursor_of ProductSort.liked) shown
    × ((p : Product → Bool)
        → count (cursor_of ProductSort.liked) p shown ≡ count (cursor_of ProductSort.liked) p taken)
unfolding matches
read_pages_complete_example =
    read_pages_complete cursors (all_products ProductSort.liked) shop refl 9
      ((refl, (refl, tt)), ((refl, tt), (tt, tt))) (omega arith)

abbrev no_files : (product_id file_id : ℕ) → List Product → Option (List Product)
no_files product_id file_id ps = none

abbrev change : UpdateProductDto
change = record {
  slug = none;
  title = some (codes "Glyphs");
  description = none;
  cover_url = none;
  file_id = none;
  topic = none;
  graphic_format = none;
  seo_title = none;
  seo_description = none;
  seo_keywords = none;
  pricing_type = none;
  price = none;
  status = none;
  published_at = none;
  author_ids = some ("bob" ∷ []);
  category_ids = some (codes "8" ∷ []);
  tag_ids = some (codes "5" ∷ []);
}

abbrev ann : Actor
ann = record { id = "ann"; is_admin = false }

update_relinks_example :
    let (res, st') = update no_files 6 (codes "1") change ann shop in
    (res ≡ ok (with_data 6 change (product 1 4 9)))
    × (any (is_supplier 1 "ann") st'.supplier_links ≡ (
        if 1 == 1
        then any (same "ann") ("bob" ∷ [])
        else any (is_supplier 1 "ann") shop.supplier_links))
    × (any (is_link 1 7) st'.category_links
        ≡ (if 1 == 1 then includes (8 ∷ []) 7 else any (is_link 1 7) shop.category_links))
    × (any (is_link 1 7) st'.tag_links
        ≡ (if 1 == 1 then includes (5 ∷ []) 7 else any (is_link 1 7) shop.tag_links))
unfolding to_big_int uniq big_ints
update_relinks_example =
    update_relinks no_files 6 (codes "1") change ann shop (product 1 4 9) ("bob" ∷ [])
      (codes "8" ∷ []) (codes "5" ∷ []) (8 ∷ []) (5 ∷ []) 1 7 "ann"
      (record {
        stored = refl;
        by_id = refl;
        may_edit = refl;
        names_authors = refl;
        few = refl;
        users_known = refl;
        names_categories = refl;
        categories_read = refl;
        categories_known = refl;
        names_tags = refl;
        tags_read = refl;
        tags_known = refl;
        no_file = refl;
        slug_free = refl;
      })
