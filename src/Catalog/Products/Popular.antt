-- ===== src/Catalog/Products/Popular.antt =====
-- catalog/product/product.service.ts: the order `popular` goes by three columns, its cursor by two.
use negare_api.Base.{
  ℕ, zero, suc, ◌≡◌, ◌<◌, refl, Bool, true, false, List, [], ◌∷◌, some, arith, Bool-cases, inl, inr,
  All, filter, take,
}
use negare_api.Base.Exec.{ok}
use negare_api.Catalog.Keyset.{Cursor, Page, fits, page_size}
use negare_api.Catalog.Keyset.Order.{same_cursor}
use negare_api.Catalog.Products.{Product, ProductsState}
use negare_api.Catalog.Products.Listing.{
  ProductSort, ProductFindQueryDto, ProductCursors, Decoded, more_popular, cursor_of, in_order,
  sort_of, matches, page_of, find_all, read_cursor,
}

take-filter :
    (f : Product → Bool) (P : Product → Type 0) (n : ℕ) (ys : List Product)
    → ((y : Product) → f y ≡ true → P y)
    → All P (take n (filter f ys))
take-filter f P zero ys h = tt
take-filter f P (suc n) [] h = tt
take-filter f P (suc n) (y ∷ ys) h = elim (Bool-cases (f y)) [
  | inl kept ↦ rw kept (h y kept, take-filter f P n ys h)
  | inr dropped ↦ rw dropped (take-filter f P (suc n) ys h)
]

abbrev pub popular_cursor : Product → Cursor
popular_cursor p = cursor_of ProductSort.popular p

-- Two products have as many downloads, and the one that comes second in the order `popular`, with
-- fewer likes, has the higher id. The page that the cursor of the first leads to is returned and
-- does not have the second.
pub popular_skips :
    (cursors : ProductCursors) (query : ProductFindQueryDto) (st : ProductsState)
    (first second : Product)
    → query.sort ≡ some ProductSort.popular
    → query.cursor ≡ some (cursors.encode_cursor ProductSort.popular (popular_cursor first))
    → second.downloads_count ≡ first.downloads_count
    → second.likes_count < first.likes_count
    → first.id < second.id
    → (more_popular first second ≡ true)
      × ((page : Page Product) × (find_all cursors query st ≡ ok page)
          × All (λ y. same_cursor (popular_cursor y) (popular_cursor second) ≡ false) page.items)
unfolding find_all matches
popular_skips cursors query st first second sorted given tie fewer higher =
    let s = ProductSort.popular in
    let c = popular_cursor first in
    let decoded : read_cursor cursors (sort_of query) query.cursor ≡ Decoded.at c =
      rw (sorted, given, cursors.encode-nonempty s c) (cursors.decode-encode s c) in
    let rows = filter (matches query st) st.products in
    (
      ground arith,
      (
        page_of cursors query (some c) rows,
        rw (find_all, decoded) refl,
        rw sorted (
            take-filter (fits popular_cursor (some c))
              (λ y. same_cursor (popular_cursor y) (popular_cursor second) ≡ false)
              (page_size popular_cursor query.limit) (in_order s rows) (λ y past. ground arith)),
      ),
    )
