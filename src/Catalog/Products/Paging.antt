-- ===== src/Catalog/Products/Paging.antt =====
-- catalog/product/product.service.ts: page after page of `findAll` in the orders `latest`, `viewed` and
-- `liked` is the list with a cursor of Catalog/Keyset.
use negare_api.Base.{
  ℕ, zero, suc, ◌<◌, ◌≡◌, refl, sym, ap, subst, Bool, true, false, List, ◌++◌, Option, none, some,
  String, ◌==◌, Bool-cases, Option-cases, inl, inr, length, filter, last?,
}
use negare_api.Base.Exec.{ok}
use negare_api.Catalog.Keyset.{
  Cursor, CursorCodec, Page, newest_first, page_size, list_for_user, read_all,
}
use negare_api.Catalog.Keyset.Order.{Strict, Distinct, count}
use negare_api.Catalog.Keyset.Complete.{read_all_complete}
use negare_api.Catalog.Products.{Product, ProductsState}
use negare_api.Catalog.Products.Listing.{
  ProductSort, ProductFindQueryDto, ProductCursors, Decoded, cursor_of, in_order, sort_of, matches,
  find_all, read_cursor, read_pages,
}

abbrev pub is_popular : ProductSort → Bool
is_popular ProductSort.popular = true
is_popular ProductSort.latest = false
is_popular ProductSort.viewed = false
is_popular ProductSort.liked = false

in_order-newest :
    (s : ProductSort) (rows : List Product)
    → is_popular s ≡ false
    → in_order s rows ≡ newest_first (cursor_of s) rows
in_order-newest ProductSort.popular rows h = absurd (cc h)
in_order-newest ProductSort.latest rows h = refl
in_order-newest ProductSort.viewed rows h = refl
in_order-newest ProductSort.liked rows h = refl

abbrev found_cursor : Decoded → Option Cursor
found_cursor Decoded.no_cursor = none
found_cursor Decoded.malformed = none
found_cursor (Decoded.at c) = some c

module _ (cursors : ProductCursors) (s : ProductSort) where
  read_own : (c : Cursor) → read_cursor cursors s (some (cursors.encode_cursor s c)) ≡ Decoded.at c
  read_own c = rw (cursors.encode-nonempty s c) (cursors.decode-encode s c)

  decode_own :
      (c : Cursor)
      → found_cursor (read_cursor cursors s (some (cursors.encode_cursor s c))) ≡ some c
  decode_own c = ap found_cursor (read_own c)

  -- The cursors of one order.
  abbrev codec : CursorCodec
  codec = record {
    encode_cursor = cursors.encode_cursor s;
    decode_cursor = λ t. found_cursor (read_cursor cursors s (some t));
    decode-encode = decode_own;
  }

module _ (cursors : ProductCursors) (query : ProductFindQueryDto) (st : ProductsState)
    (ordered : is_popular (sort_of query) ≡ false) where
  abbrev s : ProductSort
  s = sort_of query

  abbrev pub selected : List Product
  selected = filter (matches query st) st.products

  abbrev from : Option String → ProductFindQueryDto
  from cursor = record query { cursor = cursor }

  -- A cursor that some page gave.
  data Given : Option String → Type 0 where
    start : Given none
    after : (c : Cursor) → Given (some (cursors.encode_cursor s c))

  find_all-list :
      {cursor : Option String}
      → Given cursor
      → find_all cursors (from cursor) st
        ≡ ok (list_for_user (codec cursors s) (cursor_of s) query.limit cursor selected)
  unfolding find_all list_for_user matches
  find_all-list Given.start = rw (in_order-newest s selected ordered) refl
  find_all-list (Given.after c) =
      rw
        (cursors.encode-nonempty s c, cursors.decode-encode s c, in_order-newest s selected ordered)
        refl

  next-Given :
      (cursor : Option String)
      → Given
          (list_for_user (codec cursors s) (cursor_of s) query.limit cursor selected).next_cursor
  unfolding list_for_user
  next-Given cursor =
      let page =
        (list_for_user (codec cursors s) (cursor_of s) query.limit cursor selected).items in
      elim (Bool-cases (length page == page_size (cursor_of s) query.limit)) [
        | inr short ↦ rw short Given.start
        | inl full ↦ elim (Option-cases (last? page)) [
          | inl empty ↦ rw (full, empty) Given.start
          | inr (p, there) ↦ rw (full, there) (Given.after (cursor_of s p))
        ]
      ]

  read_pages-list :
      (fuel : ℕ) {cursor : Option String}
      → Given cursor
      → read_pages cursors fuel (from cursor) st
        ≡ read_all (codec cursors s) (cursor_of s) fuel query.limit cursor selected
  unfolding read_pages read_all
  read_pages-list zero g = refl
  read_pages-list (suc fuel) {cursor} g = elim (Option-cases next) [
    | inl last ↦ rw (read_pages, find_all-list g, read_all, last) refl
    | inr (t, more) ↦
        rw (read_pages, find_all-list g, read_all, more)
          (ap (λ ps. page.items ++ ps)
            (read_pages-list fuel (subst Given more (next-Given cursor))))
  ]
    where
      page : Page Product
      page = list_for_user (codec cursors s) (cursor_of s) query.limit cursor selected

      next : Option String
      next = page.next_cursor

  -- In the orders `latest`, `viewed` and `liked`, a client that asks for page after page, of any size,
  -- until there is no cursor gets each product that the filters take once, and in that order, when
  -- no two of these have the same cursor; one request more than there are such products is enough.
  pub read_pages_complete :
      (fuel : ℕ)
      → Distinct (cursor_of s) selected
      → length selected < fuel
      → Strict (cursor_of s) (read_pages cursors fuel (from none) st)
        × ((p : Product → Bool)
            → count (cursor_of s) p (read_pages cursors fuel (from none) st)
              ≡ count (cursor_of s) p selected)
  read_pages_complete fuel d h =
      subst
        (λ (ps : List Product).
          Strict (cursor_of s) ps
          × ((p : Product → Bool) → count (cursor_of s) p ps ≡ count (cursor_of s) p selected))
        (sym (read_pages-list fuel Given.start))
        (read_all_complete (codec cursors s) (cursor_of s) query.limit selected fuel d h)
