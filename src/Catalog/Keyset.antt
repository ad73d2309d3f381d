-- ===== src/Catalog/Keyset.antt =====
-- The lists with a cursor of catalog/likes/likes.service.ts, catalog/bookmarks/bookmarks.service.ts and
-- catalog/downloads/downloads.service.ts: newest first, by the time and then by the number of a row.
-- `JSON` and `Buffer` are a codec; times are in milliseconds.
pub mod Order
pub mod Complete
use negare_api.Base.{
  ℕ, zero, suc, ◌≡◌, Bool, true, false, ◌&&◌, ◌||◌, List, [], ◌∷◌, ◌++◌, Option, none, some,
  if◌then◌else◌, ltb, ◌==◌, or_else, min, max, length, filter, take, last?, String,
}

pub record Cursor : Type 0 where
  pub created_at : ℕ
  pub number : ℕ

-- Texts of cursors: what is not one is no cursor.
pub record CursorCodec : Type 0 where
  pub encode_cursor : Cursor → String
  pub decode_cursor : String → Option Cursor
  pub decode-encode : (c : Cursor) → decode_cursor (encode_cursor c) ≡ some c

pub record Page (A : Type 0) : Type 0 where
  pub items : List A
  pub next_cursor : Option String

module _ {A : Type 0} (key : A → Cursor) where
  -- `{ createdAt: { lt } }` or the same time and a lower number
  abbrev pub is_past : Cursor → Cursor → Bool
  is_past c d =
      ltb d.created_at c.created_at || (d.created_at == c.created_at && ltb d.number c.number)

  abbrev pub fits : Option Cursor → A → Bool
  fits none x = true
  fits (some c) x = is_past c (key x)

  unfoldable pub insert_newest : A → List A → List A
  insert_newest x [] = x ∷ []
  insert_newest x (y ∷ ys) =
      let rest = insert_newest x ys in if is_past (key x) (key y) then x ∷ y ∷ ys else y ∷ rest

  -- `orderBy` the time and the number, both descending
  unfoldable pub newest_first : List A → List A
  newest_first [] = []
  newest_first (x ∷ xs) = insert_newest x (newest_first xs)

  -- `findMany`
  abbrev pub find_many : Option Cursor → (n : ℕ) → List A → List A
  find_many c n rows = take n (filter (fits c) (newest_first rows))

  abbrev pub page_size : (limit : Option ℕ) → ℕ
  page_size limit = min (max (or_else limit 24) 1) 60

module _ {A : Type 0} (codec : CursorCodec) (key : A → Cursor) where
  abbrev decode : Option String → Option Cursor
  decode none = none
  decode (some t) = codec.decode_cursor t

  abbrev cursor_of_last : Option A → Option String
  cursor_of_last none = none
  cursor_of_last (some x) = some (codec.encode_cursor (key x))

  -- A full page has a cursor for the next.
  unfoldable pub list_for_user : (limit : Option ℕ) → (cursor : Option String) → List A → Page A
  list_for_user limit cursor rows =
      let n = page_size key limit in
      let page = find_many key (decode cursor) n rows in
      record {
        items = page;
        next_cursor = if length page == n then cursor_of_last (last? page) else none;
      }

  -- A client that asks for page after page.
  unfoldable pub read_all :
      (fuel : ℕ) → (limit : Option ℕ) → (cursor : Option String) → List A → List A
  read_all zero limit cursor rows = []
  read_all (suc fuel) limit cursor rows =
      let page = list_for_user limit cursor rows in
      elim page.next_cursor [
        | none ↦ page.items
        | some t ↦ page.items ++ read_all fuel limit (some t) rows
      ]
