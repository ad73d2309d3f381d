-- ===== src/Catalog/Bookmarks.antt =====
-- catalog/bookmarks/bookmarks.service.ts: `BookmarksService`, as catalog/likes/likes.service.ts without
-- a count. A row needs its product.
use negare_api.Base.{
  ℕ, Bool, true, false, ◌&&◌, not, List, ◌∷◌, Option, none, some, String, same, if◌then◌else◌, ◌==◌,
  filter, any, includes,
}
use negare_api.Base.Text.{Text}
use negare_api.Base.Exec.{Exec, Result, ok, throws, lift, gets, modify, ◌>>=◌}
use negare_api.Catalog.Keyset.{Cursor, CursorCodec, Page, list_for_user}
use negare_api.Catalog.Likes.{to_big_int}

pub record Bookmark : Type 0 where
  pub user_id : String
  pub product_id : ℕ
  pub created_at : ℕ

pub record BookmarksState : Type 0 where
  pub bookmarks : List Bookmark
  pub products : List ℕ

pub data BookmarksFailure : Type 0 where
  invalid_product_id : BookmarksFailure
  foreign_key : BookmarksFailure

abbrev pub is_bookmark : (user_id : String) → (product_id : ℕ) → Bookmark → Bool
is_bookmark user_id product_id b = same user_id b.user_id && product_id == b.product_id

abbrev pub Method : Type 0 → Type 0
Method A = Exec BookmarksState BookmarksFailure A

abbrev pub parsed : Option ℕ → Result BookmarksFailure ℕ
parsed none = throws invalid_product_id
parsed (some id) = ok id

abbrev pub without : (user_id : String) → (product_id : ℕ) → List Bookmark → List Bookmark
without user_id product_id bs = filter (λ b. not (is_bookmark user_id product_id b)) bs

abbrev pub create_bookmark : (now : ℕ) → (user_id : String) → (product_id : ℕ) → Method Bool
create_bookmark now user_id product_id st =
    if includes st.products product_id
    then (
      ok true,
      record st {
        bookmarks =
            record { user_id = user_id; product_id = product_id; created_at = now } ∷ st.bookmarks;
      },
    )
    else (throws foreign_key, st)

abbrev pub toggle_bookmark : (now : ℕ) → (user_id : String) → (product_id : ℕ) → Method Bool
toggle_bookmark now user_id product_id st =
    if any (is_bookmark user_id product_id) st.bookmarks
    then (ok false, record st { bookmarks = without user_id product_id st.bookmarks })
    else create_bookmark now user_id product_id st

-- The answer is whether the product is bookmarked now.
unfoldable pub toggle : (now : ℕ) → (user_id : String) → (product_id_str : Text) → Method Bool
toggle now user_id product_id_str = do
  product_id ← lift (parsed (to_big_int product_id_str))
  toggle_bookmark now user_id product_id

unfoldable pub remove : (user_id : String) → (product_id_str : Text) → Method (Unit {0})
remove user_id product_id_str = do
  product_id ← lift (parsed (to_big_int product_id_str))
  modify (λ st. record st { bookmarks = without user_id product_id st.bookmarks })

unfoldable pub is_bookmarked : (user_id : String) → (product_id_str : Text) → Method Bool
is_bookmarked user_id product_id_str = do
  product_id ← lift (parsed (to_big_int product_id_str))
  gets (λ st. any (is_bookmark user_id product_id) st.bookmarks)

abbrev pub bookmark_cursor : Bookmark → Cursor
bookmark_cursor b = record { created_at = b.created_at; number = b.product_id }

unfoldable pub list_bookmarks :
    CursorCodec
    → (user_id : String) → (limit : Option ℕ) → (cursor : Option String) → BookmarksState
    → Page Bookmark
list_bookmarks codec user_id limit cursor st =
    list_for_user codec bookmark_cursor limit cursor
      (filter (λ b. same user_id b.user_id) st.bookmarks)
