-- ===== src/Catalog/Products/Reactions.antt =====
-- catalog/product/product.service.ts: `toggleLike` and `toggleBookmark`, on the rows of the services of
-- likes and bookmarks.
use negare_api.Base.{ℕ, Bool, true, false, ◌∷◌, String, if◌then◌else◌, any}
use negare_api.Base.Text.{Text}
use negare_api.Base.Integers.{pos, negsuc}
use negare_api.Base.Exec.{ok, lift, ◌>>=◌}
use negare_api.Catalog.Likes.{to_big_int, is_like, delete_like, transaction}
use negare_api.Catalog.Likes.{parsed as parsed_like}
use negare_api.Catalog.Likes.{Method as LikesMethod}
use negare_api.Catalog.Bookmarks.{is_bookmark, without, create_bookmark}
use negare_api.Catalog.Bookmarks.{parsed as parsed_bookmark}
use negare_api.Catalog.Bookmarks.{Method as BookmarksMethod}

unfoldable toggle_like : (now : ℕ) → (product_id_str : Text) → (user_id : String) → LikesMethod Bool
toggle_like now product_id_str user_id = do
  product_id ← lift (parsed_like (to_big_int product_id_str))
  λ st.
      if any (is_like user_id product_id) st.likes
      then transaction product_id (negsuc 0) false (delete_like user_id product_id st.likes) st
      else transaction product_id (pos 1) true
          (record { user_id = user_id; product_id = product_id; created_at = now } ∷ st.likes) st

unfoldable toggle_bookmark :
    (now : ℕ) → (product_id_str : Text) → (user_id : String) → BookmarksMethod Bool
toggle_bookmark now product_id_str user_id = do
  product_id ← lift (parsed_bookmark (to_big_int product_id_str))
  λ st.
      if any (is_bookmark user_id product_id) st.bookmarks
      then (ok false, record st { bookmarks = without user_id product_id st.bookmarks })
      else create_bookmark now user_id product_id st
