-- ===== src/Catalog/Likes.antt =====
-- catalog/likes/likes.service.ts: `LikesService`. The rows of the likes, and of the products with their
-- counts, are the state; a transaction that fails changes nothing. What a list shows of a product is
-- left out.
pub mod Count
use negare_api.Base.{
  ℕ, ◌+◌, ◌-◌, ◌*◌, ◌≡◌, Bool, true, false, ◌&&◌, not, List, [], ◌∷◌, ◌++◌, Option, none, some,
  String, same, if◌then◌else◌, ◌==◌, is_some, filter, any, all,
}
use negare_api.Base.Text.{Text, is_digit}
use negare_api.Base.Integers.{ℤ, pos, negsuc, ◌+ℤ◌}
use negare_api.Base.Exec.{Exec, Result, ok, throws, pure, lift, gets, ◌>>=◌, ◌>>◌}
use negare_api.Catalog.Keyset.{Cursor, CursorCodec, Page, list_for_user}

pub record Like : Type 0 where
  pub user_id : String
  pub product_id : ℕ
  pub created_at : ℕ

pub record ProductRow : Type 0 where
  pub id : ℕ
  pub likes_count : ℤ

pub record LikesState : Type 0 where
  pub likes : List Like
  pub products : List ProductRow

pub data LikesFailure : Type 0 where
  invalid_product_id : LikesFailure
  record_not_found : LikesFailure

-- The number of a text of digits, `/^\d+$/`.
abbrev digits_value : (value : ℕ) → Text → ℕ
digits_value value [] = value
digits_value value (c ∷ t) = digits_value (value * 10 + (c - b'0')) t

unfoldable pub to_big_int : Text → Option ℕ
to_big_int [] = none
to_big_int (c ∷ t) = if all is_digit (c ∷ t) then some (digits_value 0 (c ∷ t)) else none

abbrev pub is_like : (user_id : String) → (product_id : ℕ) → Like → Bool
is_like user_id product_id l = same user_id l.user_id && product_id == l.product_id

abbrev pub has_product : ℕ → List ProductRow → Bool
has_product id [] = false
has_product id (p ∷ ps) = if id == p.id then true else has_product id ps

-- `update` of the row with the id.
unfoldable pub add_likes : (id : ℕ) → (delta : ℤ) → List ProductRow → List ProductRow
add_likes id delta [] = []
add_likes id delta (p ∷ ps) =
    (if id == p.id then record p { likes_count = p.likes_count +ℤ delta } else p)
    ∷ add_likes id delta ps

unfoldable pub delete_like : (user_id : String) → (product_id : ℕ) → List Like → List Like
delete_like user_id product_id [] = []
delete_like user_id product_id (l ∷ ls) =
    let rest = delete_like user_id product_id ls in
    if is_like user_id product_id l then ls else l ∷ rest

abbrev pub Method : Type 0 → Type 0
Method A = Exec LikesState LikesFailure A

-- Both writes of a transaction, or none: the row of the product must be there.
abbrev pub transaction : (product_id : ℕ) → (delta : ℤ) → (liked : Bool) → List Like → Method Bool
transaction product_id delta liked likes st =
    if has_product product_id st.products
    then (ok liked, record st { likes = likes; products = add_likes product_id delta st.products })
    else (throws record_not_found, st)

abbrev pub toggle_like : (now : ℕ) → (user_id : String) → (product_id : ℕ) → Method Bool
toggle_like now user_id product_id st =
    if any (is_like user_id product_id) st.likes
    then transaction product_id (negsuc 0) false (delete_like user_id product_id st.likes) st
    else transaction product_id (pos 1) true
        (record { user_id = user_id; product_id = product_id; created_at = now } ∷ st.likes) st

abbrev pub parsed : Option ℕ → Result LikesFailure ℕ
parsed none = throws invalid_product_id
parsed (some id) = ok id

-- The answer is whether the product is liked now.
unfoldable pub toggle : (now : ℕ) → (user_id : String) → (product_id_str : Text) → Method Bool
toggle now user_id product_id_str = do
  product_id ← lift (parsed (to_big_int product_id_str))
  toggle_like now user_id product_id

abbrev pub like_cursor : Like → Cursor
like_cursor l = record { created_at = l.created_at; number = l.product_id }

unfoldable pub list_likes :
    CursorCodec
    → (user_id : String) → (limit : Option ℕ) → (cursor : Option String) → LikesState
    → Page Like
list_likes codec user_id limit cursor st =
    list_for_user codec like_cursor limit cursor (filter (λ l. same user_id l.user_id) st.likes)
