-- ===== src/Catalog/Likes/Count.antt =====
-- catalog/likes/likes.service.ts: the count of a product is the number of its likes.
use negare_api.Base.{
  ℕ, suc, ◌+◌, ◌≡◌, refl, sym, ap, ◌∙◌, subst, Bool, true, false, List, [], ◌∷◌, some, String,
  same_refl, if◌then◌else◌, ◌==◌, ==_iff, arith, Bool-cases, Option-cases, inl, inr, any, All,
}
use negare_api.Base.Text.{Text}
use negare_api.Base.Integers.{ℤ, pos, negsuc, ◌+ℤ◌, balanced, add-balance}
use negare_api.Base.Exec.{ok}
use negare_api.Catalog.Likes.{
  Like, ProductRow, LikesState, is_like, has_product, add_likes, delete_like, transaction,
  toggle_like, to_big_int, toggle,
}

-- The likes of a product.
unfoldable pub number_of : ℕ → List Like → ℕ
number_of id [] = 0
number_of id (l ∷ ls) = (if id == l.product_id then 1 else 0) + number_of id ls

abbrev pub RowCounted : List Like → ProductRow → Type 0
RowCounted ls p = p.likes_count ≡ pos (number_of p.id ls)

abbrev pub Counted : LikesState → Type 0
Counted st = All (RowCounted st.likes) st.products

add_one : (n : ℕ) → pos n +ℤ pos 1 ≡ pos (1 + n)
add_one n = balanced (pos n +ℤ pos 1) (pos (1 + n)) (omega (arith, add-balance (pos n) (pos 1)))

take_one : (n : ℕ) → pos (suc n) +ℤ negsuc 0 ≡ pos n
take_one n =
    balanced (pos (suc n) +ℤ negsuc 0) (pos n) (omega (arith, add-balance (pos (suc n)) (negsuc 0)))

number-delete_like :
    (user_id : String) (id : ℕ) (ls : List Like)
    → any (is_like user_id id) ls ≡ true
    → number_of id ls ≡ suc (number_of id (delete_like user_id id ls))
unfolding number_of delete_like
number-delete_like user_id id [] h = absurd (cc h)
number-delete_like user_id id (l ∷ ls) h = elim (Bool-cases (is_like user_id id l)) [
  | inl here ↦ rw here (ground arith)
  | inr away ↦ rw away (ground (arith, number-delete_like user_id id ls (rw away at h)))
]

number-delete_other :
    (user_id : String) (id other : ℕ) (ls : List Like)
    → (id == other) ≡ false
    → number_of other (delete_like user_id id ls) ≡ number_of other ls
unfolding number_of delete_like
number-delete_other user_id id other [] h = refl
number-delete_other user_id id other (l ∷ ls) h = elim (Bool-cases (is_like user_id id l)) [
  | inl here ↦ rw here (ground arith)
  | inr away ↦ rw away (
      ap (λ n. (if other == l.product_id then 1 else 0) + n)
        (number-delete_other user_id id other ls h))
]

-- Rows stay counted when the number of one product and its count change alike.
rows-Counted :
    (id : ℕ) (delta : ℤ) (ls ks : List Like) (ps : List ProductRow)
    → pos (number_of id ls) +ℤ delta ≡ pos (number_of id ks)
    → ((other : ℕ) → (id == other) ≡ false → number_of other ks ≡ number_of other ls)
    → All (RowCounted ls) ps
    → All (RowCounted ks) (add_likes id delta ps)
unfolding add_likes
rows-Counted id delta ls ks [] changed kept hs = tt
rows-Counted id delta ls ks (p ∷ ps) changed kept (h, hs) = elim (Bool-cases (id == p.id)) [
  | inl here ↦
      let at_id = (==_iff id p.id).0 here in
      rw here (
        ap (λ x. x +ℤ delta) h
            ∙ subst (λ (i : ℕ). pos (number_of i ls) +ℤ delta ≡ pos (number_of i ks)) at_id changed,
        rows-Counted id delta ls ks ps changed kept hs,
      )
  | inr away ↦
      rw away (h ∙ ap pos (sym (kept p.id away)), rows-Counted id delta ls ks ps changed kept hs)
]

transaction-Counted :
    (id : ℕ) (delta : ℤ) (liked : Bool) (ls : List Like) (st : LikesState)
    → All (RowCounted ls) (add_likes id delta st.products)
    → Counted st
    → Counted (transaction id delta liked ls st).1
transaction-Counted id delta liked ls st after before =
    elim (Bool-cases (has_product id st.products)) [
      | inl there ↦ rw there after
      | inr missing ↦ rw missing before
    ]

unlike-Counted :
    (user_id : String) (id : ℕ) (st : LikesState)
    → any (is_like user_id id) st.likes ≡ true
    → Counted st
    → Counted (transaction id (negsuc 0) false (delete_like user_id id st.likes) st).1
unlike-Counted user_id id st liked counted =
    transaction-Counted id (negsuc 0) false (delete_like user_id id st.likes) st
      (rows-Counted id (negsuc 0) st.likes (delete_like user_id id st.likes) st.products
        (ap (λ n. pos n +ℤ negsuc 0) (number-delete_like user_id id st.likes liked)
          ∙ take_one (number_of id (delete_like user_id id st.likes)))
        (λ other h. number-delete_other user_id id other st.likes h) counted)
      counted

like-Counted :
    (now : ℕ) (user_id : String) (id : ℕ) (st : LikesState)
    → Counted st
    → Counted
        (transaction id
          (pos 1)
          true
          (record { user_id = user_id; product_id = id; created_at = now } ∷ st.likes)
          st).1
unfolding number_of
like-Counted now user_id id st counted =
    let new = record { user_id = user_id; product_id = id; created_at = now } ∷ st.likes in
    transaction-Counted id (pos 1) true new st
      (rows-Counted id (pos 1) st.likes new st.products
        (add_one (number_of id st.likes) ∙ ap pos (ground arith)) (λ other h. ground arith) counted)
      counted

toggle_like-Counted :
    (now : ℕ) (user_id : String) (id : ℕ) (st : LikesState)
    → Counted st
    → Counted (toggle_like now user_id id st).1
toggle_like-Counted now user_id id st counted =
    elim (Bool-cases (any (is_like user_id id) st.likes)) [
      | inl liked ↦ rw liked (unlike-Counted user_id id st liked counted)
      | inr new ↦ rw new (like-Counted now user_id id st counted)
    ]

-- After any call of `toggle`, whether it returns or throws, likesCount of each product is the number of its
-- likes, if it was before.
pub toggle-Counted :
    (now : ℕ) (user_id : String) (product_id_str : Text) (st : LikesState)
    → Counted st
    → Counted (toggle now user_id product_id_str st).1
unfolding toggle
toggle-Counted now user_id product_id_str st counted =
    elim (Option-cases (to_big_int product_id_str)) [
      | inl bad ↦ rw bad counted
      | inr (id, good) ↦ rw good (toggle_like-Counted now user_id id st counted)
    ]

like_and_unlike :
    (id : ℕ) (ps : List ProductRow) → add_likes id (negsuc 0) (add_likes id (pos 1) ps) ≡ ps
unfolding add_likes
like_and_unlike id [] = refl
like_and_unlike id (p ∷ ps) = elim (Bool-cases (id == p.id)) [
  | inl here ↦ rw here (
      rw here (
        ap
          (λ (x : ℤ).
            record p { likes_count = x } ∷ add_likes id (negsuc 0) (add_likes id (pos 1) ps))
          (there_and_back p.likes_count)
        ∙ ap (λ qs. p ∷ qs) (like_and_unlike id ps)))
  | inr away ↦ rw away (rw away (ap (λ qs. p ∷ qs) (like_and_unlike id ps)))
]
  where
    there_and_back : (x : ℤ) → (x +ℤ pos 1) +ℤ negsuc 0 ≡ x
    there_and_back x =
        balanced ((x +ℤ pos 1) +ℤ negsuc 0) x
          (omega (arith, add-balance x (pos 1), add-balance (x +ℤ pos 1) (negsuc 0)))

kept_product :
    (id : ℕ) (delta : ℤ) (ps : List ProductRow)
    → has_product id (add_likes id delta ps) ≡ has_product id ps
unfolding add_likes
kept_product id delta [] = refl
kept_product id delta (p ∷ ps) = elim (Bool-cases (id == p.id)) [
  | inl here ↦ rw here (rw here refl)
  | inr away ↦ rw away (rw away (kept_product id delta ps))
]

-- A user who likes a product that is there and was not liked, and takes the like back, leaves all rows
-- as they were.
toggle_back :
    (now later id : ℕ) (user_id : String) (product_id_str : Text) (st : LikesState)
    → to_big_int product_id_str ≡ some id
    → any (is_like user_id id) st.likes ≡ false
    → has_product id st.products ≡ true
    → toggle later user_id product_id_str (toggle now user_id product_id_str st).1 ≡ (ok false, st)
unfolding toggle delete_like
toggle_back now later id user_id product_id_str st good new there =
    let itself : (id == id) ≡ true = ground arith in
    rw
      (
        good,
        new,
        there,
        same_refl user_id,
        itself,
        kept_product id (pos 1) st.products,
        there,
        like_and_unlike id st.products,
      )
      refl
