-- ===== src/Catalog/RowTests.antt =====
-- The theorems on likes, lists with a cursor and counters, at a few rows.
use negare_api.Base.{
  ℕ, zero, suc, ◌+◌, ◌≡◌, ◌==◌, ap, ◌∙◌, refl, true, false, List, [], ◌∷◌, Option, none, some,
  String, arith,
}
use Prim.Native.Char.{code}
use negare_api.Base.Text.{codes}
use negare_api.Base.Integers.{pos, ◌+ℤ◌, neg}
use negare_api.Base.Exec.{ok}
use negare_api.Catalog.Keyset.{
  Cursor, CursorCodec, newest_first, insert_newest, list_for_user, read_all,
}
use negare_api.Catalog.Counters.{
  CounterKind, CounterUpdate, CountersState, no_counts, bump, apply_db_increment, group_updates,
  add_update, update_products, settle, settled, flush_batch, read_updates, read_keys,
}
use negare_api.Catalog.Counters.Conserved.{total, bumps, flush_batch-total, late_bumps-total}
use negare_api.Catalog.Counters.Sums.{sum_updates}
use negare_api.Catalog.Likes.{
  Like, LikesState, to_big_int, toggle, like_cursor, delete_like, add_likes,
}
use negare_api.Catalog.Likes.Count.{Counted, number_of, toggle-Counted}

everything : Unit {0}
unfolding newest_first insert_newest list_for_user read_all bump apply_db_increment group_updates
    add_update update_products settle flush_batch read_updates read_keys bumps to_big_int toggle
    delete_like add_likes number_of ◌+ℤ◌ neg
everything = tt

abbrev like : String → ℕ → ℕ → Like
like user_id product_id created_at = record {
  user_id = user_id;
  product_id = product_id;
  created_at = created_at;
}

abbrev rows : List Like
rows = like "ann" 1 5 ∷ like "ann" 2 9 ∷ like "ann" 3 5 ∷ []

-- A cursor in strokes: the time, a comma, the number.
abbrev strokes : ℕ → String → String
strokes zero s = s
strokes (suc n) s = String.◌∷◌ "I" (strokes n s)

abbrev encode : Cursor → String
encode c = strokes c.created_at (String.◌∷◌ "," (strokes c.number ""))

abbrev read_number : (created_at number : ℕ) → String → Option Cursor
read_number created_at number String.[] = some (record { created_at = created_at; number = number })
read_number created_at number (String.◌∷◌ c s) = read_number created_at (number + 1) s

abbrev read_time : (created_at : ℕ) → String → Option Cursor
read_time created_at String.[] = none
read_time created_at (String.◌∷◌ c s) = elim (code c == b',') [
  | true ↦ read_number created_at 0 s
  | false ↦ read_time (created_at + 1) s
]

number-strokes :
    (created_at n m : ℕ)
    → read_number created_at n (strokes m "")
      ≡ some (record { created_at = created_at; number = n + m })
number-strokes created_at n zero =
    ap (λ k. some (record { created_at = created_at; number = k })) (omega arith)
number-strokes created_at n (suc m) =
    number-strokes created_at (n + 1) m
    ∙ ap (λ k. some (record { created_at = created_at; number = k })) (omega arith)

time-strokes :
    (t n : ℕ) (s : String) → read_time t (strokes n (String.◌∷◌ "," s)) ≡ read_number (t + n) 0 s
time-strokes t zero s = ap (λ k. read_number k 0 s) (omega arith)
time-strokes t (suc n) s = time-strokes (t + 1) n s ∙ ap (λ k. read_number k 0 s) (omega arith)

pub decode-encode : (c : Cursor) → read_time 0 (encode c) ≡ some c
decode-encode c =
    time-strokes 0 c.created_at (strokes c.number "")
    ∙ number-strokes (0 + c.created_at) 0 c.number
    ∙ ap (λ t. some (record { created_at = t; number = 0 + c.number })) (omega arith)
    ∙ ap (λ n. some (record { created_at = c.created_at; number = n })) (omega arith)

abbrev pub codec : CursorCodec
codec = record {
  encode_cursor = encode;
  decode_cursor = read_time 0;
  decode-encode = decode-encode;
}

newest :
    read_all codec like_cursor 4 (some 1) none rows
    ≡ like "ann" 2 9 ∷ like "ann" 3 5 ∷ like "ann" 1 5 ∷ []
unfolding everything
newest = refl

abbrev liked : LikesState
liked = record {
  likes = like "bob" 1 3 ∷ [];
  products = record { id = 1; likes_count = pos 1 } ∷ record { id = 2; likes_count = pos 0 } ∷ [];
}

liked-Counted : Counted liked
unfolding everything
liked-Counted = (refl, (refl, tt))

toggle_runs : (toggle 7 "ann" (codes "2") liked).0 ≡ ok true
unfolding everything
toggle_runs = refl

toggle-Counted_example : Counted (toggle 7 "ann" (codes "2") liked).1
toggle-Counted_example = toggle-Counted 7 "ann" (codes "2") liked liked-Counted

number : to_big_int (codes "2") ≡ some 2
unfolding everything
number = refl

abbrev counted : CountersState
counted = record { configured = true; counters = λ id kind. pos 3; products = λ id. some no_counts }

flush_batch-total_example :
    total 1 CounterKind.views
      (flush_batch (((1, CounterKind.views) ∷ (1, CounterKind.views) ∷ []) ∷ []) counted).1
    ≡ total 1 CounterKind.views counted
flush_batch-total_example =
    flush_batch-total 1 CounterKind.views
      (((1, CounterKind.views) ∷ (1, CounterKind.views) ∷ []) ∷ []) counted

abbrev one_view : CounterUpdate
one_view = record { product_id = 1; kind = CounterKind.views; value = pos 1 }

abbrev three_views : CounterUpdate
three_views = record { product_id = 1; kind = CounterKind.views; value = pos 3 }

bump_runs :
    bump 1 CounterKind.views (pos 1) counted ≡ (ok tt, (bump 1 CounterKind.views (pos 1) counted).1)
unfolding everything
bump_runs = refl

abbrev applied : CountersState
applied = (apply_db_increment (three_views ∷ []) counted).1

apply_runs : apply_db_increment (three_views ∷ []) counted ≡ (ok tt, applied)
unfolding everything
apply_runs = refl

still_redis : applied.configured ≡ true
unfolding everything
still_redis = refl

late_bumps-total_example :
    total 1 CounterKind.views (settled (three_views ∷ []) (bumps (one_view ∷ []) applied))
    ≡ total 1 CounterKind.views counted +ℤ sum_updates 1 CounterKind.views (one_view ∷ [])
late_bumps-total_example =
    late_bumps-total 1 CounterKind.views (three_views ∷ []) (one_view ∷ []) counted applied
      apply_runs still_redis
