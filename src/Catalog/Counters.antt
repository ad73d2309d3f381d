-- ===== src/Catalog/Counters.antt =====
-- catalog/counters/counters.service.ts: `CountersService`. The counters of Redis are a function, zero
-- where the key is missing, as are the counts of the rows of products; `configured` says whether there
-- is a Redis. A key is the product and the kind that it is made of. What SCAN answers is an argument.
pub mod Sums
pub mod Conserved
use negare_api.Base.{
  ℕ, ◌≡◌, Bool, true, false, ◌&&◌, not, List, [], ◌∷◌, ◌++◌, Option, none, some, if◌then◌else◌,
  ◌==◌,
}
use negare_api.Base.Integers.{ℤ, pos, ◌+ℤ◌, neg, is_zero}
use negare_api.Base.Exec.{Exec, ok, throws, pure, modify, ◌>>=◌, ◌>>◌}

pub data CounterKind : Type 0 where
  views downloads likes : CounterKind

abbrev pub same_kind : CounterKind → CounterKind → Bool
same_kind CounterKind.views CounterKind.views = true
same_kind CounterKind.downloads CounterKind.downloads = true
same_kind CounterKind.likes CounterKind.likes = true
same_kind _ _ = false

pub record Counts : Type 0 where
  pub views : ℤ
  pub downloads : ℤ
  pub likes : ℤ

abbrev pub count_of : CounterKind → Counts → ℤ
count_of CounterKind.views g = g.views
count_of CounterKind.downloads g = g.downloads
count_of CounterKind.likes g = g.likes

abbrev pub add_count : CounterKind → ℤ → Counts → Counts
add_count CounterKind.views n g = record g { views = g.views +ℤ n }
add_count CounterKind.downloads n g = record g { downloads = g.downloads +ℤ n }
add_count CounterKind.likes n g = record g { likes = g.likes +ℤ n }

abbrev pub no_counts : Counts
no_counts = record { views = pos 0; downloads = pos 0; likes = pos 0 }

pub record CounterUpdate : Type 0 where
  pub product_id : ℕ
  pub kind : CounterKind
  pub value : ℤ

-- The key `cnt:product:{id}:{kind}`.
abbrev pub CounterKey : Type 0
CounterKey = ℕ × CounterKind

abbrev pub Counters : Type 0
Counters = ℕ → CounterKind → ℤ

abbrev pub Products : Type 0
Products = ℕ → Option Counts

pub record CountersState : Type 0 where
  pub configured : Bool
  pub counters : Counters
  pub products : Products

pub data CountersFailure : Type 0 where
  record_not_found : CountersFailure

abbrev pub Method : Type 0 → Type 0
Method A = Exec CountersState CountersFailure A

-- INCRBY, and DECRBY with the number negated.
abbrev pub incr_by : ℕ → CounterKind → ℤ → Counters → Counters
incr_by id kind n c p k = if p == id && same_kind k kind then c p k +ℤ n else c p k

-- One update goes to the group of its product.
unfoldable pub add_update : CounterUpdate → List (ℕ × Counts) → List (ℕ × Counts)
add_update u [] = (u.product_id, add_count u.kind u.value no_counts) ∷ []
add_update u ((id, g) ∷ gs) =
    let rest = add_update u gs in
    if id == u.product_id then (id, add_count u.kind u.value g) ∷ gs else (id, g) ∷ rest

unfoldable pub group_updates : List CounterUpdate → List (ℕ × Counts) → List (ℕ × Counts)
group_updates [] gs = gs
group_updates (u ∷ us) gs = group_updates us (add_update u gs)

abbrev pub added : ℤ → ℤ → ℤ
added n c = if is_zero n then c else c +ℤ n

abbrev pub increment : Counts → Counts → Counts
increment g c = record {
  views = added g.views c.views;
  downloads = added g.downloads c.downloads;
  likes = added g.likes c.likes;
}

abbrev pub set_product : ℕ → Counts → Products → Products
set_product id c ps p = if p == id then some c else ps p

-- The updates of one transaction; `none` when a row is missing.
unfoldable pub update_products : List (ℕ × Counts) → Products → Option Products
update_products [] ps = some ps
update_products ((id, g) ∷ gs) ps = elim (ps id) [
  | none ↦ none
  | some c ↦ update_products gs (set_product id (increment g c) ps)
]

abbrev pub committed : Option Products → Method (Unit {0})
committed none st = (throws record_not_found, st)
committed (some ps) st = (ok tt, record st { products = ps })

unfoldable pub apply_db_increment : List CounterUpdate → Method (Unit {0})
apply_db_increment updates st =
    committed (update_products (group_updates updates []) st.products) st

unfoldable pub bump : (product_id : ℕ) → CounterKind → (delta : ℤ) → Method (Unit {0})
bump product_id kind delta st =
    if st.configured
    then (ok tt, record st { counters = incr_by product_id kind delta st.counters })
    else apply_db_increment (record { product_id = product_id; kind = kind; value = delta } ∷ []) st

unfoldable pub bump_like_delta : (product_id : ℕ) → (delta : ℤ) → Method (Unit {0})
bump_like_delta product_id delta = bump product_id CounterKind.likes delta

unfoldable pub read_current : (product_id : ℕ) → CountersState → Counts
read_current product_id st =
    if st.configured
    then record {
      views = st.counters product_id CounterKind.views;
      downloads = st.counters product_id CounterKind.downloads;
      likes = st.counters product_id CounterKind.likes;
    }
    else no_counts

-- The values of one answer of SCAN that are not zero.
unfoldable pub read_keys : List CounterKey → Counters → List CounterUpdate
read_keys [] c = []
read_keys ((id, kind) ∷ keys) c =
    let rest = read_keys keys c in
    if is_zero (c id kind)
    then rest
    else record { product_id = id; kind = kind; value = c id kind } ∷ rest

-- The loop over the answers of SCAN.
unfoldable pub read_updates : (scans : List (List CounterKey)) → Counters → List CounterUpdate
read_updates [] c = []
read_updates (keys ∷ scans) c = read_keys keys c ++ read_updates scans c

-- What was applied is taken off.
unfoldable pub settle : List CounterUpdate → Counters → Counters
settle [] c = c
settle (u ∷ us) c = settle us (incr_by u.product_id u.kind (neg u.value) c)

abbrev pub settled : List CounterUpdate → CountersState → CountersState
settled updates st = record st { counters = settle updates st.counters }

abbrev pub flush_updates : List CounterUpdate → Method (Unit {0})
flush_updates [] = pure tt
flush_updates (u ∷ us) = do _ ← apply_db_increment (u ∷ us); modify (settled (u ∷ us))

unfoldable pub flush_batch : (scans : List (List CounterKey)) → Method (Unit {0})
flush_batch scans st =
    if st.configured then flush_updates (read_updates scans st.counters) st else (ok tt, st)
