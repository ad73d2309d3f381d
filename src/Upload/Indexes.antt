-- ===== src/Upload/Indexes.antt =====
-- Sorted lists of chunk indexes: `ensureSortedUnique` and the default `sort` of numbers.
pub mod Complete
use negare_api.Base.{
  ℕ, zero, suc, ◌+◌, ◌-◌, ◌≤◌, ◌<◌, ◌≡◌, refl, sym, ap, ◌∙◌, ◌≢◌, ◌↔◌, ◌⊎◌, inl, inr, Bool, true,
  false, ◌||◌, not, List, [], ◌∷◌, ◌++◌, arith, ltb, leb, ◌==◌, if◌then◌else◌, ==_iff, Bool-cases,
  length, includes, filter,
}

-- `Array.from(new Set(xs))`: the first occurrence of each value.
unfoldable pub unique : List ℕ → List ℕ
unique [] = []
unique (x ∷ xs) = x ∷ filter (λ y. not (y == x)) (unique xs)

unfoldable pub insert_sorted : ℕ → List ℕ → List ℕ
insert_sorted x [] = x ∷ []
insert_sorted x (y ∷ ys) = if leb x y then x ∷ y ∷ ys else y ∷ insert_sorted x ys

-- `xs.sort((a, b) => a - b)`
unfoldable pub sort : List ℕ → List ℕ
unfolding insert_sorted
sort [] = []
sort (x ∷ xs) = insert_sorted x (sort xs)

unfoldable pub ensure_sorted_unique : List ℕ → List ℕ
unfolding sort unique
ensure_sorted_unique nums = sort (unique nums)

pub ensure_sorted_unique_nil : (xs : List ℕ) → xs ≡ [] → ensure_sorted_unique xs ≡ xs
unfolding ensure_sorted_unique sort unique
ensure_sorted_unique_nil xs empty = rw empty refl

-- Strictly rising, from `lo` on and below `hi`.
abbrev pub Rises : ℕ → ℕ → List ℕ → Type 0
Rises lo hi [] = Unit {0}
Rises lo hi (x ∷ xs) = (lo ≤ x) × (x < hi) × Rises (suc x) hi xs

pub Rises-lower : (lo lo' hi : ℕ) (xs : List ℕ) → lo' ≤ lo → Rises lo hi xs → Rises lo' hi xs
Rises-lower lo lo' hi [] h r = tt
Rises-lower lo lo' hi (x ∷ xs) h r = (omega arith, r.1, r.2)

-- Nothing below the start is a member.
pub not_includes_below :
    (lo hi n : ℕ) (xs : List ℕ) → Rises lo hi xs → n < lo → includes xs n ≡ false
not_includes_below lo hi n [] r h = refl
not_includes_below lo hi n (x ∷ xs) r h = ground (arith, not_includes_below (suc x) hi n xs r.2)

pub includes_above : (lo hi n : ℕ) (xs : List ℕ) → Rises lo hi xs → includes xs n ≡ true → n < hi
includes_above lo hi n [] r h = absurd (cc)
includes_above lo hi n (x ∷ xs) r h = ground (arith, includes_above (suc x) hi n xs r.2)

pub includes-filter_ne :
    (x n : ℕ) (xs : List ℕ)
    → includes (filter (λ y. not (y == x)) xs) n ≡ (if n == x then false else includes xs n)
includes-filter_ne x n [] = ground arith
includes-filter_ne x n (y ∷ ys) = ground (arith, includes-filter_ne x n ys)

includes-unique : (n : ℕ) (xs : List ℕ) → includes (unique xs) n ≡ includes xs n
unfolding unique
includes-unique n [] = refl
includes-unique n (x ∷ xs) =
    ground (arith, includes-filter_ne x n (unique xs), includes-unique n xs)

pub includes-insert_sorted :
    (n x : ℕ) (xs : List ℕ) → includes (insert_sorted x xs) n ≡ (x == n || includes xs n)
unfolding insert_sorted
includes-insert_sorted n x [] = refl
includes-insert_sorted n x (y ∷ ys) = ground (arith, includes-insert_sorted n x ys)

pub includes-sort : (n : ℕ) (xs : List ℕ) → includes (sort xs) n ≡ includes xs n
unfolding sort
includes-sort n [] = refl
includes-sort n (x ∷ xs) = ground (arith, includes-insert_sorted n x (sort xs), includes-sort n xs)

unfoldable pub insert_sorted-Rises :
    (lo hi x : ℕ) (xs : List ℕ)
    → lo ≤ x
    → x < hi
    → includes xs x ≡ false
    → Rises lo hi xs
    → Rises lo hi (insert_sorted x xs)
unfolding insert_sorted
insert_sorted-Rises lo hi x [] a b e r = (a, b, tt)
insert_sorted-Rises lo hi x (y ∷ ys) a b e r = elim (Bool-cases (leb x y)) [
  | inl le ↦ rw le (a, b, (ground arith, r.1, r.2))
  | inr gt ↦
      rw gt (r.0, r.1, insert_sorted-Rises (suc y) hi x ys (ground arith) b (ground arith) r.2)
]

-- What all members satisfy, as a bound.
abbrev pub Below : ℕ → List ℕ → Type 0
Below hi xs = (n : ℕ) → includes xs n ≡ true → n < hi

-- No value twice.
abbrev pub Distinct : List ℕ → Type 0
Distinct [] = Unit {0}
Distinct (x ∷ xs) = (includes xs x ≡ false) × Distinct xs

filter-Distinct : (x : ℕ) (xs : List ℕ) → Distinct xs → Distinct (filter (λ y. not (y == x)) xs)
filter-Distinct x [] d = tt
filter-Distinct x (y ∷ ys) d = ground (arith, filter-Distinct x ys d.1, includes-filter_ne x y ys)

unique-Distinct : (xs : List ℕ) → Distinct (unique xs)
unfolding unique
unique-Distinct [] = tt
unique-Distinct (x ∷ xs) = (
  ground (arith, includes-filter_ne x x (unique xs)),
  filter-Distinct x (unique xs) (unique-Distinct xs),
)

pub sort-Rises : (hi : ℕ) (xs : List ℕ) → Distinct xs → Below hi xs → Rises 0 hi (sort xs)
unfolding sort
sort-Rises hi [] d b = tt
sort-Rises hi (x ∷ xs) d b =
    insert_sorted-Rises 0 hi x (sort xs) (omega arith) (b x (ground arith))
      (includes-sort x xs ∙ d.0) (sort-Rises hi xs d.1 (λ n h. b n (ground arith)))

-- The members stay the same.
pub includes-ensure_sorted_unique :
    (n : ℕ) (xs : List ℕ) → includes (ensure_sorted_unique xs) n ≡ includes xs n
unfolding ensure_sorted_unique
includes-ensure_sorted_unique n xs = includes-sort n (unique xs) ∙ includes-unique n xs

pub ensure_sorted_unique-Rises :
    (hi : ℕ) (xs : List ℕ)
    → ((n : ℕ) → includes xs n ≡ true → n < hi)
    → Rises 0 hi (ensure_sorted_unique xs)
unfolding ensure_sorted_unique
ensure_sorted_unique-Rises hi xs b =
    sort-Rises hi (unique xs) (unique-Distinct xs) (λ n h. b n (rw includes-unique at h))
