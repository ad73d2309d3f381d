-- ===== src/Upload/Indexes/Complete.antt =====
-- When a rising list of chunk indexes is complete.
use negare_api.Base.{
  ℕ, zero, suc, ◌+◌, ◌≤◌, ◌<◌, ◌≡◌, refl, ap, ◌∙◌, true, false, ◌||◌, List, [], ◌∷◌, ◌++◌, some,
  get_elem?, arith, ◌==◌, length, includes,
}
use negare_api.Upload.Indexes.{
  Rises, not_includes_below, includes_above, includes-sort, sort, Distinct, sort-Rises,
}

pub length_bound : (lo hi : ℕ) (xs : List ℕ) → lo ≤ hi → Rises lo hi xs → lo + length xs ≤ hi
length_bound lo hi [] h r = omega arith
length_bound lo hi (x ∷ xs) h r = omega (arith, length_bound (suc x) hi xs r.1 r.2)

pub includes_full :
    (lo hi n : ℕ) (xs : List ℕ)
    → Rises lo hi xs
    → lo + length xs ≡ hi
    → lo ≤ n
    → n < hi
    → includes xs n ≡ true
includes_full lo hi n [] r e a b = absurd (omega arith)
includes_full lo hi n (x ∷ xs) r e a b =
    let short = length_bound (suc x) hi xs r.1 r.2 in
    let first : x ≡ lo = omega arith in ground (arith, includes_full (suc x) hi n xs r.2)

pub full_of_includes :
    (lo hi : ℕ) (xs : List ℕ)
    → lo ≤ hi
    → Rises lo hi xs
    → ((n : ℕ) → lo ≤ n → n < hi → includes xs n ≡ true)
    → lo + length xs ≡ hi
full_of_includes lo hi [] h r all = ground (arith, all lo)
full_of_includes lo hi (x ∷ xs) h r all =
    let first : x ≡ lo = ground (arith, all lo, not_includes_below (suc x) hi lo xs r.2) in
    let rest =
      full_of_includes (suc x) hi xs r.1 r.2 (λ n a b. ground (arith, all n (omega arith) b)) in
    omega arith

pub get_elem?_full :
    (lo hi i : ℕ) (xs : List ℕ)
    → Rises lo hi xs
    → lo + length xs ≡ hi
    → i < length xs
    → get_elem? xs i ≡ some (lo + i)
get_elem?_full lo hi i [] r e h = absurd (omega arith)
get_elem?_full lo hi zero (x ∷ xs) r e h =
    let short = length_bound (suc x) hi xs r.1 r.2 in ap some (omega arith)
get_elem?_full lo hi (suc i) (x ∷ xs) r e h =
    let short = length_bound (suc x) hi xs r.1 r.2 in
    get_elem?_full (suc x) hi i xs r.2 (omega arith) (omega arith) ∙ ap some (omega arith)

-- A rising list is determined by its members.
pub Rises-ext :
    (lo hi : ℕ) (xs ys : List ℕ)
    → Rises lo hi xs
    → Rises lo hi ys
    → ((n : ℕ) → includes xs n ≡ includes ys n)
    → xs ≡ ys
Rises-ext lo hi [] [] r q same = refl
Rises-ext lo hi [] (y ∷ ys) r q same = absurd (ground (arith, same y))
Rises-ext lo hi (x ∷ xs) [] r q same = absurd (ground (arith, same x))
Rises-ext lo hi (x ∷ xs) (y ∷ ys) r q same =
    let heads : x ≡ y = ground (
      arith,
      same x,
      same y,
      not_includes_below (suc x) hi y xs r.2,
      not_includes_below (suc y) hi x ys q.2,
    ) in
    let tails : xs ≡ ys = Rises-ext (suc x) hi xs ys r.2 (rw heads q.2) λ n. ground (
      arith,
      same n,
      not_includes_below (suc x) hi n xs r.2,
      not_includes_below (suc y) hi n ys q.2,
    ) in
    cc

pub includes-append :
    (n : ℕ) (xs ys : List ℕ) → includes (xs ++ ys) n ≡ (includes xs n || includes ys n)
includes-append n [] ys = refl
includes-append n (x ∷ xs) ys = ground (arith, includes-append n xs ys)

Rises-add-Distinct :
    (lo hi i : ℕ) (xs : List ℕ) → Rises lo hi xs → includes xs i ≡ false → Distinct (xs ++ i ∷ [])
Rises-add-Distinct lo hi i [] r e = (refl, tt)
Rises-add-Distinct lo hi i (x ∷ xs) r e = (
  ground (arith, includes-append x xs (i ∷ []), not_includes_below (suc x) hi x xs r.2),
  Rises-add-Distinct (suc x) hi i xs r.2 (ground arith),
)

-- The source's `[...indexes, i].sort((a, b) => a - b)`.
pub sort_added-Rises :
    (hi i : ℕ) (xs : List ℕ)
    → Rises 0 hi xs
    → includes xs i ≡ false
    → i < hi
    → Rises 0 hi (sort (xs ++ i ∷ []))
sort_added-Rises hi i xs r e h =
    sort-Rises hi (xs ++ i ∷ []) (Rises-add-Distinct 0 hi i xs r e)
      λ n m. ground (arith, includes-append n xs (i ∷ []), includes_above 0 hi n xs r)

pub includes-sort_added :
    (n i : ℕ) (xs : List ℕ) → includes (sort (xs ++ i ∷ [])) n ≡ (includes xs n || i == n)
includes-sort_added n i xs =
    ground (arith, includes-sort n (xs ++ i ∷ []), includes-append n xs (i ∷ []))
