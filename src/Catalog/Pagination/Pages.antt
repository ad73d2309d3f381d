-- ===== src/Catalog/Pagination/Pages.antt =====
-- The pages of a list cut it into pieces.
use negare_api.Base.{
  ℕ, zero, suc, ◌+◌, ◌-◌, ◌*◌, ◌≤◌, ◌<◌, ◌≡◌, ◌↔◌, true, List, Option, ltb→lt, lt→ltb, or_else,
  arith,
}
use negare_api.Catalog.Pagination.{clamp_pagination, to_pagination_result, safe_page, safe_limit}

page_pos : (n : ℕ) → 0 < safe_page n
page_pos n = ground arith

limit_bounds : (n most : ℕ) → 0 < most → (0 < safe_limit n most) × (safe_limit n most ≤ most)
limit_bounds n most h = ground arith

skip-limit : (p l : ℕ) → 0 < p → (p - 1) * l + l ≡ p * l
skip-limit zero l h = absurd (omega (arith, h))
skip-limit (suc q) l h = let before : suc q - 1 ≡ q = omega arith in rw before (omega arith)

-- With a positive maximum a page holds at least one and at most so many items, and there is a next
-- page exactly if some item of the list comes after those of the page.
has_next_iff :
    {A : Type 0} (items : List A) (page limit most : Option ℕ) (total : ℕ)
    → 0 < or_else most 100
    → let c = clamp_pagination page limit most in
      (0 < c.limit)
      × (c.limit ≤ or_else most 100)
      × (((to_pagination_result items total c.page c.limit).has_next ≡ true)
          ↔ ((i : ℕ) × (c.skip + c.limit ≤ i) × (i < total)))
unfolding clamp_pagination to_pagination_result
has_next_iff items page limit most total h =
    let p = safe_page (or_else page 0) in
    let l = safe_limit (or_else limit 0) (or_else most 100) in
    let (some_, few) = limit_bounds (or_else limit 0) (or_else most 100) h in
    let cut = skip-limit p l (page_pos (or_else page 0)) in
    (
      some_,
      few,
      (
        λ e. (p * l, omega (arith, cut), ltb→lt (p * l) total e),
        λ (i, after, within). lt→ltb (p * l) total (omega (arith, cut, after, within)),
      ),
    )
