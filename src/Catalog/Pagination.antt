-- ===== src/Catalog/Pagination.antt =====
-- catalog/utils/pagination.util.ts: `clampPagination` and `toPaginationResult`, on whole numbers.
-- The field `data` is `items`.
pub mod Pages
use negare_api.Base.{
  ℕ, ◌+◌, ◌-◌, ◌*◌, Bool, List, Option, none, some, if◌then◌else◌, ltb, min, or_else,
}

pub record PaginationResult (A : Type 0) : Type 0 where
  pub items : List A
  pub total : ℕ
  pub page : ℕ
  pub limit : ℕ
  pub has_next : Bool

pub record Clamped : Type 0 where
  pub page : ℕ
  pub limit : ℕ
  pub skip : ℕ

-- 100, where the caller gives no other maximum.
abbrev pub max_limit : ℕ
max_limit = 100

abbrev safe_page : ℕ → ℕ
safe_page page = if ltb 0 page then page else 1

abbrev safe_limit : (limit max_limit : ℕ) → ℕ
safe_limit limit most = if ltb 0 limit then min limit most else min 24 most

-- A number that is not given counts like 0.
unfoldable pub clamp_pagination : (page limit max_limit : Option ℕ) → Clamped
clamp_pagination page limit most =
    let p = safe_page (or_else page 0) in
    let l = safe_limit (or_else limit 0) (or_else most max_limit) in
    record { page = p; limit = l; skip = (p - 1) * l }

unfoldable pub to_pagination_result :
    {A : Type 0} → List A → (total page limit : ℕ) → PaginationResult A
to_pagination_result items total page limit = record {
  items = items;
  total = total;
  page = page;
  limit = limit;
  has_next = ltb (page * limit) total;
}
