-- ===== src/Catalog/Slugs.antt =====
-- catalog/utils/slug.util.ts: the slugs of names. `to_lower` is `toLowerCase`, `random` is what
-- `randomInt` answers, from 1 to 9999.
pub mod Shape
mod Tests
use negare_api.Base.{
  ℕ, Bool, true, false, ◌&&◌, ◌||◌, not, List, [], ◌∷◌, ◌++◌, if◌then◌else◌, ltb, ◌==◌,
}
use negare_api.Base.Text.{Text, is_lower, is_digit, decimal, pad_start}

abbrev pub is_slug_alnum : ℕ → Bool
is_slug_alnum c = is_lower c || is_digit c

-- Each run of other units is one dash; the flag says that a run has begun.
unfoldable pub dash_runs : Bool → Text → Text
dash_runs in_run [] = []
dash_runs in_run (c ∷ t) =
    if is_slug_alnum c
    then c ∷ dash_runs false t
    else if in_run
    then dash_runs true t
    else b'-' ∷ dash_runs true t

unfoldable pub drop_start : Text → Text
drop_start [] = []
drop_start (c ∷ t) = if c == b'-' then drop_start t else c ∷ t

abbrev pub cons_unless_last : ℕ → Text → Text
cons_unless_last c [] = if c == b'-' then [] else c ∷ []
cons_unless_last c (d ∷ t) = c ∷ d ∷ t

unfoldable pub drop_end : Text → Text
drop_end [] = []
drop_end (c ∷ t) = cons_unless_last c (drop_end t)

-- Runs of dashes become one; the flag says that the unit before is a dash.
unfoldable pub collapse : Bool → Text → Text
collapse after_dash [] = []
collapse after_dash (c ∷ t) =
    if c == b'-'
    then if after_dash then collapse true t else c ∷ collapse true t
    else c ∷ collapse false t

unfoldable pub slugify : (to_lower : Text → Text) → Text → Text
slugify to_lower input = collapse false (drop_end (drop_start (dash_runs false (to_lower input))))

unfoldable pub build_unique_slug_candidate :
    (to_lower : Text → Text) → (random : ℕ) → Text → (attempt : ℕ) → Text
build_unique_slug_candidate to_lower random base attempt =
    if attempt == 0
    then slugify to_lower base
    else slugify to_lower base
      ++ b'-'
        ∷ (if ltb attempt 5 then pad_start 0 (decimal attempt) else pad_start 4 (decimal random))
