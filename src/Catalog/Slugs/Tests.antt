-- ===== src/Catalog/Slugs/Tests.antt =====
-- The theorems on slugs at a name.
use negare_api.Base.{◌≡◌, refl}
use negare_api.Base.Text.{codes, lower, lower_unit, decimal, pad_start}
use negare_api.Catalog.Slugs.{
  dash_runs, drop_start, drop_end, collapse, slugify, build_unique_slug_candidate,
}
use negare_api.Catalog.Slugs.Shape.{IsSlug, slugify-IsSlug}

slugs : Unit {0}
unfolding dash_runs drop_start drop_end collapse slugify build_unique_slug_candidate lower
    lower_unit decimal pad_start
slugs = tt

slug_of_name : slugify lower (codes "  Gold & Silver -- 2 ") ≡ codes "gold-silver-2"
unfolding slugs
slug_of_name = refl

third_candidate : build_unique_slug_candidate lower 7 (codes "Gold!") 3 ≡ codes "gold-3"
unfolding slugs
third_candidate = refl

fifth_candidate : build_unique_slug_candidate lower 42 (codes "Gold!") 5 ≡ codes "gold-0042"
unfolding slugs
fifth_candidate = refl

slugify-IsSlug_example : IsSlug (slugify lower (codes "  Gold & Silver -- 2 "))
slugify-IsSlug_example = slugify-IsSlug lower (codes "  Gold & Silver -- 2 ")
