-- ===== src/Catalog/Slugs/Shape.antt =====
-- catalog/utils/slug.util.ts: what a slug looks like.
use negare_api.Base.{
  ℕ, ◌≡◌, refl, sym, ap, subst, ◌∙◌, Bool, true, false, ◌&&◌, ◌||◌, not, [], ◌∷◌, if◌then◌else◌,
  Bool-cases, inl, inr, arith, ◌==◌, all,
}
use negare_api.Base.Text.{Text}
use negare_api.Catalog.Slugs.{
  is_slug_alnum, dash_runs, drop_start, drop_end, cons_unless_last, collapse, slugify,
}

abbrev pub is_slug_unit : ℕ → Bool
is_slug_unit c = is_slug_alnum c || c == b'-'

-- No two dashes follow each other, and none comes first when the flag is set.
unfoldable pub single : Bool → Text → Bool
single after_dash [] = true
single after_dash (c ∷ t) = if c == b'-' then not after_dash && single true t else single false t

unfoldable pub ends_dash : Bool → Text → Bool
ends_dash b [] = b
ends_dash b (c ∷ t) = ends_dash (c == b'-') t

-- Letters, digits and dashes, with a letter or a digit on both sides of each dash.
abbrev pub IsSlug : Text → Type 0
IsSlug u = (all is_slug_unit u ≡ true) × (single true u ≡ true) × (ends_dash false u ≡ false)

both : (a b : Bool) → (a && b) ≡ true → (a ≡ true) × (b ≡ true)
both true b h = (refl, h)
both false b h = cc

looser : (t : Text) → single true t ≡ true → single false t ≡ true
unfolding single
looser [] h = refl
looser (c ∷ t) h = elim (Bool-cases (c == b'-')) [
  | inl dash ↦ absurd (cc (rw dash at h))
  | inr other ↦ rw other (rw other at h)
]

alnum-dash : (c : ℕ) → is_slug_alnum c ≡ true → (c == b'-') ≡ false
alnum-dash c h = ground arith

single-dash_runs : (b : Bool) (t : Text) → single b (dash_runs b t) ≡ true
unfolding single dash_runs
single-dash_runs b [] = refl
single-dash_runs b (c ∷ t) = elim (Bool-cases (is_slug_alnum c)) [
  | inl alnum ↦ rw (alnum, alnum-dash c alnum) (single-dash_runs false t)
  | inr other ↦ elim (Bool-cases b) [
    | inl on ↦ rw (other, on) (single-dash_runs true t)
    | inr off ↦ rw (other, off) (single-dash_runs true t)
  ]
]

single-drop_start : (b : Bool) (t : Text) → single b t ≡ true → single true (drop_start t) ≡ true
unfolding single drop_start
single-drop_start b [] h = refl
single-drop_start b (c ∷ t) h = elim (Bool-cases (c == b'-')) [
  | inl dash ↦ elim (Bool-cases b) [
    | inl on ↦ absurd (cc (rw (dash, on) at h))
    | inr off ↦ rw dash (single-drop_start true t (rw (dash, off) at h))
  ]
  | inr other ↦ rw (other, other) (rw other at h)
]

single-cons :
    (b : Bool) (c : ℕ) (r : Text) → single b (c ∷ r) ≡ true → single b (cons_unless_last c r) ≡ true
unfolding single
single-cons b c [] h = elim (Bool-cases (c == b'-')) [
  | inl dash ↦ rw dash refl
  | inr other ↦ rw (other, other) refl
]
single-cons b c (d ∷ r) h = h

single-drop_end : (b : Bool) (t : Text) → single b t ≡ true → single b (drop_end t) ≡ true
unfolding single drop_end
single-drop_end b [] h = refl
single-drop_end b (c ∷ t) h = single-cons b c (drop_end t) (elim (Bool-cases (c == b'-')) [
  | inl dash ↦ elim (Bool-cases b) [
    | inl on ↦ absurd (cc (rw (dash, on) at h))
    | inr off ↦ rw (dash, off) (single-drop_end true t (rw (dash, off) at h))
  ]
  | inr other ↦ rw other (single-drop_end false t (rw other at h))
])

ends-cons :
    (c : ℕ) (r : Text) → ends_dash false r ≡ false → ends_dash false (cons_unless_last c r) ≡ false
unfolding ends_dash
ends-cons c [] h = elim (Bool-cases (c == b'-')) [
  | inl dash ↦ rw dash refl
  | inr other ↦ rw (other, other) refl
]
ends-cons c (d ∷ r) h = h

ends-drop_end : (t : Text) → ends_dash false (drop_end t) ≡ false
unfolding ends_dash drop_end
ends-drop_end [] = refl
ends-drop_end (c ∷ t) = ends-cons c (drop_end t) (ends-drop_end t)

collapse_lem : (b : Bool) (t : Text) → single b t ≡ true → collapse b t ≡ t
unfolding single collapse
collapse_lem b [] h = refl
collapse_lem b (c ∷ t) h = elim (Bool-cases (c == b'-')) [
  | inl dash ↦ elim (Bool-cases b) [
    | inl on ↦ absurd (cc (rw (dash, on) at h))
    | inr off ↦ rw (dash, off) (ap (λ u. c ∷ u) (collapse_lem true t (rw (dash, off) at h)))
  ]
  | inr other ↦ rw other (ap (λ u. c ∷ u) (collapse_lem false t (rw other at h)))
]

units-dash_runs : (b : Bool) (t : Text) → all is_slug_unit (dash_runs b t) ≡ true
unfolding dash_runs
units-dash_runs b [] = refl
units-dash_runs b (c ∷ t) = elim (Bool-cases (is_slug_alnum c)) [
  | inl alnum ↦ rw (alnum, alnum) (units-dash_runs false t)
  | inr other ↦ elim (Bool-cases b) [
    | inl on ↦ rw (other, on) (units-dash_runs true t)
    | inr off ↦ rw (other, off) (units-dash_runs true t)
  ]
]

units-drop_start : (t : Text) → all is_slug_unit t ≡ true → all is_slug_unit (drop_start t) ≡ true
unfolding drop_start
units-drop_start [] h = refl
units-drop_start (c ∷ t) h = elim (Bool-cases (c == b'-')) [
  | inl dash ↦ rw dash (units-drop_start t (both (is_slug_unit c) _ h).1)
  | inr other ↦ rw other h
]

units-cons :
    (c : ℕ) (r : Text)
    → is_slug_unit c ≡ true
    → all is_slug_unit r ≡ true
    → all is_slug_unit (cons_unless_last c r) ≡ true
units-cons c [] u h = elim (Bool-cases (c == b'-')) [
  | inl dash ↦ rw dash refl
  | inr other ↦ rw other (rw u refl)
]
units-cons c (d ∷ r) u h = rw u h

units-drop_end : (t : Text) → all is_slug_unit t ≡ true → all is_slug_unit (drop_end t) ≡ true
unfolding drop_end
units-drop_end [] h = refl
units-drop_end (c ∷ t) h =
    units-cons c (drop_end t) (both (is_slug_unit c) _ h).0
      (units-drop_end t (both (is_slug_unit c) _ h).1)

-- The slug before runs of dashes are made one, which changes nothing.
abbrev trimmed : (to_lower : Text → Text) → Text → Text
trimmed to_lower input = drop_end (drop_start (dash_runs false (to_lower input)))

single-trimmed :
    (to_lower : Text → Text) (input : Text) → single true (trimmed to_lower input) ≡ true
single-trimmed to_lower input =
    single-drop_end true _ (single-drop_start false _ (single-dash_runs false (to_lower input)))

slugify-eq :
    (to_lower : Text → Text) (input : Text) → slugify to_lower input ≡ trimmed to_lower input
unfolding slugify
slugify-eq to_lower input = collapse_lem false _ (looser _ (single-trimmed to_lower input))

-- A slug has lower-case letters of ASCII, digits and dashes only. It does not begin or end with a
-- dash, and no two dashes follow each other.
pub slugify-IsSlug : (to_lower : Text → Text) (input : Text) → IsSlug (slugify to_lower input)
slugify-IsSlug to_lower input = subst IsSlug (sym (slugify-eq to_lower input)) (
  units-drop_end _ (units-drop_start _ (units-dash_runs false (to_lower input))),
  single-trimmed to_lower input,
  ends-drop_end _,
)

dash_runs_lem :
    (b : Bool) (t : Text) → all is_slug_unit t ≡ true → single b t ≡ true → dash_runs b t ≡ t
unfolding dash_runs single
dash_runs_lem b [] u h = refl
dash_runs_lem b (c ∷ t) u h = elim (Bool-cases (is_slug_alnum c)) [
  | inl alnum ↦ rw alnum (
      ap (λ r. c ∷ r)
        (dash_runs_lem false t (both (is_slug_unit c) _ u).1 (rw (alnum-dash c alnum) at h)))
  | inr other ↦
      let dash : (c == b'-') ≡ true = rw other at ((both (is_slug_unit c) _ u).0) in
      elim (Bool-cases b) [
        | inl on ↦ absurd (cc (rw (dash, on) at h))
        | inr off ↦
            rw (other, off)
              (cons_dash c _ t dash
                (dash_runs_lem true t (both (is_slug_unit c) _ u).1 (rw (dash, off) at h)))
      ]
]
  where
    cons_dash : (c : ℕ) (r t : Text) → (c == b'-') ≡ true → r ≡ t → b'-' ∷ r ≡ c ∷ t
    cons_dash c r t dash e = rw e (ap (λ n. n ∷ t) (ground (arith, dash)))

drop_start_lem : (t : Text) → single true t ≡ true → drop_start t ≡ t
unfolding drop_start single
drop_start_lem [] h = refl
drop_start_lem (c ∷ t) h = elim (Bool-cases (c == b'-')) [
  | inl dash ↦ absurd (cc (rw dash at h))
  | inr other ↦ rw other refl
]

drop_end_lem : (t : Text) → ends_dash false t ≡ false → drop_end t ≡ t
unfolding drop_end ends_dash
drop_end_lem [] h = refl
drop_end_lem (c ∷ []) h = rw h refl
drop_end_lem (c ∷ d ∷ t) h = rw (drop_end_lem (d ∷ t) h) refl

-- A slug is its own slug, given that `toLowerCase` changes no lower-case letters, digits and dashes.
slugify_stable :
    (to_lower : Text → Text) (input : Text)
    → ((t : Text) → all is_slug_unit t ≡ true → to_lower t ≡ t)
    → slugify to_lower (slugify to_lower input) ≡ slugify to_lower input
slugify_stable to_lower input keeps =
    let u = slugify to_lower input in
    let (units, one, last) = slugify-IsSlug to_lower input in
    slugify-eq to_lower u
    ∙ rw (keeps u units, dash_runs_lem false u units (looser u one), drop_start_lem u one)
        (drop_end_lem u last)
