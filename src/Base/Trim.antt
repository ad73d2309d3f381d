-- ===== src/Base/Trim.antt =====
-- White space at the ends of a text, and letters in upper case, are dropped once and for all.
use Prim.Native.Nat.{ℕ, ◌≤◌}
use mathlib.Core.Path.{◌≡◌, refl, sym, ap, ◌∙◌}
use mathlib.Core.Logic.{inl, inr}
use mathlib.Core.Bool.{Bool, true, not, ◌&&◌}
use mathlib.Core.List.{
  [], ◌∷◌, ◌++◌, map-append, reverse, reverse-append, reverse-reverse, reverse-cons,
}
use native.Mathlib.Omega.{arith}
use negare_api.Base.Lists.{length, filter, all}
use negare_api.Base.Tests.{Bool-cases}
use negare_api.Base.Text.{Text, trim, trim_start, lower, lower_unit, is_space}

length-trim_start : (t : Text) → length (trim_start t) ≤ length t
unfolding trim_start
length-trim_start [] = omega arith
length-trim_start (c ∷ t) = elim (Bool-cases (is_space c)) [
  | inl s ↦ rw s (omega (arith, length-trim_start t))
  | inr n ↦ rw n (omega arith)
]

trim_start_idem : (t : Text) → trim_start (trim_start t) ≡ trim_start t
unfolding trim_start
trim_start_idem [] = refl
trim_start_idem (c ∷ t) = elim (Bool-cases (is_space c)) [
  | inl s ↦ rw s (trim_start_idem t)
  | inr n ↦ rw n (rw n refl)
]

-- What is cut off at the start.
trim_start_suffix : (t : Text) → (p : Text) × (t ≡ p ++ trim_start t)
unfolding trim_start
trim_start_suffix [] = ([], refl)
trim_start_suffix (c ∷ t) = elim (Bool-cases (is_space c)) [
  | inl s ↦ let (p, e) = trim_start_suffix t in (c ∷ p, rw s (ap (λ u. c ∷ u) e))
  | inr n ↦ ([], rw n refl)
]

trim_start-prefix : (a b : Text) → trim_start (a ++ b) ≡ a ++ b → trim_start a ≡ a
unfolding trim_start
trim_start-prefix [] b h = refl
trim_start-prefix (c ∷ a) b h = elim (Bool-cases (is_space c)) [
  | inl s ↦
      let same_length = ap length (rw s at h) in
      absurd (omega (arith, length-trim_start (a ++ b), same_length))
  | inr n ↦ rw n refl
]

pub trim_idem : (t : Text) → trim (trim t) ≡ trim t
unfolding trim
trim_idem t =
    let u = trim_start t in
    let y = trim_start (reverse u) in
    let (p, e) = trim_start_suffix (reverse u) in
    let whole : u ≡ reverse y ++ reverse p =
      sym (reverse-reverse u) ∙ ap reverse e ∙ reverse-append p y in
    let front : trim_start (reverse y) ≡ reverse y =
      trim_start-prefix (reverse y) (reverse p) (rw (sym whole) (trim_start_idem t)) in
    rw (front, reverse-reverse y, trim_start_idem (reverse u)) refl

is_space-lower_unit : (c : ℕ) → is_space (lower_unit c) ≡ is_space c
unfolding lower_unit
is_space-lower_unit c = ground arith

trim_start-lower : (t : Text) → trim_start (lower t) ≡ lower (trim_start t)
unfolding trim_start lower
trim_start-lower [] = refl
trim_start-lower (c ∷ t) = elim (Bool-cases (is_space c)) [
  | inl s ↦ rw (is_space-lower_unit c, s) (trim_start-lower t)
  | inr n ↦ rw (is_space-lower_unit c, n) refl
]

reverse-lower : (t : Text) → reverse (lower t) ≡ lower (reverse t)
unfolding lower
reverse-lower [] = refl
reverse-lower (c ∷ t) =
    rw (reverse-cons c t, reverse-cons (lower_unit c) (lower t), reverse-lower t)
      (sym (map-append lower_unit (reverse t) (c ∷ [])))

trim-lower : (t : Text) → trim (lower t) ≡ lower (trim t)
unfolding trim
trim-lower t =
    rw
      (
        trim_start-lower t,
        reverse-lower (trim_start t),
        trim_start-lower (reverse (trim_start t)),
        reverse-lower (trim_start (reverse (trim_start t))),
      )
      refl

lower_unit_idem : (c : ℕ) → lower_unit (lower_unit c) ≡ lower_unit c
unfolding lower_unit
lower_unit_idem c = ground arith

lower_idem : (t : Text) → lower (lower t) ≡ lower t
unfolding lower
lower_idem [] = refl
lower_idem (c ∷ t) = rw (lower_unit_idem c, lower_idem t) refl

pub lower-trim_idem : (t : Text) → lower (trim (lower (trim t))) ≡ lower (trim t)
lower-trim_idem t = rw (trim-lower (trim t), trim_idem t, lower_idem (trim t)) refl

abbrev solid : ℕ → Bool
solid c = not (is_space c)

trim_start-solid : (t : Text) → all solid t ≡ true → trim_start t ≡ t
unfolding trim_start
trim_start-solid [] h = refl
trim_start-solid (c ∷ t) h = elim (Bool-cases (is_space c)) [
  | inl s ↦ absurd (cc (rw s at h))
  | inr n ↦ rw n refl
]

all-append : (xs ys : Text) → all solid (xs ++ ys) ≡ (all solid xs && all solid ys)
all-append [] ys = refl
all-append (c ∷ xs) ys = ground (arith, all-append xs ys)

all-reverse : (xs : Text) → all solid (reverse xs) ≡ all solid xs
all-reverse [] = refl
all-reverse (c ∷ xs) =
    rw (reverse-cons c xs, all-append (reverse xs) (c ∷ []), all-reverse xs) (ground arith)

trim-solid : (t : Text) → all solid t ≡ true → trim t ≡ t
unfolding trim
trim-solid t h =
    rw (trim_start-solid t h, trim_start-solid (reverse t) (all-reverse t ∙ h), reverse-reverse t)
      refl

all-filter : (t : Text) → all solid (filter solid t) ≡ true
all-filter [] = refl
all-filter (c ∷ t) = ground (arith, all-filter t)

filter-all : (t : Text) → all solid t ≡ true → filter solid t ≡ t
filter-all [] h = refl
filter-all (c ∷ t) h = elim (Bool-cases (is_space c)) [
  | inl s ↦ absurd (cc (rw s at h))
  | inr n ↦ rw n (rw (filter-all t (rw n at h)) refl)
]

pub filter-trim_idem :
    (t : Text) → filter solid (trim (filter solid (trim t))) ≡ filter solid (trim t)
filter-trim_idem t =
    rw (trim-solid (filter solid (trim t)) (all-filter (trim t)))
      (filter-all (filter solid (trim t)) (all-filter (trim t)))
