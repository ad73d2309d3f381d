-- ===== src/Base/Chars.antt =====
-- A text that comes from a string is read back as the string.
use Prim.Native.Char.{char, IsScalar}
use Prim.Native.Nat.{ℕ, compare, Ordering}
use Prim.Native.String.{String}
use mathlib.Core.Path.{◌≡◌, refl, ap, subst}
use native.Mathlib.Omega.{compare-eq}
use negare_api.Base.Text.{codes, to_string, scalar, scalar_high}

-- With the outcomes of its tests a number has at most one proof that it is a scalar.
low_same : (n : ℕ) → compare n 55296 ≡ Ordering.lt → (p q : IsScalar n) → char n p ≡ char n q
low_same n e p q = ap (char n) (prop p q)
  where
    prop : IsProp (IsScalar n)
    prop = rw e hlevel

high_same :
    (n : ℕ)
    → compare n 55296 ≡ Ordering.gt
    → compare 57343 n ≡ Ordering.lt
    → compare n 1114112 ≡ Ordering.lt
    → (p q : IsScalar n) → char n p ≡ char n q
high_same n e f g p q = ap (char n) (prop p q)
  where
    prop : IsProp (IsScalar n)
    prop = rw (e, f, g) hlevel

scalar_high-eq :
    (n : ℕ) (p : IsScalar n) (o q : Ordering) (e : compare 57343 n ≡ o) (f : compare n 1114112 ≡ q)
    (g : compare n 55296 ≡ Ordering.gt)
    → scalar_high n o q e f g ≡ char n p
scalar_high-eq n p Ordering.lt Ordering.lt e f g = high_same n g e f _ p
scalar_high-eq n p Ordering.lt Ordering.eq e f g = absurd (rw (g, e, f) at p)
scalar_high-eq n p Ordering.lt Ordering.gt e f g = absurd (rw (g, e, f) at p)
scalar_high-eq n p Ordering.eq q e f g = absurd (rw (g, e) at p)
scalar_high-eq n p Ordering.gt q e f g = absurd (rw (g, e) at p)

scalar-eq :
    (n : ℕ) (p : IsScalar n) (o : Ordering) (e : compare n 55296 ≡ o) → scalar n o e ≡ char n p
scalar-eq n p Ordering.lt e = low_same n e _ p
scalar-eq n p Ordering.eq e = absurd (subst IsScalar (compare-eq n 55296 e) p)
scalar-eq n p Ordering.gt e = scalar_high-eq n p (compare 57343 n) (compare n 1114112) refl refl e

pub to_string-codes : (s : String) → to_string (codes s) ≡ s
to_string-codes String.[] = refl
to_string-codes (String.◌∷◌ (char n p) s) =
    rw (scalar-eq n p (compare n 55296) refl, to_string-codes s) refl
