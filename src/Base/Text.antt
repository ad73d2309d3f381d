-- ===== src/Base/Text.antt =====
-- Texts that the program walks: lists of UTF-16 code units, with the string methods it calls.
-- `lower` is `toLowerCase` on ASCII.
use Prim.Native.Nat.{ℕ, zero, suc, ◌+◌, ◌-◌, ◌/◌, ◌%◌, compare, Ordering}
use Prim.Native.Char.{code, Char, char}
use Prim.Native.String.{String}
use mathlib.Core.Path.{◌≡◌, refl}
use mathlib.Core.Bool.{Bool, true, false, ◌&&◌, ◌||◌}
use mathlib.Core.List.{List, [], ◌∷◌, ◌++◌, map, reverse}
use native.Mathlib.Omega.{arith}
use negare_api.Base.Lists.{length}
use negare_api.Base.Tests.{leb, ltb, ◌==◌, if◌then◌else◌}

abbrev pub Text : Type 0
Text = List ℕ

abbrev pub codes : String → Text
codes String.[] = []
codes (String.◌∷◌ c s) = code c ∷ codes s

unfoldable pub text_eq : Text → Text → Bool
text_eq [] [] = true
text_eq (a ∷ s) (b ∷ t) = a == b && text_eq s t
text_eq _ _ = false

pub text_eq-eq : (s t : Text) → text_eq s t ≡ true → s ≡ t
unfolding text_eq
text_eq-eq [] [] h = refl
text_eq-eq [] (b ∷ t) h = cc
text_eq-eq (a ∷ s) [] h = cc
text_eq-eq (a ∷ s) (b ∷ t) h = ground (arith, text_eq-eq s t)

pub text_eq_refl : (s : Text) → text_eq s s ≡ true
unfolding text_eq
text_eq_refl [] = refl
text_eq_refl (a ∷ s) = ground (arith, text_eq_refl s)

abbrev pub text_includes : List Text → Text → Bool
text_includes [] t = false
text_includes (s ∷ r) t = text_eq s t || text_includes r t

abbrev pub is_digit : ℕ → Bool
is_digit c = leb b'0' c && leb c b'9'

abbrev pub is_lower : ℕ → Bool
is_lower c = leb b'a' c && leb c b'z'

abbrev pub is_upper : ℕ → Bool
is_upper c = leb b'A' c && leb c b'Z'

-- White space and line terminators.
abbrev pub is_space : ℕ → Bool
is_space c =
    (leb 9 c && leb c 13)
    || c == 32
    || c == 0xa0
    || c == 0x1680
    || (leb 0x2000 c && leb c 0x200a)
    || c == 0x2028
    || c == 0x2029
    || c == 0x202f
    || c == 0x205f
    || c == 0x3000
    || c == 0xfeff

unfoldable pub lower_unit : ℕ → ℕ
lower_unit c = if is_upper c then c + 32 else c

unfoldable pub lower : Text → Text
unfolding lower_unit
lower t = map lower_unit t

unfoldable pub trim_start : Text → Text
trim_start [] = []
trim_start (c ∷ t) = if is_space c then trim_start t else c ∷ t

unfoldable pub trim : Text → Text
unfolding trim_start
trim t = reverse (trim_start (reverse (trim_start t)))

-- The first part goes in front of the parts of what follows.
abbrev pub onto_first : ℕ → List Text → List Text
onto_first c [] = (c ∷ []) ∷ []
onto_first c (p ∷ ps) = (c ∷ p) ∷ ps

-- `t.split(sep)` at a separator of one unit; never empty.
unfoldable pub split : ℕ → Text → List Text
split sep [] = [] ∷ []
split sep (c ∷ t) = let rest = split sep t in if c == sep then [] ∷ rest else onto_first c rest

-- `parts.join(sep)`
unfoldable pub join : Text → List Text → Text
join sep [] = []
join sep (p ∷ []) = p
join sep (p ∷ q ∷ ps) = p ++ (sep ++ join sep (q ∷ ps))

-- The characters of the units; what is none on its own becomes U+FFFD.
abbrev pub scalar_high :
    (n : ℕ) (o p : Ordering)
    → compare 57343 n ≡ o
    → compare n 1114112 ≡ p
    → compare n 55296 ≡ Ordering.gt
    → Char
scalar_high n Ordering.lt Ordering.lt e f g = char n (rw (g, e, f) tt)
scalar_high n _ _ e f g = char 0xfffd tt

abbrev pub scalar : (n : ℕ) (o : Ordering) → compare n 55296 ≡ o → Char
scalar n Ordering.lt e = char n (rw e tt)
scalar n Ordering.eq e = char 0xfffd tt
scalar n Ordering.gt e = scalar_high n (compare 57343 n) (compare n 1114112) refl refl e

abbrev pub to_string : Text → String
to_string [] = String.[]
to_string (c ∷ t) = String.◌∷◌ (scalar c (compare c 55296) refl) (to_string t)

-- The decimal digits of a number, as `toString` gives them; a number has fewer digits than the fuel.
unfoldable pub digits : (fuel n : ℕ) → Text → Text
digits zero n acc = (b'0' + n) ∷ acc
digits (suc fuel) n acc = elim (ltb n 10) [
  | true ↦ (b'0' + n) ∷ acc
  | false ↦ digits fuel (n / 10) ((b'0' + n % 10) ∷ acc)
]

unfoldable pub decimal : ℕ → Text
unfolding digits
decimal n = digits n n []

-- `padStart(width, '0')`
abbrev pub zeros : ℕ → Text
zeros zero = []
zeros (suc n) = b'0' ∷ zeros n

unfoldable pub pad_start : (width : ℕ) → Text → Text
pad_start width t = zeros (width - length t) ++ t

-- `t.startsWith(p)`
abbrev pub starts_with : (p t : Text) → Bool
starts_with [] t = true
starts_with (a ∷ p) [] = false
starts_with (a ∷ p) (b ∷ t) = a == b && starts_with p t

-- `t.slice(n)`
abbrev pub drop : (n : ℕ) → Text → Text
drop zero t = t
drop (suc n) [] = []
drop (suc n) (c ∷ t) = drop n t

-- `t.includes(p)`, and as `contains` of Prisma with the mode `insensitive` on ASCII.
abbrev pub contains : (p t : Text) → Bool
contains p [] = starts_with p []
contains p (c ∷ t) = starts_with p (c ∷ t) || contains p t

abbrev pub contains_insensitive : (p t : Text) → Bool
contains_insensitive p t = contains (lower p) (lower t)
