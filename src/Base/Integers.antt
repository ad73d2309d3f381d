-- ===== src/Base/Integers.antt =====
-- Whole numbers with a sign over the native numbers, for columns and counters that can go below zero.
use Prim.Native.Nat.{ℕ, suc, ◌+◌, ◌-◌}
use mathlib.Core.Path.{◌≡◌}
use mathlib.Core.Bool.{Bool, true, false}
use native.Mathlib.Omega.{arith}
use negare_api.Base.Tests.{if◌then◌else◌, leb, ◌==◌}

-- `negsuc n` is -(n + 1)
pub data ℤ : Type 0 where
  pos : ℕ → ℤ
  negsuc : ℕ → ℤ

-- A number is what it is above zero, less what it is below.
abbrev pub above : ℤ → ℕ
above (pos n) = n
above (negsuc n) = 0

abbrev pub below : ℤ → ℕ
below (pos n) = 0
below (negsuc n) = suc n

abbrev pub minus : ℕ → ℕ → ℤ
minus a b = if leb b a then pos (a - b) else negsuc (b - suc a)

infixl 65 ◌+ℤ◌
unfoldable pub ◌+ℤ◌ : ℤ → ℤ → ℤ
x +ℤ y = minus (above x + above y) (below x + below y)

unfoldable pub neg : ℤ → ℤ
neg x = minus (below x) (above x)

abbrev pub is_zero : ℤ → Bool
is_zero (pos n) = n == 0
is_zero (negsuc n) = false

pub add-balance :
    (x y : ℤ) → above (x +ℤ y) + (below x + below y) ≡ below (x +ℤ y) + (above x + above y)
unfolding ◌+ℤ◌
add-balance x y = ground arith

pub neg-balance : (x : ℤ) → above (neg x) + above x ≡ below (neg x) + below x
unfolding neg
neg-balance x = ground arith

pub balanced : (x y : ℤ) → above x + below y ≡ above y + below x → x ≡ y
balanced (pos a) (pos b) h = ground arith
balanced (pos a) (negsuc b) h = absurd (omega arith)
balanced (negsuc a) (pos b) h = absurd (omega arith)
balanced (negsuc a) (negsuc b) h = ground arith

pub add_comm : (x y : ℤ) → x +ℤ y ≡ y +ℤ x
add_comm x y = balanced (x +ℤ y) (y +ℤ x) (omega (arith, add-balance x y, add-balance y x))

pub add_assoc : (x y z : ℤ) → (x +ℤ y) +ℤ z ≡ x +ℤ (y +ℤ z)
add_assoc x y z = balanced ((x +ℤ y) +ℤ z) (x +ℤ (y +ℤ z)) (
    omega (arith, add-balance x y, add-balance (x +ℤ y) z, add-balance y z, add-balance x (y +ℤ z)))

pub add_zero : (x : ℤ) → x +ℤ pos 0 ≡ x
add_zero x = balanced (x +ℤ pos 0) x (omega (arith, add-balance x (pos 0)))

pub add-neg : (x y : ℤ) → (x +ℤ y) +ℤ neg y ≡ x
add-neg x y =
    balanced ((x +ℤ y) +ℤ neg y) x
      (omega (arith, add-balance x y, add-balance (x +ℤ y) (neg y), neg-balance y))

pub is_zero-eq : (x : ℤ) → is_zero x ≡ true → x ≡ pos 0
is_zero-eq (pos n) h = ground arith
is_zero-eq (negsuc n) h = absurd (cc h)
