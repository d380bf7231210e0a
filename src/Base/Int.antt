-- ===== src/Base/Int.antt =====
-- Signed integers over the native numbers, under the library's names, and Go's int64 on them.
use Prim.Native.Nat.{ℕ, suc, ◌+◌, ◌-◌, ◌*◌, ◌/◌, ◌%◌, ◌^◌, ◌≤◌, ◌<◌}
use mathlib.Core.Path.{◌≡◌, refl}
use mathlib.Core.Bool.{Bool, false}
use native.Mathlib.Omega.{arith}
use vrtc.Base.Tests.{ltb, leb, if◌then◌else◌}

-- `negsuc n` is -(n + 1).
pub data ℤ : Type 0 where
  pos : ℕ → ℤ
  negsuc : ℕ → ℤ

abbrev pub pos_part : ℤ → ℕ
pos_part (pos n) = n
pos_part (negsuc n) = 0

abbrev pub neg_part : ℤ → ℕ
neg_part (pos n) = 0
neg_part (negsuc n) = suc n

-- a - b, as an integer.
abbrev pub sub_ℕ : ℕ → ℕ → ℤ
sub_ℕ a b = if leb b a then pos (a - b) else negsuc (b - a - 1)

infixl 65 ◌+ℤ◌ ◌-ℤ◌
infixl 70 ◌*ℤ◌
unfoldable pub ◌+ℤ◌ : ℤ → ℤ → ℤ
a +ℤ b = sub_ℕ (pos_part a + pos_part b) (neg_part a + neg_part b)

unfoldable pub ◌-ℤ◌ : ℤ → ℤ → ℤ
a -ℤ b = sub_ℕ (pos_part a + neg_part b) (neg_part a + pos_part b)

unfoldable pub ◌*ℤ◌ : ℤ → ℤ → ℤ
a *ℤ b =
    sub_ℕ (pos_part a * pos_part b + neg_part a * neg_part b)
      (pos_part a * neg_part b + neg_part a * pos_part b)

abbrev pub leb_ℤ : ℤ → ℤ → Bool
leb_ℤ a b = leb (pos_part a + neg_part b) (pos_part b + neg_part a)

abbrev pub ltb_ℤ : ℤ → ℤ → Bool
ltb_ℤ a b = ltb (pos_part a + neg_part b) (pos_part b + neg_part a)

-- x > 0
abbrev pub positive : ℤ → Bool
positive (pos n) = ltb 0 n
positive (negsuc n) = false

-- The value of the low 64 bits of an integer, read as an int64.
unfoldable pub wrap64 : ℤ → ℤ
wrap64 (pos n) = let u = n % 2 ^ 64 in if ltb u (2 ^ 63) then pos u else negsuc (2 ^ 64 - u - 1)
wrap64 (negsuc n) = let u = n % 2 ^ 64 in if ltb u (2 ^ 63) then negsuc u else pos (2 ^ 64 - u - 1)

-- int64 +, - and *.
unfoldable pub add64 : ℤ → ℤ → ℤ
unfolding wrap64 ◌+ℤ◌
add64 a b = wrap64 (a +ℤ b)

unfoldable pub sub64 : ℤ → ℤ → ℤ
unfolding wrap64 ◌-ℤ◌
sub64 a b = wrap64 (a -ℤ b)

unfoldable pub mul64 : ℤ → ℤ → ℤ
unfolding wrap64 ◌*ℤ◌
mul64 a b = wrap64 (a *ℤ b)

-- Go's division of an int64 by a positive number, which rounds toward 0.
unfoldable pub quot : ℤ → ℕ → ℤ
quot (pos n) d = pos (n / d)
quot (negsuc n) d = sub_ℕ 0 ((n + 1) / d)

-- A sum that fits is exact.
pub add64-pos : (a b : ℕ) → a + b < 2 ^ 63 → add64 (pos a) (pos b) ≡ pos (a + b)
unfolding add64
add64-pos a b h = ground arith

-- A difference of numbers that fit is exact.
pub sub64-pos : (a b : ℕ) → a < 2 ^ 63 → b < 2 ^ 63 → sub64 (pos a) (pos b) ≡ sub_ℕ a b
unfolding sub64
sub64-pos a b ha hb = ground arith

-- Taking away once more, as long as the total taken away fits.
pub sub64-sub_ℕ :
    (a b c : ℕ) → a < 2 ^ 63 → b + c < 2 ^ 63 → sub64 (sub_ℕ a b) (pos c) ≡ sub_ℕ a (b + c)
unfolding sub64
sub64-sub_ℕ a b c ha hb = ground arith

wrap64-pos : (p : ℕ) → p < 2 ^ 63 → wrap64 (pos p) ≡ pos p
unfolding wrap64
wrap64-pos p h = ground arith

wrap64-past : (p : ℕ) → 2 ^ 63 ≤ p → p < 2 ^ 64 → wrap64 (pos p) ≡ negsuc (2 ^ 64 - p - 1)
unfolding wrap64
wrap64-past p h k = ground arith

product : (a b : ℕ) → pos a *ℤ pos b ≡ pos (a * b)
unfolding ◌*ℤ◌
product a b = ground arith

-- A product that fits is exact, and one past that by less than as much again is negative.
pub mul64-pos : (a b : ℕ) → a * b < 2 ^ 63 → mul64 (pos a) (pos b) ≡ pos (a * b)
unfolding mul64
mul64-pos a b h = rw (product a b, wrap64-pos (a * b) h) refl

pub mul64-wraps :
    (a b : ℕ)
    → 2 ^ 63 ≤ a * b
    → a * b < 2 ^ 64
    → mul64 (pos a) (pos b) ≡ negsuc (2 ^ 64 - a * b - 1)
unfolding mul64
mul64-wraps a b h k = rw (product a b, wrap64-past (a * b) h k) refl
