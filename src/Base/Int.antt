-- ===== src/Base/Int.antt =====
-- Signed integers over the native numbers, and Go's tests on `int64` values.
use Prim.Native.Nat.{ℕ, suc, ◌+◌, ◌-◌, ◌/◌, ◌%◌, ◌^◌, ◌<◌, ◌≤◌, ◌*◌, zero}
use mathlib.Core.Path.{◌≡◌, refl}
use mathlib.Core.Bool.{Bool, true, false}
use native.Mathlib.Omega.{arith}
use sub_sdk.Base.Tests.{ltb, leb, ◌==◌, if◌then◌else◌}

-- `negsuc n` is -(n + 1).
pub data ℤ : Type 0 where
  pos : ℕ → ℤ
  negsuc : ℕ → ℤ

-- a == b
abbrev pub eqz : ℤ → ℤ → Bool
eqz (pos a) (pos b) = a == b
eqz (pos a) (negsuc b) = false
eqz (negsuc a) (pos b) = false
eqz (negsuc a) (negsuc b) = a == b

-- a < b
abbrev pub ltz : ℤ → ℤ → Bool
ltz (pos a) (pos b) = ltb a b
ltz (pos a) (negsuc b) = false
ltz (negsuc a) (pos b) = true
ltz (negsuc a) (negsuc b) = ltb b a

-- a <= b
abbrev pub lez : ℤ → ℤ → Bool
lez (pos a) (pos b) = leb a b
lez (pos a) (negsuc b) = false
lez (negsuc a) (pos b) = true
lez (negsuc a) (negsuc b) = leb b a

-- a - b, as an integer.
abbrev sub_ℕ : ℕ → ℕ → ℤ
sub_ℕ a b = if leb b a then pos (a - b) else negsuc (b - a - 1)

pos_part : ℤ → ℕ
pos_part (pos n) = n
pos_part (negsuc n) = 0

neg_part : ℤ → ℕ
neg_part (pos n) = 0
neg_part (negsuc n) = suc n

-- The value of an int64 with the low 64 bits of an integer, and Go's `a + b` on int64.
wrap64 : ℤ → ℤ
wrap64 (pos n) =
    if ltb (n % 2 ^ 64) (2 ^ 63) then pos (n % 2 ^ 64) else negsuc (2 ^ 64 - 1 - n % 2 ^ 64)
wrap64 (negsuc n) =
    if ltb (n % 2 ^ 64) (2 ^ 63) then negsuc (n % 2 ^ 64) else pos (2 ^ 64 - 1 - n % 2 ^ 64)

unfoldable pub add64 : ℤ → ℤ → ℤ
unfolding pos_part neg_part wrap64
add64 a b = wrap64 (sub_ℕ (pos_part a + pos_part b) (neg_part a + neg_part b))

-- Go's `a - b` on int64.
unfoldable pub sub64 : ℤ → ℤ → ℤ
unfolding pos_part neg_part wrap64
sub64 a b = wrap64 (sub_ℕ (pos_part a + neg_part b) (neg_part a + pos_part b))

-- -n
minus : ℕ → ℤ
minus zero = pos zero
minus (suc n) = negsuc n

-- Go's `a * b` on int64.
unfoldable pub mul64 : ℤ → ℤ → ℤ
unfolding minus wrap64
mul64 (pos a) (pos b) = wrap64 (pos (a * b))
mul64 (pos a) (negsuc b) = wrap64 (minus (a * suc b))
mul64 (negsuc a) (pos b) = wrap64 (minus (suc a * b))
mul64 (negsuc a) (negsuc b) = wrap64 (pos (suc a * suc b))

pub sub64_pos : (a b : ℕ) → b ≤ a → a < 2 ^ 63 → sub64 (pos a) (pos b) ≡ pos (a - b)
unfolding sub64
sub64_pos a b h k = ground arith

wrap64_pos : (n : ℕ) → n < 2 ^ 63 → wrap64 (pos n) ≡ pos n
unfolding wrap64
wrap64_pos n h = ground arith

pub mul64_pos : (a b : ℕ) → a * b < 2 ^ 63 → mul64 (pos a) (pos b) ≡ pos (a * b)
unfolding mul64
mul64_pos a b h = wrap64_pos (a * b) h

-- Go's `a / 2`, which rounds towards zero.
abbrev pub half64 : ℤ → ℤ
half64 (pos n) = pos (n / 2)
half64 (negsuc n) = sub_ℕ 0 (suc n / 2)

pub add64_pos : (a b : ℕ) → a + b < 2 ^ 63 → add64 (pos a) (pos b) ≡ pos (a + b)
unfolding add64
add64_pos a b h = ground arith

add64_tests :
    (add64 (pos (2 ^ 63 - 1)) (pos 1) ≡ negsuc (2 ^ 63 - 1)) × (add64 (pos 3) (negsuc 4) ≡ negsuc 1)
unfolding add64
add64_tests = (refl, refl)
