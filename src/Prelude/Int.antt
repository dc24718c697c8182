-- ===== src/Prelude/Int.antt =====
-- Signed integers over the native numbers: what `i128` and `BigInt` hold.
use Prim.Native.Nat.{ℕ, zero, suc, ◌+◌, ◌-◌, ◌*◌, ◌%◌, ◌^◌}
use mathlib.Core.Path.{◌≡◌}
use mathlib.Core.Bool.{Bool, true, false}
use native.Mathlib.Omega.{arith}
use cyan_flame_control_plane.Prelude.Tests.{leb, ltb, if◌then◌else◌}

-- `negsuc n` is -(n + 1).
pub data ℤ : Type 0 where
  pos : ℕ → ℤ
  negsuc : ℕ → ℤ

abbrev pub pos_part : ℤ → ℕ
pos_part (pos n) = n
pos_part (negsuc n) = 0

abbrev pub neg_part : ℤ → ℕ
neg_part (pos n) = 0
neg_part (negsuc n) = suc n

abbrev pub is_negative : ℤ → Bool
is_negative (pos n) = false
is_negative (negsuc n) = true

abbrev pub sub_ℕ : ℕ → ℕ → ℤ
sub_ℕ a b = if leb b a then pos (a - b) else negsuc (b - a - 1)

infixl 65 ◌+ℤ◌ ◌-ℤ◌
infixl 70 ◌*ℤ◌
unfoldable pub ◌+ℤ◌ : ℤ → ℤ → ℤ
a +ℤ b = sub_ℕ (pos_part a + pos_part b) (neg_part a + neg_part b)

unfoldable pub ◌-ℤ◌ : ℤ → ℤ → ℤ
a -ℤ b = sub_ℕ (pos_part a + neg_part b) (neg_part a + pos_part b)

unfoldable pub ◌*ℤ◌ : ℤ → ℤ → ℤ
a *ℤ b =
    sub_ℕ (pos_part a * pos_part b + neg_part a * neg_part b)
      (pos_part a * neg_part b + neg_part a * pos_part b)

-- `-n`.
abbrev pub neg : ℕ → ℤ
neg zero = pos 0
neg (suc n) = negsuc n

pub neg-sub-pos : (x q y : ℕ) → neg x -ℤ pos q *ℤ pos y ≡ neg (x + q * y)
unfolding ◌-ℤ◌ ◌*ℤ◌
neg-sub-pos zero q y = ground arith
neg-sub-pos (suc x) q y = ground arith

pub pos-sub-neg : (x q y : ℕ) → pos x -ℤ pos q *ℤ neg y ≡ pos (x + q * y)
unfolding ◌-ℤ◌ ◌*ℤ◌
pos-sub-neg x q zero = ground arith
pos-sub-neg x q (suc y) = ground arith

-- The `i64` with the given low 64 bits, and `i64` addition of a release build.
abbrev pub signed64 : ℕ → ℤ
signed64 u = if ltb u (2 ^ 63) then pos u else negsuc (2 ^ 64 - u - 1)

abbrev pub low64 : ℤ → ℕ
low64 (pos n) = n % 2 ^ 64
low64 (negsuc n) = 2 ^ 64 - 1 - n % 2 ^ 64

unfoldable pub add_i64 : ℤ → ℤ → ℤ
add_i64 a b = signed64 ((low64 a + low64 b) % 2 ^ 64)

abbrev pub is_positive : ℤ → Bool
is_positive (pos n) = ltb 0 n
is_positive (negsuc n) = false
