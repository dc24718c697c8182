-- ===== src/Prelude/Words.antt =====
-- `u64` arithmetic of a release build: it wraps. Subtraction adds the modulus first.
use Prim.Native.Nat.{ℕ, ◌+◌, ◌-◌, ◌%◌, ◌^◌}
use cyan_flame_control_plane.Prelude.Tests.{◌==◌, if◌then◌else◌}
use cyan_flame_control_plane.Prelude.Results.{Outcome, ok, panic}

abbrev pub u64 : ℕ → ℕ
u64 n = n % 2 ^ 64

abbrev pub add64 : ℕ → ℕ → ℕ
add64 a b = u64 (a + b)

abbrev pub sub64 : ℕ → ℕ → ℕ
sub64 a b = u64 (a + 2 ^ 64 - b)

-- `saturating_sub` stops at 0, as `-` on ℕ does.
abbrev pub saturating_sub : ℕ → ℕ → ℕ
saturating_sub a b = a - b

-- `a % b` panics where `b` is 0.
abbrev pub rem {ℓ} : {E : Type ℓ} → ℕ → ℕ → Outcome E ℕ
rem a b = if b == 0 then panic else ok (a % b)
