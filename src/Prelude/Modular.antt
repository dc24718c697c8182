-- ===== src/Prelude/Modular.antt =====
-- Laws of remainders that the native library does not state.
use Prim.Native.Nat.{ℕ, ◌+◌, ◌-◌, ◌*◌, ◌/◌, ◌%◌, ◌<◌}
use mathlib.Core.Path.{◌≡◌, ap, sym, ◌∙◌}
use native.Mathlib.Nat
use native.Mathlib.Omega.{arith}

pub mod-mul-mod : (a b m : ℕ) → (a % m * b) % m ≡ (a * b) % m
mod-mul-mod a b m =
    sym (Nat.add-mul-mod_self_right (a % m * b) (a / m * b) m)
    ∙ ap (λ (t : ℕ). t % m) (omega (arith, ap (λ (t : ℕ). t * b) (Nat.mod-add-div a m)))

pub mul-mod-mod : (a b m : ℕ) → (a * (b % m)) % m ≡ (a * b) % m
mul-mod-mod a b m =
    ap (λ (t : ℕ). t % m) (Nat.mul_comm a (b % m))
    ∙ mod-mul-mod b a m
    ∙ ap (λ (t : ℕ). t % m) (Nat.mul_comm b a)

pub mod-add-sub : (x y m : ℕ) → 0 < m → ((x + y) % m + m - y % m) % m ≡ x % m
mod-add-sub x y m pos = ground (
  arith,
  Nat.add-mod x y m,
  Nat.mod-lt x pos,
  Nat.mod-lt y pos,
  Nat.mod-eq_of_lt {n = x % m + y % m} {m = m},
  Nat.mod-eq_of_lt {n = x % m + y % m - m} {m = m},
  Nat.mod-eq-sub-mod {n = x % m + y % m} {m = m},
  Nat.add-mod_right (x % m) m,
  Nat.mod-mod x m,
)

pub add-sub-mod : (x m : ℕ) → 0 < m → (x + (m - x % m)) % m ≡ 0 % m
add-sub-mod x m pos =
    sym (Nat.mod-add-mod x m (m - x % m))
    ∙ ap (λ (t : ℕ). t % m) (omega (arith, Nat.mod-lt x pos))
    ∙ Nat.mod_self m
    ∙ sym (Nat.zero-mod m)

-- Numbers that differ by multiples of `m` have one remainder.
pub mod-eq_of_shift : (a b k l m : ℕ) → a + k * m ≡ b + l * m → a % m ≡ b % m
mod-eq_of_shift a b k l m e =
    sym (Nat.add-mul-mod_self_right a k m)
    ∙ ap (λ (t : ℕ). t % m) e
    ∙ Nat.add-mul-mod_self_right b l m
