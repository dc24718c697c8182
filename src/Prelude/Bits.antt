-- ===== src/Prelude/Bits.antt =====
-- Bitwise operations on words of `w` bits.
use Prim.Native.Nat.{ℕ, zero, suc, ◌+◌, ◌-◌, ◌*◌, ◌/◌, ◌%◌, ◌^◌, ◌≤◌, ◌<◌}
use mathlib.Core.Path.{◌≡◌, refl, ap, sym, ◌∙◌}
use mathlib.Core.Logic.{◌↔◌}
use native.Mathlib.Nat
use native.Mathlib.Nat.{pow-succ'}
use native.Mathlib.Omega.{arith}

unfoldable pub and_bits : ℕ → ℕ → ℕ → ℕ
and_bits zero a b = 0
and_bits (suc w) a b = a % 2 * (b % 2) + 2 * and_bits w (a / 2) (b / 2)

unfoldable pub xor_bits : ℕ → ℕ → ℕ → ℕ
xor_bits zero a b = 0
xor_bits (suc w) a b = (a % 2 + b % 2) % 2 + 2 * xor_bits w (a / 2) (b / 2)

unfoldable pub or_bits : ℕ → ℕ → ℕ → ℕ
or_bits zero a b = 0
or_bits (suc w) a b = (a % 2 + b % 2 + 1) / 2 + 2 * or_bits w (a / 2) (b / 2)

pub power_pos : (n : ℕ) → 0 < 2 ^ n
power_pos zero = omega arith
power_pos (suc n) = omega (arith, power_pos n, pow-succ' 2 n)

pub power_mono : (m n : ℕ) → m ≤ n → 2 ^ m ≤ 2 ^ n
power_mono zero n h = omega (arith, power_pos n)
power_mono (suc m) zero h = absurd (omega arith)
power_mono (suc m) (suc n) h =
    omega (arith, power_mono m n (omega arith), pow-succ' 2 m, pow-succ' 2 n)

and_bits-ones : (w a : ℕ) → a < 2 ^ w → and_bits w a (2 ^ w - 1) ≡ a
unfolding and_bits
and_bits-ones zero a h = omega arith
and_bits-ones (suc w) a h =
    let double : 2 ^ suc w ≡ 2 * 2 ^ w = pow-succ' 2 w in
    let halved : (2 ^ suc w - 1) / 2 ≡ 2 ^ w - 1 = omega (arith, power_pos w, double) in
    let odd : (2 ^ suc w - 1) % 2 ≡ 1 = omega (arith, power_pos w, double) in
    rw (halved, odd, and_bits-ones w (a / 2) (omega (arith, double))) (omega arith)

div_one : (a : ℕ) → a / 1 ≡ a
div_one a = omega arith

halved_twice : (a z : ℕ) → a / 2 ^ suc z ≡ a / 2 / 2 ^ z
halved_twice a z = ap (λ (t : ℕ). a / t) (pow-succ' 2 z) ∙ sym (Nat.div-div-eq-div-mul a 2 (2 ^ z))

-- A word behind the mask that clears its lowest `z` bits is known from its other bits.
pub and_bits-mask :
    (w z a b : ℕ)
    → z ≤ w
    → a < 2 ^ w
    → b < 2 ^ w
    → (and_bits w a (2 ^ w - 2 ^ z) ≡ and_bits w b (2 ^ w - 2 ^ z)) ↔ (a / 2 ^ z ≡ b / 2 ^ z)
unfolding and_bits
and_bits-mask w zero a b h la lb =
    rw (and_bits-ones w a la, and_bits-ones w b lb, div_one a, div_one b) (λ e. e, λ e. e)
and_bits-mask zero (suc z) a b h la lb = absurd (omega arith)
and_bits-mask (suc w) (suc z) a b h la lb =
    let double : 2 ^ suc w ≡ 2 * 2 ^ w = pow-succ' 2 w in
    let low : 2 ^ suc z ≡ 2 * 2 ^ z = pow-succ' 2 z in
    let halved : (2 ^ suc w - 2 ^ suc z) / 2 ≡ 2 ^ w - 2 ^ z = omega (arith, double, low) in
    let even : (2 ^ suc w - 2 ^ suc z) % 2 ≡ 0 = omega (arith, double, low) in
    let (to, from) =
      and_bits-mask w z (a / 2) (b / 2) (omega arith) (omega (arith, double))
        (omega (arith, double)) in
    rw (halved, even, halved_twice a z, halved_twice b z)
      (λ e. to (omega (arith, e)), λ e. omega (arith, from e))

pub and_bits-zero : (w a : ℕ) → and_bits w a 0 ≡ 0
unfolding and_bits
and_bits-zero zero a = refl
and_bits-zero (suc w) a = omega (arith, and_bits-zero w (a / 2))
