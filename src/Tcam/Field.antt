-- ===== src/Tcam/Field.antt =====
-- `GF2_32` of uao-qtcam/src/phase1/galois_field.rs; an element stands as its `u32`.
pub mod Endless
use mathlib.Core.WellFounded.{Acc}
use cyan_flame_control_plane.Prelude.{
  ℕ, zero, suc, ◌+◌, ◌-◌, ◌*◌, ◌/◌, ◌%◌, ◌^◌, ◌<◌, arith, Bool, true, false, Option, none, some,
  ltb, ◌==◌, if◌then◌else◌, lt_wf,
}
use cyan_flame_control_plane.Prelude.Bits.{xor_bits, or_bits}

abbrev pub irreducible_poly : ℕ
irreducible_poly = 0x10000008D

abbrev bit : ℕ → ℕ → ℕ
bit n i = n / 2 ^ i % 2

-- The first loop of `gf_mul`.
unfoldable mul_loop : ℕ → ℕ → ℕ → ℕ → ℕ
unfolding xor_bits
mul_loop zero result temp_a temp_b = result
mul_loop (suc left) result temp_a temp_b =
    mul_loop left (if temp_b % 2 == 1 then xor_bits 64 result temp_a else result)
      (temp_a * 2 % 2 ^ 64) (temp_b / 2)

-- The second loop of `gf_mul`, for the bits from `31 + left` down to 32.
unfoldable reduce_loop : ℕ → ℕ → ℕ
unfolding xor_bits
reduce_loop zero result = result
reduce_loop (suc left) result = reduce_loop left (
    if bit result (32 + left) == 1
    then xor_bits 64 result (irreducible_poly * 2 ^ left % 2 ^ 64)
    else result)

unfoldable pub gf_mul : ℕ → ℕ → ℕ
unfolding mul_loop reduce_loop
gf_mul a b = reduce_loop 32 (mul_loop 32 0 a b) % 2 ^ 32

unfoldable pub gf_add : ℕ → ℕ → ℕ
unfolding xor_bits
gf_add a b = xor_bits 32 a b

pub halves : (n : ℕ) → suc n / 2 < suc n
halves n = omega arith

unfoldable pow_loop : ℕ → ℕ → (exp : ℕ) → Acc ◌<◌ exp → ℕ
unfolding gf_mul
pow_loop result base zero _ = result
pow_loop result base (suc n) (Acc.intro _ smaller) =
    pow_loop (if suc n % 2 == 1 then gf_mul result base else result) (gf_mul base base) (suc n / 2)
      (smaller (suc n / 2) (halves n))

unfoldable pub pow : ℕ → ℕ → ℕ
unfolding pow_loop lt_wf
pow self exp = if exp == 0 then 1 else pow_loop 1 self exp (lt_wf.apply exp)

unfoldable pub frobenius : ℕ → ℕ → ℕ
unfolding pow
frobenius self k = pow self (2 ^ k)

unfoldable simple_loop : ℕ → ℕ → ℕ → ℕ → ℕ
unfolding xor_bits
simple_loop zero result temp_a temp_b = result
simple_loop (suc left) result temp_a temp_b =
    simple_loop left (if temp_b % 2 == 1 then xor_bits 32 result temp_a else result)
      (temp_a * 2 % 2 ^ 32) (temp_b / 2)

unfoldable pub gf_mul_simple : ℕ → ℕ → ℕ
unfolding simple_loop
gf_mul_simple a b = simple_loop 32 0 a b

-- The zeros above the highest of the lowest `w` bits that is set.
unfoldable leading_zeros : ℕ → ℕ → ℕ
leading_zeros zero n = 0
leading_zeros (suc w) n = let rest = leading_zeros w n in if bit n w == 1 then 0 else 1 + rest

-- The loop of `gf_div_mod` for the bits below `left`.
unfoldable div_loop : ℕ → ℕ → ℕ → ℕ → ℕ → ℕ × ℕ
unfolding xor_bits or_bits
div_loop zero divisor divisor_degree quotient remainder = (quotient, remainder)
div_loop (suc i) divisor divisor_degree quotient remainder =
    let set = bit remainder i == 1 in
    let shift = i - divisor_degree in
    div_loop i divisor divisor_degree (if set then or_bits 32 quotient (2 ^ shift) else quotient)
      (if set then xor_bits 32 remainder (divisor * 2 ^ shift % 2 ^ 32) else remainder)

unfoldable pub gf_div_mod : ℕ → ℕ → ℕ × ℕ
unfolding div_loop leading_zeros
gf_div_mod dividend divisor =
    if divisor == 0
    then (0, dividend)
    else div_loop 32 divisor (31 - leading_zeros 32 divisor) 0 dividend

-- The rest of a division as a pair of numbers.
unfoldable pub inv_step : ℕ → ℕ → ℕ → ℕ → ℕ × ℕ
unfolding gf_div_mod gf_mul_simple xor_bits
inv_step t new_t r new_r =
    let (quotient, remainder) = gf_div_mod r new_r in
    (xor_bits 32 t (gf_mul_simple quotient new_t), remainder)

-- The `while` loop of `inv` and what follows it; `none` where the fuel ends.
unfoldable pub inv_loop : ℕ → ℕ → ℕ → ℕ → ℕ → Option (Option ℕ)
unfolding inv_step
inv_loop zero t new_t r new_r = none
inv_loop (suc fuel) t new_t r new_r =
    let (temp_t, remainder) = inv_step t new_t r new_r in
    elim (new_r == 0) [
      | true ↦ some (if ltb 1 r then none else some t)
      | false ↦ inv_loop fuel new_t temp_t new_r remainder
    ]

unfoldable pub inv : ℕ → ℕ → Option (Option ℕ)
unfolding inv_loop
inv fuel self = if self == 0 then some none else inv_loop fuel 0 1 (irreducible_poly % 2 ^ 32) self
