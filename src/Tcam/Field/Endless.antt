-- ===== src/Tcam/Field/Endless.antt =====
-- An input for which the loop of `inv` does not end.
use cyan_flame_control_plane.Prelude.{ℕ, zero, suc, ◌≡◌, refl, none}
use cyan_flame_control_plane.Prelude.Bits.{xor_bits, or_bits}
use cyan_flame_control_plane.Tcam.Field.{
  gf_div_mod, div_loop, leading_zeros, inv_step, inv_loop, inv,
}

division_steps : ((gf_div_mod 0x8D 2).1 ≡ 3) × ((gf_div_mod 2 3).1 ≡ 2) × ((gf_div_mod 3 2).1 ≡ 3)
unfolding gf_div_mod div_loop leading_zeros xor_bits or_bits
division_steps = (refl, refl, refl)

inv_loop-endless :
    (fuel t new_t : ℕ) → (inv_loop fuel t new_t 3 2 ≡ none) × (inv_loop fuel t new_t 2 3 ≡ none)
unfolding inv_loop inv_step
inv_loop-endless zero t new_t = (refl, refl)
inv_loop-endless (suc fuel) t new_t =
    let (first, by_three, by_two) = division_steps in
    (
      rw by_two (inv_loop-endless fuel new_t (inv_step t new_t 3 2).0).1,
      rw by_three (inv_loop-endless fuel new_t (inv_step t new_t 2 3).0).0,
    )

-- The loop of `inv` ends with no fuel once its remainders are 3 and 2 or 2 and 3, whatever its
-- other variables are, and the call for the element 2 comes to that.
pub inv-endless :
    (fuel t new_t : ℕ)
    → (inv_loop fuel t new_t 3 2 ≡ none) × (inv_loop fuel t new_t 2 3 ≡ none) × (inv fuel 2 ≡ none)
unfolding inv inv_loop inv_step
inv-endless zero t new_t = (refl, refl, refl)
inv-endless (suc fuel) t new_t =
    let (three, two) = inv_loop-endless (suc fuel) t new_t in
    (three, two, rw division_steps.0 (inv_loop-endless fuel 1 (inv_step 0 1 0x8D 2).0).1)
