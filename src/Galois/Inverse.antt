-- ===== src/Galois/Inverse.antt =====
-- `GaloisElement::inverse` and `Div` of crates/symmetrix-galois/src/lib.rs. The remainders of the
-- loop, which the source keeps in `i128`, are never negative; the coefficients are integers.
pub mod Euclid
pub mod Laws
pub mod Correct
use mathlib.Core.WellFounded.{Acc}
use cyan_flame_control_plane.Prelude.{
  ℕ, zero, suc, ◌+◌, ◌-◌, ◌*◌, ◌/◌, ◌%◌, ◌^◌, ◌<◌, Bool, arith, ltb, if◌then◌else◌, lt_wf, u64,
  Outcome, ok, err, panic, ◌>>=◌,
}
use cyan_flame_control_plane.Prelude.Int.{ℤ, pos, negsuc, is_negative, ◌+ℤ◌, ◌-ℤ◌, ◌*ℤ◌}
use cyan_flame_control_plane.Galois.Element.{
  GaloisElement, GaloisResult, division_by_zero, invalid_element, is_zero, new, mul,
}

pub shrinks : (a c : ℕ) → a - a / suc c * suc c < suc c
shrinks a c = omega arith

-- The `while r != 0` loop, by recursion on the fall of `r`.
unfoldable pub euclid_loop : ℕ → (r : ℕ) → ℤ → ℤ → Acc ◌<◌ r → ℕ × ℤ
euclid_loop old_r r old_s s (Acc.intro zero _) = (old_r, old_s)
euclid_loop old_r r old_s s (Acc.intro (suc c) smaller) =
    let quotient = old_r / suc c in
    euclid_loop (suc c) (old_r - quotient * suc c) s (old_s -ℤ pos quotient *ℤ s)
      (smaller (old_r - quotient * suc c) (shrinks old_r c))

-- From `(old_r, r) = (m, v)` and `(old_s, s) = (0, 1)`.
unfoldable pub extended_euclid : ℕ → ℕ → ℕ × ℤ
unfolding euclid_loop lt_wf
extended_euclid m v = euclid_loop m v (pos 0) (pos 1) (lt_wf.apply v)

-- An `i128` cast by `as u64`.
abbrev pub as_u64 : ℤ → ℕ
as_u64 (pos n) = u64 n
as_u64 (negsuc n) = 2 ^ 64 - 1 - u64 n

-- What follows the loop: the sign of the coefficient is mended.
unfoldable pub from_euclid : GaloisElement → ℕ × ℤ → GaloisResult GaloisElement
from_euclid e (old_r, old_s) =
    if ltb 1 old_r
    then err (invalid_element e.value e.modulus)
    else new (as_u64 (if is_negative old_s then old_s +ℤ pos e.modulus else old_s)) e.modulus

unfoldable pub inverse : GaloisElement → GaloisResult GaloisElement
unfolding from_euclid
inverse e =
    if is_zero e then err division_by_zero else from_euclid e (extended_euclid e.modulus e.value)

unfoldable pub div : GaloisElement → GaloisElement → GaloisResult GaloisElement
div a b = do b' ← inverse b; mul a b'
