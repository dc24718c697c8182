-- ===== src/Galois/Pow.antt =====
-- `GaloisElement::pow` of crates/symmetrix-galois/src/lib.rs.
pub mod Laws
use mathlib.Core.WellFounded.{Acc}
use cyan_flame_control_plane.Prelude.{
  ℕ, zero, suc, ◌/◌, ◌%◌, ◌<◌, arith, ◌==◌, if◌then◌else◌, lt_wf, ok, ◌>>=◌,
}
use cyan_flame_control_plane.Galois.Element.{GaloisElement, GaloisResult, new, mul}

pub halves : (n : ℕ) → suc n / 2 < suc n
halves n = omega arith

-- The `while exp > 0` loop, by recursion on the fall of `exp`.
unfoldable pub pow_loop :
    GaloisElement → GaloisElement → (exp : ℕ) → Acc ◌<◌ exp → GaloisResult GaloisElement
pow_loop result base exp (Acc.intro zero _) = ok result
pow_loop result base exp (Acc.intro (suc n) smaller) = do
  result' ← if suc n % 2 == 1 then mul result base else ok result
  base' ← mul base base
  pow_loop result' base' (suc n / 2) (smaller (suc n / 2) (halves n))

unfoldable pub pow : GaloisElement → ℕ → GaloisResult GaloisElement
pow e exponent = do
  one ← new 1 e.modulus
  if exponent == 0 then ok one else pow_loop one e exponent (lt_wf.apply exponent)
