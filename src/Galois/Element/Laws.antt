-- ===== src/Galois/Element/Laws.antt =====
-- The field operations against arithmetic modulo `m`.
use cyan_flame_control_plane.Prelude.{
  ℕ, ◌+◌, ◌-◌, ◌*◌, ◌%◌, ◌^◌, ◌≤◌, ◌<◌, ◌≡◌, refl, arith, rem, ok,
}
use cyan_flame_control_plane.Galois.Element.{
  GaloisElement, GaloisError, IsElement, residue, new, add, sub, mul, neg,
}
use native.Mathlib.Nat.{mod-lt, mod-mod, mod-eq_of_lt, mod_self, add-mod_right}

pub rem-eq : (a b : ℕ) → 0 < b → rem {E = GaloisError} a b ≡ ok (a % b)
rem-eq a b h = ground arith

pub new-eq-residue : (v m : ℕ) → 0 < m → new v m ≡ ok (residue v m)
unfolding new
new-eq-residue v m h = ground arith

pub residue-IsElement : (v m : ℕ) → 0 < m → m ≤ 2 ^ 63 → IsElement m (residue v m)
residue-IsElement v m h f = record { same = refl; below = mod-lt v h; fits = f }

module _ {m : ℕ} {a b : GaloisElement} (ha : IsElement m a) (hb : IsElement m b) where
  pub add-eq : add a b ≡ ok (residue (a.value + b.value) m)
  unfolding add new
  add-eq = ground (arith, mod-mod (a.value + b.value) m)

  pub sub-eq : sub a b ≡ ok (residue (a.value + m - b.value) m)
  unfolding sub new
  sub-eq = ground (arith, add-mod_right (a.value - b.value) m)

  pub mul-eq : mul a b ≡ ok (residue (a.value * b.value) m)
  unfolding mul new
  mul-eq = ground (arith, mod-mod (a.value * b.value) m, mod-lt (a.value * b.value) {m = m})

pub neg-eq : {m : ℕ} {a : GaloisElement} → IsElement m a → neg a ≡ ok (residue (m - a.value) m)
unfolding neg new
neg-eq {m} {a} h = ground (arith, mod_self m, mod-eq_of_lt {n = m - a.value} {m = m})
