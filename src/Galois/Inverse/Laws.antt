-- ===== src/Galois/Inverse/Laws.antt =====
-- `inverse` finds the multiplicative inverse exactly where there is one.
use native.Mathlib.Nat.{mod-eq_of_lt, eq-one_of_dvd-one, dvd-mod_iff, dvd-mul_right_of_dvd}
use Prim.Native.Nat.{◌∣◌}
use native.Mathlib.Decide.{dec_lt}
use cyan_flame_control_plane.Prelude.{
  ℕ, zero, suc, ◌+◌, ◌-◌, ◌*◌, ◌%◌, ◌^◌, ◌≤◌, ◌<◌, ◌≡◌, ◌⊎◌, ap, ◌∙◌, subst, arith, ok, err, inl,
  inr, if◌then◌else◌,
}
use cyan_flame_control_plane.Prelude.Int.{ℤ, pos, neg, is_negative, ◌+ℤ◌}
use cyan_flame_control_plane.Prelude.Modular.{mod-eq_of_shift}
use cyan_flame_control_plane.Galois.Element.{
  GaloisElement, IsElement, residue, division_by_zero, invalid_element,
}
use cyan_flame_control_plane.Galois.Element.Laws.{new-eq-residue}
use cyan_flame_control_plane.Galois.Inverse.{extended_euclid, as_u64, inverse}
use cyan_flame_control_plane.Galois.Inverse.Euclid.{
  Bezout, extended_euclid-Bezout, extended_euclid-dvd, even, odd,
}

-- The coefficient after its sign is mended, and the value that `inverse` hands to `new`.
abbrev pub mended : ℕ → ℤ → ℤ
mended m s = if is_negative s then s +ℤ pos m else s

abbrev pub coefficient : ℕ → ℤ → ℕ
coefficient m s = as_u64 (mended m s)

mended-neg : (m x : ℕ) → x ≤ m → 0 < x → mended m (neg x) ≡ pos (m - x)
unfolding ◌+ℤ◌
mended-neg m zero le p = absurd (omega arith)
mended-neg m (suc x) le p = ground arith

-- At the end of the loop the modulus is the second magnitude, so the first one is at most that.
mended_mul :
    (m v : ℕ) (s t : ℤ)
    → Bezout m v 1 0 s t
    → (w : ℕ) × (mended m s ≡ pos w) × (w ≤ m) × ((w * v) % m ≡ 1 % m)
mended_mul m v s t (even zero y k l es et e1 e2 e3 le) =
    (0, rw es, omega arith, mod-eq_of_shift (0 * v) 1 l 0 m (omega arith))
mended_mul m v s t (even (suc x) y k l es et e1 e2 e3 le) = (
  m - suc x,
  rw es (mended-neg m (suc x) (omega arith) (omega arith)),
  omega arith,
  mod-eq_of_shift ((m - suc x) * v) 1 l v m (omega (arith, ap (λ (n : ℕ). n * v) gap)),
)
  where
    gap : m - suc x + suc x ≡ m
    gap = omega arith
mended_mul m v s t (odd x y k l es et e1 e2 e3 le) =
    (x, rw es, omega arith, mod-eq_of_shift (x * v) 1 0 l m (omega arith))

last-Bezout : (m v g : ℕ) (s t : ℤ) → 0 < m → g ≤ 1 → Bezout m v g 0 s t → g ≡ 1
last-Bezout m v zero s t p le (even x y k l es et e1 e2 e3 _) = absurd (omega arith)
last-Bezout m v zero s t p le (odd x y k l es et e1 e2 e3 _) = absurd (omega arith)
last-Bezout m v (suc g) s t p le _ = omega arith

-- Where the remainder that is left is 1, the mended coefficient inverts the value.
pub mended-inverts :
    (m v : ℕ)
    → v < m
    → (extended_euclid m v).0 ≤ 1
    → (w : ℕ) × (mended m (extended_euclid m v).1 ≡ pos w) × (w ≤ m) × ((w * v) % m ≡ 1 % m)
mended-inverts m v lt le =
    let (t, b) = extended_euclid-Bezout m v lt in
    mended_mul m v _ t (
      subst (λ g. Bezout m v g 0 (extended_euclid m v).1 t)
        (last-Bezout m v _ _ t (omega arith) le b) b)

-- A value with an inverse is coprime to the modulus.
pub unit_gcd : (m v c : ℕ) → (v * c) % m ≡ 1 → (extended_euclid m v).0 ≡ 1
unit_gcd m v c u =
    let (g_m, g_v) = extended_euclid-dvd m v in
    eq-one_of_dvd-one (
      subst (◌∣◌ (extended_euclid m v).0) u (
        (dvd-mod_iff (extended_euclid m v).0 g_m).1
          (dvd-mul_right_of_dvd (extended_euclid m v).0 g_v c)))

module _ {m : ℕ} {e : GaloisElement} (h : IsElement m e) where
  abbrev pub euclid_gcd : ℕ
  euclid_gcd = (extended_euclid e.modulus e.value).0

  abbrev pub inverse_value : ℕ
  inverse_value = coefficient e.modulus (extended_euclid e.modulus e.value).1

  -- Each of the three ends of `inverse`.
  inverse-zero : e.value ≡ 0 → inverse e ≡ err division_by_zero
  unfolding inverse
  inverse-zero z = ground arith

  inverse-not_coprime :
      0 < e.value → 1 < euclid_gcd → inverse e ≡ err (invalid_element e.value e.modulus)
  unfolding inverse
  inverse-not_coprime p lt = ground arith

  inverse-coprime : 0 < e.value → euclid_gcd ≤ 1 → inverse e ≡ ok (residue inverse_value m)
  unfolding inverse
  inverse-coprime p le = ground (arith, new-eq-residue inverse_value m)

  inverse_value_mul : euclid_gcd ≤ 1 → (inverse_value * e.value) % m ≡ 1 % m
  inverse_value_mul le = rw h.same (
      let (w, ew, bound, u) = mended-inverts m e.value h.below (rw h.same at le) in
      ap (λ (c : ℤ). (as_u64 c * e.value) % m) ew
      ∙ ap (λ (n : ℕ). (n * e.value) % m)
          (mod-eq_of_lt {n = w} {m = 2 ^ 64} (omega (arith, h.fits)))
      ∙ u)

  pub inverse-cases :
      (inverse e ≡ ok (residue inverse_value m)) × ((inverse_value * e.value) % m ≡ 1 % m)
      ⊎ (inverse e ≡ err division_by_zero) × (e.value ≡ 0)
      ⊎ (inverse e ≡ err (invalid_element e.value e.modulus)) × (0 < e.value) × (1 < euclid_gcd)
  inverse-cases = elim (dec_lt 0 e.value) [
    | no z ↦ inr (inl (inverse-zero (omega arith), omega arith))
    | yes p ↦ elim (dec_lt 1 euclid_gcd) [
      | yes lt ↦ inr (inr (inverse-not_coprime p lt, p, lt))
      | no le ↦ inl (inverse-coprime p (omega arith), inverse_value_mul (omega arith))
    ]
  ]
