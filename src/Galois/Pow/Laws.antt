-- ===== src/Galois/Pow/Laws.antt =====
-- The binary method computes the power.
use mathlib.Core.WellFounded.{Acc}
use native.Mathlib.Nat.{pow-suc, pow-zero, mul_assoc}
use cyan_flame_control_plane.Prelude.{
  ℕ, zero, suc, ◌+◌, ◌*◌, ◌/◌, ◌%◌, ◌^◌, ◌≤◌, ◌<◌, ◌≡◌, ◌≢◌, ap, sym, ◌∙◌, arith, ok, lt_wf, false,
  inl, inr, Bool-cases, ◌==◌,
}
use cyan_flame_control_plane.Galois.Element.{GaloisElement, IsElement, residue}
use cyan_flame_control_plane.Galois.Element.Laws.{new-eq-residue}
use cyan_flame_control_plane.Galois.Element.Ring.{mul-residue, element-residue}
use cyan_flame_control_plane.Galois.Pow.{halves, pow_loop, pow}

pow-square : (b k : ℕ) → (b * b) ^ k ≡ b ^ (k + k)
pow-square b zero = simp (pow-zero)
pow-square b (suc k) =
    pow-suc (b * b) k
    ∙ ap (λ (t : ℕ). t * (b * b)) (pow-square b k)
    ∙ sym (mul_assoc (b ^ (k + k)) b b)
    ∙ ap (λ (t : ℕ). t * b) (sym (pow-suc b (k + k)))
    ∙ sym (pow-suc b (suc (k + k)))
    ∙ ap (λ (t : ℕ). b ^ t) (omega arith)

pow_even : (x b n : ℕ) → n % 2 ≢ 1 → x * (b * b) ^ (n / 2) ≡ x * b ^ n
pow_even x b n even =
    ap (λ (t : ℕ). x * t) (pow-square b (n / 2) ∙ ap (λ (t : ℕ). b ^ t) (omega arith))

pow_odd : (x b n : ℕ) → n % 2 ≡ 1 → x * b * (b * b) ^ (n / 2) ≡ x * b ^ n
pow_odd x b n odd =
    ap (λ (t : ℕ). x * b * t) (pow-square b (n / 2))
    ∙ omega (
      arith,
      ap (λ (t : ℕ). x * t) (sym (pow-suc b (n / 2 + n / 2))),
      ap (λ (t : ℕ). x * b ^ t) (exponent odd),
    )
  where
    exponent : n % 2 ≡ 1 → suc (n / 2 + n / 2) ≡ n
    exponent p = omega arith

not_zero : (n : ℕ) → (suc n == 0) ≡ false
not_zero n = ground arith

module _ (m : ℕ) (pos : 0 < m) (fits : m ≤ 2 ^ 63) where
  pow_loop-eq :
      (x b n : ℕ) (w : Acc ◌<◌ n)
      → pow_loop (residue x m) (residue b m) n w ≡ ok (residue (x * b ^ n) m)
  unfolding pow_loop
  pow_loop-eq x b n (Acc.intro zero _) =
      ap (λ (t : ℕ). ok (residue t m)) (omega (arith, ap (λ (t : ℕ). x * t) (pow-zero b)))
  pow_loop-eq x b n (Acc.intro (suc k) smaller) = elim (Bool-cases (suc k % 2 == 1)) [
    | inl odd ↦
        rw (odd, mul-residue m pos fits x b, mul-residue m pos fits b b)
          (pow_loop-eq (x * b) (b * b) (suc k / 2) (smaller (suc k / 2) (halves k))
            ∙ ap (λ (t : ℕ). ok (residue t m)) (pow_odd x b (suc k) (ground arith)))
    | inr even ↦
        rw (even, mul-residue m pos fits b b)
          (pow_loop-eq x (b * b) (suc k / 2) (smaller (suc k / 2) (halves k))
            ∙ ap (λ (t : ℕ). ok (residue t m)) (pow_even x b (suc k) (ground arith)))
  ]

  pow-residue : (v n : ℕ) → pow (residue v m) n ≡ ok (residue (v ^ n) m)
  unfolding pow
  pow-residue v zero =
      rw (new-eq-residue 1 m pos) (ap (λ (t : ℕ). ok (residue t m)) (sym (pow-zero v)))
  pow-residue v (suc n) =
      rw (new-eq-residue 1 m pos, not_zero n)
        (pow_loop-eq 1 v (suc n) (lt_wf.apply (suc n))
          ∙ ap (λ (t : ℕ). ok (residue t m)) (omega arith))

-- For every modulus from 1 to 2^63 and every exponent, the square-and-multiply loop ends, and the
-- result is the element of the power: `value ^ exponent` modulo the modulus.
pub pow-eq :
    {m : ℕ} {e : GaloisElement} (exponent : ℕ)
    → IsElement m e
    → pow e exponent ≡ ok (residue (e.value ^ exponent) m)
pow-eq {m} {e} exponent h =
    ap (λ (x : GaloisElement). pow x exponent) (element-residue h)
    ∙ pow-residue m (omega (arith, h.below)) h.fits e.value exponent
