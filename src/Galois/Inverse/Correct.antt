-- ===== src/Galois/Inverse/Correct.antt =====
-- What callers may rely on: `inverse` decides invertibility, and `div` undoes `mul`.
use native.Mathlib.Nat.{mod-eq_of_lt, mul_assoc, mul_comm, zero-mod}
use cyan_flame_control_plane.Prelude.{
  ℕ, ◌*◌, ◌%◌, ◌<◌, ◌≡◌, ◌↔◌, ap, sym, ◌∙◌, subst, arith, ok, ◌>>=◌, inl, inr,
}
use cyan_flame_control_plane.Prelude.Modular.{mod-mul-mod, mul-mod-mod}
use cyan_flame_control_plane.Galois.Element.{GaloisElement, GaloisResult, IsElement, residue, mul}
use cyan_flame_control_plane.Galois.Element.Laws.{mul-eq, residue-IsElement}
use cyan_flame_control_plane.Galois.Element.Ring.{element-residue}
use cyan_flame_control_plane.Galois.Inverse.{inverse, div}
use cyan_flame_control_plane.Galois.Inverse.Laws.{inverse-cases, unit_gcd, inverse_value}

-- From `w v = 1` and `v b = 1` it follows that `w = b`.
inverse_unique : (w v b m : ℕ) → (w * v) % m ≡ 1 % m → (v * b) % m ≡ 1 % m → w % m ≡ b % m
inverse_unique w v b m p q =
    ap (λ (t : ℕ). t % m) (omega arith)
    ∙ sym (mul-mod-mod w 1 m)
    ∙ ap (λ (t : ℕ). (w * t) % m) (sym q)
    ∙ mul-mod-mod w (v * b) m
    ∙ ap (λ (t : ℕ). t % m) (omega arith)
    ∙ sym (mod-mul-mod (w * v) b m)
    ∙ ap (λ (t : ℕ). (t * b) % m) p
    ∙ mod-mul-mod 1 b m
    ∙ ap (λ (t : ℕ). t % m) (omega arith)

result_eq :
    {v w m : ℕ}
    → v ≡ w
    → ◌≡◌ {A = GaloisResult GaloisElement}
        (ok (record { value = v; modulus = m }))
        (ok (record { value = w; modulus = m }))
result_eq {m} p = ap (λ (t : ℕ). ok (record { value = t; modulus = m })) p

residue-injective :
    (x y m : ℕ)
    → ◌≡◌ {A = GaloisResult GaloisElement} (ok (residue x m)) (ok (residue y m))
    → x % m ≡ y % m
residue-injective x y m p = cc

module _ {m : ℕ} {e : GaloisElement} (h : IsElement m e) (one : 1 < m) where
  inverse_sound :
      (b : GaloisElement) → inverse e ≡ ok b → IsElement m b × (mul e b ≡ ok (residue 1 m))
  inverse_sound b q = elim (inverse-cases h) [
    | inl (p, u) ↦
        subst (λ x. IsElement m x × (mul e x ≡ ok (residue 1 m))) (ground (arith, p, q)) (good u)
    | inr (inl (p, _)) ↦ cc
    | inr (inr (p, _, _)) ↦ cc
  ]
    where
      good :
          (inverse_value h * e.value) % m ≡ 1 % m
          → IsElement m (residue (inverse_value h) m)
            × (mul e (residue (inverse_value h) m) ≡ ok (residue 1 m))
      good u =
          let valid = residue-IsElement (inverse_value h) m (omega arith) h.fits in
          (
            valid,
            mul-eq h valid
                ∙ result_eq (
                    mul-mod-mod e.value (inverse_value h) m
                    ∙ ap (λ (t : ℕ). t % m) (mul_comm e.value (inverse_value h))
                    ∙ u),
          )

  inverse_complete :
      (b : GaloisElement) → IsElement m b → mul e b ≡ ok (residue 1 m) → inverse e ≡ ok b
  inverse_complete b hb u = elim (inverse-cases h) [
    | inl (p, w) ↦
        p
        ∙ result_eq (inverse_unique (inverse_value h) e.value b.value m w product)
        ∙ ap (λ (x : GaloisElement). ok x) (sym (element-residue hb))
    | inr (inl (p, z)) ↦ absurd (omega (arith, product', ap (λ (t : ℕ). t * b.value) z, zero-mod m))
    | inr (inr (p, _, lt)) ↦
        absurd (omega (arith, unit_gcd e.modulus e.value b.value (rw h.same product')))
  ]
    where
      product : (e.value * b.value) % m ≡ 1 % m
      product = residue-injective (e.value * b.value) 1 m (sym (mul-eq h hb) ∙ u)

      product' : (e.value * b.value) % m ≡ 1
      product' = product ∙ mod-eq_of_lt one

  -- `inverse` returns `b` exactly where `b` is an element of the field whose product with the
  -- given one is 1, for a modulus from 2 to 2^63. So it finds an inverse whenever there is one.
  pub inverse_iff :
      (b : GaloisElement) → (inverse e ≡ ok b) ↔ (IsElement m b × (mul e b ≡ ok (residue 1 m)))
  inverse_iff b = (inverse_sound b, λ p. inverse_complete b p.0 p.1)

  -- Division undoes multiplication by an invertible element `b`: `a * b / b` is `a`.
  div-mul :
      {a b : GaloisElement} → IsElement m a → inverse e ≡ ok b → (mul a e >>= λ p. div p e) ≡ ok a
  unfolding div
  div-mul {a} {b} ha q =
      let (hb, u) = inverse_sound b q in
      let hp = residue-IsElement (a.value * e.value) m (omega arith) h.fits in
      rw (mul-eq ha h, q, mul-eq hp hb)
        (result_eq (
            mod-mul-mod (a.value * e.value) b.value m
            ∙ ap (λ (t : ℕ). t % m) (mul_assoc a.value e.value b.value)
            ∙ sym (mul-mod-mod a.value (e.value * b.value) m)
            ∙ ap (λ (t : ℕ). (a.value * t) % m)
                (residue-injective (e.value * b.value) 1 m (sym (mul-eq h hb) ∙ u))
            ∙ mul-mod-mod a.value 1 m
            ∙ ap (λ (t : ℕ). t % m) (omega arith))
          ∙ ap (λ (x : GaloisElement). ok x) (sym (element-residue ha)))
