-- ===== src/Galois/Element/Ring.antt =====
-- The elements with one modulus form a commutative ring under the operations of the program.
use cyan_flame_control_plane.Prelude.{
  ℕ, ◌+◌, ◌-◌, ◌*◌, ◌%◌, ◌^◌, ◌≤◌, ◌<◌, ◌≡◌, ap, sym, ◌∙◌, arith, ok, ◌>>=◌,
}
use cyan_flame_control_plane.Prelude.Modular.{mod-mul-mod, mul-mod-mod, mod-add-sub, add-sub-mod}
use cyan_flame_control_plane.Galois.Element.{
  GaloisElement, GaloisResult, IsElement, residue, add, sub, mul, neg,
}
use cyan_flame_control_plane.Galois.Element.Laws.{add-eq, sub-eq, mul-eq, neg-eq, residue-IsElement}
use native.Mathlib.Nat.{add-mod, mod-eq_of_lt}

module _ (m : ℕ) (pos : 0 < m) (fits : m ≤ 2 ^ 63) where
  pub add-residue : (x y : ℕ) → add (residue x m) (residue y m) ≡ ok (residue (x + y) m)
  add-residue x y =
      add-eq (residue-IsElement x m pos fits) (residue-IsElement y m pos fits)
      ∙ ap (λ (t : ℕ). ok (record { value = t; modulus = m })) (sym (add-mod x y m))

  pub mul-residue : (x y : ℕ) → mul (residue x m) (residue y m) ≡ ok (residue (x * y) m)
  mul-residue x y =
      mul-eq (residue-IsElement x m pos fits) (residue-IsElement y m pos fits)
      ∙ ap (λ (t : ℕ). ok (record { value = t; modulus = m }))
          (mod-mul-mod x (y % m) m ∙ mul-mod-mod x y m)

  pub neg-residue : (x : ℕ) → neg (residue x m) ≡ ok (residue (m - x % m) m)
  neg-residue x = neg-eq (residue-IsElement x m pos fits)

  pub sub-residue : (x y : ℕ) → sub (residue x m) (residue y m) ≡ ok (residue (x % m + m - y % m) m)
  sub-residue x y = sub-eq (residue-IsElement x m pos fits) (residue-IsElement y m pos fits)

pub element-residue : {m : ℕ} {a : GaloisElement} → IsElement m a → a ≡ residue a.value m
element-residue {m} {a} h = ground (arith, mod-eq_of_lt {n = a.value} {m = m} h.below)

module _ (m : ℕ) (pos : 0 < m) (fits : m ≤ 2 ^ 63) where
  residue_eq :
      {x y : ℕ} → x ≡ y → ◌≡◌ {A = GaloisResult GaloisElement} (ok (residue x m)) (ok (residue y m))
  residue_eq e = ap (λ (t : ℕ). ok (residue t m)) e

  same :
      {v w : ℕ}
      → v ≡ w
      → ◌≡◌ {A = GaloisResult GaloisElement}
          (ok (record { value = v; modulus = m }))
          (ok (record { value = w; modulus = m }))
  same e = ap (λ (t : ℕ). ok (record { value = t; modulus = m })) e

  residue_laws :
      (x y z : ℕ)
      → let a = residue x m in
        let b = residue y m in
        let c = residue z m in
        (add a b ≡ add b a)
        × (mul a b ≡ mul b a)
        × ((add a b >>= λ s. add s c) ≡ (add b c >>= λ s. add a s))
        × ((mul a b >>= λ p. mul p c) ≡ (mul b c >>= λ p. mul a p))
        × ((add b c >>= λ s. mul a s) ≡ (mul a b >>= λ p. mul a c >>= λ q. add p q))
        × ((add a b >>= λ s. sub s b) ≡ ok a)
        × ((neg a >>= λ n. add a n) ≡ ok (residue 0 m))
  residue_laws x y z = (
    rw (add-residue m pos fits x y, add-residue m pos fits y x) (residue_eq (omega arith)),
    rw (mul-residue m pos fits x y, mul-residue m pos fits y x) (residue_eq (omega arith)),
    rw
        (
          add-residue m pos fits x y,
          add-residue m pos fits y z,
          add-residue m pos fits (x + y) z,
          add-residue m pos fits x (y + z),
        )
        (residue_eq (omega arith)),
    rw
        (
          mul-residue m pos fits x y,
          mul-residue m pos fits y z,
          mul-residue m pos fits (x * y) z,
          mul-residue m pos fits x (y * z),
        )
        (residue_eq (omega arith)),
    rw
        (
          add-residue m pos fits y z,
          mul-residue m pos fits x (y + z),
          mul-residue m pos fits x y,
          mul-residue m pos fits x z,
          add-residue m pos fits (x * y) (x * z),
        )
        (residue_eq (omega arith)),
    rw (add-residue m pos fits x y, sub-residue m pos fits (x + y) y)
        (same (mod-add-sub x y m pos)),
    rw (neg-residue m pos fits x, add-residue m pos fits x (m - x % m))
        (same (add-sub-mod x m pos)),
  )

module _ {m : ℕ} {a b c : GaloisElement} (ha : IsElement m a) (hb : IsElement m b)
    (hc : IsElement m c) where
  m_pos : 0 < m
  m_pos = omega (arith, ha.below)

  laws :
      (add a b ≡ add b a)
      × (mul a b ≡ mul b a)
      × ((add a b >>= λ s. add s c) ≡ (add b c >>= λ s. add a s))
      × ((mul a b >>= λ p. mul p c) ≡ (mul b c >>= λ p. mul a p))
      × ((add b c >>= λ s. mul a s) ≡ (mul a b >>= λ p. mul a c >>= λ q. add p q))
      × ((add a b >>= λ s. sub s b) ≡ ok a)
      × ((neg a >>= λ n. add a n) ≡ ok (residue 0 m))
  laws =
      rw (element-residue ha, element-residue hb, element-residue hc)
        (residue_laws m m_pos ha.fits a.value b.value c.value)

  add_zero : add a (residue 0 m) ≡ ok a
  add_zero =
      rw (element-residue ha, add-residue m m_pos ha.fits a.value 0)
        (ap (λ (t : ℕ). ok (residue t m)) (omega arith))

  mul_one : mul a (residue 1 m) ≡ ok a
  mul_one =
      rw (element-residue ha, mul-residue m m_pos ha.fits a.value 1)
        (ap (λ (t : ℕ). ok (residue t m)) (omega arith))

  -- Elements of one modulus `m`, at most 2^63, form a commutative ring: sums and products commute
  -- and associate, products distribute over sums, a sum less its second summand is the first, an
  -- element and its negation add up to zero, and adding zero and multiplying by one change nothing.
  -- No operation panics: each gives the residue of the number that it stands for.
  pub ring_laws :
      (add a b ≡ add b a)
      × (mul a b ≡ mul b a)
      × ((add a b >>= λ s. add s c) ≡ (add b c >>= λ s. add a s))
      × ((mul a b >>= λ p. mul p c) ≡ (mul b c >>= λ p. mul a p))
      × ((add b c >>= λ s. mul a s) ≡ (mul a b >>= λ p. mul a c >>= λ q. add p q))
      × ((add a b >>= λ s. sub s b) ≡ ok a)
      × ((neg a >>= λ n. add a n) ≡ ok (residue 0 m))
      × (add a (residue 0 m) ≡ ok a)
      × (mul a (residue 1 m) ≡ ok a)
      × (add a b ≡ ok (residue (a.value + b.value) m))
      × (mul a b ≡ ok (residue (a.value * b.value) m))
      × (sub a b ≡ ok (residue (a.value + m - b.value) m))
      × (neg a ≡ ok (residue (m - a.value) m))
  ring_laws =
      let (add_comm, mul_comm, add_assoc, mul_assoc, distrib, cancel, inverse) = laws in
      (
        add_comm,
        mul_comm,
        add_assoc,
        mul_assoc,
        distrib,
        cancel,
        inverse,
        add_zero,
        mul_one,
        add-eq ha hb,
        mul-eq ha hb,
        sub-eq ha hb,
        neg-eq ha,
      )
