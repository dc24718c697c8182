-- ===== src/Galois/Crt/Terms.antt =====
-- One round of `reconstruct`: the inverse that it finds, and the remainders of the new sum.
use native.Mathlib.Nat.{
  dvd_of_mod-eq-zero, mod-eq-zero_of_dvd, dvd_refl, dvd-mul_right_of_dvd, add-mod,
  dvd-mul_left_of_dvd, mod-mod_of_dvd, mod-mod, mod-lt, mul_comm, mul_assoc,
}
use Prim.Native.Nat.{◌∣◌}
use cyan_flame_control_plane.Prelude.{
  ℕ, ◌+◌, ◌*◌, ◌%◌, ◌<◌, ◌≡◌, ap, sym, ◌∙◌, arith, true, inl, inr, Bool-cases, ◌==◌, ok,
}
use cyan_flame_control_plane.Prelude.Int.{pos_part}
use cyan_flame_control_plane.Prelude.Modular.{mod-mul-mod, mul-mod-mod}
use cyan_flame_control_plane.Galois.Inverse.Laws.{mended-inverts}
use cyan_flame_control_plane.Galois.Crt.{mod_inverse, mod_inverse_end}
use cyan_flame_control_plane.Galois.Crt.Coprime.{IsCoprime, coprime_gcd}

==_zero : (n : ℕ) → (n == 0) ≡ true → n ≡ 0
==_zero n h = ground arith

-- The inverse is found for a number that is coprime to the modulus.
pub mod_inverse-eq :
    (a m : ℕ)
    → 1 < m
    → IsCoprime a m
    → (w : ℕ) × (mod_inverse (a % m) m ≡ ok w) × ((w * a) % m ≡ 1 % m)
unfolding mod_inverse mod_inverse_end
mod_inverse-eq a m lt c = elim (Bool-cases (a % m == 0)) [
  | inl z ↦ absurd (omega (arith, c m (dvd_of_mod-eq-zero m (==_zero (a % m) z)) (dvd_refl m)))
  | inr p ↦
      let (w, ew, _, u) =
        mended-inverts m (a % m) (mod-lt a (omega arith)) (omega (arith, coprime_gcd a m c)) in
      (w, rw (p, coprime_gcd a m c) (ap (λ z. ok (pos_part z)) ew), sym (mul-mod-mod w a m) ∙ u)
]

-- The remainders of a term of the sum, by its own modulus and by the others.
pub term_own : (v p rest w : ℕ) → (w * rest) % p ≡ 1 % p → (v % p * rest * w) % p ≡ v % p
term_own v p rest w u =
    ap (λ (t : ℕ). t % p) (mul_assoc (v % p) rest w ∙ ap (λ (t : ℕ). v % p * t) (mul_comm rest w))
    ∙ mod-mul-mod v (w * rest) p
    ∙ sym (mul-mod-mod v (w * rest) p)
    ∙ ap (λ (t : ℕ). (v * t) % p) u
    ∙ mul-mod-mod v 1 p
    ∙ ap (λ (t : ℕ). t % p) (omega arith)

pub term_other : (x q rest w : ℕ) → q ∣ rest → (x * rest * w) % q ≡ 0
term_other x q rest w d =
    mod-eq-zero_of_dvd q (dvd-mul_right_of_dvd q (dvd-mul_left_of_dvd q d x) w)

sum_mod : (r t q total : ℕ) → q ∣ total → (r + t) % total % q ≡ (r % q + t % q) % q
sum_mod r t q total d = mod-mod_of_dvd q (r + t) d ∙ add-mod r t q

pub sum_other : (r t q total : ℕ) → q ∣ total → t % q ≡ 0 → (r + t) % total % q ≡ r % q
sum_other r t q total d z =
    sum_mod r t q total d
    ∙ ap (λ (n : ℕ). (r % q + n) % q) z
    ∙ ap (λ (n : ℕ). n % q) (omega arith)
    ∙ mod-mod r q

pub sum_own :
    (r t q v total : ℕ) → q ∣ total → r % q ≡ 0 → t % q ≡ v % q → (r + t) % total % q ≡ v % q
sum_own r t q v total d z e =
    sum_mod r t q total d
    ∙ ap (λ (n : ℕ). (n + t % q) % q) z
    ∙ ap (λ (n : ℕ). n % q) (omega arith)
    ∙ ap (λ (n : ℕ). n % q) e
    ∙ mod-mod v q
