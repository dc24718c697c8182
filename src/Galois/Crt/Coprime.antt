-- ===== src/Galois/Crt/Coprime.antt =====
-- Coprime numbers, inverses modulo a number, and what divides a product.
use native.Mathlib.Nat.{
  dvd_of_mod-eq-zero, mod-eq-zero_of_dvd, mul-dvd-mul_right, one-dvd, le_of_dvd, eq-one_of_dvd-one,
  dvd-mod_iff, dvd-mul_right_of_dvd, dvd-mul_left_of_dvd, mod-eq_of_lt, mod-lt, mul_comm,
  dvd-mul_right, mul-sub, mod-add-div, mul-div_cancel',
}
use Prim.Native.Nat.{◌∣◌}
use native.Mathlib.Decide.{dec_lt}
use cyan_flame_control_plane.Prelude.{
  ℕ, ◌-◌, ◌*◌, ◌/◌, ◌%◌, ◌<◌, ◌≡◌, ap, sym, ◌∙◌, subst, arith, List, [], ◌∷◌, All,
}
use cyan_flame_control_plane.Prelude.Modular.{mod-mul-mod, mul-mod-mod}
use cyan_flame_control_plane.Galois.Inverse.{extended_euclid}
use cyan_flame_control_plane.Galois.Inverse.Euclid.{extended_euclid-dvd}
use cyan_flame_control_plane.Galois.Inverse.Laws.{mended-inverts}
use cyan_flame_control_plane.Galois.Crt.Decompose.{product_of}

abbrev pub IsCoprime : ℕ → ℕ → Type 0
IsCoprime a b = (d : ℕ) → d ∣ a → d ∣ b → d ≡ 1

abbrev pub HasInverse : ℕ → ℕ → Type 0
HasInverse a m = (c : ℕ) × ((a * c) % m ≡ 1 % m)

pub coprime_gcd : (a m : ℕ) → IsCoprime a m → (extended_euclid m (a % m)).0 ≡ 1
coprime_gcd a m h =
    let (g_m, g_r) = extended_euclid-dvd m (a % m) in
    h (extended_euclid m (a % m)).0 ((dvd-mod_iff (extended_euclid m (a % m)).0 g_m).0 g_r) g_m

pub coprime-HasInverse : (a m : ℕ) → 0 < m → IsCoprime a m → HasInverse a m
coprime-HasInverse a m p h =
    let (w, _, _, u) = mended-inverts m (a % m) (mod-lt a p) (omega (arith, coprime_gcd a m h)) in
    (w, ap (λ (t : ℕ). t % m) (mul_comm a w) ∙ sym (mul-mod-mod w a m) ∙ u)

pub mul-HasInverse : (a b m : ℕ) → HasInverse a m → HasInverse b m → HasInverse (a * b) m
mul-HasInverse a b m (c, p) (d, q) = (
  c * d,
  ap (λ (t : ℕ). t % m) (omega arith)
      ∙ sym (mod-mul-mod (a * c) (b * d) m)
      ∙ ap (λ (t : ℕ). (t * (b * d)) % m) p
      ∙ mod-mul-mod 1 (b * d) m
      ∙ ap (λ (t : ℕ). t % m) (omega arith)
      ∙ q,
)

pub HasInverse-IsCoprime : (a m : ℕ) → 1 < m → HasInverse a m → IsCoprime a m
HasInverse-IsCoprime a m lt (c, p) d da dm =
    eq-one_of_dvd-one
      (subst (◌∣◌ d) (p ∙ mod-eq_of_lt lt) ((dvd-mod_iff d dm).1 (dvd-mul_right_of_dvd d da c)))

-- A divisor of `a * k` divides `k`, where `a` has an inverse modulo the divisor.
pub dvd_of_dvd-mul : (a k m : ℕ) → HasInverse a m → m ∣ a * k → m ∣ k
dvd_of_dvd-mul a k m (c, p) h = dvd_of_mod-eq-zero m (
    ap (λ (t : ℕ). t % m) (omega arith)
    ∙ sym (mod-mul-mod 1 k m)
    ∙ ap (λ (t : ℕ). (t * k) % m) (sym p)
    ∙ mod-mul-mod (a * c) k m
    ∙ ap (λ (t : ℕ). t % m) (omega arith)
    ∙ mod-eq-zero_of_dvd m (dvd-mul_left_of_dvd m h c))

pub product-HasInverse :
    (m : ℕ) (ps : List ℕ) → All (λ p. HasInverse p m) ps → HasInverse (product_of ps) m
product-HasInverse m [] h = (1, ap (λ (t : ℕ). t % m) (omega arith))
product-HasInverse m (p ∷ ps) h =
    mul-HasInverse p (product_of ps) m h.0 (product-HasInverse m ps h.1)

abbrev pub AllCoprime : List ℕ → Type 0
AllCoprime [] = Unit
AllCoprime (p ∷ ps) = All (IsCoprime p) ps × AllCoprime ps

pub IsCoprime-symm : (a b : ℕ) → IsCoprime a b → IsCoprime b a
IsCoprime-symm a b h d db da = h d da db

inverses_of_coprime :
    (p : ℕ) (ps : List ℕ) → 0 < p → All (IsCoprime p) ps → All (λ q. HasInverse q p) ps
inverses_of_coprime p [] h c = tt
inverses_of_coprime p (q ∷ ps) h c =
    (coprime-HasInverse q p h (IsCoprime-symm p q c.0), inverses_of_coprime p ps h c.1)

-- What each of several pairwise coprime numbers divides, their product divides.
pub product-dvd :
    (d : ℕ) (ps : List ℕ)
    → All (λ p. 0 < p) ps
    → AllCoprime ps
    → All (λ p. p ∣ d) ps
    → product_of ps ∣ d
product-dvd d [] h c each = one-dvd d
product-dvd d (p ∷ ps) h c each =
    let total = product_of ps in
    let whole = mul-div_cancel' total (product-dvd d ps h.1 c.1 each.1) in
    let inverse = product-HasInverse p ps (inverses_of_coprime p ps h.0 c.0) in
    let part = dvd_of_dvd-mul total (d / total) p inverse (subst (◌∣◌ p) (sym whole) each.0) in
    subst (◌∣◌ (p * total)) (mul_comm (d / total) total ∙ whole) (mul-dvd-mul_right p part total)

-- Numbers with one remainder differ by a multiple of the divisor.
dvd-sub_of_mod-eq : (x y p : ℕ) → x % p ≡ y % p → p ∣ x - y
dvd-sub_of_mod-eq x y p e =
    subst (◌∣◌ p) (omega (arith, mul-sub p (x / p) (y / p), mod-add-div x p, mod-add-div y p))
      (dvd-mul_right p (x / p - y / p))

differences : (x y : ℕ) (ps : List ℕ) → All (λ p. x % p ≡ y % p) ps → All (λ p. p ∣ x - y) ps
differences x y [] e = tt
differences x y (p ∷ ps) e = (dvd-sub_of_mod-eq x y p e.0, differences x y ps e.1)

-- Below the product of pairwise coprime moduli, a number is determined by its remainders.
pub crt_unique :
    (x y : ℕ) (ps : List ℕ)
    → All (λ p. 0 < p) ps
    → AllCoprime ps
    → x < product_of ps
    → y < product_of ps
    → All (λ p. x % p ≡ y % p) ps
    → x ≡ y
crt_unique x y ps h c lx ly each = elim (dec_lt x y) [
  | yes lt ↦ absurd (
      omega (
        arith,
        le_of_dvd (omega arith) (product-dvd (y - x) ps h c (differences y x ps (flip ps each))),
      ))
  | no ge ↦ elim (dec_lt y x) [
    | yes lt ↦ absurd (
        omega
          (arith, le_of_dvd (omega arith) (product-dvd (x - y) ps h c (differences x y ps each))))
    | no le ↦ omega arith
  ]
]
  where
    flip : (qs : List ℕ) → All (λ p. x % p ≡ y % p) qs → All (λ p. y % p ≡ x % p) qs
    flip [] e = tt
    flip (q ∷ qs) e = (sym e.0, flip qs e.1)
