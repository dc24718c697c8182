-- ===== src/Galois/Element.antt =====
-- `GaloisElement` of crates/symmetrix-galois/src/lib.rs. The build is the release profile:
-- `u64` arithmetic wraps and `debug_assert_eq!` is not compiled in.
pub mod Laws
pub mod Ring
use cyan_flame_control_plane.Prelude.{
  ℕ, ◌+◌, ◌-◌, ◌*◌, ◌%◌, ◌^◌, ◌≤◌, ◌<◌, ◌≡◌, Bool, List, [], ◌∷◌, ◌==◌, leb, if◌then◌else◌, u64,
  add64, sub64, rem, replicate, Outcome, ok, err, panic, ◌>>=◌,
}

pub data GaloisError : Type 0 where
  division_by_zero : GaloisError
  invalid_element : (value modulus : ℕ) → GaloisError
  cannot_invert_zero element_not_invertible incompatible_decompositions : GaloisError
  dimension_mismatch : (expected actual : ℕ) → GaloisError

abbrev pub GaloisResult {ℓ} : Type ℓ → Type ℓ
GaloisResult A = Outcome GaloisError A

abbrev pub mersenne_61 : ℕ
mersenne_61 = 2 ^ 61 - 1

pub record GaloisElement : Type 0 where
  pub value : ℕ
  pub modulus : ℕ

-- The element that `new` makes of a value where the modulus is positive.
abbrev pub residue : ℕ → ℕ → GaloisElement
residue v m = record { value = v % m; modulus = m }

unfoldable pub new : ℕ → ℕ → GaloisResult GaloisElement
new value modulus = do v ← rem value modulus; ok (record { value = v; modulus = modulus })

unfoldable pub mersenne : ℕ → GaloisResult GaloisElement
unfolding new
mersenne value = new value mersenne_61

abbrev pub is_zero : GaloisElement → Bool
is_zero e = e.value == 0

abbrev pub is_one : GaloisElement → Bool
is_one e = e.value == 1

unfoldable pub add : GaloisElement → GaloisElement → GaloisResult GaloisElement
unfolding new
add a b = do sum ← rem (add64 a.value b.value) a.modulus; new sum a.modulus

unfoldable pub sub : GaloisElement → GaloisElement → GaloisResult GaloisElement
unfolding new
sub a b =
    let diff =
      if leb b.value a.value then a.value - b.value else sub64 a.modulus (b.value - a.value) in
    new diff a.modulus

unfoldable pub mul : GaloisElement → GaloisElement → GaloisResult GaloisElement
unfolding new
mul a b = do product ← rem (a.value * b.value) a.modulus; new (u64 product) a.modulus

unfoldable pub neg : GaloisElement → GaloisResult GaloisElement
unfolding new
neg a = if is_zero a then ok a else new (sub64 a.modulus a.value) a.modulus

-- `coeffs[0] = *self` on the vector of `degree + 1` zeros.
unfoldable pub to_polynomial_coeffs : GaloisElement → ℕ → GaloisResult (List GaloisElement)
unfolding new
to_polynomial_coeffs a degree = do z ← new 0 a.modulus; ok (a ∷ replicate degree z)

-- What `new` guarantees of an element with the modulus `m`, for a modulus that leaves room for the
-- sum of two values in a word.
pub record IsElement (m : ℕ) (a : GaloisElement) : Type 0 where
  pub same : a.modulus ≡ m
  pub below : a.value < m
  pub fits : m ≤ 2 ^ 63
