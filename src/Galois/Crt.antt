-- ===== src/Galois/Crt.antt =====
-- `CRTDecomposition` of crates/symmetrix-galois/src/lib.rs. A `BigUint` is a natural number.
pub mod Decompose
pub mod Coprime
pub mod Terms
pub mod Reconstruct
use cyan_flame_control_plane.Prelude.{
  ℕ, zero, suc, ◌+◌, ◌*◌, ◌/◌, ◌%◌, ◌^◌, List, [], ◌∷◌, Bool, true, false, ◌&&◌, ◌==◌, ltb,
  if◌then◌else◌, get_elem?, or_panic, rem, ok, err, panic, ◌>>=◌, Outcome,
}
use cyan_flame_control_plane.Prelude.Int.{ℤ, pos, negsuc, is_negative, pos_part, ◌+ℤ◌}
use cyan_flame_control_plane.Galois.Element.{
  GaloisElement, GaloisResult, new, add, mul, cannot_invert_zero, element_not_invertible,
  incompatible_decompositions,
}
use cyan_flame_control_plane.Galois.Inverse.{extended_euclid}
use cyan_flame_control_plane.Galois.Matrix.{zip_with}

pub record CrtDecomposition : Type 0 where
  pub residues : List GaloisElement
  pub primes : List ℕ
  pub modulus_product : ℕ

-- A division of `BigUint`s panics where the divisor is 0.
abbrev pub quotient : ℕ → ℕ → GaloisResult ℕ
quotient a b = if b == 0 then panic else ok (a / b)

-- `try_into` a `u64`, or 0.
abbrev pub to_u64_or_zero : ℕ → ℕ
to_u64_or_zero n = if ltb n (2 ^ 64) then n else 0

-- The loop over the primes, with the residues in order and the product so far.
unfoldable pub decompose_loop : ℕ → List ℕ → ℕ → GaloisResult (List GaloisElement × ℕ)
unfolding new
decompose_loop value [] product = ok ([], product)
decompose_loop value (prime ∷ primes) product = do
  residue ← rem value prime
  element ← new (to_u64_or_zero residue) prime
  (rest, total) ← decompose_loop value primes (product * prime)
  ok (element ∷ rest, total)

unfoldable pub decompose : ℕ → List ℕ → GaloisResult CrtDecomposition
unfolding decompose_loop
decompose value primes = do
  (residues, product) ← decompose_loop value primes 1
  ok (record { residues = residues; primes = primes; modulus_product = product })

-- The end of `mod_inverse`, after the loop over `BigInt`s; `to_biguint` of a negative number is
-- `None`, for which 0 is returned.
unfoldable pub mod_inverse_end : ℕ → ℕ × ℤ → GaloisResult ℕ
unfolding ◌+ℤ◌
mod_inverse_end m (old_r, old_s) =
    if ltb 1 old_r
    then err element_not_invertible
    else ok (pos_part (if is_negative old_s then old_s +ℤ pos m else old_s))

unfoldable pub mod_inverse : ℕ → ℕ → GaloisResult ℕ
unfolding mod_inverse_end
mod_inverse a m = if a == 0 then err cannot_invert_zero else mod_inverse_end m (extended_euclid m a)

-- The loop over the residues, from index `i` on.
unfoldable pub reconstruct_loop : List ℕ → ℕ → List GaloisElement → ℕ → ℕ → GaloisResult ℕ
unfolding mod_inverse
reconstruct_loop primes product [] i result = ok result
reconstruct_loop primes product (residue ∷ residues) i result = do
  prime ← or_panic (get_elem? primes i)
  m_i ← quotient product prime
  m_i_mod ← rem m_i prime
  m_i_inv ← mod_inverse m_i_mod prime
  result' ← rem (result + residue.value * m_i * m_i_inv) product
  reconstruct_loop primes product residues (i + 1) result'

unfoldable pub reconstruct : CrtDecomposition → GaloisResult ℕ
unfolding reconstruct_loop
reconstruct d = reconstruct_loop d.primes d.modulus_product d.residues 0 0

abbrev pub list_eq : List ℕ → List ℕ → Bool
list_eq [] [] = true
list_eq [] (y ∷ ys) = false
list_eq (x ∷ xs) [] = false
list_eq (x ∷ xs) (y ∷ ys) = x == y && list_eq xs ys

-- The body that `add` and `mul` share.
unfoldable pub combine :
    (GaloisElement → GaloisElement → GaloisResult GaloisElement)
    → CrtDecomposition
    → CrtDecomposition
    → GaloisResult CrtDecomposition
unfolding zip_with
combine op a b =
    let zipped = zip_with op a.residues b.residues in
    if list_eq a.primes b.primes
    then (zipped >>= λ residues. ok (record a { residues = residues }))
    else err incompatible_decompositions

unfoldable pub crt_add : CrtDecomposition → CrtDecomposition → GaloisResult CrtDecomposition
unfolding combine
crt_add a b = combine add a b

unfoldable pub crt_mul : CrtDecomposition → CrtDecomposition → GaloisResult CrtDecomposition
unfolding combine
crt_mul a b = combine mul a b
