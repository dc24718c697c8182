-- ===== src/Galois/Tests.antt =====
-- Runs of the code of crates/symmetrix-galois/src/lib.rs on small fields.
use cyan_flame_control_plane.Prelude.{
  ℕ, ◌+◌, ◌-◌, ◌*◌, ◌^◌, ◌≡◌, ◌↔◌, refl, arith, List, [], ◌∷◌, All, map, ok, err, ◌>>=◌, lt_wf,
}
use cyan_flame_control_plane.Prelude.Int.{◌+ℤ◌, ◌-ℤ◌, ◌*ℤ◌}
use cyan_flame_control_plane.Galois.Element.{
  GaloisElement, IsElement, residue, new, add, sub, mul, neg, mersenne_61, invalid_element,
}
use cyan_flame_control_plane.Galois.Element.Ring.{ring_laws}
use cyan_flame_control_plane.Galois.Inverse.{euclid_loop, extended_euclid, from_euclid, inverse}
use cyan_flame_control_plane.Galois.Inverse.Correct.{inverse_iff}
use cyan_flame_control_plane.Galois.Pow.{pow}
use cyan_flame_control_plane.Galois.Pow.Laws.{pow-eq}
use cyan_flame_control_plane.Galois.Matrix.{Matrix, matrix_multiply_polynomial}
use cyan_flame_control_plane.Galois.Matrix.Product.{product_row, matrix_multiply_polynomial-eq}
use cyan_flame_control_plane.Galois.Crt.{decompose, reconstruct, crt_add, crt_mul}
use cyan_flame_control_plane.Galois.Crt.Decompose.{IsModulus, crt_homomorphism}
use cyan_flame_control_plane.Galois.Crt.Coprime.{AllCoprime, HasInverse-IsCoprime}
use cyan_flame_control_plane.Galois.Crt.Reconstruct.{reconstruct-decompose}

abbrev in_seven : ℕ → GaloisElement
in_seven v = record { value = v; modulus = 7 }

abbrev three : GaloisElement
three = in_seven 3

abbrev five : GaloisElement
five = in_seven 5

three-IsElement : IsElement 7 three
three-IsElement = record { same = refl; below = omega arith; fits = omega arith }

five-IsElement : IsElement 7 five
five-IsElement = record { same = refl; below = omega arith; fits = omega arith }

inverse-three : inverse three ≡ ok five
unfolding inverse from_euclid extended_euclid euclid_loop lt_wf new ◌+ℤ◌ ◌-ℤ◌ ◌*ℤ◌
inverse-three = refl

-- 2 has no inverse modulo 6.
inverse_two : inverse (record { value = 2; modulus = 6 }) ≡ err (invalid_element 2 6)
unfolding inverse from_euclid extended_euclid euclid_loop lt_wf new ◌+ℤ◌ ◌-ℤ◌ ◌*ℤ◌
inverse_two = refl

ring_laws_example :
    (add three five ≡ add five three)
    × (mul three five ≡ mul five three)
    × ((add three five >>= λ s. add s three) ≡ (add five three >>= λ s. add three s))
    × ((mul three five >>= λ p. mul p three) ≡ (mul five three >>= λ p. mul three p))
    × ((add five three >>= λ s. mul three s)
        ≡ (mul three five >>= λ p. mul three three >>= λ q. add p q))
    × ((add three five >>= λ s. sub s five) ≡ ok three)
    × ((neg three >>= λ n. add three n) ≡ ok (residue 0 7))
    × (add three (residue 0 7) ≡ ok three)
    × (mul three (residue 1 7) ≡ ok three)
    × (add three five ≡ ok (residue (3 + 5) 7))
    × (mul three five ≡ ok (residue (3 * 5) 7))
    × (sub three five ≡ ok (residue (3 + 7 - 5) 7))
    × (neg three ≡ ok (residue (7 - 3) 7))
ring_laws_example = ring_laws three-IsElement five-IsElement three-IsElement

inverse_iff_example :
    (inverse three ≡ ok five) ↔ (IsElement 7 five × (mul three five ≡ ok (residue 1 7)))
inverse_iff_example = inverse_iff three-IsElement (omega arith) five

pow-eq_example : pow three 13 ≡ ok (residue (3 ^ 13) 7)
pow-eq_example = pow-eq 13 three-IsElement

abbrev row_matrix : Matrix
row_matrix = (three ∷ five ∷ []) ∷ []

abbrev column_matrix : Matrix
column_matrix = (five ∷ []) ∷ (three ∷ []) ∷ []

matrix_multiply_polynomial-eq_example :
    matrix_multiply_polynomial row_matrix column_matrix
    ≡ ok (map (λ row. product_row 7 row column_matrix 1 0) row_matrix)
matrix_multiply_polynomial-eq_example =
    matrix_multiply_polynomial-eq 7 1 row_matrix column_matrix (omega arith) (omega arith)
      ((refl, (three-IsElement, (five-IsElement, tt))), tt)
      ((refl, (five-IsElement, tt)), ((refl, (three-IsElement, tt)), tt))

-- The sum of 15 and 15 modulo 7 is 2, and the entry is 1 + 1 in another field.
product_field :
    product_row 7 (three ∷ five ∷ []) column_matrix 1 0
    ≡ record { value = 2; modulus = mersenne_61 } ∷ []
product_field = refl

abbrev moduli : List ℕ
moduli = 3 ∷ 5 ∷ []

moduli-IsModulus : All IsModulus moduli
moduli-IsModulus = omega arith

moduli-AllCoprime : AllCoprime moduli
moduli-AllCoprime = ((HasInverse-IsCoprime 3 5 (omega arith) (2, refl), tt), (tt, tt))

crt_homomorphism_example :
    ((decompose 11 moduli >>= λ a. decompose 13 moduli >>= λ b. crt_add a b)
      ≡ decompose (11 + 13) moduli)
    × ((decompose 11 moduli >>= λ a. decompose 13 moduli >>= λ b. crt_mul a b)
        ≡ decompose (11 * 13) moduli)
crt_homomorphism_example = crt_homomorphism 11 13 moduli moduli-IsModulus

reconstruct-decompose_example : (decompose 11 moduli >>= λ d. reconstruct d) ≡ ok 11
reconstruct-decompose_example =
    reconstruct-decompose 11 moduli moduli-IsModulus (omega arith) moduli-AllCoprime (omega arith)
