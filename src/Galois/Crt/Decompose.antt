-- ===== src/Galois/Crt/Decompose.antt =====
-- What a decomposition holds, and that sums and products are formed residue by residue.
use native.Mathlib.Nat.{mod-lt, mod-mod, mul_assoc}
use cyan_flame_control_plane.Prelude.{
  ℕ, ◌+◌, ◌*◌, ◌%◌, ◌^◌, ◌≤◌, ◌<◌, ◌≡◌, refl, ap, ◌∙◌, arith, List, [], ◌∷◌, true, All, map, ok,
  ◌>>=◌,
}
use cyan_flame_control_plane.Galois.Element.{GaloisElement, GaloisResult, residue, new, add, mul}
use cyan_flame_control_plane.Galois.Element.Laws.{rem-eq, new-eq-residue}
use cyan_flame_control_plane.Galois.Element.Ring.{add-residue, mul-residue}
use cyan_flame_control_plane.Galois.Matrix.{zip_with}
use cyan_flame_control_plane.Galois.Crt.{
  CrtDecomposition, to_u64_or_zero, decompose_loop, decompose, list_eq, combine, crt_add, crt_mul,
}

-- A modulus for which the element operations are those of the ring.
abbrev pub IsModulus : ℕ → Type 0
IsModulus p = (0 < p) × (p ≤ 2 ^ 63)

abbrev pub product_of : List ℕ → ℕ
product_of [] = 1
product_of (p ∷ ps) = p * product_of ps

abbrev pub residues_of : ℕ → List ℕ → List GaloisElement
residues_of v ps = map (λ p. residue v p) ps

abbrev pub decomposition : ℕ → List ℕ → CrtDecomposition
decomposition v ps = record {
  residues = residues_of v ps;
  primes = ps;
  modulus_product = product_of ps;
}

new-rem : (v p : ℕ) → IsModulus p → new (to_u64_or_zero (v % p)) p ≡ ok (residue v p)
new-rem v p h =
    new-eq-residue (to_u64_or_zero (v % p)) p h.0
    ∙ ap (λ (t : ℕ). ok (record { value = t; modulus = p }))
        (ap (λ (t : ℕ). t % p) (in_word (v % p) (omega (arith, mod-lt v h.0, h.1))) ∙ mod-mod v p)
  where
    in_word : (n : ℕ) → n < 2 ^ 63 → to_u64_or_zero n ≡ n
    in_word n lt = ground arith

decompose_loop-eq :
    (v : ℕ) (ps : List ℕ) (total : ℕ)
    → All IsModulus ps
    → decompose_loop v ps total ≡ ok (residues_of v ps, total * product_of ps)
unfolding decompose_loop
decompose_loop-eq v [] total h = ap (λ (t : ℕ). ok ([], t)) (omega arith)
decompose_loop-eq v (p ∷ ps) total h =
    rw (rem-eq v p h.0.0, new-rem v p h.0, decompose_loop-eq v ps (total * p) h.1)
      (ap (λ (t : ℕ). ok (residues_of v (p ∷ ps), t)) (mul_assoc total p (product_of ps)))

pub decompose-eq :
    (v : ℕ) (ps : List ℕ) → All IsModulus ps → decompose v ps ≡ ok (decomposition v ps)
unfolding decompose
decompose-eq v ps h = rw (decompose_loop-eq v ps 1 h) (
    ap (λ (t : ℕ). ok (record { residues = residues_of v ps; primes = ps; modulus_product = t }))
      (omega arith))

list_eq_refl : (ps : List ℕ) → list_eq ps ps ≡ true
list_eq_refl [] = refl
list_eq_refl (p ∷ ps) = ground (arith, list_eq_refl ps)

zip_with-residues :
    (op : GaloisElement → GaloisElement → GaloisResult GaloisElement) (x y z : ℕ) (ps : List ℕ)
    → ((p : ℕ) → IsModulus p → op (residue x p) (residue y p) ≡ ok (residue z p))
    → All IsModulus ps
    → zip_with op (residues_of x ps) (residues_of y ps) ≡ ok (residues_of z ps)
unfolding zip_with
zip_with-residues op x y z [] each h = refl
zip_with-residues op x y z (p ∷ ps) each h =
    rw (each p h.0, zip_with-residues op x y z ps each h.1) refl

combine-decompose :
    (op : GaloisElement → GaloisElement → GaloisResult GaloisElement) (x y z : ℕ) (ps : List ℕ)
    → ((p : ℕ) → IsModulus p → op (residue x p) (residue y p) ≡ ok (residue z p))
    → All IsModulus ps
    → (decompose x ps >>= λ a. decompose y ps >>= λ b. combine op a b) ≡ decompose z ps
unfolding combine
combine-decompose op x y z ps each h =
    rw
      (
        decompose-eq x ps h,
        decompose-eq y ps h,
        decompose-eq z ps h,
        list_eq_refl ps,
        zip_with-residues op x y z ps each h,
      )
      refl

-- For moduli from 1 to 2^63, the sum and the product of the decompositions of two numbers are the
-- decompositions of their sum and of their product.
pub crt_homomorphism :
    (x y : ℕ) (ps : List ℕ)
    → All IsModulus ps
    → ((decompose x ps >>= λ a. decompose y ps >>= λ b. crt_add a b) ≡ decompose (x + y) ps)
      × ((decompose x ps >>= λ a. decompose y ps >>= λ b. crt_mul a b) ≡ decompose (x * y) ps)
unfolding crt_add crt_mul
crt_homomorphism x y ps h = (
  combine-decompose add x y (x + y) ps (λ p k. add-residue p k.0 k.1 x y) h,
  combine-decompose mul x y (x * y) ps (λ p k. mul-residue p k.0 k.1 x y) h,
)
