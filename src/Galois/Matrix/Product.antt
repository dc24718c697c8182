-- ===== src/Galois/Matrix/Product.antt =====
-- What the entries of a matrix product are.
use native.Mathlib.Nat.{mod-lt}
use cyan_flame_control_plane.Prelude.{
  ℕ, zero, suc, ◌+◌, ◌*◌, ◌%◌, ◌^◌, ◌≤◌, ◌<◌, ◌≡◌, refl, ap, ◌∙◌, arith, List, [], ◌∷◌, true,
  length, All, ok, ◌==◌, map,
}
use cyan_flame_control_plane.Galois.Element.{
  GaloisElement, IsElement, residue, mersenne_61, new, add, mul,
}
use cyan_flame_control_plane.Galois.Element.Laws.{mul-eq}
use cyan_flame_control_plane.Galois.Matrix.{
  Matrix, index, zero_element, sum_loop, column_loop, row_loop, matrix_multiply_polynomial,
}

abbrev pub value_at : List GaloisElement → ℕ → ℕ
value_at [] i = 0
value_at (x ∷ xs) zero = x.value
value_at (x ∷ xs) (suc i) = value_at xs i

abbrev pub row_at : Matrix → ℕ → List GaloisElement
row_at [] i = []
row_at (r ∷ rs) zero = r
row_at (r ∷ rs) (suc i) = row_at rs i

-- The sum of the `left` products from `k` on, each reduced modulo `m`.
abbrev pub sum_products : ℕ → List GaloisElement → Matrix → ℕ → ℕ → ℕ → ℕ
sum_products m row b j zero k = 0
sum_products m row b j (suc left) k =
    (value_at row k * value_at (row_at b k) j) % m + sum_products m row b j left (k + 1)

-- A row of the given length, and a matrix of such rows, over the field of the modulus `m`.
abbrev pub IsRow : ℕ → ℕ → List GaloisElement → Type 0
IsRow m cols row = (length row ≡ cols) × All (IsElement m) row

index-value :
    (m : ℕ) (row : List GaloisElement) (i : ℕ)
    → All (IsElement m) row
    → i < length row
    → (x : GaloisElement) × (index row i ≡ ok x) × IsElement m x × (x.value ≡ value_at row i)
index-value m [] i h lt = absurd (omega arith)
index-value m (x ∷ xs) zero h lt = (x, refl, h.0, refl)
index-value m (x ∷ xs) (suc i) h lt = index-value m xs i h.1 (omega arith)

index-IsRow :
    (m cols : ℕ) (b : Matrix) (i : ℕ)
    → All (IsRow m cols) b
    → i < length b
    → (index b i ≡ ok (row_at b i)) × IsRow m cols (row_at b i)
index-IsRow m cols [] i h lt = absurd (omega arith)
index-IsRow m cols (r ∷ rs) zero h lt = (refl, h.0)
index-IsRow m cols (r ∷ rs) (suc i) h lt = index-IsRow m cols rs i h.1 (omega arith)

-- The sum is reduced by the Mersenne prime, the terms by the modulus of the elements.
add_mersenne :
    (s v m : ℕ)
    → v < 2 ^ 63
    → add (residue s mersenne_61) (record { value = v; modulus = m })
      ≡ ok (residue (s + v) mersenne_61)
unfolding add new
add_mersenne s v m fits =
    ap (λ (t : ℕ). ok (record { value = t; modulus = mersenne_61 })) (omega arith)

module _ (m cols : ℕ) (row : List GaloisElement) (b : Matrix) (row_ok : IsRow m (length b) row)
    (b_ok : All (IsRow m cols) b) where
  product_at :
      (j k : ℕ)
      → j < cols
      → k < length b
      → (x : GaloisElement) × (y : GaloisElement) × (index row k ≡ ok x)
        × (index (row_at b k) j ≡ ok y)
        × (mul x y ≡ ok (residue (value_at row k * value_at (row_at b k) j) m))
        × (m ≤ 2 ^ 63)
        × (0 < m)
  product_at j k lt_j lt_k =
      let (x, ex, hx, vx) = index-value m row k row_ok.1 (omega (arith, row_ok.0)) in
      let (eb, hb) = index-IsRow m cols b k b_ok lt_k in
      let (y, ey, hy, vy) = index-value m (row_at b k) j hb.1 (omega (arith, hb.0)) in
      (x, y, ex, ey, rw (← vx, ← vy) (mul-eq hx hy), hx.fits, omega (arith, hx.below))

  sum_loop-eq :
      (j left k s : ℕ)
      → j < cols
      → k + left ≡ length b
      → sum_loop row b j left k (residue s mersenne_61)
        ≡ ok (residue (s + sum_products m row b j left k) mersenne_61)
  unfolding sum_loop
  sum_loop-eq j zero k s lt e = ap (λ (t : ℕ). ok (residue t mersenne_61)) (omega arith)
  sum_loop-eq j (suc left) k s lt e =
      let (x, y, ex, ey, exy, fits, pos) = product_at j k lt (omega arith) in
      let v = (value_at row k * value_at (row_at b k) j) % m in
      rw
        (
          ex,
          (index-IsRow m cols b k b_ok (omega arith)).0,
          ey,
          exy,
          add_mersenne s v m (omega (arith, mod-lt (value_at row k * value_at (row_at b k) j) pos)),
        )
        (sum_loop-eq j left (k + 1) (s + v) lt (omega arith)
          ∙ ap (λ (t : ℕ). ok (residue t mersenne_61)) (omega arith))

entry-eq :
    (m cols : ℕ) (row : List GaloisElement) (b : Matrix) (j : ℕ)
    → IsRow m (length b) row
    → All (IsRow m cols) b
    → j < cols
    → sum_loop row b j (length b) 0 zero_element
      ≡ ok (residue (sum_products m row b j (length b) 0) mersenne_61)
entry-eq m cols row b j hr hb lt =
    sum_loop-eq m cols row b hr hb j (length b) 0 0 lt (omega arith)
    ∙ ap (λ (t : ℕ). ok (residue t mersenne_61)) (omega arith)

==_refl : (n : ℕ) → (n == n) ≡ true
==_refl n = ground arith

-- The entries of a row of the product, from column `j` on.
abbrev pub product_row : ℕ → List GaloisElement → Matrix → ℕ → ℕ → List GaloisElement
product_row m row b zero j = []
product_row m row b (suc left) j =
    residue (sum_products m row b j (length b) 0) mersenne_61 ∷ product_row m row b left (j + 1)

column_loop-eq :
    (m cols : ℕ) (row : List GaloisElement) (b : Matrix) (left j : ℕ)
    → IsRow m (length b) row
    → All (IsRow m cols) b
    → j + left ≡ cols
    → column_loop row b (length b) left j ≡ ok (product_row m row b left j)
unfolding column_loop
column_loop-eq m cols row b zero j hr hb e = refl
column_loop-eq m cols row b (suc left) j hr hb e =
    rw
      (
        entry-eq m cols row b j hr hb (omega arith),
        column_loop-eq m cols row b left (j + 1) hr hb (omega arith),
      )
      refl

row_loop-eq :
    (m cols : ℕ) (a b : Matrix)
    → All (IsRow m (length b)) a
    → All (IsRow m cols) b
    → row_loop a b (length b) cols ≡ ok (map (λ row. product_row m row b cols 0) a)
unfolding row_loop
row_loop-eq m cols [] b ha hb = refl
row_loop-eq m cols (row ∷ rows) b ha hb =
    rw (column_loop-eq m cols row b cols 0 ha.0 hb (omega arith), row_loop-eq m cols rows b ha.1 hb)
      refl

-- The product of two matrices of matching shape, with at least one row each and entries in one
-- field of modulus `m`: the entry at row `i` and column `j` is the sum over `k` of the products
-- `a[i][k] * b[k][j]`, each reduced modulo `m`, as an element of the field of 2^61 - 1.
pub matrix_multiply_polynomial-eq :
    (m cols : ℕ) (a b : Matrix)
    → 0 < length a
    → 0 < length b
    → All (IsRow m (length b)) a
    → All (IsRow m cols) b
    → matrix_multiply_polynomial a b ≡ ok (map (λ row. product_row m row b cols 0) a)
unfolding matrix_multiply_polynomial
matrix_multiply_polynomial-eq m cols [] b pa pb ha hb = absurd (omega arith)
matrix_multiply_polynomial-eq m cols (row ∷ rows) [] pa pb ha hb = absurd (omega arith)
matrix_multiply_polynomial-eq m cols (row ∷ rows) (r ∷ rs) pa pb ha hb =
    rw (hb.0.0, ha.0.0, ==_refl (length (r ∷ rs))) (row_loop-eq m cols (row ∷ rows) (r ∷ rs) ha hb)
