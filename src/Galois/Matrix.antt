-- ===== src/Galois/Matrix.antt =====
-- `GaloisEngine` and the vector operations of crates/symmetrix-galois/src/lib.rs.
pub mod Product
use cyan_flame_control_plane.Prelude.{
  ℕ, zero, suc, ◌+◌, List, [], ◌∷◌, String, ◌==◌, if◌then◌else◌, length, get_elem?, or_panic, ok,
  err, panic, ◌>>=◌, Outcome,
}
use cyan_flame_control_plane.Galois.Element.{
  GaloisElement, GaloisError, GaloisResult, mersenne_61, mersenne, new, add, mul,
  dimension_mismatch,
}

-- The `power_cache` of the source is filled by nothing.
pub record GaloisEngine : Type 0 where
  pub prime : ℕ
  pub crt_primes : List ℕ
  pub power_cache : List ((ℕ × ℕ) × GaloisElement)

abbrev pub crt_primes : List ℕ
crt_primes =
    2147483647 ∷ 2147483629 ∷ 2147483587 ∷ 2147483579 ∷ 2147483563 ∷ 2147483549 ∷ 2147483543
    ∷ 2147483497 ∷ []

unfoldable pub initialize_galois_engine : ℕ → GaloisEngine
initialize_galois_engine prime = record { prime = prime; crt_primes = crt_primes; power_cache = [] }

unfoldable pub element : GaloisEngine → ℕ → GaloisResult GaloisElement
unfolding new
element g value = new value g.prime

abbrev pub Matrix : Type 0
Matrix = List (List GaloisElement)

-- `a[i]` of a slice.
abbrev pub index {ℓ} : {A : Type ℓ} → List A → ℕ → GaloisResult A
index xs i = or_panic (get_elem? xs i)

-- `GaloisElement::zero()`: an element of the Mersenne field, whatever the engine's prime.
abbrev pub zero_element : GaloisElement
zero_element = record { value = 0; modulus = mersenne_61 }

-- The loop over `k`, with `left` rounds to go.
unfoldable pub sum_loop :
    List GaloisElement → Matrix → ℕ → ℕ → ℕ → GaloisElement → GaloisResult GaloisElement
sum_loop row b j zero k sum = ok sum
sum_loop row b j (suc left) k sum = do
  x ← index row k
  b_row ← index b k
  y ← index b_row j
  product ← mul x y
  sum' ← add sum product
  sum_loop row b j left (k + 1) sum'

unfoldable pub column_loop :
    List GaloisElement → Matrix → ℕ → ℕ → ℕ → GaloisResult (List GaloisElement)
unfolding sum_loop
column_loop row b p zero j = ok []
column_loop row b p (suc left) j = do
  entry ← sum_loop row b j p 0 zero_element
  rest ← column_loop row b p left (j + 1)
  ok (entry ∷ rest)

unfoldable pub row_loop : Matrix → Matrix → ℕ → ℕ → GaloisResult Matrix
unfolding column_loop
row_loop [] b p m = ok []
row_loop (row ∷ rows) b p m = do
  entries ← column_loop row b p m 0
  rest ← row_loop rows b p m
  ok (entries ∷ rest)

unfoldable pub matrix_multiply_polynomial : Matrix → Matrix → GaloisResult Matrix
unfolding row_loop
matrix_multiply_polynomial a b = do
  b_first ← index b 0
  a_first ← index a 0
  if length a_first == length b
      then row_loop a b (length b) (length b_first)
      else err (dimension_mismatch (length b) (length a_first))

-- `zip` and `map` of the vector operations, with the panics of the element operation.
unfoldable pub zip_with :
    (GaloisElement → GaloisElement → GaloisResult GaloisElement)
    → List GaloisElement
    → List GaloisElement
    → GaloisResult (List GaloisElement)
zip_with op [] ys = ok []
zip_with op (x ∷ xs) [] = ok []
zip_with op (x ∷ xs) (y ∷ ys) = do z ← op x y; zs ← zip_with op xs ys; ok (z ∷ zs)

unfoldable pub vector_add :
    List GaloisElement → List GaloisElement → GaloisResult (List GaloisElement)
unfolding zip_with
vector_add a b =
    if length a == length b
    then zip_with add a b
    else err (dimension_mismatch (length a) (length b))

unfoldable pub vector_mul :
    List GaloisElement → List GaloisElement → GaloisResult (List GaloisElement)
unfolding zip_with
vector_mul a b =
    if length a == length b
    then zip_with mul a b
    else err (dimension_mismatch (length a) (length b))
