-- ===== src/Cache/Codec.antt =====
-- What the simulated compression keeps of a value.
use native.Mathlib.Nat.{mod-eq_of_lt, div-lt_iff_lt-mul}
use cyan_flame_control_plane.Prelude.{
  ℕ, zero, suc, ◌+◌, ◌*◌, ◌/◌, ◌%◌, ◌≤◌, ◌<◌, ◌≡◌, refl, ap, subst, ◌∙◌, arith, true, false, List,
  [], ◌∷◌, ◌++◌, length, replicate, ltb, ◌==◌, ok,
}
use cyan_flame_control_plane.Cache.{
  at_least_one, samples, checksum, to_le_bytes, target_size, sample_rate, compress, drop, fill,
  decompress,
}

-- No byte between two multiples of the rate is sampled.
samples-none : (rate i : ℕ) (bs : List ℕ) → 0 < i → i + length bs ≤ rate → samples rate i bs ≡ []
unfolding samples
samples-none rate i [] pos h = refl
samples-none rate i (b ∷ bs) pos h =
    let small : i % rate ≡ i = mod-eq_of_lt (omega arith) in
    let other : (i == 0) ≡ false = ground arith in
    rw (small, other, samples-none rate (i + 1) bs (omega arith) (omega arith)) refl

fill-empty : (left i rate last : ℕ) → fill left i rate [] last ≡ replicate left last
unfolding fill
fill-empty zero i rate last = refl
fill-empty (suc left) i rate last = rw (fill-empty left (i + 1) rate last) refl

length-fill : (left i rate : ℕ) (ss : List ℕ) (last : ℕ) → length (fill left i rate ss last) ≡ left
unfolding fill
length-fill zero i rate ss last = refl
length-fill (suc left) i rate [] last = omega (arith, length-fill left (i + 1) rate [] last)
length-fill (suc left) i rate (s ∷ ss) last =
    ground (arith, length-fill left (i + 1) rate ss s, length-fill left (i + 1) rate (s ∷ ss) last)

length-replicate : (n b : ℕ) → length (replicate n b) ≡ n
length-replicate zero b = refl
length-replicate (suc n) b = omega (arith, length-replicate n b)

-- `decompress` gives as many bytes as it is asked for, so `truncate` and the padding that the
-- source has behind the loop change nothing.
length-decompress : (bs : List ℕ) (n : ℕ) → length (decompress bs n) ≡ n
unfolding decompress
length-decompress bs n = ground (
  arith,
  length-replicate n 0,
  length-fill n 0 (at_least_one (n / at_least_one (length (drop 16 bs)))) (drop 16 bs) 0,
)

-- The ratio gives a target of one byte, and so one sample for the whole value.
target_size-one : (ratio n : ℕ) → n < 2 * ratio → target_size ratio n ≡ 1
target_size-one ratio n h =
    let positive : 0 < ratio = omega arith in
    let small : n / ratio < 2 = (div-lt_iff_lt-mul positive).1 h in ground (arith, small)

sample_rate-whole : (ratio n : ℕ) → 0 < n → n < 2 * ratio → sample_rate ratio n ≡ n
sample_rate-whole ratio n pos h = rw (target_size-one ratio n h) (ground arith)

samples-first : (b : ℕ) (rest : List ℕ) → samples (suc (length rest)) 0 (b ∷ rest) ≡ b ∷ []
unfolding samples
samples-first b rest =
    let first : (0 % suc (length rest)) == 0 ≡ true = ground arith in
    rw (first, samples-none (suc (length rest)) (0 + 1) rest (omega arith) (omega arith)) refl

compress-eq :
    (ratio b : ℕ) (rest : List ℕ)
    → length (b ∷ rest) < 2 * ratio
    → compress ratio (b ∷ rest)
      ≡ ok (to_le_bytes (length (b ∷ rest)) ++ (to_le_bytes (checksum (b ∷ rest)) ++ (b ∷ [])))
unfolding compress
compress-eq ratio b rest h =
    let positive : (ratio == 0) ≡ false = ground arith in
    rw positive (
      ap (λ ss. ok (to_le_bytes (length (b ∷ rest)) ++ (to_le_bytes (checksum (b ∷ rest)) ++ ss)))
        (ap (λ r. samples r 0 (b ∷ rest))
            (sample_rate-whole ratio (length (b ∷ rest)) (omega arith) h)
          ∙ samples-first b rest))

decompress-eq :
    (b n : ℕ) (bytes : List ℕ)
    → ltb (length bytes) 16 ≡ false
    → drop 16 bytes ≡ b ∷ []
    → decompress bytes (suc n) ≡ replicate (suc n) b
unfolding decompress fill
decompress-eq b n bytes long one =
    let rate : at_least_one (suc n / 1) ≡ suc n = ground arith in
    let first : (0 % suc n) == 0 ≡ true = ground arith in
    rw (long, one, rate, first, fill-empty n 1 (suc n) b) refl

-- A value of less than twice the ratio comes back as its first byte repeated, whatever its other
-- bytes are.
pub decompress-compress :
    (ratio b : ℕ) (rest bytes : List ℕ)
    → length (b ∷ rest) < 2 * ratio
    → compress ratio (b ∷ rest) ≡ ok bytes
    → decompress bytes (length (b ∷ rest)) ≡ replicate (length (b ∷ rest)) b
decompress-compress ratio b rest bytes h e =
    let made : to_le_bytes (length (b ∷ rest)) ++ (to_le_bytes (checksum (b ∷ rest)) ++ (b ∷ []))
        ≡ bytes =
      cc (compress-eq ratio b rest h, e) in
    subst (λ bs. decompress bs (length (b ∷ rest)) ≡ replicate (length (b ∷ rest)) b) made
      (decompress-eq b (length rest)
        (to_le_bytes (length (b ∷ rest)) ++ (to_le_bytes (checksum (b ∷ rest)) ++ (b ∷ []))) refl
        refl)

-- Without a ratio of 0 the compression succeeds.
pub compress-ok :
    (ratio : ℕ) (bs : List ℕ) → 0 < ratio → (bytes : List ℕ) × (compress ratio bs ≡ ok bytes)
unfolding compress
compress-ok ratio bs h = let positive : (ratio == 0) ≡ false = ground arith in rw positive (_, refl)
