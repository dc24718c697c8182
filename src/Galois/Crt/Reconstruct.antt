-- ===== src/Galois/Crt/Reconstruct.antt =====
-- `reconstruct` undoes `decompose`.
use native.Mathlib.Nat.{dvd-mul_right, dvd-mul_left, dvd_trans, mul-div_right, mod-lt, zero-mod}
use Prim.Native.Nat.{◌∣◌}
use mathlib.Core.List.{append-nil, append_assoc}
use cyan_flame_control_plane.Prelude.{
  ℕ, ◌+◌, ◌*◌, ◌%◌, ◌<◌, ◌≡◌, refl, ap, sym, ◌∙◌, subst, arith, List, [], ◌∷◌, ◌++◌, All, some,
  length, length-append, get_elem?, ok, ◌>>=◌,
}
use cyan_flame_control_plane.Galois.Element.{residue}
use cyan_flame_control_plane.Galois.Element.Laws.{rem-eq}
use cyan_flame_control_plane.Galois.Crt.{quotient, reconstruct_loop, reconstruct, decompose}
use cyan_flame_control_plane.Galois.Crt.Decompose.{IsModulus, product_of, residues_of, decompose-eq}
use cyan_flame_control_plane.Galois.Crt.Coprime.{
  IsCoprime, AllCoprime, HasInverse, coprime-HasInverse, mul-HasInverse, HasInverse-IsCoprime,
  product-HasInverse, IsCoprime-symm, crt_unique,
}
use cyan_flame_control_plane.Galois.Crt.Terms.{
  mod_inverse-eq, term_own, term_other, sum_own, sum_other,
}

get_elem?-middle :
    (pre : List ℕ) (p : ℕ) (post : List ℕ) → get_elem? (pre ++ p ∷ post) (length pre) ≡ some p
get_elem?-middle [] p post = refl
get_elem?-middle (q ∷ pre) p post = get_elem?-middle pre p post

product-middle :
    (pre : List ℕ) (p : ℕ) (post : List ℕ)
    → product_of (pre ++ p ∷ post) ≡ p * (product_of pre * product_of post)
product-middle [] p post = omega arith
product-middle (q ∷ pre) p post = omega (arith, ap (λ (t : ℕ). q * t) (product-middle pre p post))

All-middle {ℓ} :
    (P : ℕ → Type ℓ) (pre : List ℕ) (p : ℕ) (post : List ℕ) → All P (pre ++ p ∷ post) → P p
All-middle P [] p post h = h.0
All-middle P (q ∷ pre) p post h = All-middle P pre p post h.1

-- The other moduli are invertible modulo the one in the middle.
inverses_after :
    (p : ℕ) (post : List ℕ) → 0 < p → All (IsCoprime p) post → All (λ q. HasInverse q p) post
inverses_after p [] pos c = tt
inverses_after p (q ∷ post) pos c =
    (coprime-HasInverse q p pos (IsCoprime-symm p q c.0), inverses_after p post pos c.1)

inverses_around :
    (pre : List ℕ) (p : ℕ) (post : List ℕ)
    → 0 < p
    → AllCoprime (pre ++ p ∷ post)
    → All (λ q. HasInverse q p) pre × All (λ q. HasInverse q p) post
inverses_around [] p post pos c = (tt, inverses_after p post pos c.0)
inverses_around (q ∷ pre) p post pos c =
    let (before, after) = inverses_around pre p post pos c.1 in
    ((coprime-HasInverse q p pos (All-middle (IsCoprime q) pre p post c.0), before), after)

others-IsCoprime :
    (pre : List ℕ) (p : ℕ) (post : List ℕ)
    → 1 < p
    → AllCoprime (pre ++ p ∷ post)
    → IsCoprime (product_of pre * product_of post) p
others-IsCoprime pre p post lt c =
    let (before, after) = inverses_around pre p post (omega arith) c in
    HasInverse-IsCoprime (product_of pre * product_of post) p lt (
      mul-HasInverse (product_of pre) (product_of post) p (product-HasInverse p pre before)
        (product-HasInverse p post after))

-- A property of each modulus of a list, from its divisibility of the list's product.
All-of_dvd {ℓ} :
    {P Q : ℕ → Type ℓ} (total : ℕ) (ps : List ℕ)
    → ((q : ℕ) → q ∣ total → P q → Q q)
    → product_of ps ∣ total
    → All P ps
    → All Q ps
All-of_dvd total [] f d h = tt
All-of_dvd total (p ∷ ps) f d h = (
  f p (dvd_trans p (dvd-mul_right p (product_of ps)) d) h.0,
  All-of_dvd total ps f (dvd_trans (product_of ps) (dvd-mul_left (product_of ps) p) d) h.1,
)

quotient-eq : (p n : ℕ) → 0 < p → quotient (p * n) p ≡ ok n
quotient-eq p n pos = ground (arith, mul-div_right n pos)

module _ (v : ℕ) (pre : List ℕ) (p : ℕ) (post : List ℕ) (r : ℕ) (lt : 1 < p)
    (c : AllCoprime (pre ++ p ∷ post)) (total_pos : 0 < product_of (pre ++ p ∷ post)) where
  abbrev ps : List ℕ
  ps = pre ++ p ∷ post

  abbrev others : ℕ
  others = product_of pre * product_of post

  -- One round of the loop sets the remainder by `p` and keeps those by the other moduli.
  round :
      (r' : ℕ) × (reconstruct_loop ps
          (product_of ps)
          (residue v p ∷ residues_of v post)
          (length pre)
          r
        ≡ reconstruct_loop ps (product_of ps) (residues_of v post) (length pre + 1) r')
      × (r' < product_of ps)
      × (r % p ≡ 0 → r' % p ≡ v % p)
      × ((q : ℕ) → q ∣ others → r' % q ≡ r % q)
  unfolding reconstruct_loop
  round =
      let (w, ew, u) = mod_inverse-eq others p lt (others-IsCoprime pre p post lt c) in
      let term = v % p * others * w in
      let whole = product-middle pre p post in
      let p_dvd = subst (◌∣◌ p) (sym whole) (dvd-mul_right p others) in
      (
        (r + term) % product_of ps,
        rw
            (
              get_elem?-middle pre p post,
              ap (λ (t : ℕ). quotient t p) whole ∙ quotient-eq p others (omega arith),
              rem-eq others p (omega arith),
              ew,
              rem-eq (r + term) (product_of ps) total_pos,
            )
            refl,
        mod-lt (r + term) total_pos,
        (λ z. sum_own r term p v (product_of ps) p_dvd z (term_own v p others w u)),
        λ q d.
            sum_other r term q (product_of ps)
              (subst (◌∣◌ q) (sym whole) (dvd_trans q d (dvd-mul_left others p)))
              (term_other (v % p) q others w d),
      )

All-append {ℓ} : (P : ℕ → Type ℓ) (xs : List ℕ) (p : ℕ) → All P xs → P p → All P (xs ++ p ∷ [])
All-append P [] p h hp = (hp, tt)
All-append P (x ∷ xs) p h hp = (h.0, All-append P xs p h.1 hp)

product_pos : (qs : List ℕ) → All (λ q. 1 < q) qs → 0 < product_of qs
product_pos [] h = omega arith
product_pos (q ∷ qs) h = let rest = product_pos qs h.1 in grind arith

-- The loop from the residues of `post` on ends in a number below the product with the remainders
-- of `v`.
abbrev Reconstructs : ℕ → List ℕ → List ℕ → ℕ → ℕ → Type 0
Reconstructs v ps post i r =
    (x : ℕ) × (reconstruct_loop ps (product_of ps) (residues_of v post) i r ≡ ok x)
    × (x < product_of ps)
    × All (λ q. x % q ≡ v % q) ps

abbrev AreModuli : List ℕ → Type 0
AreModuli ps = All (λ p. 1 < p) ps × AllCoprime ps

loop-Reconstructs :
    (v : ℕ) (pre post : List ℕ) (r : ℕ)
    → AreModuli (pre ++ post)
    → r < product_of (pre ++ post)
    → All (λ q. r % q ≡ v % q) pre
    → All (λ q. r % q ≡ 0) post
    → Reconstructs v (pre ++ post) post (length pre) r
loop-Reconstructs v pre [] r h lt seen todo = (
  r,
  unfold reconstruct_loop in refl,
  lt,
  subst (All (λ q. r % q ≡ v % q)) (sym (append-nil pre)) seen,
)
loop-Reconstructs v pre (p ∷ post) r h lt seen todo =
    let big = All-middle (λ q. 1 < q) pre p post h.0 in
    let (r', step, below, own, keep) = round v pre p post r big h.1 (omega arith) in
    let others = product_of pre * product_of post in
    let shift = append_assoc pre (p ∷ []) post in
    let kept =
      All-of_dvd others pre (λ q d e. keep q d ∙ e)
        (dvd-mul_right (product_of pre) (product_of post)) seen in
    let left =
      All-of_dvd others post (λ q d e. keep q d ∙ e)
        (dvd-mul_left (product_of post) (product_of pre)) todo.1 in
    let rest =
      loop-Reconstructs v (pre ++ p ∷ []) post r' (subst AreModuli (sym shift) h)
        (subst (λ qs. r' < product_of qs) (sym shift) below)
        (All-append (λ q. r' % q ≡ v % q) pre p kept (own todo.0)) left in
    let (x, ex, xl, all) =
      subst (λ qs. Reconstructs v qs post (length pre + 1) r') shift
        (subst (λ i. Reconstructs v ((pre ++ p ∷ []) ++ post) post i r')
          (length-append pre (p ∷ [])) rest) in
    (x, step ∙ ex, xl, all)

-- For pairwise coprime moduli from 2 to 2^63, a number below their product is recovered from its
-- decomposition.
pub reconstruct-decompose :
    (v : ℕ) (ps : List ℕ)
    → All IsModulus ps
    → All (λ p. 1 < p) ps
    → AllCoprime ps
    → v < product_of ps
    → (decompose v ps >>= λ d. reconstruct d) ≡ ok v
unfolding reconstruct
reconstruct-decompose v ps words big c lt =
    let (x, ex, xl, all) =
      loop-Reconstructs v [] ps 0 (big, c) (product_pos ps big) tt (zeros ps) in
    rw (decompose-eq v ps words)
      (ex ∙ ap (λ (n : ℕ). ok n) (crt_unique x v ps (positive ps big) c xl lt all))
  where
    zeros : (qs : List ℕ) → All (λ q. 0 % q ≡ 0) qs
    zeros [] = tt
    zeros (q ∷ qs) = (zero-mod q, zeros qs)

    positive : (qs : List ℕ) → All (λ q. 1 < q) qs → All (λ q. 0 < q) qs
    positive [] h = tt
    positive (q ∷ qs) h = (omega arith, positive qs h.1)
