-- ===== src/Server/Predict/Total/Pigeons.antt =====
-- A list that is shorter than a range misses a number of it.
use cyan_flame_control_plane.Prelude.{
  ℕ, zero, suc, ◌≤◌, ◌<◌, ◌≡◌, arith, true, false, inl, inr, Bool-cases, List, [], ◌∷◌, length,
  ◌==◌, if◌then◌else◌,
}
use cyan_flame_control_plane.Server.Predict.{contains}

without : ℕ → List ℕ → List ℕ
without x [] = []
without x (y ∷ ys) = let rest = without x ys in if y == x then rest else y ∷ rest

length-without_le : (x : ℕ) (ys : List ℕ) → length (without x ys) ≤ length ys
unfolding without
length-without_le x [] = omega arith
length-without_le x (y ∷ ys) = ground (arith, length-without_le x ys)

length-without : (x : ℕ) (ys : List ℕ) → contains x ys ≡ true → length (without x ys) < length ys
unfolding without contains
length-without x [] h = absurd (ground arith)
length-without x (y ∷ ys) h = ground (arith, length-without x ys, length-without_le x ys)

contains-without : (x t : ℕ) (ys : List ℕ) → t < x → contains t (without x ys) ≡ contains t ys
unfolding without contains
contains-without x t [] h = ground arith
contains-without x t (y ∷ ys) h = ground (arith, contains-without x t ys h)

pub missing : (n : ℕ) (xs : List ℕ) → length xs < n → (t : ℕ) × (t < n) × (contains t xs ≡ false)
missing zero xs h = absurd (omega arith)
missing (suc n) xs h = elim (Bool-cases (contains n xs)) [
  | inr out ↦ (n, omega arith, out)
  | inl there ↦
      let (t, less, out) = missing n (without n xs) (omega (arith, length-without n xs there)) in
      (t, omega arith, ground (arith, contains-without n t xs less))
]
