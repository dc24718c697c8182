-- ===== src/Server/Predict/Total/Sorting.antt =====
-- The lists of different neurons, and their sorting.
use cyan_flame_control_plane.Prelude.{
  ℕ, suc, ◌<◌, ◌≡◌, refl, ◌∙◌, arith, false, ◌||◌, inl, inr, Bool-cases, List, [], ◌∷◌, ◌++◌,
  length, All, ltb, ◌==◌,
}
use cyan_flame_control_plane.Server.Predict.{contains, push_new, insert_sorted, sort}

abbrev pub IsDistinct : List ℕ → Type 0
IsDistinct [] = Unit
IsDistinct (x ∷ xs) = (contains x xs ≡ false) × IsDistinct xs

abbrev pub IsBelow : ℕ → ℕ → Type 0
IsBelow n x = x < n

-- Different neurons of the layer.
abbrev pub IsDrawn : List ℕ → Type 0
IsDrawn xs = All (IsBelow 2048) xs × IsDistinct xs

abbrev pub IsIncreasing : List ℕ → Type 0
IsIncreasing [] = Unit
IsIncreasing (x ∷ xs) = All (λ y. x < y) xs × IsIncreasing xs

contains-push : (t x : ℕ) (xs : List ℕ) → contains t (xs ++ (x ∷ [])) ≡ (contains t xs || x == t)
unfolding contains
contains-push t x [] = ground arith
contains-push t x (y ∷ ys) = ground (arith, contains-push t x ys)

append-IsDistinct :
    (x : ℕ) (xs : List ℕ) → IsDistinct xs → contains x xs ≡ false → IsDistinct (xs ++ (x ∷ []))
unfolding contains
append-IsDistinct x [] h out = (refl, tt)
append-IsDistinct x (y ∷ ys) h out =
    ground (arith, contains-push y x ys, append-IsDistinct x ys h.1)

append-All : (n x : ℕ) (xs : List ℕ) → All (IsBelow n) xs → x < n → All (IsBelow n) (xs ++ (x ∷ []))
append-All n x [] h less = (less, tt)
append-All n x (y ∷ ys) h less = (h.0, append-All n x ys h.1 less)

pub push_new-IsDrawn : (x : ℕ) (xs : List ℕ) → x < 2048 → IsDrawn xs → IsDrawn (push_new x xs)
unfolding push_new
push_new-IsDrawn x xs less h = elim (Bool-cases (contains x xs)) [
  | inl there ↦ rw there h
  | inr out ↦ rw out (append-All 2048 x xs h.0 less, append-IsDistinct x xs h.1 out)
]

length-insert_sorted : (x : ℕ) (xs : List ℕ) → length (insert_sorted x xs) ≡ suc (length xs)
unfolding insert_sorted
length-insert_sorted x [] = refl
length-insert_sorted x (y ∷ ys) = ground (arith, length-insert_sorted x ys)

pub length-sort : (xs : List ℕ) → length (sort xs) ≡ length xs
unfolding sort
length-sort [] = refl
length-sort (x ∷ xs) = ground (arith, length-insert_sorted x (sort xs), length-sort xs)

insert_sorted-All :
    (P : ℕ → Type 0) (x : ℕ) (xs : List ℕ) → P x → All P xs → All P (insert_sorted x xs)
unfolding insert_sorted
insert_sorted-All P x [] p h = (p, tt)
insert_sorted-All P x (y ∷ ys) p h = elim (Bool-cases (ltb y x)) [
  | inl after ↦ rw after (h.0, insert_sorted-All P x ys p h.1)
  | inr here ↦ rw here (p, h)
]

pub sort-All : (P : ℕ → Type 0) (xs : List ℕ) → All P xs → All P (sort xs)
unfolding sort
sort-All P [] h = tt
sort-All P (x ∷ xs) h = insert_sorted-All P x (sort xs) h.0 (sort-All P xs h.1)

contains-insert_sorted :
    (t x : ℕ) (xs : List ℕ) → contains t (insert_sorted x xs) ≡ (x == t || contains t xs)
unfolding contains insert_sorted
contains-insert_sorted t x [] = refl
contains-insert_sorted t x (y ∷ ys) = ground (arith, contains-insert_sorted t x ys)

contains-sort : (t : ℕ) (xs : List ℕ) → contains t (sort xs) ≡ contains t xs
unfolding contains sort
contains-sort t [] = refl
contains-sort t (x ∷ xs) = ground (arith, contains-insert_sorted t x (sort xs), contains-sort t xs)

All-weaken : (x y : ℕ) (xs : List ℕ) → x < y → All (λ z. y < z) xs → All (λ z. x < z) xs
All-weaken x y [] less h = tt
All-weaken x y (z ∷ zs) less h = (omega (arith, h.0), All-weaken x y zs less h.1)

insert_sorted-IsIncreasing :
    (x : ℕ) (xs : List ℕ)
    → IsIncreasing xs
    → contains x xs ≡ false
    → IsIncreasing (insert_sorted x xs)
unfolding insert_sorted contains
insert_sorted-IsIncreasing x [] h out = (tt, tt)
insert_sorted-IsIncreasing x (y ∷ ys) h out = elim (Bool-cases (ltb y x)) [
  | inl after ↦ rw after (
    insert_sorted-All (λ z. y < z) x ys (ground arith) h.0,
    insert_sorted-IsIncreasing x ys h.1 (ground arith),
  )
  | inr here ↦ let less : x < y = ground arith in rw here ((less, All-weaken x y ys less h.0), h)
]

pub sort-IsIncreasing : (xs : List ℕ) → IsDistinct xs → IsIncreasing (sort xs)
unfolding sort
sort-IsIncreasing [] h = tt
sort-IsIncreasing (x ∷ xs) h =
    insert_sorted-IsIncreasing x (sort xs) (sort-IsIncreasing xs h.1) (contains-sort x xs ∙ h.0)
