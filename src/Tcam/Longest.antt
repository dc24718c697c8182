-- ===== src/Tcam/Longest.antt =====
-- The longest match in a table: what a scan that keeps the last of the longest entries finds.
use cyan_flame_control_plane.Prelude.{
  ℕ, zero, suc, ◌≤◌, ◌≡◌, refl, ap, arith, ◌∙◌, sym, subst, ◌⊎◌, inl, inr, Bool, true, false, ◌&&◌,
  Bool-cases, Option, none, some, List, [], ◌∷◌, All, get_elem?, map, leb, if◌then◌else◌,
}

module _ {ℓ} {A : Type ℓ} where
  abbrev pub Listed : List A → A → Type ℓ
  Listed xs a = (i : ℕ) × (get_elem? xs i ≡ some a)

  pub Listed-All {κ} :
      (P : A → Type κ) (xs : List A) (i : ℕ) (a : A) → get_elem? xs i ≡ some a → All P xs → P a
  Listed-All P [] i a e h = cc
  Listed-All P (x ∷ xs) zero a e h = let same : x ≡ a = cc in subst P same h.0
  Listed-All P (x ∷ xs) (suc i) a e h = Listed-All P xs i a e h.1

module _ {ℓ} {A : Type ℓ} (fits : A → Bool) (size : A → ℕ) where
  -- An entry of the table that fits, and none that fits is longer.
  pub record IsLongest (xs : List A) (a : A) : Type ℓ where
    pub listed : Listed xs a
    pub fitting : fits a ≡ true
    pub longest : All (λ x. fits x ≡ true → size x ≤ size a) xs

  abbrev pub NoneFits : List A → Type 0
  NoneFits xs = All (λ x. fits x ≡ false) xs

  -- What a search of the table found.
  abbrev pub Answers : List A → Option A → Type ℓ
  Answers xs found = ((found ≡ none) × NoneFits xs) ⊎ ((a : A) × (found ≡ some a) × IsLongest xs a)

  -- The scan over the entries that are left, with the best match and its length.
  unfoldable pub scan : List A → Option A → ℕ → Option A
  scan [] best best_len = best
  scan (x ∷ xs) best best_len =
      let taken = fits x && leb best_len (size x) in
      scan xs (if taken then some x else best) (if taken then size x else best_len)

  -- A scan that holds a match ends with that or with a longer one.
  record Kept (xs : List A) (b : A) : Type ℓ where
    a : A
    found : scan xs (some b) (size b) ≡ some a
    source : (a ≡ b) ⊎ (Listed xs a × (fits a ≡ true))
    at_least : size b ≤ size a
    longest : All (λ x. fits x ≡ true → size x ≤ size a) xs

  later : (x : A) (xs : List A) (a : A) → Listed xs a → Listed (x ∷ xs) a
  later x xs a (i, e) = (suc i, e)

  scan_taken :
      (x : A) (xs : List A) (best : Option A) (best_len : ℕ)
      → fits x ≡ true
      → best_len ≤ size x
      → scan (x ∷ xs) best best_len ≡ scan xs (some x) (size x)
  unfolding scan
  scan_taken x xs best best_len fit le =
      let taken : (fits x && leb best_len (size x)) ≡ true = ground arith in rw taken refl

  scan_passed :
      (x : A) (xs : List A) (best : Option A) (best_len : ℕ)
      → (fits x && leb best_len (size x)) ≡ false
      → scan (x ∷ xs) best best_len ≡ scan xs best best_len
  unfolding scan
  scan_passed x xs best best_len h = rw h refl

  scan_held : (xs : List A) (b : A) → Kept xs b
  scan_held [] b = record {
    a = b;
    found = unfold scan in refl;
    source = inl refl;
    at_least = omega arith;
    longest = tt;
  }
  scan_held (x ∷ xs) b = elim (Bool-cases (fits x && leb (size b) (size x))) [
    | inl taken ↦
        let k = scan_held xs x in
        let fit : fits x ≡ true = ground arith in
        let le : size b ≤ size x = ground arith in
        record {
          a = k.a;
          found = scan_taken x xs (some b) (size b) fit le ∙ k.found;
          source = elim k.source [
            | inl same ↦ inr ((zero, ap some (sym same)), ap fits same ∙ fit)
            | inr (listed, fitting) ↦ inr (later x xs k.a listed, fitting)
          ];
          at_least = omega (arith, k.at_least);
          longest = ((λ _. k.at_least), k.longest);
        }
    | inr passed ↦
        let k = scan_held xs b in
        let short : fits x ≡ true → size x ≤ size k.a = λ fit. ground (arith, k.at_least) in
        record {
          a = k.a;
          found = scan_passed x xs (some b) (size b) passed ∙ k.found;
          source = elim k.source [
            | inl same ↦ inl same
            | inr (listed, fitting) ↦ inr (later x xs k.a listed, fitting)
          ];
          at_least = k.at_least;
          longest = (short, k.longest);
        }
  ]

  -- The scan from no match on finds an entry that fits and that no fitting one exceeds in length,
  -- and none only where no entry fits.
  pub scan-Answers : (xs : List A) → Answers xs (scan xs none 0)
  scan-Answers [] = inl (unfold scan in refl, tt)
  scan-Answers (x ∷ xs) = elim (Bool-cases (fits x)) [
    | inl fit ↦
        let k = scan_held xs x in
        inr (
          k.a,
          scan_taken x xs none 0 fit (omega arith) ∙ k.found,
          record {
            listed = elim k.source [
              | inl same ↦ (zero, ap some (sym same))
              | inr (listed, fitting) ↦ later x xs k.a listed
            ];
            fitting = elim k.source [
              | inl same ↦ ap fits same ∙ fit
              | inr (listed, fitting) ↦ fitting
            ];
            longest = ((λ _. k.at_least), k.longest);
          },
        )
    | inr unfit ↦
        let passed = scan_passed x xs none 0 (ground arith) in
        elim (scan-Answers xs) [
          | inl (nothing, none_) ↦ inl (passed ∙ nothing, (unfit, none_))
          | inr (a, found, l) ↦ inr (
            a,
            passed ∙ found,
            record {
              listed = later x xs a l.listed;
              fitting = l.fitting;
              longest = ((λ fit. absurd (cc)), l.longest);
            },
          )
        ]
  ]

module _ {ℓ κ} {A : Type ℓ} {B : Type κ} (f : A → B) (fits : B → Bool) (size : B → ℕ) where
  Listed-map :
      (xs : List A) (i : ℕ) (b : B)
      → get_elem? (map f xs) i ≡ some b
      → (a : A) × (get_elem? xs i ≡ some a) × (f a ≡ b)
  Listed-map [] i b e = absurd (cc)
  Listed-map (x ∷ xs) zero b e = (x, refl, cc)
  Listed-map (x ∷ xs) (suc i) b e = Listed-map xs i b e

  All-map : (P : B → Type 0) (xs : List A) → All P (map f xs) → All (λ a. P (f a)) xs
  All-map P [] h = tt
  All-map P (x ∷ xs) h = (h.0, All-map P xs h.1)

  -- The longest of the images is the image of a longest entry.
  pub IsLongest-map :
      (xs : List A) (b : B)
      → IsLongest fits size (map f xs) b
      → (a : A) × (f a ≡ b) × IsLongest (λ x. fits (f x)) (λ x. size (f x)) xs a
  IsLongest-map xs b l =
      let (a, at, same) = Listed-map xs l.listed.0 b l.listed.1 in
      (
        a,
        same,
        record {
          listed = (l.listed.0, at);
          fitting = ap fits same ∙ l.fitting;
          longest =
              subst (λ (n : ℕ). All (λ x. fits (f x) ≡ true → size (f x) ≤ n) xs)
                (ap size (sym same)) (All-map (λ y. fits y ≡ true → size y ≤ size b) xs l.longest);
        },
      )

  pub NoneFits-map :
      (xs : List A)
      → NoneFits fits size (map f xs)
      → NoneFits (λ x. fits (f x)) (λ x. size (f x)) xs
  NoneFits-map xs h = All-map (λ y. fits y ≡ false) xs h
