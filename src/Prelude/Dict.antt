-- ===== src/Prelude/Dict.antt =====
-- A `HashMap` with text keys: an association list, whose order stands for the iteration order.
use Prim.Native.String.{String}
use Prim.Native.Nat.{ℕ, ◌+◌}
use mathlib.Core.Path.{◌≡◌, refl, subst}
use mathlib.Core.Logic.{inl, inr}
use mathlib.Core.Option.{Option, none, some}
use mathlib.Core.List.{List, [], ◌∷◌}
use native.Mathlib.Omega.{arith}
use text.Mathlib.Text.{◌==◌}
use text.Mathlib.TextEquality.{eq_iff}
use cyan_flame_control_plane.Prelude.Tests.{if◌then◌else◌, Bool-cases}

abbrev pub Dict {ℓ} : Type ℓ → Type ℓ
Dict V = List (String × V)

module _ {ℓ} {V : Type ℓ} where
  unfoldable pub lookup : String → Dict V → Option V
  lookup k [] = none
  lookup k ((j, v) ∷ d) = if j == k then some v else lookup k d

  unfoldable pub insert : String → V → Dict V → Dict V
  insert k v [] = (k, v) ∷ []
  insert k v ((j, w) ∷ d) = if j == k then (k, v) ∷ d else (j, w) ∷ insert k v d

  unfoldable pub remove : String → Dict V → Dict V
  remove k [] = []
  remove k ((j, v) ∷ d) = let rest = remove k d in if j == k then rest else (j, v) ∷ rest

  pub lookup-insert :
      (k j : String) (v : V) (d : Dict V)
      → lookup j (insert k v d) ≡ (if k == j then some v else lookup j d)
  unfolding lookup insert
  lookup-insert k j v [] = refl
  lookup-insert k j v ((i, w) ∷ d) =
      ground (arith, eq_iff k j, eq_iff i k, eq_iff i j, lookup-insert k j v d)

  pub lookup-remove :
      (k j : String) (d : Dict V) → lookup j (remove k d) ≡ (if k == j then none else lookup j d)
  unfolding lookup remove
  lookup-remove k j [] = ground arith
  lookup-remove k j ((i, v) ∷ d) =
      ground (arith, lookup-remove k j d, eq_iff i k, eq_iff i j, eq_iff k j)

  -- The number of the entries' values, each weighed by `f`.
  unfoldable pub total : (V → ℕ) → Dict V → ℕ
  total f [] = 0
  total f ((j, v) ∷ d) = f v + total f d

  abbrev pub weight : (V → ℕ) → Option V → ℕ
  weight f none = 0
  weight f (some v) = f v

  -- No key occurs twice.
  abbrev pub IsUnique : Dict V → Type ℓ
  IsUnique [] = Unit
  IsUnique ((j, v) ∷ d) = (lookup j d ≡ none) × IsUnique d

  pub total-insert :
      (f : V → ℕ) (k : String) (v : V) (d : Dict V)
      → total f (insert k v d) + weight f (lookup k d) ≡ total f d + f v
  unfolding total insert lookup
  total-insert f k v [] = omega arith
  total-insert f k v ((j, w) ∷ d) = ground (arith, total-insert f k v d)

  remove_absent : (k : String) (d : Dict V) → lookup k d ≡ none → remove k d ≡ d
  unfolding remove lookup
  remove_absent k [] h = refl
  remove_absent k ((j, v) ∷ d) h = ground (arith, remove_absent k d)

  pub total-remove :
      (f : V → ℕ) (k : String) (d : Dict V)
      → IsUnique d
      → total f (remove k d) + weight f (lookup k d) ≡ total f d
  unfolding total remove lookup
  total-remove f k [] u = refl
  total-remove f k ((j, v) ∷ d) u =
      ground (arith, total-remove f k d u.1, eq_iff j k, remove_absent k d)

  pub insert-IsUnique : (k : String) (v : V) (d : Dict V) → IsUnique d → IsUnique (insert k v d)
  unfolding insert
  insert-IsUnique k v [] u = (unfold lookup in refl, tt)
  insert-IsUnique k v ((j, w) ∷ d) u =
      ground (arith, insert-IsUnique k v d u.1, eq_iff j k, eq_iff k j, lookup-insert k j v d)

  pub remove-IsUnique : (k : String) (d : Dict V) → IsUnique d → IsUnique (remove k d)
  unfolding remove
  remove-IsUnique k [] u = tt
  remove-IsUnique k ((j, v) ∷ d) u =
      ground (arith, remove-IsUnique k d u.1, lookup-remove k j d, eq_iff k j)

  abbrev pub AllValues {κ} : (V → Type κ) → Dict V → Type κ
  AllValues P [] = Unit
  AllValues P ((j, v) ∷ d) = P v × AllValues P d

  pub lookup-AllValues {κ} :
      (P : V → Type κ) (k : String) (d : Dict V) {v : V} → AllValues P d → lookup k d ≡ some v → P v
  unfolding lookup
  lookup-AllValues P k [] h e = cc
  lookup-AllValues P k ((j, w) ∷ d) {v} h e = elim (Bool-cases (j == k)) [
    | inl hit ↦ let same : w ≡ v = ground arith in subst P same h.0
    | inr miss ↦ lookup-AllValues P k d h.1 (rw miss at e)
  ]

  pub insert-AllValues {κ} :
      (P : V → Type κ) (k : String) (v : V) (d : Dict V)
      → AllValues P d
      → P v
      → AllValues P (insert k v d)
  unfolding insert
  insert-AllValues P k v [] h p = (p, tt)
  insert-AllValues P k v ((j, w) ∷ d) h p = elim (Bool-cases (j == k)) [
    | inl hit ↦ rw hit (p, h.1)
    | inr miss ↦ rw miss (h.0, insert-AllValues P k v d h.1 p)
  ]
