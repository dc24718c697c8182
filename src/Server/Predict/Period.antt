-- ===== src/Server/Predict/Period.antt =====
-- The linear congruential generator visits every 64-bit state.
use native.Mathlib.Nat.{pow-succ'}
use native.Mathlib.Decide.{dec_lt}
use native.Mathlib.Nat
use cyan_flame_control_plane.Prelude.{
  ℕ, zero, suc, ◌+◌, ◌-◌, ◌*◌, ◌/◌, ◌%◌, ◌^◌, ◌<◌, ◌≡◌, ap, ap₂, sym, subst, ◌∙◌, arith, ◌⊎◌, inl,
  inr,
}
use cyan_flame_control_plane.Prelude.Modular.{mod-eq_of_shift}
use cyan_flame_control_plane.Server.Predict.{multiplier, increment, next_state}

no_more : (n : ℕ) → n + 0 ≡ n
no_more n = omega arith

one_more : (n m : ℕ) → n + suc m ≡ suc (n + m)
one_more n m = omega arith

halves : (v : ℕ) → (v ≡ 2 * (v / 2)) ⊎ (v ≡ 2 * (v / 2) + 1)
halves v = ground arith

-- The factor and the summand of `n` steps without the wrap-around.
module _ (a c : ℕ) where
  factor : ℕ → ℕ
  factor zero = 1
  factor (suc n) = factor n * a

  summand : ℕ → ℕ
  summand zero = 0
  summand (suc n) = factor n * c + summand n

  jump : ℕ → ℕ → ℕ
  jump n x = factor n * x + summand n

  factor-add : (n m : ℕ) → factor (n + m) ≡ factor n * factor m
  unfolding factor
  factor-add n zero = ap factor (no_more n) ∙ omega arith
  factor-add n (suc m) =
      ap factor (one_more n m) ∙ ap (λ (t : ℕ). t * a) (factor-add n m) ∙ omega arith

  summand-add : (n m : ℕ) → summand (n + m) ≡ factor n * summand m + summand n
  unfolding factor summand
  summand-add n zero = ap summand (no_more n) ∙ omega arith
  summand-add n (suc m) =
      ap summand (one_more n m)
      ∙ omega (arith, ap (λ (t : ℕ). t * c) (factor-add n m), summand-add n m)

  jump-add : (n m x : ℕ) → jump (n + m) x ≡ jump n (jump m x)
  unfolding jump
  jump-add n m x = omega (arith, ap (λ (t : ℕ). t * x) (factor-add n m), summand-add n m)

  -- As many steps as `p` move each state by an odd number of times `p`, but for multiples of
  -- `4 * p`.
  record IsHalfTurn (p : ℕ) : Type 0 where
    f : ℕ
    s : ℕ
    is_factor : factor p ≡ 1 + 4 * (p * f)
    is_summand : summand p ≡ p * (1 + 2 * s)

  twice : (p : ℕ) → 2 * p ≡ p + p
  twice p = omega arith

  IsHalfTurn-double : (p : ℕ) → IsHalfTurn p → IsHalfTurn (2 * p)
  IsHalfTurn-double p h = record {
    f = h.f + 2 * (p * (h.f * h.f));
    s = p * h.f + h.s + 2 * (p * (h.f * h.s));
    is_factor =
        ap factor (twice p) ∙ factor-add p p ∙ ap (λ (t : ℕ). t * t) h.is_factor ∙ omega arith;
    is_summand =
        ap summand (twice p)
        ∙ summand-add p p
        ∙ ap₂ (λ (t u : ℕ). t * u + u) h.is_factor h.is_summand
        ∙ omega arith;
  }

  -- A state is reached whose remainder by `p` is `t`, in fewer than `p` steps.
  Reaches : ℕ → Type 0
  Reaches p = (x t : ℕ) → t < p → (n : ℕ) × (v : ℕ) × (n < p) × (jump n x ≡ t + v * p)

  -- From a state that lies an odd number of times `p` off, as many steps as `p` lead on.
  jump-half :
      (p x t v : ℕ) (h : IsHalfTurn p)
      → x ≡ t + v * p
      → jump p x ≡ t + (v + 1 + 2 * (2 * (h.f * x) + h.s)) * p
  unfolding jump
  jump-half p x t v h e =
      ap₂ (λ (a' c' : ℕ). a' * x + c') h.is_factor h.is_summand ∙ omega (arith, e)

  -- The even number of times `p` that is reached, in fewer than `2 * p` steps.
  reaches_even :
      (p x t n v : ℕ) (h : IsHalfTurn p)
      → n < p
      → jump n x ≡ t + v * p
      → (m : ℕ) × (w : ℕ) × (m < 2 * p) × (jump m x ≡ t + w * (2 * p))
  reaches_even p x t n v h less e = elim (halves v) [
    | inl even ↦ (n, v / 2, omega arith, e ∙ ap (λ (u : ℕ). t + u * p) even ∙ omega arith)
    | inr odd ↦ (
      p + n,
      v / 2 + 1 + (2 * (h.f * jump n x) + h.s),
      omega arith,
      jump-add p n x
          ∙ jump-half p (jump n x) t v h e
          ∙ ap (λ (u : ℕ). t + (u + 1 + 2 * (2 * (h.f * jump n x) + h.s)) * p) odd
          ∙ omega arith,
    )
  ]

  reaches_odd :
      (p x t n v : ℕ) (h : IsHalfTurn p)
      → n < p
      → jump n x ≡ t + v * p
      → (m : ℕ) × (w : ℕ) × (m < 2 * p) × (jump m x ≡ t + p + w * (2 * p))
  reaches_odd p x t n v h less e = elim (halves v) [
    | inl even ↦ (
      p + n,
      v / 2 + (2 * (h.f * jump n x) + h.s),
      omega arith,
      jump-add p n x
          ∙ jump-half p (jump n x) t v h e
          ∙ ap (λ (u : ℕ). t + (u + 1 + 2 * (2 * (h.f * jump n x) + h.s)) * p) even
          ∙ omega arith,
    )
    | inr odd ↦ (n, v / 2, omega arith, e ∙ ap (λ (u : ℕ). t + u * p) odd ∙ omega arith)
  ]

  Reaches-double : (p : ℕ) → IsHalfTurn p → Reaches p → Reaches (2 * p)
  unfolding Reaches
  Reaches-double p h r x t small = elim (dec_lt t p) [
    | yes low ↦ let (n, v, less, e) = r x t low in reaches_even p x t n v h less e
    | no high ↦
        let (n, v, less, e) = r x (t - p) (omega arith) in
        let same : t - p + p ≡ t = omega arith in
        subst (λ (u : ℕ). (m : ℕ) × (w : ℕ) × (m < 2 * p) × (jump m x ≡ u + w * (2 * p))) same
          (reaches_odd p x (t - p) n v h less e)
  ]

  powers : IsHalfTurn 1 → (k : ℕ) → IsHalfTurn (2 ^ k) × Reaches (2 ^ k)
  unfolding Reaches
  powers h zero = (h, λ x t small. (0, x, omega arith, unfold jump factor summand in omega arith))
  powers h (suc k) =
      let (half, all) = powers h k in
      subst (λ (p : ℕ). IsHalfTurn p × Reaches p) (sym (pow-succ' 2 k))
        (IsHalfTurn-double (2 ^ k) half, Reaches-double (2 ^ k) half all)

  jump-mod : (n x m : ℕ) → jump n (x % m) % m ≡ jump n x % m
  unfolding jump
  jump-mod n x m =
      mod-eq_of_shift (factor n * (x % m) + summand n) (factor n * x + summand n)
        (factor n * (x / m)) 0 m (omega (arith, ap (λ (t : ℕ). factor n * t) (Nat.mod-add-div x m)))

  jump-step : (n x : ℕ) → jump n (x * a + c) ≡ jump (suc n) x
  unfolding jump factor summand
  jump-step n x = omega arith

unfoldable pub advance : ℕ → ℕ → ℕ
unfolding next_state
advance zero s = s
advance (suc n) s = advance n (next_state s)

next_state-mod : (s : ℕ) → next_state s ≡ (s * multiplier + increment) % 2 ^ 64
unfolding next_state
next_state-mod s = omega arith

advance-jump : (n s : ℕ) → s < 2 ^ 64 → advance n s ≡ jump multiplier increment n s % 2 ^ 64
unfolding advance
advance-jump zero s small = unfold jump factor summand in omega arith
advance-jump (suc n) s small =
    ap (advance n) (next_state-mod s)
    ∙ advance-jump n ((s * multiplier + increment) % 2 ^ 64) (omega arith)
    ∙ jump-mod multiplier increment n (s * multiplier + increment) (2 ^ 64)
    ∙ ap (λ (t : ℕ). t % 2 ^ 64) (jump-step multiplier increment n s)

first_turn : IsHalfTurn multiplier increment 1
first_turn = record {
  f = 1591034055961698251;
  s = 721347520444481703;
  is_factor = unfold factor in omega arith;
  is_summand = unfold factor summand in omega arith;
}

-- Whatever the state is, each other state comes up within `2 ^ 64` steps.
pub visits : (s t : ℕ) → s < 2 ^ 64 → t < 2 ^ 64 → (n : ℕ) × (n < 2 ^ 64) × (advance n s ≡ t)
unfolding Reaches
visits s t small_s small_t =
    let (n, v, less, e) = (powers multiplier increment first_turn 64).1 s t small_t in
    (n, less, advance-jump n s small_s ∙ ap (λ (u : ℕ). u % 2 ^ 64) e ∙ omega arith)
