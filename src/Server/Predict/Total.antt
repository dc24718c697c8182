-- ===== src/Server/Predict/Total.antt =====
-- The loops of `PredictActivation` end with as many different neurons as asked for.
mod Pigeons
mod Sorting
use cyan_flame_control_plane.Prelude.{
  ℕ, zero, suc, ◌+◌, ◌*◌, ◌/◌, ◌%◌, ◌^◌, ◌≤◌, ◌<◌, ◌≡◌, ◌-◌, refl, arith, ap, subst, ◌∙◌, Bool,
  true, false, inl, inr, Bool-cases, String, Option, some, List, [], ◌∷◌, ◌++◌, length,
  length-append, All, ltb, lt→ltb, le→ltb, if◌then◌else◌,
}
use cyan_flame_control_plane.Server.Predict.{
  next_state, neuron_idx, contains, push_new, draw, fill_up, sort, num_active, first_state,
  predict_activation,
}
use cyan_flame_control_plane.Server.Predict.Period.{advance, visits}
use Pigeons.{missing}
pub use Sorting.{IsIncreasing, IsBelow}
use Sorting.{IsDrawn, push_new-IsDrawn, sort-IsIncreasing, length-sort, sort-All}

-- Rounds of the `while` loop that end with one more neuron.
record Progress (k n fuel s : ℕ) (xs : List ℕ) : Type 0 where
  left : ℕ
  state : ℕ
  found : List ℕ
  enough : fuel ≤ left + suc n
  small : state < 2 ^ 64
  longer : length found ≡ suc (length xs)
  drawn : IsDrawn found
  goes_on : fill_up k fuel s xs ≡ fill_up k left state found

next_state-lt : (s : ℕ) → next_state s < 2 ^ 64
unfolding next_state
next_state-lt s = omega arith

neuron_idx-lt : (s : ℕ) → neuron_idx s < 2048
unfolding neuron_idx
neuron_idx-lt s = omega arith

neuron_idx-shifted : (t : ℕ) → t < 2048 → neuron_idx (t * 2 ^ 32) ≡ t
unfolding neuron_idx
neuron_idx-shifted t h = omega arith

round :
    (k fuel s : ℕ) (xs : List ℕ)
    → length xs < k
    → fill_up k (suc fuel) s xs
      ≡ fill_up k fuel (next_state s) (push_new (neuron_idx (next_state s)) xs)
unfolding fill_up
round k fuel s xs h = rw (lt→ltb (length xs) k h) refl

push_there : (x : ℕ) (xs : List ℕ) → contains x xs ≡ true → push_new x xs ≡ xs
unfolding push_new
push_there x xs h = rw h refl

length-push_new :
    (x : ℕ) (xs : List ℕ) → contains x xs ≡ false → length (push_new x xs) ≡ suc (length xs)
unfolding push_new
length-push_new x xs h = rw h (length-append xs (x ∷ []) ∙ omega arith)

found_new :
    (k n fuel s : ℕ) (xs : List ℕ)
    → length xs < k
    → IsDrawn xs
    → contains (neuron_idx (next_state s)) xs ≡ false
    → Progress k n (suc fuel) s xs
found_new k n fuel s xs short h new = record {
  left = fuel;
  state = next_state s;
  found = push_new (neuron_idx (next_state s)) xs;
  enough = omega arith;
  small = next_state-lt s;
  longer = length-push_new (neuron_idx (next_state s)) xs new;
  drawn = push_new-IsDrawn (neuron_idx (next_state s)) xs (neuron_idx-lt (next_state s)) h;
  goes_on = round k fuel s xs short;
}

one_more_round :
    (k n fuel s : ℕ) (xs : List ℕ)
    → length xs < k
    → contains (neuron_idx (next_state s)) xs ≡ true
    → Progress k n fuel (next_state s) xs
    → Progress k (suc n) (suc fuel) s xs
one_more_round k n fuel s xs short there p = record {
  left = p.left;
  state = p.state;
  found = p.found;
  enough = omega (arith, p.enough);
  small = p.small;
  longer = p.longer;
  drawn = p.drawn;
  goes_on =
      round k fuel s xs short
      ∙ ap (fill_up k fuel (next_state s)) (push_there (neuron_idx (next_state s)) xs there)
      ∙ p.goes_on;
}

progress :
    (k n fuel s : ℕ) (xs : List ℕ)
    → n < fuel
    → length xs < k
    → IsDrawn xs
    → contains (neuron_idx (advance n (next_state s))) xs ≡ false
    → Progress k n fuel s xs
unfolding advance
progress k n zero s xs more short h out = absurd (omega arith)
progress k zero (suc fuel) s xs more short h out = found_new k zero fuel s xs short h out
progress k (suc n) (suc fuel) s xs more short h out =
    elim (Bool-cases (contains (neuron_idx (next_state s)) xs)) [
      | inr new ↦ found_new k (suc n) fuel s xs short h new
      | inl there ↦
          one_more_round k n fuel s xs short there
            (progress k n fuel (next_state s) xs (omega arith) short h out)
    ]

-- With `left` neurons to find, `left` times the number of states is enough fuel.
fill_up-total :
    (k left fuel s : ℕ) (xs : List ℕ)
    → k ≤ 2048
    → length xs + left ≡ k
    → left * 2 ^ 64 < fuel
    → s < 2 ^ 64
    → IsDrawn xs
    → (ys : List ℕ) × (fill_up k fuel s xs ≡ some ys) × (length ys ≡ k) × IsDrawn ys
fill_up-total k left zero s xs few all more small h = absurd (omega arith)
fill_up-total k zero (suc fuel) s xs few all more small h =
    (xs, unfold fill_up in rw (le→ltb (length xs) k (omega arith)) refl, omega arith, h)
fill_up-total k (suc left) (suc fuel) s xs few all more small h =
    let (t, below, out) = missing 2048 xs (omega arith) in
    let (n, soon, e) = visits (next_state s) (t * 2 ^ 32) (next_state-lt s) (omega arith) in
    let shown : neuron_idx (advance n (next_state s)) ≡ t =
      ap neuron_idx e ∙ neuron_idx-shifted t below in
    let p =
      progress k n (suc fuel) s xs (omega arith) (omega arith) h
        (ap (λ (u : ℕ). contains u xs) shown ∙ out) in
    let (ys, made, full, drawn) =
      fill_up-total k left p.left p.state p.found few (omega (arith, p.longer))
        (omega (arith, p.enough)) p.small p.drawn in
    (ys, p.goes_on ∙ made, full, drawn)

-- The `for` loop finds at most one neuron a round.
length-push_new_le : (x : ℕ) (xs : List ℕ) → length (push_new x xs) ≤ suc (length xs)
unfolding push_new
length-push_new_le x xs = elim (Bool-cases (contains x xs)) [
  | inl there ↦ rw there (omega arith)
  | inr new ↦ rw new (omega (arith, length-append xs (x ∷ [])))
]

draw-IsDrawn :
    (n s : ℕ) (xs : List ℕ)
    → s < 2 ^ 64
    → IsDrawn xs
    → ((draw n s xs).0 < 2 ^ 64)
      × (length (draw n s xs).1 ≤ length xs + n)
      × IsDrawn (draw n s xs).1
unfolding draw
draw-IsDrawn zero s xs small h = (small, omega arith, h)
draw-IsDrawn (suc n) s xs small h =
    let x = neuron_idx (next_state s) in
    let (small', short, drawn) =
      draw-IsDrawn n (next_state s) (push_new x xs) (next_state-lt s)
        (push_new-IsDrawn x xs (neuron_idx-lt (next_state s)) h) in
    (small', omega (arith, short, length-push_new_le x xs), drawn)

first_state-lt :
    (input_hash : String) (layer_index : ℕ) → first_state input_hash layer_index < 2 ^ 64
unfolding first_state
first_state-lt input_hash layer_index = omega arith

fill_up-IsDrawn :
    (k fuel s : ℕ) (xs : List ℕ)
    → k ≤ 2048
    → length xs ≤ k
    → k * 2 ^ 64 < fuel
    → s < 2 ^ 64
    → IsDrawn xs
    → (ys : List ℕ) × (fill_up k fuel s xs ≡ some ys) × (length ys ≡ k) × IsDrawn ys
fill_up-IsDrawn k fuel s xs few short more small h =
    fill_up-total k (k - length xs) fuel s xs few (omega arith) (omega arith) small h

few_active : num_active ≤ 2048
few_active = omega arith

-- For any input's hash and any layer the loops end, with fuel for as many rounds of the second as
-- 102 times the number of 64-bit states, and give exactly 102 different neurons in increasing
-- order, each below 2048.
pub predict_activation-total :
    (fuel : ℕ) (input_hash : String) (layer_index : ℕ)
    → 102 * 2 ^ 64 < fuel
    → (neurons : List ℕ) × (predict_activation fuel input_hash layer_index ≡ some neurons)
      × (length neurons ≡ 102)
      × IsIncreasing neurons
      × All (IsBelow 2048) neurons
unfolding predict_activation
predict_activation-total fuel input_hash layer_index more =
    let (small, short, drawn) =
      draw-IsDrawn num_active (first_state input_hash layer_index) []
        (first_state-lt input_hash layer_index) (tt, tt) in
    let (ys, made, full, h) =
      fill_up-IsDrawn num_active fuel _ _ few_active short more small drawn in
    (
      sort ys,
      rw made refl,
      length-sort ys ∙ full,
      sort-IsIncreasing ys h.1,
      sort-All (IsBelow 2048) ys h.0,
    )
