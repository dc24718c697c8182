-- ===== src/Server/Predict.antt =====
-- `PredictActivation` of src/bin/control_plane_server.rs: the neurons that are drawn for a layer.
pub mod Period
pub mod Total
use cyan_flame_control_plane.Prelude.{
  ℕ, zero, suc, ◌+◌, ◌*◌, ◌/◌, ◌%◌, ◌^◌, Bool, true, false, ◌||◌, String, as_bytes, Option, none,
  some, List, [], ◌∷◌, ◌++◌, length, ltb, ◌==◌, if◌then◌else◌, u64, add64,
}

abbrev pub multiplier : ℕ
multiplier = 6364136223846793005

abbrev pub increment : ℕ
increment = 1442695040888963407

-- The fold over the bytes from place `i` on.
unfoldable pub fold_bytes : ℕ → ℕ → List ℕ → ℕ
fold_bytes acc i [] = acc
fold_bytes acc i (b ∷ bs) = fold_bytes (add64 acc (u64 (b * 2 ^ (i % 8 * 8)))) (i + 1) bs

unfoldable pub first_state : String → ℕ → ℕ
unfolding fold_bytes
first_state input_hash layer_index = add64 (fold_bytes 0 0 (as_bytes input_hash)) layer_index

unfoldable pub next_state : ℕ → ℕ
next_state state = add64 (u64 (state * multiplier)) increment

unfoldable pub neuron_idx : ℕ → ℕ
neuron_idx state = state / 2 ^ 32 % 2 ^ 32 % 2048

unfoldable pub contains : ℕ → List ℕ → Bool
contains x [] = false
contains x (y ∷ ys) = y == x || contains x ys

-- The body of both loops behind the new state: a neuron is pushed once.
unfoldable pub push_new : ℕ → List ℕ → List ℕ
unfolding contains
push_new x xs = if contains x xs then xs else xs ++ (x ∷ [])

-- The `for` loop of `left` rounds: the state and the neurons behind it.
unfoldable pub draw : ℕ → ℕ → List ℕ → ℕ × List ℕ
unfolding next_state neuron_idx push_new
draw zero state xs = (state, xs)
draw (suc left) state xs =
    draw left (next_state state) (push_new (neuron_idx (next_state state)) xs)

-- The `while` loop, with `none` where the fuel ends.
unfoldable pub fill_up : ℕ → ℕ → ℕ → List ℕ → Option (List ℕ)
unfolding next_state neuron_idx push_new
fill_up num_active zero state xs = none
fill_up num_active (suc fuel) state xs =
    if ltb (length xs) num_active
    then fill_up num_active fuel (next_state state) (push_new (neuron_idx (next_state state)) xs)
    else some xs

unfoldable pub insert_sorted : ℕ → List ℕ → List ℕ
insert_sorted x [] = x ∷ []
insert_sorted x (y ∷ ys) = if ltb y x then y ∷ insert_sorted x ys else x ∷ y ∷ ys

unfoldable pub sort : List ℕ → List ℕ
unfolding insert_sorted
sort [] = []
sort (x ∷ xs) = insert_sorted x (sort xs)

abbrev pub num_active : ℕ
num_active = 102

abbrev sorted_neurons : Option (List ℕ) → Option (List ℕ)
sorted_neurons none = none
sorted_neurons (some xs) = some (sort xs)

-- The active neurons for an input's hash and a layer, where the `while` loop has the given fuel.
unfoldable pub predict_activation : ℕ → String → ℕ → Option (List ℕ)
unfolding first_state draw fill_up sort
predict_activation fuel input_hash layer_index =
    let (state, xs) = draw num_active (first_state input_hash layer_index) [] in
    sorted_neurons (fill_up num_active fuel state xs)
