-- ===== src/Server/Tests.antt =====
-- Runs of the code of src/bin/control_plane_server.rs.
use cyan_flame_control_plane.Prelude.{
  ℕ, ◌+◌, ◌*◌, ◌^◌, ◌%◌, ◌≡◌, refl, arith, as_bytes, true, false, none, some, List, [], ◌∷◌, length,
  All, ◌++◌, ◌⊎◌, inr, err, ok, String, Outcome,
}
use cyan_flame_control_plane.Server.Predict.{
  predict_activation, fold_bytes, first_state, next_state, neuron_idx, contains, push_new, draw,
}
use cyan_flame_control_plane.Server.Predict.Total.{IsIncreasing, IsBelow, predict_activation-total}
use cyan_flame_control_plane.Cache.{new}
use cyan_flame_control_plane.Tcam.{with_strategy}
use cyan_flame_control_plane.Server.Command.{
  ControlCommand, Readings, cache_set, cache_get, insert_route,
}
use cyan_flame_control_plane.Server.Process.{branch, respond, process_command}
use cyan_flame_control_plane.Server.Process.Agreement.{Agrees}
use cyan_flame_control_plane.Server.Process.Counters.{run, answers, history-Agrees}
use cyan_flame_control_plane.Server.Samples.{around, server, readings}

abc_state : first_state "abc" 3 ≡ 6513252
unfolding first_state fold_bytes as_bytes
abc_state = refl

two_neurons :
    (draw 2 6513252 []).1
    ≡ neuron_idx (next_state 6513252) ∷ neuron_idx (next_state (next_state 6513252)) ∷ []
unfolding draw neuron_idx next_state push_new contains
two_neurons = refl

predict_activation-total_example :
    (neurons : List ℕ) × (predict_activation (102 * 2 ^ 64 + 1) "abc" 3 ≡ some neurons)
    × (length neurons ≡ 102)
    × IsIncreasing neurons
    × All (IsBelow 2048) neurons
predict_activation-total_example = predict_activation-total (102 * 2 ^ 64 + 1) "abc" 3 (omega arith)

abbrev calls : List (Readings × ControlCommand ℕ)
calls =
    (readings, cache_set "k" "vv" none)
    ∷ (readings, cache_get "k")
    ∷ (readings, cache_get "other")
    ∷ (readings, insert_route "10" "hop" 1)
    ∷ []

-- The route command panics, and the three others are answered.
three_answers : answers around server calls ≡ 3
unfolding answers process_command respond branch new with_strategy
    cyan_flame_control_plane.Prelude.Dict.lookup cyan_flame_control_plane.Prelude.Dict.insert
    as_bytes
three_answers = refl

history-Agrees_example :
    Agrees (run around server calls)
    × ((run around server calls).stats.commands_processed
        ≡ (0 + answers around server calls) % 2 ^ 64)
history-Agrees_example =
    history-Agrees around server calls (omega arith)
      (unfold new with_strategy in record { hits = refl; misses = refl })
