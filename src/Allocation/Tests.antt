-- ===== src/Allocation/Tests.antt =====
-- Runs of the code of src/grpc/allocation.rs.
use cyan_flame_control_plane.Prelude.{
  ℕ, ◌⊎◌, ◌↔◌, ◌+◌, ◌-◌, ◌^◌, ◌≤◌, ◌≡◌, refl, inl, arith, true, String, str_eq, some, List, [], ◌∷◌,
  if◌then◌else◌,
}
use cyan_flame_control_plane.Prelude.Int.{pos}
use cyan_flame_control_plane.Prelude.Dict.{lookup, insert, remove}
use cyan_flame_control_plane.Allocation.{
  AllocationRequest, AllocationService, new, new_record, granted, current_alloc, allocate_memory,
  free_memory, free_found, release_total, route_memory_request, best_loop, get_allocation_status,
}
use cyan_flame_control_plane.Allocation.Locks.{
  allocate_granted, free_record, done, Reachable, IsStuck, IsDeadlock, IsStuck-iff,
}
use cyan_flame_control_plane.Allocation.Accounting.{IsAccounted}
use cyan_flame_control_plane.Allocation.Calls.{
  Call, allocates, frees, step, run, AreFresh, history-IsAccounted, allocate_within, free-allocate,
  allocate_wraps,
}
use cyan_flame_control_plane.Allocation.Routing.{In, route_memory_request-optimal}
use cyan_flame_control_plane.Allocation.Status.{sum_sizes, get_allocation_status-total}

abbrev ask : String → ℕ → AllocationRequest
ask agent tb = record {
  agent_id = agent;
  api_key = "key";
  requested_tb = tb;
  purpose = "training";
  duration_ms = pos 0;
}

abbrev calls : List Call
calls =
    allocates (ask "a" 300) (pos 5) "id-0000-1"
    ∷ allocates (ask "a" 900) (pos 6) "id-0000-2"
    ∷ allocates (ask "b" 400) (pos 7) "id-0000-3"
    ∷ frees "id-0000-1"
    ∷ []

calls-AreFresh : AreFresh new calls
unfolding new allocate_memory free_memory free_found release_total lookup insert remove
calls-AreFresh = (
  record { unused = refl; in_word = omega arith },
  (
    record { unused = refl; in_word = omega arith },
    (record { unused = refl; in_word = omega arith }, tt),
  ),
)

history-IsAccounted_example : IsAccounted (run new calls)
history-IsAccounted_example = history-IsAccounted calls calls-AreFresh

allocate_within_example :
    ((allocate_memory new (ask "a" 300) (pos 5) "id-0000-1").1
      ≡ granted (ask "a" 300) (pos 5) "id-0000-1")
    × ((j : String)
        → lookup j (allocate_memory new (ask "a" 300) (pos 5) "id-0000-1").0.allocations ≡ (
            if str_eq "id-0000-1" j
            then some (new_record (ask "a" 300) (pos 5) "id-0000-1")
            else lookup j new.allocations))
    × ((agent : String)
        → current_alloc (allocate_memory new (ask "a" 300) (pos 5) "id-0000-1").0 agent
          ≡ (if str_eq "a" agent then current_alloc new agent + 300 else current_alloc new agent))
unfolding new lookup
allocate_within_example =
    allocate_within new (ask "a" 300) (pos 5) "id-0000-1" (omega arith) (omega arith)

free-allocate_example :
    ((free_memory (allocate_memory new (ask "a" 300) (pos 5) "id-0000-1").0 "id-0000-1").1.success
      ≡ true)
    × ((free_memory
          (allocate_memory new (ask "a" 300) (pos 5) "id-0000-1").0
          "id-0000-1").1.freed_tb
        ≡ 300)
    × ((j : String)
        → lookup j
            (free_memory
              (allocate_memory new (ask "a" 300) (pos 5) "id-0000-1").0
              "id-0000-1").0.allocations
          ≡ lookup j new.allocations)
    × ((agent : String)
        → current_alloc
            (free_memory (allocate_memory new (ask "a" 300) (pos 5) "id-0000-1").0 "id-0000-1").0
            agent
          ≡ current_alloc new agent)
unfolding new lookup
free-allocate_example =
    free-allocate new (ask "a" 300) (pos 5) "id-0000-1"
      (record { unused = refl; in_word = omega arith }) (omega arith)

abbrev holding : AllocationService
holding = record {
  allocations = ("id-0000-1", new_record (ask "a" 300) (pos 5) "id-0000-1") ∷ [];
  agent_allocations = ("a", 300) ∷ [];
  max_allocation_per_agent_tb = 1000;
}

abbrev huge : AllocationRequest
huge = ask "a" (2 ^ 64 - 300)

allocate_wraps_example :
    ((allocate_memory holding huge (pos 6) "id-0000-2").1 ≡ granted huge (pos 6) "id-0000-2")
    × (lookup "id-0000-2" (allocate_memory holding huge (pos 6) "id-0000-2").0.allocations
        ≡ some (new_record huge (pos 6) "id-0000-2"))
    × (current_alloc (allocate_memory holding huge (pos 6) "id-0000-2").0 "a" ≡ 0)
unfolding lookup
allocate_wraps_example = allocate_wraps holding huge (pos 6) "id-0000-2" (omega arith) refl

route_memory_request-optimal_example :
    ((route_memory_request holding 600).found ≡ true)
    × (1000 - 300 ≤ (route_memory_request holding 600).available_tb)
    × ((m : ℕ) × In (route_memory_request holding 600).optimal_node_id m holding.agent_allocations
        × ((route_memory_request holding 600).available_tb ≡ 1000 - m)
        × (600 ≤ (route_memory_request holding 600).available_tb))
route_memory_request-optimal_example =
    route_memory_request-optimal holding 600 "a" 300 (inl (refl, refl)) (omega arith) (omega arith)

holding_routes : (route_memory_request holding 600).found ≡ true
unfolding route_memory_request best_loop
holding_routes = refl

run_limit : (run new calls).max_allocation_per_agent_tb ≡ 1000
unfolding run step new allocate_memory free_memory free_found release_total lookup insert remove
run_limit = refl

get_allocation_status-total_example :
    ((get_allocation_status (run new calls) "b" "").total_allocated_tb
      ≡ current_alloc (run new calls) "b")
    × (sum_sizes (get_allocation_status (run new calls) "b" "").allocations
        ≡ (get_allocation_status (run new calls) "b" "").total_allocated_tb)
    × ((get_allocation_status (run new calls) "b" "").total_allocated_tb
          + (get_allocation_status (run new calls) "b" "").remaining_quota_tb
        ≡ (run new calls).max_allocation_per_agent_tb)
    × ((get_allocation_status (run new calls) "b" "").quota_tb
        ≡ (run new calls).max_allocation_per_agent_tb)
get_allocation_status-total_example =
    get_allocation_status-total (run new calls) "b" (history-IsAccounted calls calls-AreFresh)
      (omega (arith, run_limit))

IsStuck-iff_example :
    (Reachable allocate_granted free_record × IsStuck allocate_granted free_record) ↔ (
      ((allocate_granted ≡ done) × (free_record ≡ done))
      ⊎ IsDeadlock allocate_granted free_record
      ⊎ IsDeadlock free_record allocate_granted)
IsStuck-iff_example = IsStuck-iff allocate_granted free_record
