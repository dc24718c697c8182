-- ===== src/Allocation/Calls.antt =====
-- Sequences of calls, and what an allocation and its release do.
use cyan_flame_control_plane.Prelude.{
  ◌+◌, ◌-◌, ◌^◌, ◌≤◌, ◌<◌, ◌≡◌, refl, arith, true, String, str_eq, eq_iff, some, List, [], ◌∷◌,
  if◌then◌else◌,
}
use cyan_flame_control_plane.Prelude.Int.{ℤ}
use cyan_flame_control_plane.Prelude.Dict.{lookup, lookup-insert, lookup-remove}
use cyan_flame_control_plane.Allocation.{
  AllocationService, AllocationRequest, new, new_record, granted, refused, current_alloc,
  allocate_memory, free_memory, free_found, release_total,
}
use cyan_flame_control_plane.Allocation.Accounting.{
  IsAccounted, IsFresh, new-IsAccounted, allocate-IsAccounted, free-IsAccounted,
}

-- The calls that change the maps; the two others only read them.
pub data Call : Type 0 where
  allocates : (req : AllocationRequest) → (now : ℤ) → (id : String) → Call
  frees : (id : String) → Call

unfoldable pub step : AllocationService → Call → AllocationService
step s (allocates req now id) = (allocate_memory s req now id).0
step s (frees id) = (free_memory s id).0

unfoldable pub run : AllocationService → List Call → AllocationService
run s [] = s
run s (c ∷ cs) = run (step s c) cs

abbrev pub AreFresh : AllocationService → List Call → Type 0
AreFresh s [] = Unit
AreFresh s (allocates req now id ∷ cs) =
    IsFresh s req id × AreFresh (allocate_memory s req now id).0 cs
AreFresh s (frees id ∷ cs) = AreFresh (free_memory s id).0 cs

run-IsAccounted :
    (s : AllocationService) (cs : List Call)
    → IsAccounted s
    → AreFresh s cs
    → IsAccounted (run s cs)
unfolding run step
run-IsAccounted s [] h f = h
run-IsAccounted s (allocates req now id ∷ cs) h f =
    run-IsAccounted (allocate_memory s req now id).0 cs (allocate-IsAccounted s req now id h f.0)
      f.1
run-IsAccounted s (frees id ∷ cs) h f =
    run-IsAccounted (free_memory s id).0 cs (free-IsAccounted s id h) f

-- From an empty service, after any sequence of allocations and releases in which the identifiers
-- of new allocations are not in use and no sum wraps, every agent's total is the sum of its live
-- allocations and at most the limit, and no identifier occurs twice.
pub history-IsAccounted : (cs : List Call) → AreFresh new cs → IsAccounted (run new cs)
history-IsAccounted cs f = run-IsAccounted new cs new-IsAccounted f

module _ (s : AllocationService) (req : AllocationRequest) (now : ℤ) (id : String) where
  abbrev after : AllocationService
  after = (allocate_memory s req now id).0

  -- A request that stays within the agent's limit, without wrapping, is granted: the record is
  -- stored under the new identifier and no other changes, and the amount is added to the agent's
  -- total and to no other agent's.
  pub allocate_within :
      current_alloc s req.agent_id + req.requested_tb < 2 ^ 64
      → current_alloc s req.agent_id + req.requested_tb ≤ s.max_allocation_per_agent_tb
      → ((allocate_memory s req now id).1 ≡ granted req now id)
        × ((j : String)
            → lookup j after.allocations
              ≡ (if str_eq id j then some (new_record req now id) else lookup j s.allocations))
        × ((agent : String)
            → current_alloc after agent ≡ (
                if str_eq req.agent_id agent
                then current_alloc s agent + req.requested_tb
                else current_alloc s agent))
  unfolding allocate_memory
  allocate_within fits le = (
    ground arith,
    (λ j. ground (arith, lookup-insert id j (new_record req now id) s.allocations)),
    λ agent. ground (
      arith,
      eq_iff req.agent_id agent,
      lookup-insert req.agent_id agent (current_alloc s req.agent_id + req.requested_tb)
          s.agent_allocations,
    ),
  )

  -- A request beyond the limit, without wrapping, is refused with the three numbers of the
  -- message, and changes nothing.
  allocate_beyond :
      current_alloc s req.agent_id + req.requested_tb < 2 ^ 64
      → s.max_allocation_per_agent_tb < current_alloc s req.agent_id + req.requested_tb
      → allocate_memory s req now id ≡ (s, refused s req)
  unfolding allocate_memory
  allocate_beyond fits lt = ground arith

  -- Releasing a granted allocation gives back its amount, and restores every agent's total and
  -- every other allocation.
  pub free-allocate :
      IsFresh s req id
      → current_alloc s req.agent_id + req.requested_tb ≤ s.max_allocation_per_agent_tb
      → let q = free_memory after id in
        (q.1.success ≡ true)
        × (q.1.freed_tb ≡ req.requested_tb)
        × ((j : String) → lookup j q.0.allocations ≡ lookup j s.allocations)
        × ((agent : String) → current_alloc q.0 agent ≡ current_alloc s agent)
  unfolding free_memory free_found release_total
  free-allocate fresh le =
      let (_, stored, totals) = allocate_within fresh.in_word le in
      let here : lookup id after.allocations ≡ some (new_record req now id) =
        ground (arith, stored id, eq_iff id id) in
      rw here (
        refl,
        refl,
        (λ j.
            ground
              (arith, stored j, eq_iff id j, fresh.unused, lookup-remove id j after.allocations)),
        λ agent. ground (
          arith,
          totals agent,
          totals req.agent_id,
          eq_iff req.agent_id agent,
          eq_iff req.agent_id req.agent_id,
          lookup-insert req.agent_id agent (current_alloc after req.agent_id - req.requested_tb)
              after.agent_allocations,
        ),
      )

  -- A request whose sum with the agent's positive total is 2^64 passes the limit: it is granted
  -- and stored in full, and the agent's total becomes 0.
  pub allocate_wraps :
      0 < current_alloc s req.agent_id
      → current_alloc s req.agent_id + req.requested_tb ≡ 2 ^ 64
      → ((allocate_memory s req now id).1 ≡ granted req now id)
        × (lookup id after.allocations ≡ some (new_record req now id))
        × (current_alloc after req.agent_id ≡ 0)
  unfolding allocate_memory
  allocate_wraps pos e = ground (
    arith,
    eq_iff req.agent_id req.agent_id,
    eq_iff id id,
    lookup-insert id id (new_record req now id) s.allocations,
    lookup-insert req.agent_id req.agent_id 0 s.agent_allocations,
  )
