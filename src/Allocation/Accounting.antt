-- ===== src/Allocation/Accounting.antt =====
-- The two maps agree: an agent's total is the sum of its allocations.
use cyan_flame_control_plane.Prelude.{
  ℕ, ◌+◌, ◌-◌, ◌^◌, ◌≤◌, ◌<◌, ◌≡◌, refl, arith, String, str_eq, eq_iff, none, some, inl, inr,
  Option-cases, if◌then◌else◌,
}
use cyan_flame_control_plane.Prelude.Int.{ℤ}
use cyan_flame_control_plane.Prelude.Dict.{
  Dict, lookup, total, IsUnique, lookup-insert, total-insert, total-remove, insert-IsUnique,
  remove-IsUnique,
}
use cyan_flame_control_plane.Allocation.{
  AllocationRecord, AllocationService, AllocationRequest, new, new_record, current_alloc,
  allocate_memory, free_memory, free_found, release_total,
}

abbrev pub share : String → AllocationRecord → ℕ
share agent r = if str_eq r.agent_id agent then r.allocated_tb else 0

-- What the allocations of an agent add up to.
abbrev pub held : String → Dict AllocationRecord → ℕ
held agent d = total (share agent) d

pub record IsAccounted (s : AllocationService) : Type 0 where
  pub unique : IsUnique s.allocations
  pub exact : (agent : String) → current_alloc s agent ≡ held agent s.allocations
  pub bounded : (agent : String) → current_alloc s agent ≤ s.max_allocation_per_agent_tb

pub new-IsAccounted : IsAccounted new
unfolding new total lookup
new-IsAccounted = record { unique = tt; exact = λ agent. refl; bounded = λ agent. omega arith }

-- What the program relies on of a new identifier, and the range in which the sum does not wrap.
pub record IsFresh (s : AllocationService) (req : AllocationRequest) (id : String) : Type 0 where
  pub unused : lookup id s.allocations ≡ none
  pub in_word : current_alloc s req.agent_id + req.requested_tb < 2 ^ 64

allocate-exact :
    (s : AllocationService) (req : AllocationRequest) (now : ℤ) (id agent : String)
    → IsAccounted s
    → IsFresh s req id
    → (current_alloc (allocate_memory s req now id).0 agent
        ≡ held agent (allocate_memory s req now id).0.allocations)
      × (current_alloc (allocate_memory s req now id).0 agent
          ≤ (allocate_memory s req now id).0.max_allocation_per_agent_tb)
unfolding allocate_memory
allocate-exact s req now id agent h fresh = ground (
  arith,
  h.exact agent,
  h.bounded agent,
  eq_iff req.agent_id agent,
  total-insert (share agent) id (new_record req now id) s.allocations,
  fresh.unused,
  lookup-insert req.agent_id agent (current_alloc s req.agent_id + req.requested_tb)
      s.agent_allocations,
)

pub allocate-IsAccounted :
    (s : AllocationService) (req : AllocationRequest) (now : ℤ) (id : String)
    → IsAccounted s
    → IsFresh s req id
    → IsAccounted (allocate_memory s req now id).0
unfolding allocate_memory
allocate-IsAccounted s req now id h fresh = record {
  unique = ground (arith, insert-IsUnique id (new_record req now id) s.allocations h.unique);
  exact = λ agent. (allocate-exact s req now id agent h fresh).0;
  bounded = λ agent. (allocate-exact s req now id agent h fresh).1;
}

-- `held` of an agent after a release, and the agent's total.
release-exact :
    (s : AllocationService) (id agent : String) (r : AllocationRecord)
    → IsAccounted s
    → lookup id s.allocations ≡ some r
    → let q = (free_found s id (some r)).0 in
      (current_alloc q agent ≡ held agent q.allocations)
      × (current_alloc q agent ≤ s.max_allocation_per_agent_tb)
unfolding free_found release_total
release-exact s id agent r h e = ground (
  arith,
  h.exact agent,
  h.exact r.agent_id,
  h.bounded agent,
  e,
  eq_iff r.agent_id agent,
  eq_iff r.agent_id r.agent_id,
  total-remove (share agent) id s.allocations h.unique,
  total-remove (share r.agent_id) id s.allocations h.unique,
  lookup-insert r.agent_id agent (current_alloc s r.agent_id - r.allocated_tb) s.agent_allocations,
)

pub free-IsAccounted :
    (s : AllocationService) (id : String) → IsAccounted s → IsAccounted (free_memory s id).0
unfolding free_memory
free-IsAccounted s id h = elim (Option-cases (lookup id s.allocations)) [
  | inl e ↦ rw e h
  | inr (r, e) ↦ rw e (record {
    unique = remove-IsUnique id s.allocations h.unique;
    exact = λ agent. (release-exact s id agent r h e).0;
    bounded = λ agent. (release-exact s id agent r h e).1;
  })
]
