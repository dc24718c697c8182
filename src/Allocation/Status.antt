-- ===== src/Allocation/Status.antt =====
-- `get_allocation_status` reports the totals that the service keeps.
use cyan_flame_control_plane.Prelude.{ℕ, ◌+◌, ◌^◌, ◌<◌, ◌≡◌, refl, arith, String, List, [], ◌∷◌}
use cyan_flame_control_plane.Prelude.Dict.{Dict, total}
use cyan_flame_control_plane.Allocation.{
  AllocationRecord, AllocationService, AllocationInfo, current_alloc, status_loop,
  get_allocation_status,
}
use cyan_flame_control_plane.Allocation.Accounting.{IsAccounted, held}

abbrev pub sum_sizes : List AllocationInfo → ℕ
sum_sizes [] = 0
sum_sizes (i ∷ is) = i.size_tb + sum_sizes is

status_loop-eq :
    (agent : String) (d : Dict AllocationRecord) (start : ℕ)
    → start + held agent d < 2 ^ 64
    → ((status_loop agent "" d start).1 ≡ start + held agent d)
      × (sum_sizes (status_loop agent "" d start).0 ≡ held agent d)
unfolding status_loop total
status_loop-eq agent [] start h = (omega arith, refl)
status_loop-eq agent ((id, r) ∷ d) start h =
    ground (arith, status_loop-eq agent d start, status_loop-eq agent d (start + r.allocated_tb))

-- In a consistent service whose limit fits a word, the status of an agent with no identifier given
-- lists allocations whose sizes add up to the reported total, which is the agent's total that the
-- limit is checked against; the quota and what remains of it add up from that.
pub get_allocation_status-total :
    (s : AllocationService) (agent : String)
    → IsAccounted s
    → s.max_allocation_per_agent_tb < 2 ^ 64
    → let r = get_allocation_status s agent "" in
      (r.total_allocated_tb ≡ current_alloc s agent)
      × (sum_sizes r.allocations ≡ r.total_allocated_tb)
      × (r.total_allocated_tb + r.remaining_quota_tb ≡ s.max_allocation_per_agent_tb)
      × (r.quota_tb ≡ s.max_allocation_per_agent_tb)
unfolding get_allocation_status
get_allocation_status-total s agent h fits =
    ground (arith, h.exact agent, h.bounded agent, status_loop-eq agent s.allocations 0)
