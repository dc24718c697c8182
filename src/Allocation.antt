-- ===== src/Allocation.antt =====
-- `AllocationServiceImpl` of src/grpc/allocation.rs. A handler holds the locks of the maps it
-- changes, so each is one step. The clock and the new identifier are arguments. What is written
-- to the log is left out, and a message is a value that names the text and its numbers.
pub mod Accounting
pub mod Calls
pub mod Routing
pub mod Status
pub mod Locks
mod Tests
use Prim.Native.String.{slice}
use Prim.Native.String
use cyan_flame_control_plane.Prelude.{
  ℕ, ◌+◌, ◌*◌, ◌≡◌, Bool, true, false, ◌&&◌, ◌||◌, not, String, str_eq, Option, none, some, List,
  [], ◌∷◌, ltb, leb, if◌then◌else◌, u64, add64, saturating_sub,
}
use cyan_flame_control_plane.Prelude.Int.{ℤ, pos, add_i64, is_positive}
use cyan_flame_control_plane.Prelude.Dict.{Dict, lookup, insert, remove}

pub record AllocationRecord : Type 0 where
  pub allocation_id : String
  pub agent_id : String
  pub allocated_tb : ℕ
  pub purpose : String
  pub node_id : String
  pub created_at_ms : ℤ
  pub expires_at_ms : ℤ

pub record AllocationService : Type 0 where
  pub allocations : Dict AllocationRecord
  pub agent_allocations : Dict ℕ
  pub max_allocation_per_agent_tb : ℕ

unfoldable pub new : AllocationService
new = record { allocations = []; agent_allocations = []; max_allocation_per_agent_tb = 1000 }

pub record AllocationRequest : Type 0 where
  pub agent_id : String
  pub api_key : String
  pub requested_tb : ℕ
  pub purpose : String
  pub duration_ms : ℤ

pub data ErrorMessage : Type 0 where
  no_error : ErrorMessage
  exceeds_limit : (current requested max : ℕ) → ErrorMessage

pub record AllocationResponse : Type 0 where
  pub success : Bool
  pub allocation_id : String
  pub allocated_tb : ℕ
  pub assigned_node : String
  pub expires_at_ms : ℤ
  pub error_message : ErrorMessage

-- `agent_allocs.get(..).copied().unwrap_or(0)`.
abbrev pub count_or_zero : Option ℕ → ℕ
count_or_zero none = 0
count_or_zero (some n) = n

abbrev pub current_alloc : AllocationService → String → ℕ
current_alloc s agent = count_or_zero (lookup agent s.agent_allocations)

abbrev pub day_ms : ℕ
day_ms = 24 * 60 * 60 * 1000

abbrev pub expiry : ℤ → ℤ → ℤ
expiry now_ms duration_ms =
    if is_positive duration_ms then add_i64 now_ms duration_ms else add_i64 now_ms (pos day_ms)

abbrev pub node_name : String → String
node_name id = String.◌++◌ "node-" (slice id 0 8)

abbrev pub new_record : AllocationRequest → ℤ → String → AllocationRecord
new_record req now_ms id = record {
  allocation_id = id;
  agent_id = req.agent_id;
  allocated_tb = req.requested_tb;
  purpose = req.purpose;
  node_id = node_name id;
  created_at_ms = now_ms;
  expires_at_ms = expiry now_ms req.duration_ms;
}

abbrev pub refused : AllocationService → AllocationRequest → AllocationResponse
refused s req = record {
  success = false;
  allocation_id = "";
  allocated_tb = 0;
  assigned_node = "";
  expires_at_ms = pos 0;
  error_message =
      exceeds_limit (current_alloc s req.agent_id) req.requested_tb s.max_allocation_per_agent_tb;
}

abbrev pub granted : AllocationRequest → ℤ → String → AllocationResponse
granted req now_ms id = record {
  success = true;
  allocation_id = id;
  allocated_tb = req.requested_tb;
  assigned_node = node_name id;
  expires_at_ms = expiry now_ms req.duration_ms;
  error_message = no_error;
}

unfoldable pub allocate_memory :
    AllocationService → AllocationRequest → ℤ → String → AllocationService × AllocationResponse
allocate_memory s req now_ms id =
    let current = current_alloc s req.agent_id in
    if ltb s.max_allocation_per_agent_tb (add64 current req.requested_tb)
    then (s, refused s req)
    else (
      record s {
        allocations = insert id (new_record req now_ms id) s.allocations;
        agent_allocations =
            insert req.agent_id (add64 current req.requested_tb) s.agent_allocations;
      },
      granted req now_ms id,
    )

pub data FreeMessage : Type 0 where
  freed : (tb : ℕ) → (allocation_id : String) → FreeMessage
  allocation_not_found : FreeMessage

pub record FreeMemoryResponse : Type 0 where
  pub success : Bool
  pub freed_tb : ℕ
  pub message : FreeMessage

-- The total of an agent that is in the map, after a release.
unfoldable pub release_total : String → ℕ → Dict ℕ → Dict ℕ
release_total agent tb totals = elim (lookup agent totals) [
  | none ↦ totals
  | some held ↦ insert agent (saturating_sub held tb) totals
]

unfoldable pub free_found :
    AllocationService → String → Option AllocationRecord → AllocationService × FreeMemoryResponse
free_found s id none = (s, record { success = false; freed_tb = 0; message = allocation_not_found })
free_found s id (some r) = (
  record s {
    allocations = remove id s.allocations;
    agent_allocations = release_total r.agent_id r.allocated_tb s.agent_allocations;
  },
  record { success = true; freed_tb = r.allocated_tb; message = freed r.allocated_tb id },
)

-- The request's `agent_id` is not looked at.
unfoldable pub free_memory : AllocationService → String → AllocationService × FreeMemoryResponse
unfolding free_found
free_memory s allocation_id = free_found s allocation_id (lookup allocation_id s.allocations)

-- The loop of `route_memory_request`: the best agent so far and what it has available.
unfoldable pub best_loop : ℕ → ℕ → Dict ℕ → Option String → ℕ → Option String × ℕ
best_loop max required [] best available = (best, available)
best_loop max required ((agent, allocated) ∷ agents) best best_available =
    let available = saturating_sub max allocated in
    let better = leb required available && ltb best_available available in
    best_loop max required agents (if better then some agent else best)
      (if better then available else best_available)

-- The latencies of the response are constants and its alternatives are empty.
pub record MemoryRoutingResponse : Type 0 where
  pub found : Bool
  pub optimal_node_id : String
  pub node_address : String
  pub available_tb : ℕ

abbrev pub routing_response : Option String × ℕ → MemoryRoutingResponse
routing_response (some agent, available) = record {
  found = true;
  optimal_node_id = agent;
  node_address = String.◌++◌ "grpc://" (String.◌++◌ agent ":50051");
  available_tb = available;
}
routing_response (none, available) = record {
  found = false;
  optimal_node_id = "";
  node_address = "";
  available_tb = 0;
}

unfoldable pub route_memory_request : AllocationService → ℕ → MemoryRoutingResponse
unfolding best_loop
route_memory_request s required_tb =
    routing_response
      (best_loop s.max_allocation_per_agent_tb required_tb s.agent_allocations none 0)

pub record AllocationInfo : Type 0 where
  pub allocation_id : String
  pub size_tb : ℕ
  pub purpose : String
  pub created_at_ms : ℤ
  pub expires_at_ms : ℤ
  pub node_id : String

pub record AllocationStatusResponse : Type 0 where
  pub allocations : List AllocationInfo
  pub total_allocated_tb : ℕ
  pub quota_tb : ℕ
  pub remaining_quota_tb : ℕ

abbrev pub info : AllocationRecord → AllocationInfo
info r = record {
  allocation_id = r.allocation_id;
  size_tb = r.allocated_tb;
  purpose = r.purpose;
  created_at_ms = r.created_at_ms;
  expires_at_ms = r.expires_at_ms;
  node_id = r.node_id;
}

-- The two `continue`s of the loop: another agent, or another allocation than the one asked for.
abbrev pub is_listed : String → String → String → AllocationRecord → Bool
is_listed agent wanted id r = str_eq r.agent_id agent && (str_eq wanted "" || str_eq id wanted)

unfoldable pub status_loop : String → String → Dict AllocationRecord → ℕ → List AllocationInfo × ℕ
status_loop agent wanted [] total = ([], total)
status_loop agent wanted ((id, r) ∷ rest) total =
    let listed = is_listed agent wanted id r in
    let (infos, sum) =
      status_loop agent wanted rest (if listed then add64 total r.allocated_tb else total) in
    (if listed then info r ∷ infos else infos, sum)

unfoldable pub get_allocation_status :
    AllocationService → String → String → AllocationStatusResponse
unfolding status_loop
get_allocation_status s agent_id allocation_id =
    let (infos, total) = status_loop agent_id allocation_id s.allocations 0 in
    record {
      allocations = infos;
      total_allocated_tb = total;
      quota_tb = s.max_allocation_per_agent_tb;
      remaining_quota_tb = saturating_sub s.max_allocation_per_agent_tb total;
    }
