-- ===== src/Auth/Tests.antt =====
-- Runs of the code of src/grpc/auth.rs, with the identity for the hash of a key.
use mathlib.Core.Option
use cyan_flame_control_plane.Prelude.{
  ℕ, ◌+◌, ◌*◌, ◌/◌, ◌^◌, ◌≤◌, ◌≡◌, ◌≢◌, refl, arith, true, false, String, none, some, List, [], ◌∷◌,
  leb, if◌then◌else◌, ok, err, ◌>>=◌,
}
use cyan_flame_control_plane.Prelude.Dict.{lookup}
use cyan_flame_control_plane.Auth.Tier.{free, from_name}
use cyan_flame_control_plane.Auth.Manager.{
  ApiKeyEntry, AuthManager, over_tier_limit, rate_limit_exceeded, new, register_key, validate_key,
  validate_found, validate_entry, check_allocation_allowed,
}
use cyan_flame_control_plane.Auth.Manager.Limits.{accepted, accepted-le-rate_limit}
use cyan_flame_control_plane.Auth.Manager.Registration.{validate_key-register_key}
use cyan_flame_control_plane.Auth.Manager.Keys.{
  Call, registers, validates, run, check_allocation-ignores_allocations,
}
use cyan_flame_control_plane.Auth.Interceptor.{
  Metadata, extract_api_key, intercept, without_rate, intercept-agrees,
}

abbrev hash : String → String
hash s = s

abbrev entry : ApiKeyEntry
entry = record {
  key_hash = "key";
  tier = "free";
  tier_config = free;
  org_id = "org";
  expires_at = none;
  rate_limit = 100;
  request_count = 100;
  last_request = 5;
  enabled = true;
  current_allocations = 0;
  allocated_memory_bytes = 0;
}

abbrev manager : AuthManager
manager = record { api_keys = ("key", entry) ∷ []; auth_enabled = true }

has_key : lookup (hash "key") manager.api_keys ≡ some entry
unfolding lookup
has_key = refl

abbrev fresh : ApiKeyEntry
fresh = record entry { request_count = 98 }

abbrev fresh_manager : AuthManager
fresh_manager = record { api_keys = ("key", fresh) ∷ []; auth_enabled = true }

has_fresh_key : lookup (hash "key") fresh_manager.api_keys ≡ some fresh
unfolding lookup
has_fresh_key = refl

-- The count is at the limit.
limited : (validate_key hash manager "key" 6 6).1 ≡ err (rate_limit_exceeded 100)
unfolding validate_key validate_found validate_entry lookup
limited = refl

accepted-le-rate_limit_example :
    accepted hash "key" fresh_manager ((6, 6) ∷ (7, 7) ∷ (8, 8) ∷ []) + 98 ≤ 100
accepted-le-rate_limit_example =
    accepted-le-rate_limit hash "key" fresh_manager fresh ((6, 6) ∷ (7, 7) ∷ (8, 8) ∷ []) refl
      has_fresh_key (omega arith) (omega arith) (omega arith) (omega arith)

abbrev minute_later : ℕ
minute_later = 60 * 10 ^ 9 + 5

abbrev history : List Call
history = registers "key" "free" "org" 5 ∷ validates "key" 6 6 ∷ []

check_allocation-ignores_allocations_example :
    (check_allocation_allowed hash (run hash (new true) history) "key" (3 * 2 ^ 40) 7 7).1 ≡ (
      (validate_key hash (run hash (new true) history) "key" 7 7).1 >>= λ e.
      if leb (3 * 2 ^ 40) (e.tier_config.max_allocation_tb * 2 ^ 40)
      then ok tt
      else err (over_tier_limit e.tier_config.max_allocation_tb 0 ((3 * 2 ^ 40) / 2 ^ 40)))
check_allocation-ignores_allocations_example =
    check_allocation-ignores_allocations hash true history "key" (3 * 2 ^ 40) 7 7 (omega arith)

abbrev headers : Metadata
headers = ("authorization", some "Bearer key") ∷ []

key_of_headers : extract_api_key headers ≡ some "key"
unfolding extract_api_key lookup Option.bind
key_of_headers = refl

intercept-agrees_example :
    intercept hash manager headers false 6
    ≡ without_rate hash (validate_key hash manager "key" 6 6).1
intercept-agrees_example = intercept-agrees hash manager headers "key" 6 6 key_of_headers

validate_key-register_key_example :
    ((e : ApiKeyEntry) × ((validate_key hash
          (register_key hash manager "new" "pro" "lab" 9)
          "new"
          10
          10).1
        ≡ ok e)
      × (e.tier_config ≡ from_name "pro")
      × (e.org_id ≡ "lab")
      × (e.request_count ≡ 1))
    × ((other : String)
        → hash other ≢ "new"
        → (validate_key hash (register_key hash manager "new" "pro" "lab" 9) other 10 10).1
          ≡ (validate_key hash manager other 10 10).1)
validate_key-register_key_example =
    validate_key-register_key hash manager "new" "pro" "lab" 9 10 10 refl
