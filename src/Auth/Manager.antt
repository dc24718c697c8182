-- ===== src/Auth/Manager.antt =====
-- `AuthManager` of src/grpc/auth.rs. SHA-256 is a parameter. Times are nanoseconds since 1970, and
-- each reading of the clock is an argument. The write lock makes each call one step.
pub mod Limits
pub mod Registration
pub mod Keys
use cyan_flame_control_plane.Prelude.{
  ℕ, ◌+◌, ◌-◌, ◌*◌, ◌/◌, ◌%◌, ◌^◌, Bool, true, false, ◌&&◌, not, String, Option, none, some, List,
  [], ltb, leb, if◌then◌else◌, u64, add64, Outcome, ok, err, panic, ◌>>=◌,
}
use cyan_flame_control_plane.Prelude.Dict.{Dict, lookup, insert}
use cyan_flame_control_plane.Auth.Tier.{TierConfig, enterprise, from_name}

pub record ApiKeyEntry : Type 0 where
  pub key_hash : String
  pub tier : String
  pub tier_config : TierConfig
  pub org_id : String
  pub expires_at : Option ℕ
  pub rate_limit : ℕ
  pub request_count : ℕ
  pub last_request : ℕ
  pub enabled : Bool
  pub current_allocations : ℕ
  pub allocated_memory_bytes : ℕ

pub record AuthManager : Type 0 where
  pub api_keys : Dict ApiKeyEntry
  pub auth_enabled : Bool

-- The gRPC statuses, with the numbers of their messages. `invalid_key` stands for the text that the
-- manager gives and for the shorter one of the interceptor, which have one code.
pub data Status : Type 0 where
  key_disabled key_expired invalid_key missing_key : Status
  rate_limit_exceeded : (limit : ℕ) → Status
  too_many_allocations : (current max : ℕ) → Status
  over_tier_limit : (max_tb current_tb requested_tb : ℕ) → Status

unfoldable pub new : Bool → AuthManager
new auth_enabled = record { api_keys = []; auth_enabled = auth_enabled }

abbrev pub new_entry : String → String → String → ℕ → ApiKeyEntry
new_entry key_hash tier org_id now = record {
  key_hash = key_hash;
  tier = tier;
  tier_config = from_name tier;
  org_id = org_id;
  expires_at = none;
  rate_limit = (from_name tier).rate_limit;
  request_count = 0;
  last_request = now;
  enabled = true;
  current_allocations = 0;
  allocated_memory_bytes = 0;
}

-- What `validate_key` returns where authentication is off.
abbrev pub disabled_entry : ℕ → ApiKeyEntry
disabled_entry now = record {
  key_hash = "disabled";
  tier = "enterprise";
  tier_config = enterprise;
  org_id = "default";
  expires_at = none;
  rate_limit = 0;
  request_count = 0;
  last_request = now;
  enabled = true;
  current_allocations = 0;
  allocated_memory_bytes = 0;
}

-- `num_seconds` of a difference; a negative one counts as 0, which compares with 60 alike.
abbrev pub num_seconds : ℕ → ℕ → ℕ
num_seconds now before = (now - before) / 10 ^ 9

abbrev pub has_expired : Option ℕ → ℕ → Bool
has_expired none now = false
has_expired (some expires) now = ltb expires now

-- The count starts anew where a minute has passed.
abbrev pub refresh : ApiKeyEntry → ℕ → ApiKeyEntry
refresh e now =
    if leb 60 (num_seconds now e.last_request)
    then record e { request_count = 0; last_request = now }
    else e

abbrev pub is_limited : ApiKeyEntry → Bool
is_limited e = ltb 0 e.rate_limit && leb e.rate_limit e.request_count

abbrev pub counted : ApiKeyEntry → ApiKeyEntry
counted e = record e { request_count = (e.request_count + 1) % 2 ^ 32 }

-- The body of `validate_key` on the entry of the key: the entry that is stored, and the result.
-- The clock is read for the expiry, and again for the rate.
unfoldable pub validate_entry :
    ApiKeyEntry → (expiry_now now : ℕ) → ApiKeyEntry × Outcome Status ApiKeyEntry
validate_entry e expiry_now now =
    if not e.enabled
    then (e, err key_disabled)
    else if has_expired e.expires_at expiry_now
    then (e, err key_expired)
    else let r = refresh e now in
      if is_limited r
      then (r, err (rate_limit_exceeded r.rate_limit))
      else (counted r, ok (counted r))

-- Whether what is asked for stays within the tier, for an entry that `validate_key` returned.
unfoldable pub check_entry : ApiKeyEntry → ℕ → Outcome Status (Unit {0})
check_entry e requested_bytes =
    let max_bytes = u64 (e.tier_config.max_allocation_tb * 1024 * 1024 * 1024 * 1024) in
    let tb = 1024 * 1024 * 1024 * 1024 in
    if leb e.tier_config.max_concurrent_allocations e.current_allocations
    then err (too_many_allocations e.current_allocations e.tier_config.max_concurrent_allocations)
    else if ltb max_bytes (add64 e.allocated_memory_bytes requested_bytes)
    then err (
        over_tier_limit e.tier_config.max_allocation_tb (e.allocated_memory_bytes / tb)
          (requested_bytes / tb))
    else ok tt

module _ (hash_key : String → String) where
  unfoldable pub register_key : AuthManager → String → String → String → ℕ → AuthManager
  register_key m api_key tier org_id now =
      let h = hash_key api_key in
      record m { api_keys = insert h (new_entry h tier org_id now) m.api_keys }

  unfoldable pub register_default_keys : AuthManager → ℕ → AuthManager
  unfolding register_key
  register_default_keys m now =
      let m1 = register_key m "cf_free_test123" "free" "test-free-org" now in
      let m2 = register_key m1 "cf_starter_test123" "starter" "test-starter-org" now in
      let m3 = register_key m2 "cf_pro_test123" "pro" "test-pro-org" now in
      let m4 = register_key m3 "cf_ent_test123" "enterprise" "test-enterprise-org" now in
      register_key m4 "test-key-123" "enterprise" "legacy-test-org" now

  unfoldable pub validate_found :
      AuthManager → String → ℕ → ℕ → Option ApiKeyEntry → AuthManager × Outcome Status ApiKeyEntry
  validate_found m h expiry_now now none = (m, err invalid_key)
  validate_found m h expiry_now now (some e) =
      let (e', result) = validate_entry e expiry_now now in
      (record m { api_keys = insert h e' m.api_keys }, result)

  unfoldable pub validate_key :
      AuthManager → String → (expiry_now now : ℕ) → AuthManager × Outcome Status ApiKeyEntry
  unfolding validate_found
  validate_key m api_key expiry_now now =
      let h = hash_key api_key in
      if not m.auth_enabled
      then (m, ok (disabled_entry now))
      else validate_found m h expiry_now now (lookup h m.api_keys)

  unfoldable pub check_allocation_allowed :
      AuthManager → String → ℕ → (expiry_now now : ℕ) → AuthManager × Outcome Status (Unit {0})
  unfolding validate_key check_entry
  check_allocation_allowed m api_key requested_bytes expiry_now now =
      let (m', result) = validate_key m api_key expiry_now now in
      (m', (result >>= λ e. check_entry e requested_bytes))

  unfoldable pub get_amplification_factor :
      AuthManager → String → (expiry_now now : ℕ) → AuthManager × Outcome Status ℕ
  unfolding validate_key
  get_amplification_factor m api_key expiry_now now =
      let (m', result) = validate_key m api_key expiry_now now in
      (m', (result >>= λ e. ok e.tier_config.amplification_factor))
