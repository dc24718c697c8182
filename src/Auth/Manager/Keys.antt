-- ===== src/Auth/Manager/Keys.antt =====
-- Histories of calls of the manager, and the allocation counters that none of them changes.
use cyan_flame_control_plane.Prelude.{
  ℕ, ◌*◌, ◌/◌, ◌^◌, ◌≤◌, ◌<◌, ◌≡◌, refl, subst, arith, Bool, String, inl, inr, Option-cases,
  Bool-cases, List, [], ◌∷◌, leb, if◌then◌else◌, Outcome, ok, err, panic, ◌>>=◌,
}
use cyan_flame_control_plane.Prelude.Dict.{lookup, AllValues, lookup-AllValues, insert-AllValues}
use cyan_flame_control_plane.Auth.Tier.{from_name}
use cyan_flame_control_plane.Auth.Manager.{
  ApiKeyEntry, AuthManager, Status, over_tier_limit, new, new_entry, disabled_entry, validate_entry,
  check_entry, register_key, validate_found, validate_key, check_allocation_allowed,
  get_amplification_factor,
}

pub data Call : Type 0 where
  registers : (api_key tier org_id : String) → (now : ℕ) → Call
  validates : (api_key : String) → (expiry_now now : ℕ) → Call
  checks : (api_key : String) → (requested_bytes expiry_now now : ℕ) → Call
  asks_factor : (api_key : String) → (expiry_now now : ℕ) → Call

-- An entry with nothing allocated, under one of the tiers.
pub record IsIdle (e : ApiKeyEntry) : Type 0 where
  pub no_allocations : e.current_allocations ≡ 0
  pub no_memory : e.allocated_memory_bytes ≡ 0
  pub room : 0 < e.tier_config.max_concurrent_allocations
  pub bounded : e.tier_config.max_allocation_tb ≤ 574

tier_bounds :
    (s : String)
    → (0 < (from_name s).max_concurrent_allocations) × ((from_name s).max_allocation_tb ≤ 574)
unfolding from_name
tier_bounds s = ground arith

new_entry-IsIdle : (h tier org_id : String) (now : ℕ) → IsIdle (new_entry h tier org_id now)
new_entry-IsIdle h tier org_id now = record {
  no_allocations = refl;
  no_memory = refl;
  room = (tier_bounds tier).0;
  bounded = (tier_bounds tier).1;
}

disabled_entry-IsIdle : (now : ℕ) → IsIdle (disabled_entry now)
disabled_entry-IsIdle now = omega arith

validate_entry-IsIdle : (e : ApiKeyEntry) (t now : ℕ) → IsIdle e → IsIdle (validate_entry e t now).0
unfolding validate_entry
validate_entry-IsIdle e t now h = ground arith

-- An accepted call returns the entry that is stored.
validate_entry-ok :
    (e r : ApiKeyEntry) (t now : ℕ)
    → (validate_entry e t now).1 ≡ ok r
    → (validate_entry e t now).0 ≡ r
unfolding validate_entry
validate_entry-ok e r t now h = ground arith

module _ (hash_key : String → String) where
  unfoldable pub step : AuthManager → Call → AuthManager
  step m (registers api_key tier org_id now) = register_key hash_key m api_key tier org_id now
  step m (validates api_key t now) = (validate_key hash_key m api_key t now).0
  step m (checks api_key bytes t now) = (check_allocation_allowed hash_key m api_key bytes t now).0
  step m (asks_factor api_key t now) = (get_amplification_factor hash_key m api_key t now).0

  unfoldable pub run : AuthManager → List Call → AuthManager
  run m [] = m
  run m (c ∷ cs) = run (step m c) cs

  abbrev AreIdle : AuthManager → Type 0
  AreIdle m = AllValues IsIdle m.api_keys

  validate_key-AreIdle :
      (m : AuthManager) (api_key : String) (t now : ℕ)
      → AreIdle m
      → AreIdle (validate_key hash_key m api_key t now).0
  unfolding validate_key validate_found
  validate_key-AreIdle m api_key t now h = elim (Bool-cases m.auth_enabled) [
    | inl on ↦ elim (Option-cases (lookup (hash_key api_key) m.api_keys)) [
      | inl e ↦ rw (on, e) h
      | inr (x, e) ↦
          rw (on, e)
            (insert-AllValues IsIdle (hash_key api_key) (validate_entry x t now).0 m.api_keys h (
              validate_entry-IsIdle x t now
                (lookup-AllValues IsIdle (hash_key api_key) m.api_keys h e)))
    ]
    | inr off ↦ rw off h
  ]

  validate_key-IsIdle :
      (m : AuthManager) (api_key : String) (t now : ℕ) (r : ApiKeyEntry)
      → AreIdle m
      → (validate_key hash_key m api_key t now).1 ≡ ok r
      → IsIdle r
  unfolding validate_key validate_found
  validate_key-IsIdle m api_key t now r h e = elim (Bool-cases m.auth_enabled) [
    | inl on ↦ elim (Option-cases (lookup (hash_key api_key) m.api_keys)) [
      | inl absent ↦ cc (rw (on, absent) at e)
      | inr (x, found) ↦ subst IsIdle (validate_entry-ok x r t now (rw (on, found) at e)) (
          validate_entry-IsIdle x t now
            (lookup-AllValues IsIdle (hash_key api_key) m.api_keys h found))
    ]
    | inr off ↦
        let same : disabled_entry now ≡ r = cc (rw off at e) in
        subst IsIdle same (disabled_entry-IsIdle now)
  ]

  step-AreIdle : (m : AuthManager) (c : Call) → AreIdle m → AreIdle (step m c)
  unfolding step register_key check_allocation_allowed get_amplification_factor
  step-AreIdle m (registers api_key tier org_id now) h =
      insert-AllValues IsIdle (hash_key api_key) _ m.api_keys h
        (new_entry-IsIdle (hash_key api_key) tier org_id now)
  step-AreIdle m (validates api_key t now) h = validate_key-AreIdle m api_key t now h
  step-AreIdle m (checks api_key bytes t now) h = validate_key-AreIdle m api_key t now h
  step-AreIdle m (asks_factor api_key t now) h = validate_key-AreIdle m api_key t now h

  run-AreIdle : (m : AuthManager) (cs : List Call) → AreIdle m → AreIdle (run m cs)
  unfolding run
  run-AreIdle m [] h = h
  run-AreIdle m (c ∷ cs) h = run-AreIdle (step m c) cs (step-AreIdle m c h)

  check_entry-IsIdle :
      (e : ApiKeyEntry) (bytes : ℕ)
      → IsIdle e
      → bytes < 2 ^ 64
      → check_entry e bytes ≡ (
          if leb bytes (e.tier_config.max_allocation_tb * 2 ^ 40)
          then ok tt
          else err (over_tier_limit e.tier_config.max_allocation_tb 0 (bytes / 2 ^ 40)))
  unfolding check_entry
  check_entry-IsIdle e bytes h fits = ground arith

  -- After any history of calls, on a manager that began empty, an allocation check of less than 2^64
  -- bytes is decided by the verdict of `validate_key` on the key at this moment and by the size of the
  -- request: an accepted key is allowed what fits its tier's total by itself and refused what does
  -- not, so the number and the size of earlier allocations never count.
  pub check_allocation-ignores_allocations :
      (auth_enabled : Bool) (cs : List Call) (api_key : String) (bytes t now : ℕ)
      → bytes < 2 ^ 64
      → let m = run (new auth_enabled) cs in
        (check_allocation_allowed hash_key m api_key bytes t now).1 ≡ (
          (validate_key hash_key m api_key t now).1 >>= λ e.
          if leb bytes (e.tier_config.max_allocation_tb * 2 ^ 40)
          then ok tt
          else err (over_tier_limit e.tier_config.max_allocation_tb 0 (bytes / 2 ^ 40)))
  unfolding check_allocation_allowed new
  check_allocation-ignores_allocations auth_enabled cs api_key bytes t now fits =
      let m = run (new auth_enabled) cs in
      cases (validate_key hash_key m api_key t now).1 (λ r e.
        check_entry-IsIdle r bytes
          (validate_key-IsIdle m api_key t now r (run-AreIdle (new auth_enabled) cs tt) e) fits)
    where
      cases :
          (o : Outcome Status ApiKeyEntry)
          → ((r : ApiKeyEntry)
              → o ≡ ok r
              → check_entry r bytes ≡ (
                  if leb bytes (r.tier_config.max_allocation_tb * 2 ^ 40)
                  then ok tt
                  else err (over_tier_limit r.tier_config.max_allocation_tb 0 (bytes / 2 ^ 40))))
          → (o >>= λ r. check_entry r bytes) ≡ (
              o >>= λ e.
              if leb bytes (e.tier_config.max_allocation_tb * 2 ^ 40)
              then ok tt
              else err (over_tier_limit e.tier_config.max_allocation_tb 0 (bytes / 2 ^ 40)))
      cases (ok r) k = k r refl
      cases (err s) k = refl
      cases panic k = refl
