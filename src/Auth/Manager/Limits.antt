-- ===== src/Auth/Manager/Limits.antt =====
-- The rate limit of a key.
use cyan_flame_control_plane.Prelude.{
  ℕ, ◌+◌, ◌^◌, ◌≤◌, ◌<◌, ◌≡◌, refl, ap, arith, true, false, String, eq_iff, some, List, [], ◌∷◌,
  All, Outcome, ok, err, panic,
}
use cyan_flame_control_plane.Prelude.Dict.{lookup, insert, lookup-insert}
use cyan_flame_control_plane.Auth.Manager.{
  ApiKeyEntry, AuthManager, Status, num_seconds, has_expired, counted, validate_entry,
  validate_found, validate_key,
}

abbrev is_ok {ℓ} : {A : Type ℓ} → Outcome Status A → ℕ
is_ok (ok a) = 1
is_ok (err s) = 0
is_ok panic = 0

-- How many of the calls at the given clock readings an entry accepts.
pub accepted_by_entry : ApiKeyEntry → List (ℕ × ℕ) → ℕ
accepted_by_entry e [] = 0
accepted_by_entry e ((t, now) ∷ calls) =
    is_ok (validate_entry e t now).1 + accepted_by_entry (validate_entry e t now).0 calls

-- All readings for the rate fall in the minute that began at `start`.
abbrev pub InMinute : ℕ → List (ℕ × ℕ) → Type 0
InMinute start calls = All (λ c. num_seconds c.1 start < 60) calls

accepted_by_entry-le :
    (e : ApiKeyEntry) (calls : List (ℕ × ℕ))
    → 0 < e.rate_limit
    → e.rate_limit < 2 ^ 32
    → e.request_count ≤ e.rate_limit
    → InMinute e.last_request calls
    → accepted_by_entry e calls + e.request_count ≤ e.rate_limit
unfolding accepted_by_entry validate_entry
accepted_by_entry-le e [] pos fits le h = omega arith
accepted_by_entry-le e ((t, now) ∷ calls) pos fits le h = ground (
  arith,
  accepted_by_entry-le e calls pos fits le h.1,
  accepted_by_entry-le (counted e) calls pos fits,
)

module _ (hash_key : String → String) (api_key : String) where
  -- The number of calls of `validate_key` with the key that succeed.
  pub accepted : AuthManager → List (ℕ × ℕ) → ℕ
  accepted m [] = 0
  accepted m ((t, now) ∷ calls) =
      is_ok (validate_key hash_key m api_key t now).1
      + accepted (validate_key hash_key m api_key t now).0 calls

  -- A key that is there is validated through its entry, which is stored anew.
  pub validate_key-found :
      (m : AuthManager) (e : ApiKeyEntry) (t now : ℕ)
      → m.auth_enabled ≡ true
      → lookup (hash_key api_key) m.api_keys ≡ some e
      → validate_key hash_key m api_key t now ≡ (
        record m { api_keys = insert (hash_key api_key) (validate_entry e t now).0 m.api_keys },
        (validate_entry e t now).1,
      )
  unfolding validate_key validate_found
  validate_key-found m e t now on found = ground arith

  accepted-eq :
      (m : AuthManager) (e : ApiKeyEntry) (calls : List (ℕ × ℕ))
      → m.auth_enabled ≡ true
      → lookup (hash_key api_key) m.api_keys ≡ some e
      → accepted m calls ≡ accepted_by_entry e calls
  unfolding accepted accepted_by_entry
  accepted-eq m e [] on found = refl
  accepted-eq m e ((t, now) ∷ calls) on found =
      let h = hash_key api_key in
      let e' = (validate_entry e t now).0 in
      let m' : AuthManager = record m { api_keys = insert h e' m.api_keys } in
      let stored : lookup h m'.api_keys ≡ some e' =
        ground (arith, lookup-insert h h e' m.api_keys, eq_iff h h) in
      rw (validate_key-found m e t now on found)
        (ap (λ (n : ℕ). is_ok (validate_entry e t now).1 + n) (accepted-eq m' e' calls on stored))

  -- Within a minute of the reset of a key's count, the calls of `validate_key` that succeed are
  -- at most what the limit leaves, for a limited key whose limit fits a word of 32 bits.
  pub accepted-le-rate_limit :
      (m : AuthManager) (e : ApiKeyEntry) (calls : List (ℕ × ℕ))
      → m.auth_enabled ≡ true
      → lookup (hash_key api_key) m.api_keys ≡ some e
      → 0 < e.rate_limit
      → e.rate_limit < 2 ^ 32
      → e.request_count ≤ e.rate_limit
      → InMinute e.last_request calls
      → accepted m calls + e.request_count ≤ e.rate_limit
  accepted-le-rate_limit m e calls on found pos fits le h =
      rw (accepted-eq m e calls on found) (accepted_by_entry-le e calls pos fits le h)

  -- A key that is enabled and not expired is accepted once a minute has passed since its last
  -- reset, whatever its count was, and the count starts anew.
  validate_key-after_minute :
      (m : AuthManager) (e : ApiKeyEntry) (expiry_now now : ℕ)
      → m.auth_enabled ≡ true
      → lookup (hash_key api_key) m.api_keys ≡ some e
      → e.enabled ≡ true
      → has_expired e.expires_at expiry_now ≡ false
      → 60 ≤ num_seconds now e.last_request
      → (validate_key hash_key m api_key expiry_now now).1
        ≡ ok (record e { request_count = 1; last_request = now })
  unfolding validate_entry
  validate_key-after_minute m e expiry_now now on found enabled fresh minute =
      rw (validate_key-found m e expiry_now now on found) (ground arith)
