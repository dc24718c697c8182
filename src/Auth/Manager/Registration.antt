-- ===== src/Auth/Manager/Registration.antt =====
-- What the registration of a key means for the validation of this key and of others.
use cyan_flame_control_plane.Prelude.{
  ℕ, ◌≡◌, ◌≢◌, refl, ap, ◌∙◌, arith, true, String, eq_iff, some, Option-cases, inl, inr, ok,
}
use cyan_flame_control_plane.Prelude.Dict.{lookup, insert, lookup-insert}
use cyan_flame_control_plane.Auth.Tier.{from_name}
use cyan_flame_control_plane.Auth.Manager.{
  ApiKeyEntry, AuthManager, new_entry, refresh, counted, validate_entry, register_key,
  validate_found, validate_key,
}
use cyan_flame_control_plane.Auth.Manager.Limits.{validate_key-found}

new_entry-accepted :
    (h tier org_id : String) (registered t now : ℕ)
    → (e : ApiKeyEntry) × ((validate_entry (new_entry h tier org_id registered) t now).1 ≡ ok e)
      × (e.tier_config ≡ from_name tier)
      × (e.org_id ≡ org_id)
      × (e.request_count ≡ 1)
unfolding validate_entry
new_entry-accepted h tier org_id registered t now =
    let e = new_entry h tier org_id registered in
    (counted (refresh e now), ground arith, ground arith, ground arith, ground arith)

module _ (hash_key : String → String) where
  untouched :
      (m : AuthManager) (h : String) (new : ApiKeyEntry) (other : String) (t now : ℕ)
      → hash_key other ≢ h
      → m.auth_enabled ≡ true
      → (validate_key hash_key (record m { api_keys = insert h new m.api_keys }) other t now).1
        ≡ (validate_key hash_key m other t now).1
  unfolding validate_key validate_found
  untouched m h new other t now apart on =
      let same : lookup (hash_key other) (insert h new m.api_keys)
          ≡ lookup (hash_key other) m.api_keys =
        ground
          (arith, lookup-insert h (hash_key other) new m.api_keys, eq_iff h (hash_key other)) in
      elim (Option-cases (lookup (hash_key other) m.api_keys)) [
        | inl absent ↦ rw (on, same, absent) refl
        | inr (x, found) ↦ rw (on, same, found) refl
      ]

  -- Where authentication is on, a key that was registered is accepted at its next call, with the
  -- configuration of its tier, its organization and a count of 1; and the registration changes the
  -- verdict on no key with another hash.
  pub validate_key-register_key :
      (m : AuthManager) (api_key tier org_id : String) (registered t now : ℕ)
      → m.auth_enabled ≡ true
      → let m' = register_key hash_key m api_key tier org_id registered in
        ((e : ApiKeyEntry) × ((validate_key hash_key m' api_key t now).1 ≡ ok e)
          × (e.tier_config ≡ from_name tier)
          × (e.org_id ≡ org_id)
          × (e.request_count ≡ 1))
        × ((other : String)
            → hash_key other ≢ hash_key api_key
            → (validate_key hash_key m' other t now).1 ≡ (validate_key hash_key m other t now).1)
  unfolding register_key
  validate_key-register_key m api_key tier org_id registered t now on =
      let h = hash_key api_key in
      let new = new_entry h tier org_id registered in
      let m' : AuthManager = record m { api_keys = insert h new m.api_keys } in
      let there : lookup h (insert h new m.api_keys) ≡ some new =
        ground (arith, lookup-insert h h new m.api_keys, eq_iff h h) in
      let (e, accepted, tier_eq, org_eq, count) =
        new_entry-accepted h tier org_id registered t now in
      (
        (
          e,
          ap (λ r. r.1) (validate_key-found hash_key api_key m' new t now on there) ∙ accepted,
          tier_eq,
          org_eq,
          count,
        ),
        λ other apart. untouched m h new other t now apart on,
      )
