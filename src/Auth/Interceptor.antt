-- ===== src/Auth/Interceptor.antt =====
-- `AuthManager::extract_api_key` and `AuthInterceptor` of src/grpc/auth.rs.
use Prim.Native.String.{slice, len}
use text.Mathlib.Text.{starts_with}
use mathlib.Core.Option
use cyan_flame_control_plane.Prelude.{
  ℕ, ◌≡◌, refl, arith, Bool, false, not, String, Option, none, some, inl, inr, Option-cases,
  Bool-cases, if◌then◌else◌, Outcome, ok, err, panic,
}
use cyan_flame_control_plane.Prelude.Dict.{Dict, lookup}
use cyan_flame_control_plane.Auth.Manager.{
  ApiKeyEntry, AuthManager, Status, key_disabled, key_expired, invalid_key, missing_key,
  rate_limit_exceeded, too_many_allocations, over_tier_limit, has_expired, validate_entry,
  validate_found, validate_key,
}

-- The headers of a request; a value that is not visible ASCII has no text.
abbrev pub Metadata : Type 0
Metadata = Dict (Option String)

-- `get` followed by `to_str().ok()`.
abbrev pub header : Metadata → String → Option String
header md name = elim (lookup name md) [ none ↦ none | some text ↦ text ]

abbrev pub strip_prefix : String → String → Option String
strip_prefix prefix s = if starts_with s prefix then some (slice s (len prefix) (len s)) else none

unfoldable pub extract_api_key : Metadata → Option String
extract_api_key md = elim (header md "x-api-key") [
  | some key ↦ some key
  | none ↦ Option.bind (header md "authorization") (strip_prefix "Bearer ")
]

-- The checks on the entry of the key, without the rate limit.
unfoldable pub intercept_entry : Option ApiKeyEntry → ℕ → Outcome Status (Unit {0})
intercept_entry none now = err invalid_key
intercept_entry (some e) now =
    if not e.enabled
    then err key_disabled
    else if has_expired e.expires_at now
    then err key_expired
    else ok tt

module _ (hash_key : String → String) where
  unfoldable pub intercept_key : AuthManager → Bool → ℕ → Option String → Outcome Status (Unit {0})
  unfolding intercept_entry
  intercept_key m contended now none = err missing_key
  intercept_key m contended now (some api_key) =
      if contended then ok tt else intercept_entry (lookup (hash_key api_key) m.api_keys) now

  -- `contended` says that another task holds the write lock of the keys, so that `try_read` fails.
  -- An accepted request is passed on as it is.
  unfoldable pub intercept : AuthManager → Metadata → Bool → ℕ → Outcome Status (Unit {0})
  unfolding intercept_key
  intercept m md contended now =
      if not m.auth_enabled then ok tt else intercept_key m contended now (extract_api_key md)

  -- A verdict of `validate_key` with the rate limit left out.
  abbrev pub without_rate : Outcome Status ApiKeyEntry → Outcome Status (Unit {0})
  without_rate (ok e) = ok tt
  without_rate (err key_disabled) = err key_disabled
  without_rate (err key_expired) = err key_expired
  without_rate (err invalid_key) = err invalid_key
  without_rate (err missing_key) = err missing_key
  without_rate (err (rate_limit_exceeded limit)) = ok tt
  without_rate (err (too_many_allocations c m)) = err (too_many_allocations c m)
  without_rate (err (over_tier_limit m c r)) = err (over_tier_limit m c r)
  without_rate panic = panic

  intercept_entry-eq :
      (e : ApiKeyEntry) (t now : ℕ)
      → intercept_entry (some e) t ≡ without_rate (validate_entry e t now).1
  unfolding intercept_entry validate_entry
  intercept_entry-eq e t now = ground arith

  -- Where the lock is free, the interceptor passes a request with a key exactly as `validate_key`
  -- accepts it, with the same error where it does not, but for the rate limit, which it does not
  -- look at.
  pub intercept-agrees :
      (m : AuthManager) (md : Metadata) (api_key : String) (t now : ℕ)
      → extract_api_key md ≡ some api_key
      → intercept m md false t ≡ without_rate (validate_key hash_key m api_key t now).1
  unfolding intercept intercept_key validate_key validate_found
  intercept-agrees m md api_key t now key = elim (Bool-cases m.auth_enabled) [
    | inl on ↦ elim (Option-cases (lookup (hash_key api_key) m.api_keys)) [
      | inl absent ↦ rw (on, key, absent) refl
      | inr (e, found) ↦ rw (on, key, found) (intercept_entry-eq e t now)
    ]
    | inr off ↦ rw off refl
  ]
