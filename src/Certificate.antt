-- ===== src/Certificate.antt =====
-- `CertificateManager` of src/grpc/certificate.rs. Times are nanoseconds since 1970, each reading of
-- the clock and each fresh serial number is an argument, and a call is one step on the manager.
pub mod Invariant
pub mod Calls
pub mod Revocation
pub mod Service
pub mod Query
pub mod Ocsp
mod Tests
use cyan_flame_control_plane.Prelude.{
  ℕ, ◌+◌, ◌*◌, ◌^◌, Bool, true, false, String, Option, none, some, List, [], ◌∷◌, ◌++◌, ltb, leb,
  length, ◌==◌, if◌then◌else◌, Outcome, ok, err, or_panic, ◌>>=◌, ◌&&◌,
}
use cyan_flame_control_plane.Prelude.Int.{ℤ, pos, negsuc}
use cyan_flame_control_plane.Prelude.Dict.{Dict, lookup, insert, total}
use cyan_flame_control_plane.Gpu.{BaselineGpuType}
use Prim.Native.String.{◌++◌ as str_append}

-- What the certificate code calls and does not define: SHA-256, `hex::encode`, the hexadecimal MD5
-- of a text, the last instant of `chrono`, the GeneralizedTime text of an instant in milliseconds,
-- the RFC 3339 text of an instant, base64, and rcgen, which is given the serial number, the names, the hash of the key and the days and
-- returns the PEM and the DER of a certificate that the authority signed.
pub record External : Type 0 where
  pub sha256 : List ℕ → List ℕ
  pub hex_encode : List ℕ → String
  pub md5 : String → String
  pub max_utc : ℕ
  pub generalized_time : ℕ → String
  pub to_rfc3339 : ℕ → String
  pub base64_encode : List ℕ → String
  pub generate_x509_certificate :
      (serial common_name org_id api_key_hash : String)
      → (now validity_days : ℕ) → Outcome String (String × List ℕ)

pub data RevocationReason : Type 0 where
  unspecified key_compromise ca_compromise affiliation_changed : RevocationReason
  superseded cessation_of_operation certificate_hold privilege_withdrawn : RevocationReason

unfoldable pub from_proto : ℤ → RevocationReason
from_proto (negsuc n) = unspecified
from_proto (pos n) =
    if n == 1
    then key_compromise
    else if n == 2
    then ca_compromise
    else if n == 3
    then affiliation_changed
    else if n == 4
    then superseded
    else if n == 5
    then cessation_of_operation
    else if n == 6
    then certificate_hold
    else if n == 7
    then privilege_withdrawn
    else unspecified

unfoldable pub to_proto : RevocationReason → ℤ
to_proto unspecified = pos 0
to_proto key_compromise = pos 1
to_proto ca_compromise = pos 2
to_proto affiliation_changed = pos 3
to_proto superseded = pos 4
to_proto cessation_of_operation = pos 5
to_proto certificate_hold = pos 6
to_proto privilege_withdrawn = pos 7

pub data CertificateStatus : Type 0 where
  valid expired revoked unknown : CertificateStatus

abbrev pub status_text : CertificateStatus → String
status_text valid = "valid"
status_text expired = "expired"
status_text revoked = "revoked"
status_text unknown = "unknown"

abbrev pub is_revoked : CertificateStatus → Bool
is_revoked revoked = true
is_revoked _ = false

abbrev is_status_valid : CertificateStatus → Bool
is_status_valid valid = true
is_status_valid _ = false

pub record CertificateEntry : Type 0 where
  pub serial_number : String
  pub fingerprint_sha256 : String
  pub common_name : String
  pub org_id : String
  pub bound_api_key_hash : String
  pub bound_gpu_type : Option BaselineGpuType
  pub certificate_pem : String
  pub certificate_chain_pem : String
  pub issued_at : ℕ
  pub expires_at : ℕ
  pub status : CertificateStatus
  pub revoked_at : Option ℕ
  pub revocation_reason : Option RevocationReason

unfoldable pub is_valid : CertificateEntry → ℕ → Bool
is_valid c now = is_status_valid c.status && ltb now c.expires_at

unfoldable pub current_status : CertificateEntry → ℕ → CertificateStatus
current_status c now =
    if is_revoked c.status then revoked else if leb c.expires_at now then expired else valid

pub record CrlEntry : Type 0 where
  pub serial_number : String
  pub revoked_at : ℕ
  pub reason : RevocationReason

pub record CertificateManager : Type 0 where
  pub certificates : Dict CertificateEntry
  pub fingerprint_index : Dict String
  pub crl : List CrlEntry
  pub crl_last_update : ℕ
  pub ca_cert_pem : String

unfoldable pub new : String → ℕ → CertificateManager
new ca_cert_pem now = record {
  certificates = [];
  fingerprint_index = [];
  crl = [];
  crl_last_update = now;
  ca_cert_pem = ca_cert_pem;
}

abbrev pub day_ns : ℕ
day_ns = 24 * 3600 * 10 ^ 9

-- The entry that a revocation leaves.
abbrev pub revoked_entry : CertificateEntry → RevocationReason → ℕ → CertificateEntry
revoked_entry c reason now = record c {
  status = revoked;
  revoked_at = some now;
  revocation_reason = some reason;
}

unfoldable pub revoke_found :
    CertificateManager
    → String
    → RevocationReason
    → ℕ
    → Option CertificateEntry
    → CertificateManager × Outcome String (Unit {0})
revoke_found m serial reason now none = (m, err "Certificate not found")
revoke_found m serial reason now (some c) =
    if is_revoked c.status then (m, err "Certificate is already revoked") else (
      record m {
        certificates = insert serial (revoked_entry c reason now) m.certificates;
        crl = m.crl ++ (record { serial_number = serial; revoked_at = now; reason = reason } ∷ []);
        crl_last_update = now;
      },
      ok tt,
    )

unfoldable pub revoke_certificate :
    CertificateManager
    → String
    → RevocationReason
    → ℕ
    → CertificateManager × Outcome String (Unit {0})
unfolding revoke_found
revoke_certificate m serial reason now =
    revoke_found m serial reason now (lookup serial m.certificates)

abbrev pub get_certificate : CertificateManager → String → Option CertificateEntry
get_certificate m serial = lookup serial m.certificates

abbrev get_indexed : CertificateManager → Option String → Option CertificateEntry
get_indexed m none = none
get_indexed m (some serial) = get_certificate m serial

unfoldable pub get_certificate_by_fingerprint :
    CertificateManager → String → Option CertificateEntry
get_certificate_by_fingerprint m fingerprint =
    get_indexed m (lookup fingerprint m.fingerprint_index)

abbrev pub found_status : Option CertificateEntry → ℕ → CertificateStatus
found_status none now = unknown
found_status (some c) now = current_status c now

unfoldable pub check_status : CertificateManager → String → ℕ → CertificateStatus
check_status m serial now = found_status (get_certificate m serial) now

unfoldable pub active_certificate_count : CertificateManager → ℕ → ℕ
unfolding is_valid
active_certificate_count m now = total (λ c. if is_valid c now then 1 else 0) m.certificates

unfoldable pub revoked_certificate_count : CertificateManager → ℕ
revoked_certificate_count m = length m.crl

-- The error of rcgen with the prefix that `map_err` puts before it.
abbrev pub generation_failed : Outcome String (String × List ℕ) → Outcome String (String × List ℕ)
generation_failed (err e) = err (str_append "Certificate generation failed: " e)
generation_failed o = o

abbrev pub stored : CertificateManager → Outcome String CertificateEntry → CertificateManager
stored m (ok c) = record m {
  certificates = insert c.serial_number c m.certificates;
  fingerprint_index = insert c.fingerprint_sha256 c.serial_number m.fingerprint_index;
}
stored m _ = m

module _ (lib : External) where
  -- A `DateTime` plus a `Duration`, which panics past the last instant.
  abbrev pub later : ℕ → ℕ → Option ℕ
  later t ns = if leb (t + ns) lib.max_utc then some (t + ns) else none

  abbrev pub calculate_fingerprint : List ℕ → String
  calculate_fingerprint cert_der = lib.hex_encode (lib.sha256 cert_der)

  -- The entry of a new certificate.
  unfoldable pub issued :
      CertificateManager
      → (serial org_id common_name api_key_hash : String) → Option BaselineGpuType
      → (now expires_at : ℕ) → String × List ℕ
      → CertificateEntry
  issued m serial org_id common_name api_key_hash gpu_type now expires_at (pem, der) = record {
    serial_number = serial;
    fingerprint_sha256 = calculate_fingerprint der;
    common_name = common_name;
    org_id = org_id;
    bound_api_key_hash = api_key_hash;
    bound_gpu_type = gpu_type;
    certificate_pem = pem;
    certificate_chain_pem = str_append pem (str_append "\n" m.ca_cert_pem);
    issued_at = now;
    expires_at = expires_at;
    status = valid;
    revoked_at = none;
    revocation_reason = none;
  }

  unfoldable pub new_certificate :
      CertificateManager
      → (serial org_id common_name api_key_hash : String) → Option BaselineGpuType
      → (validity_days now : ℕ) → Outcome String CertificateEntry
  unfolding issued
  new_certificate m serial org_id common_name api_key_hash gpu_type validity_days now = do
    expires_at ← or_panic (later now (validity_days * day_ns))
    cert ←
        generation_failed
          (lib.generate_x509_certificate serial common_name org_id api_key_hash now validity_days)
    ok (issued m serial org_id common_name api_key_hash gpu_type now expires_at cert)

  unfoldable pub issue_certificate :
      CertificateManager
      → (serial org_id common_name api_key_hash : String) → Option BaselineGpuType
      → (validity_days now : ℕ) → CertificateManager × Outcome String CertificateEntry
  unfolding new_certificate
  issue_certificate m serial org_id common_name api_key_hash gpu_type validity_days now =
      let result =
        new_certificate m serial org_id common_name api_key_hash gpu_type validity_days now in
      (stored m result, result)

  unfoldable pub get_crl : CertificateManager → Outcome String (List CrlEntry × ℕ × ℕ)
  get_crl m = do
    next_update ← or_panic (later m.crl_last_update day_ns)
    ok (m.crl, m.crl_last_update, next_update)
