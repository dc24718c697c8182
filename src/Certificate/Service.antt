-- ===== src/Certificate/Service.antt =====
-- The calls of `CertificateServiceImpl` in src/grpc/certificate_service.rs, but for the OCSP answer.
-- A panic ends the call.
pub mod Renewal
use Prim.Native.String.{◌++◌ as str_append}
use cyan_flame_control_plane.Prelude.{
  ℕ, ◌+◌, ◌*◌, ◌/◌, ◌%◌, ◌^◌, Bool, true, false, not, String, Option, none, some, List, [], ◌∷◌,
  map, length, ltb, str_eq, if◌then◌else◌, Outcome, ok, err, panic, ◌>>=◌, as_bytes,
}
use cyan_flame_control_plane.Prelude.Int.{ℤ, pos}
use cyan_flame_control_plane.Gpu.{BaselineGpuType, discriminant}
use cyan_flame_control_plane.Certificate.{
  External, RevocationReason, unspecified, key_compromise, ca_compromise, affiliation_changed,
  superseded, cessation_of_operation, certificate_hold, privilege_withdrawn, from_proto, to_proto,
  CertificateEntry, CrlEntry, CertificateManager, issue_certificate, revoke_certificate,
  get_certificate, get_certificate_by_fingerprint, calculate_fingerprint, get_crl,
}

abbrev pub timestamp_millis : ℕ → ℕ
timestamp_millis t = t / 10 ^ 6

pub record CertificateResponse : Type 0 where
  pub success : Bool
  pub error_message : String
  pub certificate_pem : String
  pub certificate_chain_pem : String
  pub private_key_pem : String
  pub serial_number : String
  pub fingerprint_sha256 : String
  pub issued_at_ms : ℕ
  pub expires_at_ms : ℕ
  pub bound_api_key_hash : String
  pub bound_gpu_type : ℕ

abbrev pub failure : String → CertificateResponse
failure message = record {
  success = false;
  error_message = message;
  certificate_pem = "";
  certificate_chain_pem = "";
  private_key_pem = "";
  serial_number = "";
  fingerprint_sha256 = "";
  issued_at_ms = 0;
  expires_at_ms = 0;
  bound_api_key_hash = "";
  bound_gpu_type = 0;
}

abbrev pub success_response : CertificateEntry → String → ℕ → CertificateResponse
success_response entry api_key_hash bound_gpu_type = record {
  success = true;
  error_message = "";
  certificate_pem = entry.certificate_pem;
  certificate_chain_pem = entry.certificate_chain_pem;
  private_key_pem = "";
  serial_number = entry.serial_number;
  fingerprint_sha256 = entry.fingerprint_sha256;
  issued_at_ms = timestamp_millis entry.issued_at;
  expires_at_ms = timestamp_millis entry.expires_at;
  bound_api_key_hash = api_key_hash;
  bound_gpu_type = bound_gpu_type;
}

-- The response for what `issue_certificate` returned.
abbrev pub respond :
    Outcome String CertificateEntry → String → ℕ → Outcome String CertificateResponse
respond (ok entry) api_key_hash bound_gpu_type =
    ok (success_response entry api_key_hash bound_gpu_type)
respond (err e) api_key_hash bound_gpu_type = ok (failure e)
respond panic api_key_hash bound_gpu_type = panic

pub record CertificateRequest : Type 0 where
  pub org_id : String
  pub common_name : String
  pub api_key : String
  pub validity_days : ℕ

pub record RenewCertificateRequest : Type 0 where
  pub old_certificate_pem : String
  pub api_key : String
  pub validity_days : ℕ

-- What the renewal takes over from the old certificate.
pub record Renewed : Type 0 where
  pub org_id : String
  pub common_name : String
  pub gpu_type : Option BaselineGpuType

abbrev pub gpu_number : Option BaselineGpuType → ℕ
gpu_number none = 0
gpu_number (some g) = discriminant g

pub record RevokeCertificateResponse : Type 0 where
  pub success : Bool
  pub error_message : String
  pub serial_number : String
  pub revoked_at_ms : ℕ

abbrev pub revoke_response : Outcome String (Unit {0}) → String → ℕ → RevokeCertificateResponse
revoke_response (err e) serial answered = record {
  success = false;
  error_message = e;
  serial_number = serial;
  revoked_at_ms = 0;
}
revoke_response _ serial answered = record {
  success = true;
  error_message = "";
  serial_number = serial;
  revoked_at_ms = timestamp_millis answered;
}

-- The handler `revoke_certificate`, whose answer reads the clock again.
unfoldable pub serve_revoke :
    CertificateManager
    → String
    → ℤ
    → (now answered : ℕ) → CertificateManager × RevokeCertificateResponse
serve_revoke m serial reason now answered =
    let (m', result) = revoke_certificate m serial (from_proto reason) now in
    (m', revoke_response result serial answered)

abbrev pub is_some {ℓ} : {A : Type ℓ} → Option A → Bool
is_some none = false
is_some (some a) = true

-- The checks of a renewal on what the fingerprint found.
unfoldable pub check_old : Option CertificateEntry → String → Outcome String Renewed
check_old none api_key_hash = err "Original certificate not found"
check_old (some c) api_key_hash =
    if not (str_eq c.bound_api_key_hash api_key_hash)
    then err "API key does not match the original certificate"
    else if is_some c.revoked_at
    then err "Cannot renew a revoked certificate"
    else ok (record { org_id = c.org_id; common_name = c.common_name; gpu_type = c.bound_gpu_type })

unfoldable pub find_old : CertificateManager → String → String → Outcome String Renewed
unfolding check_old
find_old m fingerprint api_key_hash =
    if not (str_eq fingerprint "")
    then check_old (get_certificate_by_fingerprint m fingerprint) api_key_hash
    else ok (record { org_id = "renewed-org"; common_name = "renewed-client"; gpu_type = none })

module _ (lib : External) where
  unfoldable pub request_certificate :
      CertificateManager
      → CertificateRequest
      → (serial : String) → (now : ℕ) → CertificateManager × Outcome String CertificateResponse
  request_certificate m req serial now =
      let api_key_hash = lib.md5 req.api_key in
      let (m', result) =
        issue_certificate lib m serial req.org_id req.common_name api_key_hash none
          req.validity_days now in
      (m', respond result api_key_hash 0)

  unfoldable pub old_cert_fingerprint : String → String
  old_cert_fingerprint pem =
      if not (str_eq pem "") then calculate_fingerprint lib (as_bytes pem) else ""

  unfoldable pub renew_found :
      CertificateManager
      → RenewCertificateRequest
      → String
      → (serial : String) → (now : ℕ) → Outcome String Renewed
      → CertificateManager × Outcome String CertificateResponse
  renew_found m req api_key_hash serial now (ok old) =
      let (m', result) =
        issue_certificate lib m serial old.org_id old.common_name api_key_hash old.gpu_type
          req.validity_days now in
      (m', respond result api_key_hash (gpu_number old.gpu_type))
  renew_found m req api_key_hash serial now (err e) = (m, ok (failure e))
  renew_found m req api_key_hash serial now panic = (m, panic)

  unfoldable pub renew_certificate :
      CertificateManager
      → RenewCertificateRequest
      → (serial : String) → (now : ℕ) → CertificateManager × Outcome String CertificateResponse
  unfolding renew_found find_old old_cert_fingerprint
  renew_certificate m req serial now =
      let api_key_hash = lib.md5 req.api_key in
      renew_found m req api_key_hash serial now
        (find_old m (old_cert_fingerprint req.old_certificate_pem) api_key_hash)
