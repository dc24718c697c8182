-- ===== src/Certificate/Query.antt =====
-- `get_certificate_status` and `get_crl` of src/grpc/certificate_service.rs.
pub mod Status
use Prim.Native.String.{◌++◌ as str_append}
use cyan_flame_control_plane.Prelude.{
  ℕ, ◌+◌, ◌*◌, ◌/◌, ◌%◌, ◌^◌, Bool, true, false, not, String, Option, none, some, List, [], ◌∷◌,
  map, length, ltb, str_eq, if◌then◌else◌, Outcome, ok, err, panic, ◌>>=◌, as_bytes,
}
use cyan_flame_control_plane.Prelude.Int.{ℤ, pos}
use cyan_flame_control_plane.Gpu.{BaselineGpuType, discriminant}
use cyan_flame_control_plane.Certificate.{
  External, RevocationReason, unspecified, key_compromise, ca_compromise, affiliation_changed,
  superseded, cessation_of_operation, certificate_hold, privilege_withdrawn, from_proto, to_proto,
  CertificateEntry, CrlEntry, CertificateManager, issue_certificate, revoke_certificate,
  get_certificate, get_certificate_by_fingerprint, calculate_fingerprint, get_crl,
}
use cyan_flame_control_plane.Certificate.Service.{timestamp_millis, is_some}

-- The word for the entry in `get_certificate_status`.
unfoldable pub entry_status : CertificateEntry → ℕ → String
entry_status c now =
    if is_some c.revoked_at then "revoked" else if ltb c.expires_at now then "expired" else "valid"

pub record CertificateStatusResponse : Type 0 where
  pub found : Bool
  pub serial_number : String
  pub status : String
  pub issued_at_ms : ℕ
  pub expires_at_ms : ℕ
  pub revoked_at_ms : ℕ
  pub revocation_reason : ℤ

abbrev millis_or_zero : Option ℕ → ℕ
millis_or_zero none = 0
millis_or_zero (some t) = timestamp_millis t

abbrev reason_or_zero : Option RevocationReason → ℤ
reason_or_zero none = pos 0
reason_or_zero (some r) = to_proto r

unfoldable pub status_response : String → Option CertificateEntry → ℕ → CertificateStatusResponse
unfolding entry_status
status_response serial none now = record {
  found = false;
  serial_number = serial;
  status = "unknown";
  issued_at_ms = 0;
  expires_at_ms = 0;
  revoked_at_ms = 0;
  revocation_reason = pos 0;
}
status_response serial (some c) now = record {
  found = true;
  serial_number = c.serial_number;
  status = entry_status c now;
  issued_at_ms = timestamp_millis c.issued_at;
  expires_at_ms = timestamp_millis c.expires_at;
  revoked_at_ms = millis_or_zero c.revoked_at;
  revocation_reason = reason_or_zero c.revocation_reason;
}

-- The clock is read where the certificate is found and not revoked.
unfoldable pub get_certificate_status :
    CertificateManager → (serial_number fingerprint_sha256 : String) → ℕ → CertificateStatusResponse
unfolding status_response
get_certificate_status m serial_number fingerprint_sha256 now =
    let serial = if str_eq serial_number "" then fingerprint_sha256 else serial_number in
    status_response serial (get_certificate m serial) now

-- `{:?}` of a reason.
abbrev debug_reason : RevocationReason → String
debug_reason unspecified = "Unspecified"
debug_reason key_compromise = "KeyCompromise"
debug_reason ca_compromise = "CaCompromise"
debug_reason affiliation_changed = "AffiliationChanged"
debug_reason superseded = "Superseded"
debug_reason cessation_of_operation = "CessationOfOperation"
debug_reason certificate_hold = "CertificateHold"
debug_reason privilege_withdrawn = "PrivilegeWithdrawn"

abbrev join : String → List String → String
join sep [] = ""
join sep (x ∷ []) = x
join sep (x ∷ y ∷ xs) = str_append x (str_append sep (join sep (y ∷ xs)))

pub record CrlResponse : Type 0 where
  pub crl_der : List ℕ
  pub crl_pem : String
  pub this_update_ms : ℕ
  pub next_update_ms : ℕ
  pub revoked_count : ℕ

module _ (lib : External) where
  abbrev crl_line : CrlEntry → String
  crl_line e = str_append e.serial_number (
      str_append ":"
        (str_append (debug_reason e.reason) (str_append ":" (lib.to_rfc3339 e.revoked_at))))

  abbrev crl_pem : List CrlEntry → String
  crl_pem entries = str_append "-----BEGIN X509 CRL-----\n" (
      str_append (lib.base64_encode (as_bytes (join "\n" (map crl_line entries))))
        "\n-----END X509 CRL-----")

  -- The handler `get_crl`.
  unfoldable pub serve_crl : CertificateManager → Outcome String CrlResponse
  serve_crl m = do
    crl ← get_crl lib m
    ok (record {
      crl_der = as_bytes (crl_pem crl.0);
      crl_pem = crl_pem crl.0;
      this_update_ms = timestamp_millis crl.1;
      next_update_ms = timestamp_millis crl.2;
      revoked_count = length crl.0 % 2 ^ 32;
    })
