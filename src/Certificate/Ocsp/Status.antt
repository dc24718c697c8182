-- ===== src/Certificate/Ocsp/Status.antt =====
-- The OCSP status against `check_status` of the manager.
use cyan_flame_control_plane.Prelude.{
  ℕ, ◌≡◌, ◌≢◌, inl, inr, refl, arith, false, String, some, Option-cases, str_eq, eq_iff,
}
use cyan_flame_control_plane.Prelude.Dict.{lookup-AllValues}
use cyan_flame_control_plane.Certificate.{
  CertificateStatus, valid, expired, revoked, unknown, CertificateEntry, CertificateManager,
  get_certificate, current_status, check_status,
}
use cyan_flame_control_plane.Certificate.Invariant.{IsCoherent, IsConsistent}
use cyan_flame_control_plane.Certificate.Ocsp.{ocsp_found, ocsp_status}

-- The word and the number that OCSP has for a status: an expired certificate counts as revoked.
abbrev pub ocsp_answer : CertificateStatus → String × ℕ
ocsp_answer valid = ("good", 0)
ocsp_answer expired = ("expired", 1)
ocsp_answer revoked = ("revoked", 1)
ocsp_answer unknown = ("unknown", 2)

ocsp_found-agrees :
    (c : CertificateEntry) (now : ℕ)
    → IsCoherent c
    → now ≢ c.expires_at
    → ocsp_found (some c) now ≡ ocsp_answer (current_status c now)
unfolding ocsp_found current_status
ocsp_found-agrees c now (inl h) apart = rw (h.0, h.1) (ground arith)
ocsp_found-agrees c now (inr h) apart = rw (h.0, h.1.1) refl

-- On consistent tables, the OCSP answer for a serial number is that for the status which
-- `check_status` has at the same time, unknown serial numbers included, unless the certificate
-- expires at this very instant.
ocsp_status-agrees :
    (m : CertificateManager) (serial : String) (now : ℕ)
    → IsConsistent m
    → serial ≢ ""
    → ((c : CertificateEntry) → get_certificate m serial ≡ some c → now ≢ c.expires_at)
    → ocsp_status m serial now ≡ ocsp_answer (check_status m serial now)
unfolding ocsp_status check_status
ocsp_status-agrees m serial now h named apart =
    let given : str_eq serial "" ≡ false = ground (arith, eq_iff serial "") in
    elim (Option-cases (get_certificate m serial)) [
      | inl absent ↦ rw (given, absent) (unfold ocsp_found in refl)
      | inr (c, found) ↦
          rw (given, found)
            (ocsp_found-agrees c now
              (lookup-AllValues IsCoherent serial m.certificates h.coherent found) (apart c found))
    ]
