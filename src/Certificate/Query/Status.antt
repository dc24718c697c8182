-- ===== src/Certificate/Query/Status.antt =====
-- The words of `get_certificate_status` against `check_status` of the manager.
use cyan_flame_control_plane.Prelude.{
  ℕ, ◌≡◌, ◌≢◌, inl, inr, refl, arith, false, String, some, Option-cases, str_eq, eq_iff,
}
use cyan_flame_control_plane.Prelude.Dict.{lookup-AllValues}
use cyan_flame_control_plane.Certificate.{
  status_text, CertificateEntry, CertificateManager, get_certificate, current_status, check_status,
}
use cyan_flame_control_plane.Certificate.Invariant.{IsCoherent, IsConsistent}
use cyan_flame_control_plane.Certificate.Query.{
  entry_status, status_response, get_certificate_status,
}

entry_status-agrees :
    (c : CertificateEntry) (now : ℕ)
    → IsCoherent c
    → now ≢ c.expires_at
    → entry_status c now ≡ status_text (current_status c now)
unfolding entry_status current_status
entry_status-agrees c now (inl h) apart = rw (h.0, h.1) (ground arith)
entry_status-agrees c now (inr h) apart = rw (h.0, h.1.1) refl

-- On consistent tables, `get_certificate_status` answers for a serial number with the word of the
-- status that `check_status` has at the same time, unknown serial numbers included, unless the
-- certificate expires at this very instant.
get_certificate_status-agrees :
    (m : CertificateManager) (serial fingerprint : String) (now : ℕ)
    → IsConsistent m
    → serial ≢ ""
    → ((c : CertificateEntry) → get_certificate m serial ≡ some c → now ≢ c.expires_at)
    → (get_certificate_status m serial fingerprint now).status
      ≡ status_text (check_status m serial now)
unfolding get_certificate_status status_response check_status
get_certificate_status-agrees m serial fingerprint now h named apart =
    let given : str_eq serial "" ≡ false = ground (arith, eq_iff serial "") in
    elim (Option-cases (get_certificate m serial)) [
      | inl absent ↦ rw (given, absent) refl
      | inr (c, found) ↦
          rw (given, found)
            (entry_status-agrees c now
              (lookup-AllValues IsCoherent serial m.certificates h.coherent found) (apart c found))
    ]
