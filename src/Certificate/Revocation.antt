-- ===== src/Certificate/Revocation.antt =====
-- What a revocation means for the later calls of the certificate manager.
use cyan_flame_control_plane.Prelude.{
  ℕ, ◌≡◌, inl, inr, refl, arith, String, none, some, List, [], ◌∷◌, Bool-cases, Option-cases,
  Outcome, ok, err, panic, eq_iff,
}
use cyan_flame_control_plane.Prelude.Dict.{lookup, lookup-insert}
use cyan_flame_control_plane.Certificate.{
  External, RevocationReason, unspecified, key_compromise, ca_compromise, affiliation_changed,
  superseded, cessation_of_operation, certificate_hold, privilege_withdrawn, from_proto, to_proto,
  revoked, is_revoked, CertificateEntry, CertificateManager, revoked_entry, revoke_found,
  revoke_certificate, stored, issue_certificate, get_certificate, current_status, check_status,
}
use cyan_flame_control_plane.Certificate.Invariant.{IsNew}
use cyan_flame_control_plane.Certificate.Calls.{
  Call, issues, revokes, step, run, AreFresh, new_certificate-IsNew,
}

-- The reasons and their protocol numbers.
from_proto-to_proto : (r : RevocationReason) → from_proto (to_proto r) ≡ r
unfolding from_proto to_proto
from_proto-to_proto unspecified = refl
from_proto-to_proto key_compromise = refl
from_proto-to_proto ca_compromise = refl
from_proto-to_proto affiliation_changed = refl
from_proto-to_proto superseded = refl
from_proto-to_proto cessation_of_operation = refl
from_proto-to_proto certificate_hold = refl
from_proto-to_proto privilege_withdrawn = refl

-- A stored certificate that is revoked.
abbrev HasRevoked : CertificateManager → String → CertificateEntry → Type 0
HasRevoked m serial c = (lookup serial m.certificates ≡ some c) × (c.status ≡ revoked)

revoke_certificate-HasRevoked :
    (m : CertificateManager) (serial other : String) (reason : RevocationReason) (now : ℕ)
    (c : CertificateEntry)
    → HasRevoked m serial c
    → HasRevoked (revoke_certificate m other reason now).0 serial c
unfolding revoke_certificate revoke_found
revoke_certificate-HasRevoked m serial other reason now c h =
    elim (Option-cases (lookup other m.certificates)) [
      | inl absent ↦ rw absent h
      | inr (x, found) ↦ elim (Bool-cases (is_revoked x.status)) [
        | inl already ↦ rw (found, already) h
        | inr live ↦
            rw (found, live)
              (
                ground (
                  arith,
                  lookup-insert other serial (revoked_entry x reason now) m.certificates,
                  eq_iff other serial,
                ),
                h.1,
              )
      ]
    ]

-- A successful revocation leaves the certificate revoked, with the time and the reason.
revoke_certificate-ok :
    (m : CertificateManager) (serial : String) (reason : RevocationReason) (now : ℕ)
    → (revoke_certificate m serial reason now).1 ≡ ok tt
    → (c : CertificateEntry) × (lookup serial m.certificates ≡ some c)
      × HasRevoked (revoke_certificate m serial reason now).0 serial (revoked_entry c reason now)
unfolding revoke_certificate revoke_found
revoke_certificate-ok m serial reason now e = elim (Option-cases (lookup serial m.certificates)) [
  | inl absent ↦ cc (rw absent at e)
  | inr (x, found) ↦ elim (Bool-cases (is_revoked x.status)) [
    | inl already ↦ cc (rw (found, already) at e)
    | inr live ↦
        rw (found, live)
          (
            x,
            refl,
            (
              ground (
                arith,
                lookup-insert serial serial (revoked_entry x reason now) m.certificates,
                eq_iff serial serial,
              ),
              refl,
            ),
          )
  ]
]

module _ (lib : External) where
  stored-HasRevoked :
      (m : CertificateManager) (serial other : String) (o : Outcome String CertificateEntry)
      (c : CertificateEntry)
      → lookup other m.certificates ≡ none
      → ((x : CertificateEntry) → o ≡ ok x → IsNew other x)
      → HasRevoked m serial c
      → HasRevoked (stored m o) serial c
  stored-HasRevoked m serial other (ok x) c fresh n h = (
    ground (
      arith,
      lookup-insert x.serial_number serial x m.certificates,
      eq_iff x.serial_number serial,
      (n x refl).named,
    ),
    h.1,
  )
  stored-HasRevoked m serial other (err e) c fresh n h = h
  stored-HasRevoked m serial other panic c fresh n h = h

  run-HasRevoked :
      (m : CertificateManager) (serial : String) (c : CertificateEntry) (cs : List Call)
      → AreFresh lib m cs
      → HasRevoked m serial c
      → HasRevoked (run lib m cs) serial c
  unfolding run step issue_certificate
  run-HasRevoked m serial c [] fresh h = h
  run-HasRevoked m serial c (issues s o n k g d t ∷ cs) fresh h =
      run-HasRevoked (step lib m (issues s o n k g d t)) serial c cs fresh.1
        (stored-HasRevoked m serial s _ c fresh.0 (new_certificate-IsNew lib m s o n k g d t) h)
  run-HasRevoked m serial c (revokes s r t ∷ cs) fresh h =
      run-HasRevoked (step lib m (revokes s r t)) serial c cs fresh.1
        (revoke_certificate-HasRevoked m serial s r t c h)

  -- A revocation that succeeds is final: after any later certificates and revocations the
  -- certificate is as it was but for the status, the time and the reason of that revocation, its status is revoked whatever
  -- the time, and a further revocation of it fails and changes nothing.
  pub revoke_certificate-permanent :
      (m : CertificateManager) (serial : String) (reason later_reason : RevocationReason)
      (now asked : ℕ) (cs : List Call)
      → (revoke_certificate m serial reason now).1 ≡ ok tt
      → AreFresh lib (revoke_certificate m serial reason now).0 cs
      → let m' = run lib (revoke_certificate m serial reason now).0 cs in
        ((c : CertificateEntry) × (get_certificate m serial ≡ some c)
          × (get_certificate m' serial ≡ some (revoked_entry c reason now)))
        × (check_status m' serial asked ≡ revoked)
        × (revoke_certificate m' serial later_reason asked
            ≡ (m', err "Certificate is already revoked"))
  unfolding check_status current_status revoke_certificate revoke_found
  revoke_certificate-permanent m serial reason later_reason now asked cs e fresh =
      let r = revoke_certificate-ok m serial reason now e in
      let k =
        run-HasRevoked (revoke_certificate m serial reason now).0 serial
          (revoked_entry r.0 reason now) cs fresh r.2 in
      ((r.0, r.1, k.0), rw k.0 refl, rw k.0 refl)
