-- ===== src/Certificate/Service/Renewal.antt =====
-- Certificates found by fingerprint, and what a renewal checks.
use cyan_flame_control_plane.Prelude.{
  ℕ, ◌≡◌, ◌≢◌, inl, inr, refl, sym, ap, subst, ◌∙◌, arith, true, false, String, Option, none, some,
  Bool-cases, Option-cases, str_eq, Outcome, ok, err, panic, eq_iff,
}
use cyan_flame_control_plane.Prelude.Dict.{lookup, insert, lookup-insert}
use cyan_flame_control_plane.Gpu.{BaselineGpuType}
use cyan_flame_control_plane.Certificate.{
  External, CertificateEntry, CertificateManager, stored, issued, new_certificate,
  issue_certificate, get_certificate, get_certificate_by_fingerprint,
}
use cyan_flame_control_plane.Certificate.Invariant.{IsConsistent}
use cyan_flame_control_plane.Certificate.Calls.{new_certificate-issued, new_certificate-IsNew}
use cyan_flame_control_plane.Certificate.Service.{
  CertificateResponse, RenewCertificateRequest, Renewed, failure, check_old, find_old,
  old_cert_fingerprint, renew_found, renew_certificate,
}

stored-found :
    (m : CertificateManager) (c : CertificateEntry)
    → (get_certificate (stored m (ok c)) c.serial_number ≡ some c)
      × (get_certificate_by_fingerprint (stored m (ok c)) c.fingerprint_sha256 ≡ some c)
unfolding get_certificate_by_fingerprint
stored-found m c =
    let by_serial : lookup c.serial_number (insert c.serial_number c m.certificates) ≡ some c =
      ground (
        arith,
        lookup-insert c.serial_number c.serial_number c m.certificates,
        eq_iff c.serial_number c.serial_number,
      ) in
    let by_fingerprint : lookup c.fingerprint_sha256
          (insert c.fingerprint_sha256 c.serial_number m.fingerprint_index)
        ≡ some c.serial_number =
      ground (
        arith,
        lookup-insert c.fingerprint_sha256 c.fingerprint_sha256 c.serial_number m.fingerprint_index,
        eq_iff c.fingerprint_sha256 c.fingerprint_sha256,
      ) in
    (by_serial, rw (by_fingerprint, by_serial) refl)

-- What a fingerprint finds is a stored certificate with this fingerprint.
by_fingerprint_sound :
    (m : CertificateManager) (fingerprint : String) (c : CertificateEntry)
    → IsConsistent m
    → get_certificate_by_fingerprint m fingerprint ≡ some c
    → (get_certificate m c.serial_number ≡ some c) × (c.fingerprint_sha256 ≡ fingerprint)
unfolding get_certificate_by_fingerprint
by_fingerprint_sound m fingerprint c h e =
    elim (Option-cases (lookup fingerprint m.fingerprint_index)) [
      | inl absent ↦ cc (rw absent at e)
      | inr (serial, named) ↦
          let found : lookup serial m.certificates ≡ some c = rw named at e in
          let entry = h.indexed fingerprint serial named in
          let same : entry.0 ≡ c = cc in
          (
            subst (λ s. lookup s m.certificates ≡ some c) (sym (h.keyed serial c found)) found,
            ap (λ x. x.fingerprint_sha256) (sym same) ∙ entry.2,
          )
    ]

-- The renewal takes the data of this certificate, which is bound to the key and not revoked.
record MayRenew (c : CertificateEntry) (api_key_hash : String) (old : Renewed) : Type 0 where
  pub bound : c.bound_api_key_hash ≡ api_key_hash
  pub not_revoked : c.revoked_at ≡ none
  pub same_org : old.org_id ≡ c.org_id
  pub same_name : old.common_name ≡ c.common_name
  pub same_gpu : old.gpu_type ≡ c.bound_gpu_type

check_old-ok :
    (c : CertificateEntry) (api_key_hash : String) (old : Renewed)
    → check_old (some c) api_key_hash ≡ ok old
    → MayRenew c api_key_hash old
unfolding check_old
check_old-ok c api_key_hash old e = elim (Bool-cases (str_eq c.bound_api_key_hash api_key_hash)) [
  | inl same ↦ elim (Option-cases c.revoked_at) [
    | inl live ↦
        let taken : ◌≡◌ {A = Outcome String Renewed}
            (ok (record {
              org_id = c.org_id;
              common_name = c.common_name;
              gpu_type = c.bound_gpu_type;
            }))
            (ok old) =
          rw (same, live) at e in
        record {
          bound = ground (arith, eq_iff c.bound_api_key_hash api_key_hash);
          not_revoked = live;
          same_org = cc;
          same_name = cc;
          same_gpu = cc;
        }
    | inr (t, dead) ↦ cc (rw (same, dead) at e)
  ]
  | inr other ↦ cc (rw other at e)
]

find_old-ok :
    (m : CertificateManager) (fingerprint api_key_hash : String) (old : Renewed)
    → fingerprint ≢ ""
    → find_old m fingerprint api_key_hash ≡ ok old
    → (c : CertificateEntry) × (get_certificate_by_fingerprint m fingerprint ≡ some c)
      × MayRenew c api_key_hash old
unfolding find_old check_old
find_old-ok m fingerprint api_key_hash old nonempty e =
    let given : str_eq fingerprint "" ≡ false = ground (arith, eq_iff fingerprint "") in
    elim (Option-cases (get_certificate_by_fingerprint m fingerprint)) [
      | inl absent ↦ cc (rw (given, absent) at e)
      | inr (c, found) ↦ (c, found, check_old-ok c api_key_hash old (rw (given, found) at e))
    ]

find_old-missing :
    (m : CertificateManager) (fingerprint api_key_hash : String)
    → IsConsistent m
    → fingerprint ≢ ""
    → ((c : CertificateEntry)
        → get_certificate m c.serial_number ≡ some c
        → c.fingerprint_sha256 ≢ fingerprint)
    → find_old m fingerprint api_key_hash ≡ err "Original certificate not found"
unfolding find_old check_old
find_old-missing m fingerprint api_key_hash h nonempty absent =
    let given : str_eq fingerprint "" ≡ false = ground (arith, eq_iff fingerprint "") in
    elim (Option-cases (get_certificate_by_fingerprint m fingerprint)) [
      | inl missing ↦ rw (given, missing) refl
      | inr (c, found) ↦
          let sound = by_fingerprint_sound m fingerprint c h found in
          absurd (absent c sound.0 sound.1)
    ]

module _ (lib : External) where
  -- A certificate that is issued is found under its serial number and under its fingerprint.
  issue_certificate-found :
      (m : CertificateManager) (serial org_id common_name api_key_hash : String)
      (gpu_type : Option BaselineGpuType) (validity_days now : ℕ) (c : CertificateEntry)
      → let r =
          issue_certificate lib m serial org_id common_name api_key_hash gpu_type validity_days
            now in
        r.1 ≡ ok c
        → (get_certificate r.0 serial ≡ some c)
          × (get_certificate_by_fingerprint r.0 c.fingerprint_sha256 ≡ some c)
  unfolding issue_certificate
  issue_certificate-found m serial org_id common_name api_key_hash gpu_type validity_days now c e =
      let n =
        new_certificate-IsNew lib m serial org_id common_name api_key_hash gpu_type validity_days
          now c e in
      let f = stored-found m c in
      rw e (subst (λ s. get_certificate (stored m (ok c)) s ≡ some c) n.named f.0, f.1)

  -- A renewal that succeeds issued a certificate with the names of what the checks let through.
  renew_found-ok :
      (m : CertificateManager) (req : RenewCertificateRequest) (api_key_hash serial : String)
      (now : ℕ) (o : Outcome String Renewed) (r : CertificateResponse)
      → (renew_found lib m req api_key_hash serial now o).1 ≡ ok r
      → r.success ≡ true
      → (old : Renewed) × (o ≡ ok old)
        × (x : CertificateEntry) × (get_certificate
              (renew_found lib m req api_key_hash serial now o).0
              serial
            ≡ some x)
        × (x.org_id ≡ old.org_id)
        × (x.common_name ≡ old.common_name)
        × (x.bound_api_key_hash ≡ api_key_hash)
  unfolding renew_found issue_certificate issued
  renew_found-ok m req api_key_hash serial now (ok old) r e success =
      go
        (new_certificate lib m serial old.org_id old.common_name api_key_hash old.gpu_type
          req.validity_days now)
        refl
    where
      go :
          (o : Outcome String CertificateEntry)
          → new_certificate lib m serial old.org_id old.common_name api_key_hash old.gpu_type
              req.validity_days now
            ≡ o
          → (p : Renewed) × (◌≡◌ {A = Outcome String Renewed} (ok old) (ok p))
            × (x : CertificateEntry) × (get_certificate
                  (renew_found lib m req api_key_hash serial now (ok old)).0
                  serial
                ≡ some x)
            × (x.org_id ≡ p.org_id)
            × (x.common_name ≡ p.common_name)
            × (x.bound_api_key_hash ≡ api_key_hash)
      go (ok x) made =
          let found =
            issue_certificate-found m serial old.org_id old.common_name api_key_hash old.gpu_type
              req.validity_days now x made in
          let cert =
            new_certificate-issued lib m serial old.org_id old.common_name api_key_hash old.gpu_type
              req.validity_days now x made in
          (
            old,
            refl,
            x,
            found.0,
            ap (λ y. y.org_id) (sym cert.2),
            ap (λ y. y.common_name) (sym cert.2),
            ap (λ y. y.bound_api_key_hash) (sym cert.2),
          )
      go (err x) made =
          let refused : ◌≡◌ {A = Outcome String CertificateResponse} (ok (failure x)) (ok r) =
            rw made at e in
          cc
      go panic made = cc (rw made at e)
  renew_found-ok m req api_key_hash serial now (err x) r e success =
      let refused : ◌≡◌ {A = Outcome String CertificateResponse} (ok (failure x)) (ok r) = e in cc
  renew_found-ok m req api_key_hash serial now panic r e success = cc

  -- On consistent tables, a renewal that names an old certificate and succeeds has found a stored
  -- certificate whose fingerprint is the hash of the PEM that was sent. That certificate is bound to
  -- the key of the request and not revoked, and the new certificate, stored under the new serial
  -- number, has its organization and its name and is bound to the same key.
  pub renew_certificate-authorised :
      (m : CertificateManager) (req : RenewCertificateRequest) (serial : String) (now : ℕ)
      (r : CertificateResponse)
      → IsConsistent m
      → old_cert_fingerprint lib req.old_certificate_pem ≢ ""
      → (renew_certificate lib m req serial now).1 ≡ ok r
      → r.success ≡ true
      → (c : CertificateEntry) × (get_certificate m c.serial_number ≡ some c)
        × (c.fingerprint_sha256 ≡ old_cert_fingerprint lib req.old_certificate_pem)
        × (c.bound_api_key_hash ≡ lib.md5 req.api_key)
        × (c.revoked_at ≡ none)
        × (x : CertificateEntry) × (get_certificate
              (renew_certificate lib m req serial now).0
              serial
            ≡ some x)
        × (x.org_id ≡ c.org_id)
        × (x.common_name ≡ c.common_name)
        × (x.bound_api_key_hash ≡ c.bound_api_key_hash)
  unfolding renew_certificate
  renew_certificate-authorised m req serial now r h named e success =
      let fingerprint = old_cert_fingerprint lib req.old_certificate_pem in
      let key = lib.md5 req.api_key in
      let (old, checked, x, there, org, name, bound) =
        renew_found-ok m req key serial now (find_old m fingerprint key) r e success in
      let (c, found, may) = find_old-ok m fingerprint key old named checked in
      let (stands, same) = by_fingerprint_sound m fingerprint c h found in
      (
        c,
        stands,
        same,
        may.bound,
        may.not_revoked,
        x,
        there,
        org ∙ may.same_org,
        name ∙ may.same_name,
        bound ∙ sym may.bound,
      )

  -- On consistent tables, a renewal that names an old certificate is refused as not found, and
  -- changes nothing, where no stored certificate has the hash of the PEM text as its fingerprint.
  -- The fingerprints of the store are hashes of DER, so this is the normal case.
  pub renew_certificate-not_found :
      (m : CertificateManager) (req : RenewCertificateRequest) (serial : String) (now : ℕ)
      → IsConsistent m
      → old_cert_fingerprint lib req.old_certificate_pem ≢ ""
      → ((c : CertificateEntry)
          → get_certificate m c.serial_number ≡ some c
          → c.fingerprint_sha256 ≢ old_cert_fingerprint lib req.old_certificate_pem)
      → renew_certificate lib m req serial now ≡ (m, ok (failure "Original certificate not found"))
  unfolding renew_certificate
  renew_certificate-not_found m req serial now h named absent =
      let fingerprint = old_cert_fingerprint lib req.old_certificate_pem in
      rw (find_old-missing m fingerprint (lib.md5 req.api_key) h named absent)
        (unfold renew_found in refl)
