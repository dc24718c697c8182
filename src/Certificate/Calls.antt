-- ===== src/Certificate/Calls.antt =====
-- Histories of issued and revoked certificates.
use cyan_flame_control_plane.Prelude.{
  ℕ, ◌≡◌, refl, sym, subst, String, Option, none, some, List, [], ◌∷◌, Outcome, ok, err, panic,
  ◌>>=◌, or_panic, ◌*◌,
}
use cyan_flame_control_plane.Prelude.Dict.{lookup}
use cyan_flame_control_plane.Gpu.{BaselineGpuType}
use cyan_flame_control_plane.Certificate.{
  External, RevocationReason, CertificateEntry, CertificateManager, new, revoke_certificate, issued,
  new_certificate, stored, issue_certificate, later, generation_failed, day_ns,
}
use cyan_flame_control_plane.Certificate.Invariant.{
  IsConsistent, IsNew, new-IsConsistent, stored-IsConsistent, revoked-IsConsistent,
}

pub data Call : Type 0 where
  issues :
      (serial org_id common_name api_key_hash : String)
      → Option BaselineGpuType
      → (validity_days now : ℕ) → Call
  revokes : (serial : String) → RevocationReason → (now : ℕ) → Call

module _ (lib : External) where
  -- The entry that is returned is the one that `issued` makes of a certificate.
  pub new_certificate-issued :
      (m : CertificateManager) (serial org_id common_name api_key_hash : String)
      (gpu_type : Option BaselineGpuType) (validity_days now : ℕ) (c : CertificateEntry)
      → new_certificate lib m serial org_id common_name api_key_hash gpu_type validity_days now
        ≡ ok c
      → (t : ℕ) × (cert : String × List ℕ) × (issued lib m serial org_id common_name api_key_hash
            gpu_type now t cert
          ≡ c)
  unfolding new_certificate
  new_certificate-issued m serial org_id common_name api_key_hash gpu_type validity_days now c e =
      cases (later lib now (validity_days * day_ns))
        (lib.generate_x509_certificate serial common_name org_id api_key_hash now validity_days) e
    where
      cases :
          (t : Option ℕ) (g : Outcome String (String × List ℕ))
          → (do
            expires_at ← or_panic t
            cert ← generation_failed g
            ok (issued lib m serial org_id common_name api_key_hash gpu_type now expires_at cert))
            ≡ ok c
          → (t : ℕ) × (cert : String × List ℕ) × (issued lib m serial org_id common_name
                api_key_hash gpu_type now t cert
              ≡ c)
      cases none g e = cc
      cases (some t) (ok cert) e = (t, cert, cc)
      cases (some t) (err x) e = cc
      cases (some t) panic e = cc

  pub new_certificate-IsNew :
      (m : CertificateManager) (serial org_id common_name api_key_hash : String)
      (gpu_type : Option BaselineGpuType) (validity_days now : ℕ) (c : CertificateEntry)
      → new_certificate lib m serial org_id common_name api_key_hash gpu_type validity_days now
        ≡ ok c
      → IsNew serial c
  unfolding issued
  new_certificate-IsNew m serial org_id common_name api_key_hash gpu_type validity_days now c e =
      let made =
        new_certificate-issued m serial org_id common_name api_key_hash gpu_type validity_days now c
          e in
      subst (IsNew serial) made.2
        (record { named = refl; not_revoked = refl; no_time = refl; no_reason = refl })

  unfoldable pub step : CertificateManager → Call → CertificateManager
  step m (issues serial org_id common_name api_key_hash gpu_type validity_days now) =
      (issue_certificate lib m serial org_id common_name api_key_hash gpu_type validity_days now).0
  step m (revokes serial reason now) = (revoke_certificate m serial reason now).0

  unfoldable pub run : CertificateManager → List Call → CertificateManager
  run m [] = m
  run m (c ∷ cs) = run (step m c) cs

  abbrev IsFresh : CertificateManager → Call → Type 0
  IsFresh m (issues serial org_id common_name api_key_hash gpu_type validity_days now) =
      lookup serial m.certificates ≡ none
  IsFresh m (revokes serial reason now) = Unit

  -- Each serial number is new where it is drawn, as version 4 UUIDs promise.
  abbrev pub AreFresh : CertificateManager → List Call → Type 0
  AreFresh m [] = Unit
  AreFresh m (c ∷ cs) = IsFresh m c × AreFresh (step m c) cs

  stored_result-IsConsistent :
      (m : CertificateManager) (serial : String) (o : Outcome String CertificateEntry)
      → lookup serial m.certificates ≡ none
      → ((c : CertificateEntry) → o ≡ ok c → IsNew serial c)
      → IsConsistent m
      → IsConsistent (stored m o)
  stored_result-IsConsistent m serial (ok c) fresh n h =
      let k = n c refl in
      stored-IsConsistent m c (rw k.named fresh) (subst (λ s. IsNew s c) (sym k.named) k) h
  stored_result-IsConsistent m serial (err e) fresh n h = h
  stored_result-IsConsistent m serial panic fresh n h = h

  step-IsConsistent :
      (m : CertificateManager) (c : Call) → IsFresh m c → IsConsistent m → IsConsistent (step m c)
  unfolding step issue_certificate
  step-IsConsistent m (issues serial org_id common_name api_key_hash gpu_type validity_days now)
        fresh h =
      stored_result-IsConsistent m serial _ fresh
        (new_certificate-IsNew m serial org_id common_name api_key_hash gpu_type validity_days now)
        h
  step-IsConsistent m (revokes serial reason now) fresh h =
      revoked-IsConsistent m serial reason now h

  pub run-IsConsistent :
      (m : CertificateManager) (cs : List Call)
      → AreFresh m cs
      → IsConsistent m
      → IsConsistent (run m cs)
  unfolding run
  run-IsConsistent m [] fresh h = h
  run-IsConsistent m (c ∷ cs) fresh h =
      run-IsConsistent (step m c) cs fresh.1 (step-IsConsistent m c fresh.0 h)

  -- After any history of issued and revoked certificates with new serial numbers, the tables of the
  -- manager agree: as many revoked certificates as entries of the revocation list, the status of
  -- each certificate with its revocation time and reason, each certificate under its serial number,
  -- each fingerprint of the index with a stored certificate that has it, and each stored certificate
  -- with an entry of the index for its fingerprint.
  pub history-IsConsistent :
      (ca_cert_pem : String) (created : ℕ) (cs : List Call)
      → AreFresh (new ca_cert_pem created) cs
      → IsConsistent (run (new ca_cert_pem created) cs)
  history-IsConsistent ca_cert_pem created cs fresh =
      run-IsConsistent (new ca_cert_pem created) cs fresh (new-IsConsistent ca_cert_pem created)
