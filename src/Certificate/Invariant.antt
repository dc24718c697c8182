-- ===== src/Certificate/Invariant.antt =====
-- The invariant of the four tables of `CertificateManager`, and that what issues and revokes keeps it.
use cyan_flame_control_plane.Prelude.{
  ℕ, ◌≡◌, ◌⊎◌, inl, inr, refl, subst, arith, String, none, some, [], ◌∷◌, length, length-append,
  Bool-cases, Option-cases, if◌then◌else◌, str_eq, ok, eq_iff,
}
use cyan_flame_control_plane.Prelude.Dict.{
  lookup, insert, total, weight, lookup-insert, total-insert, AllValues, insert-AllValues,
}
use cyan_flame_control_plane.Certificate.{
  RevocationReason, valid, revoked, is_revoked, CertificateEntry, CertificateManager, new,
  revoked_entry, revoke_found, revoke_certificate, stored,
}

-- The status, the time of the revocation and its reason tell the same.
abbrev pub IsCoherent : CertificateEntry → Type 0
IsCoherent c =
    ((c.status ≡ valid) × (c.revoked_at ≡ none) × (c.revocation_reason ≡ none))
    ⊎ ((c.status ≡ revoked)
        × ((t : ℕ) × (c.revoked_at ≡ some t))
        × ((r : RevocationReason) × (c.revocation_reason ≡ some r)))

abbrev pub revoked_weight : CertificateEntry → ℕ
revoked_weight c = if is_revoked c.status then 1 else 0

-- The revocation list has one entry for each revoked certificate, each certificate stands under its
-- serial number, the index of fingerprints names stored certificates with that fingerprint, and it has
-- the fingerprint of each stored certificate.
pub record IsConsistent (m : CertificateManager) : Type 0 where
  pub counts : total revoked_weight m.certificates ≡ length m.crl
  pub coherent : AllValues IsCoherent m.certificates
  pub keyed :
      (serial : String) (c : CertificateEntry)
      → lookup serial m.certificates ≡ some c
      → c.serial_number ≡ serial
  pub indexed :
      (fingerprint serial : String)
      → lookup fingerprint m.fingerprint_index ≡ some serial
      → (c : CertificateEntry) × (lookup serial m.certificates ≡ some c)
        × (c.fingerprint_sha256 ≡ fingerprint)
  pub listed :
      (serial : String) (c : CertificateEntry)
      → lookup serial m.certificates ≡ some c
      → (name : String) × (lookup c.fingerprint_sha256 m.fingerprint_index ≡ some name)

pub new-IsConsistent : (ca_cert_pem : String) (now : ℕ) → IsConsistent (new ca_cert_pem now)
unfolding new lookup total
new-IsConsistent ca_cert_pem now = record {
  counts = refl;
  coherent = tt;
  keyed = λ s c e. cc;
  indexed = λ f s e. cc;
  listed = λ s c e. cc;
}

-- An entry as `issue_certificate` makes it.
pub record IsNew (serial : String) (c : CertificateEntry) : Type 0 where
  pub named : c.serial_number ≡ serial
  pub not_revoked : c.status ≡ valid
  pub no_time : c.revoked_at ≡ none
  pub no_reason : c.revocation_reason ≡ none

pub stored-IsConsistent :
    (m : CertificateManager) (c : CertificateEntry)
    → lookup c.serial_number m.certificates ≡ none
    → IsNew c.serial_number c
    → IsConsistent m
    → IsConsistent (stored m (ok c))
stored-IsConsistent m c fresh n h = record {
  counts =
      omega
        (arith, total-insert revoked_weight c.serial_number c m.certificates, h.counts, old, now);
  coherent =
      insert-AllValues IsCoherent c.serial_number c m.certificates h.coherent
        (inl (n.not_revoked, n.no_time, n.no_reason));
  keyed = λ s x e. ground (
    arith,
    lookup-insert c.serial_number s c m.certificates,
    eq_iff c.serial_number s,
    h.keyed s x,
  );
  indexed = indexes;
  listed = lists;
}
  where
    old : weight revoked_weight (lookup c.serial_number m.certificates) ≡ 0
    old = rw fresh refl

    now : revoked_weight c ≡ 0
    now = rw n.not_revoked refl

    indexes :
        (f s : String)
        → lookup f (insert c.fingerprint_sha256 c.serial_number m.fingerprint_index) ≡ some s
        → (x : CertificateEntry) × (lookup s (insert c.serial_number c m.certificates) ≡ some x)
          × (x.fingerprint_sha256 ≡ f)
    indexes f s e = elim (Bool-cases (str_eq c.fingerprint_sha256 f)) [
      | inl hit ↦ (
        c,
        ground (
          arith,
          lookup-insert c.fingerprint_sha256 f c.serial_number m.fingerprint_index,
          lookup-insert c.serial_number s c m.certificates,
          eq_iff c.serial_number s,
        ),
        ground (arith, eq_iff c.fingerprint_sha256 f),
      )
      | inr miss ↦
          let found = h.indexed f s (
            rw (lookup-insert c.fingerprint_sha256 f c.serial_number m.fingerprint_index, miss) at
              e) in
          (
            found.0,
            ground (
              arith,
              lookup-insert c.serial_number s c m.certificates,
              eq_iff c.serial_number s,
              found.1,
              fresh,
            ),
            found.2,
          )
    ]

    lists :
        (s : String) (x : CertificateEntry)
        → lookup s (insert c.serial_number c m.certificates) ≡ some x
        → (name : String) × (lookup x.fingerprint_sha256
              (insert c.fingerprint_sha256 c.serial_number m.fingerprint_index)
            ≡ some name)
    lists s x e = elim (Bool-cases (str_eq c.fingerprint_sha256 x.fingerprint_sha256)) [
      | inl hit ↦ (
        c.serial_number,
        rw
            (
              lookup-insert c.fingerprint_sha256 x.fingerprint_sha256 c.serial_number
                  m.fingerprint_index,
              hit,
            )
            refl,
      )
      | inr miss ↦
          let old : lookup s m.certificates ≡ some x = ground (
            arith,
            lookup-insert c.serial_number s c m.certificates,
            eq_iff c.fingerprint_sha256 x.fingerprint_sha256,
          ) in
          let (name, at) = h.listed s x old in
          (
            name,
            rw
                (
                  lookup-insert c.fingerprint_sha256 x.fingerprint_sha256 c.serial_number
                      m.fingerprint_index,
                  miss,
                )
                at,
          )
    ]

pub revoked-IsConsistent :
    (m : CertificateManager) (serial : String) (reason : RevocationReason) (now : ℕ)
    → IsConsistent m
    → IsConsistent (revoke_certificate m serial reason now).0
unfolding revoke_certificate revoke_found
revoked-IsConsistent m serial reason now h = elim (Option-cases (lookup serial m.certificates)) [
  | inl absent ↦ rw absent h
  | inr (c, found) ↦ elim (Bool-cases (is_revoked c.status)) [
    | inl already ↦ rw (found, already) h
    | inr live ↦
        let was : weight revoked_weight (lookup serial m.certificates) ≡ 0 =
          rw (found, live) refl in
        rw (found, live)
          record {
            counts = omega (
              arith,
              length-append m.crl
                  (record { serial_number = serial; revoked_at = now; reason = reason } ∷ []),
              total-insert revoked_weight serial (revoked_entry c reason now) m.certificates,
              was,
              h.counts,
            );
            coherent =
                insert-AllValues IsCoherent serial (revoked_entry c reason now) m.certificates
                  h.coherent (inr (refl, (now, refl), (reason, refl)));
            keyed = λ s x e. ground (
              arith,
              lookup-insert serial s (revoked_entry c reason now) m.certificates,
              eq_iff serial s,
              h.keyed s x,
              h.keyed serial c found,
            );
            indexed = λ f s e. moved f s (h.indexed f s e) c found;
            listed = λ s x e. kept s x c found e;
          }
  ]
]
  where
    moved :
        (f s : String)
        → (x : CertificateEntry) × (lookup s m.certificates ≡ some x) × (x.fingerprint_sha256 ≡ f)
        → (c : CertificateEntry) → lookup serial m.certificates ≡ some c
        → (x : CertificateEntry) × (lookup s
              (insert serial (revoked_entry c reason now) m.certificates)
            ≡ some x)
          × (x.fingerprint_sha256 ≡ f)
    moved f s (x, at, same) c found = elim (Bool-cases (str_eq serial s)) [
      | inl hit ↦
          let here : x ≡ c = ground (arith, eq_iff serial s) in
          (
            revoked_entry c reason now,
            rw (lookup-insert serial s (revoked_entry c reason now) m.certificates, hit) refl,
            subst (λ y. y.fingerprint_sha256 ≡ f) here same,
          )
      | inr miss ↦ (
        x,
        rw (lookup-insert serial s (revoked_entry c reason now) m.certificates, miss) at,
        same,
      )
    ]

    kept :
        (s : String) (x c : CertificateEntry)
        → lookup serial m.certificates ≡ some c
        → lookup s (insert serial (revoked_entry c reason now) m.certificates) ≡ some x
        → (name : String) × (lookup x.fingerprint_sha256 m.fingerprint_index ≡ some name)
    kept s x c found e = elim (Bool-cases (str_eq serial s)) [
      | inl hit ↦
          let here : revoked_entry c reason now ≡ x =
            cc
              (rw (lookup-insert serial s (revoked_entry c reason now) m.certificates, hit) at e) in
          subst
            (λ y. (name : String) × (lookup y.fingerprint_sha256 m.fingerprint_index ≡ some name))
            here (h.listed serial c found)
      | inr miss ↦
          h.listed s x
            (rw (lookup-insert serial s (revoked_entry c reason now) m.certificates, miss) at e)
    ]
