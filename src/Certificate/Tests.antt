-- ===== src/Certificate/Tests.antt =====
-- Runs of the code of src/grpc/certificate.rs and src/grpc/certificate_service.rs.
use mathlib.Core.Option
use cyan_flame_control_plane.Prelude.{
  ℕ, ◌+◌, ◌*◌, ◌^◌, ◌≡◌, ◌≢◌, refl, arith, true, String, none, some, List, [], ◌∷◌, length,
  replicate, Outcome, ok, err, as_bytes, ◌==◌, if◌then◌else◌, eq_iff, str_eq, Bool-cases, inl, inr,
  ap, ◌∙◌,
}
use cyan_flame_control_plane.Prelude.Dict.{lookup, insert}
use cyan_flame_control_plane.Certificate.{
  External, key_compromise, superseded, revoked, CertificateEntry, CertificateManager, new, issued,
  new_certificate, issue_certificate, revoked_entry, revoke_certificate, revoke_found,
  get_certificate, get_certificate_by_fingerprint, check_status,
}
use cyan_flame_control_plane.Certificate.Invariant.{IsConsistent}
use cyan_flame_control_plane.Certificate.Calls.{
  Call, issues, revokes, step, run, AreFresh, history-IsConsistent,
}
use cyan_flame_control_plane.Certificate.Revocation.{revoke_certificate-permanent}
use cyan_flame_control_plane.Certificate.Service.{
  CertificateResponse, RenewCertificateRequest, failure, old_cert_fingerprint, renew_certificate,
  renew_found, find_old, check_old,
}
use cyan_flame_control_plane.Certificate.Service.Renewal.{
  renew_certificate-authorised, renew_certificate-not_found,
}
use cyan_flame_control_plane.Certificate.Ocsp.{
  sig_hash, build_ocsp_response_der, build_response_bytes, build_basic_ocsp_response, oid_bytes,
  sig_alg_oid, element, time_bytes, cert_id_contents, single_contents,
}
use cyan_flame_control_plane.Certificate.Ocsp.Layers.{
  single, tbs, basic, bytes, response, responder_hash, algorithm_contents, ocsp_response-layers,
}
use cyan_flame_control_plane.Certificate.Ocsp.Der.{read_elements}
use cyan_flame_control_plane.Certificate.Ocsp.Response.{
  IsStandard, single_response-elements, revoked_response-unreadable,
}

abbrev digest : List ℕ → List ℕ
digest bs = length bs ∷ replicate 31 0

abbrev first_length : List ℕ → String
first_length [] = "none"
first_length (n ∷ bs) = if n == 3 then "three" else "other"

-- A hash that tells texts of three bytes from others.
abbrev library : External
library = record {
  sha256 = digest;
  hex_encode = first_length;
  md5 = λ s. s;
  max_utc = 10 ^ 30;
  generalized_time = λ ms. "20240101000000Z";
  to_rfc3339 = λ t. "2024-01-01T00:00:00+00:00";
  base64_encode = λ bs. "";
  generate_x509_certificate = λ serial common_name org_id key now days. ok ("PEM!", 1 ∷ 2 ∷ 3 ∷ []);
}

abbrev first_calls : List Call
first_calls = issues "s1" "org" "agent" "key" none 30 5 ∷ []

abbrev calls : List Call
calls = issues "s1" "org" "agent" "key" none 30 5 ∷ revokes "s1" key_compromise 6 ∷ []

first_calls-AreFresh : AreFresh library (new "CA" 1) first_calls
unfolding new lookup
first_calls-AreFresh = (refl, tt)

calls-AreFresh : AreFresh library (new "CA" 1) calls
unfolding new lookup
calls-AreFresh = (refl, (tt, tt))

history-IsConsistent_example : IsConsistent (run library (new "CA" 1) calls)
history-IsConsistent_example = history-IsConsistent library "CA" 1 calls calls-AreFresh

-- A manager with one certificate.
abbrev manager : CertificateManager
manager = run library (new "CA" 1) first_calls

abbrev first : CertificateEntry
first =
    issued library (new "CA" 1) "s1" "org" "agent" "key" none 5 (5 + 30 * (24 * 3600 * 10 ^ 9))
      ("PEM!", 1 ∷ 2 ∷ 3 ∷ [])

manager-IsConsistent : IsConsistent manager
manager-IsConsistent = history-IsConsistent library "CA" 1 first_calls first_calls-AreFresh

revokes_first : (revoke_certificate manager "s1" superseded 7).1 ≡ ok tt
unfolding revoke_certificate revoke_found run step new issue_certificate new_certificate issued
    lookup insert
revokes_first = refl

abbrev after : CertificateManager
after = (revoke_certificate manager "s1" superseded 7).0

later-AreFresh : AreFresh library after (issues "s2" "org" "agent" "key" none 30 8 ∷ [])
unfolding revoke_certificate revoke_found run step new issue_certificate new_certificate issued
    lookup insert
later-AreFresh = (refl, tt)

abbrev afterwards : CertificateManager
afterwards = run library after (issues "s2" "org" "agent" "key" none 30 8 ∷ [])

revoke_certificate-permanent_example :
    ((c : CertificateEntry) × (get_certificate manager "s1" ≡ some c)
      × (get_certificate afterwards "s1" ≡ some (revoked_entry c superseded 7)))
    × (check_status afterwards "s1" 9 ≡ revoked)
    × (revoke_certificate afterwards "s1" key_compromise 9
        ≡ (afterwards, err "Certificate is already revoked"))
revoke_certificate-permanent_example =
    revoke_certificate-permanent library manager "s1" superseded key_compromise 7 9
      (issues "s2" "org" "agent" "key" none 30 8 ∷ []) revokes_first later-AreFresh

abbrev result : CertificateManager × Outcome String CertificateEntry
result = issue_certificate library manager "s2" "org" "agent" "key" none 30 8

abbrev second : CertificateEntry
second =
    issued library manager "s2" "org" "agent" "key" none 8 (8 + 30 * (24 * 3600 * 10 ^ 9))
      ("PEM!", 1 ∷ 2 ∷ 3 ∷ [])

issues_second : result.1 ≡ ok second
unfolding issue_certificate new_certificate
issues_second = refl

abbrev renewal : String → RenewCertificateRequest
renewal pem = record { old_certificate_pem = pem; api_key = "key"; validity_days = 30 }

-- A text of three bytes has the hash of the certificate's DER.
abbrev accepted : CertificateResponse
accepted = record {
  success = true;
  error_message = "";
  certificate_pem = "PEM!";
  certificate_chain_pem = "PEM!\nCA";
  private_key_pem = "";
  serial_number = "s2";
  fingerprint_sha256 = "three";
  issued_at_ms = 0;
  expires_at_ms = 30 * (24 * 3600 * 1000);
  bound_api_key_hash = "key";
  bound_gpu_type = 0;
}

renews : (renew_certificate library manager (renewal "abc") "s2" 8).1 ≡ ok accepted
unfolding renew_certificate renew_found find_old check_old old_cert_fingerprint
    get_certificate_by_fingerprint run step new issue_certificate new_certificate issued lookup
    insert as_bytes
renews = refl

names_old : old_cert_fingerprint library "abc" ≢ ""
unfolding old_cert_fingerprint as_bytes
names_old e = ground (arith, eq_iff "three" "")

names_pem : old_cert_fingerprint library "PEM!" ≢ ""
unfolding old_cert_fingerprint as_bytes
names_pem e = ground (arith, eq_iff "other" "")

renew_certificate-authorised_example :
    (c : CertificateEntry) × (get_certificate manager c.serial_number ≡ some c)
    × (c.fingerprint_sha256 ≡ old_cert_fingerprint library "abc")
    × (c.bound_api_key_hash ≡ "key")
    × (c.revoked_at ≡ none)
    × (x : CertificateEntry) × (get_certificate
          (renew_certificate library manager (renewal "abc") "s2" 8).0
          "s2"
        ≡ some x)
    × (x.org_id ≡ c.org_id)
    × (x.common_name ≡ c.common_name)
    × (x.bound_api_key_hash ≡ c.bound_api_key_hash)
renew_certificate-authorised_example =
    renew_certificate-authorised library manager (renewal "abc") "s2" 8 accepted
      manager-IsConsistent names_old renews refl

-- The PEM of the certificate itself has another hash.
no_such_fingerprint :
    (c : CertificateEntry)
    → get_certificate manager c.serial_number ≡ some c
    → c.fingerprint_sha256 ≢ old_cert_fingerprint library "PEM!"
unfolding old_cert_fingerprint as_bytes run step new issue_certificate new_certificate issued lookup
    insert
no_such_fingerprint c found same = elim (Bool-cases (str_eq "s1" c.serial_number)) [
  | inl hit ↦
      let here : first ≡ c = Option.some-injective first c (rw hit at found) in
      let texts : ◌≡◌ {A = String} "three" "other" = ap (λ x. x.fingerprint_sha256) here ∙ same in
      ground (arith, eq_iff "three" "other")
  | inr miss ↦ cc (rw miss at found)
]

renew_certificate-not_found_example :
    renew_certificate library manager (renewal "PEM!") "s2" 8
    ≡ (manager, ok (failure "Original certificate not found"))
renew_certificate-not_found_example =
    renew_certificate-not_found library manager (renewal "PEM!") "s2" 8 manager-IsConsistent
      names_pem no_such_fingerprint

not_empty : ◌≢◌ {A = String} "s1" ""
not_empty e = ground (arith, eq_iff "s1" "")

not_expiring : (c : CertificateEntry) → get_certificate manager "s1" ≡ some c → 9 ≢ c.expires_at
unfolding run step new issue_certificate new_certificate issued lookup insert
not_expiring c found e =
    let here : first ≡ c = Option.some-injective first c found in
    let expiry : 5 + 30 * (24 * 3600 * 10 ^ 9) ≡ c.expires_at = ap (λ x. x.expires_at) here in
    omega arith

library-IsStandard : IsStandard library
unfolding as_bytes
library-IsStandard = record {
  digest_size = λ bs. refl;
  time_form =
      λ ms. (50 ∷ 48 ∷ 50 ∷ 52 ∷ 48 ∷ 49 ∷ 48 ∷ 49 ∷ 48 ∷ 48 ∷ 48 ∷ 48 ∷ 48 ∷ [], 48, refl, refl);
}

single_response-elements_example :
    read_elements 4 (single_contents library "s1" 0 5 6)
    ≡ some (
        (0x30, cert_id_contents library "s1")
        ∷ ((if 0 == 0 then 0x80 else 0x82), [])
        ∷ (0x18, time_bytes library 5)
        ∷ (0xA0, element 0x18 (time_bytes library 6))
        ∷ [])
single_response-elements_example =
    single_response-elements library library-IsStandard "s1" 0 5 6 (omega arith)

revoked_response-unreadable_example : read_elements 9 (single_contents library "s1" 1 5 6) ≡ none
revoked_response-unreadable_example =
    revoked_response-unreadable library library-IsStandard 9 "s1" 5 6

ocsp_response-layers_example :
    (read_elements 1 (build_ocsp_response_der library "s1" 0 5 6)
      ≡ some ((0x30, response library library-IsStandard "s1" 0 5 6) ∷ []))
    × (read_elements 2 (response library library-IsStandard "s1" 0 5 6)
        ≡ some ((0x0A, 0 ∷ []) ∷ (0xA0, build_response_bytes library "s1" 0 5 6) ∷ []))
    × (read_elements 1 (build_response_bytes library "s1" 0 5 6)
        ≡ some ((0x30, bytes library library-IsStandard "s1" 0 5 6) ∷ []))
    × (read_elements 2 (bytes library library-IsStandard "s1" 0 5 6)
        ≡ some ((0x06, oid_bytes) ∷ (0x04, build_basic_ocsp_response library "s1" 0 5 6) ∷ []))
    × (read_elements 1 (build_basic_ocsp_response library "s1" 0 5 6)
        ≡ some ((0x30, basic library library-IsStandard "s1" 0 5 6) ∷ []))
    × (read_elements 3 (basic library library-IsStandard "s1" 0 5 6)
        ≡ some (
            (0x30, tbs library library-IsStandard "s1" 0 5 6)
            ∷ (0x30, algorithm_contents sig_alg_oid)
            ∷ (0x03, 0x00 ∷ sig_hash library "s1" 5)
            ∷ []))
    × (read_elements 3 (tbs library library-IsStandard "s1" 0 5 6)
        ≡ some (
            (0xA2, element 0x04 (responder_hash library library-IsStandard))
            ∷ (0x18, time_bytes library 5)
            ∷ (0x30, single library library-IsStandard "s1" 0 5 6)
            ∷ []))
ocsp_response-layers_example = ocsp_response-layers library library-IsStandard "s1" 0 5 6
