-- ===== src/Certificate/Ocsp.antt =====
-- The OCSP responder of src/grpc/certificate_service.rs: the answer's status and its DER bytes.
pub mod Der
pub mod Response
pub mod Status
pub mod Layers
use Prim.Native.Nat.{zero, suc}
use cyan_flame_control_plane.Prelude.{
  ℕ, ◌+◌, ◌*◌, ◌/◌, ◌%◌, ◌^◌, Bool, true, false, String, Option, none, some, List, [], ◌∷◌, ◌++◌,
  length, take, ltb, ◌==◌, str_eq, if◌then◌else◌, Outcome, ok, err, panic, or_panic, ◌>>=◌,
  as_bytes,
}
use cyan_flame_control_plane.Certificate.{
  External, CertificateEntry, CertificateManager, get_certificate, later, day_ns,
}
use cyan_flame_control_plane.Certificate.Service.{timestamp_millis, is_some}

abbrev ocsp_cert_status_good : ℕ
ocsp_cert_status_good = 0

abbrev ocsp_cert_status_revoked : ℕ
ocsp_cert_status_revoked = 1

abbrev ocsp_cert_status_unknown : ℕ
ocsp_cert_status_unknown = 2

-- `as u8`.
abbrev pub byte : ℕ → ℕ
byte n = n % 256

-- The bytes that `encode_length` appends.
unfoldable pub encode_length : ℕ → List ℕ
encode_length n =
    if ltb n 128
    then byte n ∷ []
    else if ltb n 256
    then 0x81 ∷ byte n ∷ []
    else 0x82 ∷ byte (n / 2 ^ 8) ∷ byte n ∷ []

-- A tag, the length and the contents, as the builders push them.
abbrev pub element : ℕ → List ℕ → List ℕ
element tag contents = (tag ∷ encode_length (length contents)) ++ contents

-- The same where the builder writes the length as one byte.
abbrev pub short_element : ℕ → List ℕ → List ℕ
short_element tag contents = (tag ∷ byte (length contents) ∷ []) ++ contents

-- `to_be_bytes` of a 64-bit integer that is not negative.
abbrev to_be_bytes : ℕ → List ℕ
to_be_bytes n =
    byte (n / 2 ^ 56)
    ∷ byte (n / 2 ^ 48)
    ∷ byte (n / 2 ^ 40)
    ∷ byte (n / 2 ^ 32)
    ∷ byte (n / 2 ^ 24)
    ∷ byte (n / 2 ^ 16)
    ∷ byte (n / 2 ^ 8)
    ∷ byte n
    ∷ []

abbrev pub sha256_oid : List ℕ
sha256_oid = 0x60 ∷ 0x86 ∷ 0x48 ∷ 0x01 ∷ 0x65 ∷ 0x03 ∷ 0x04 ∷ 0x02 ∷ 0x01 ∷ []

abbrev pub sig_alg_oid : List ℕ
sig_alg_oid = 0x2A ∷ 0x86 ∷ 0x48 ∷ 0x86 ∷ 0xF7 ∷ 0x0D ∷ 0x01 ∷ 0x01 ∷ 0x0B ∷ []

abbrev pub oid_bytes : List ℕ
oid_bytes = 0x2B ∷ 0x06 ∷ 0x01 ∷ 0x05 ∷ 0x05 ∷ 0x07 ∷ 0x30 ∷ 0x01 ∷ 0x01 ∷ []

-- What a builder holds after these pushes.
abbrev pub pushes : List (List ℕ) → List ℕ
pushes [] = []
pushes (bs ∷ rest) = bs ++ pushes rest

-- A short element in a wrapper with the tag `tag`.
abbrev pub wrapped : ℕ → ℕ → List ℕ → List ℕ
wrapped tag inner contents = (tag ∷ byte (length contents + 2) ∷ []) ++ short_element inner contents

-- An algorithm identifier: the object and NULL.
abbrev pub algorithm : List ℕ → List ℕ
algorithm oid =
    pushes ((0x30 ∷ byte (length oid + 4) ∷ []) ∷ short_element 0x06 oid ∷ (0x05 ∷ 0x00 ∷ []) ∷ [])

unfoldable pub ocsp_found : Option CertificateEntry → ℕ → String × ℕ
ocsp_found none now = ("unknown", ocsp_cert_status_unknown)
ocsp_found (some c) now =
    if is_some c.revoked_at
    then ("revoked", ocsp_cert_status_revoked)
    else if ltb c.expires_at now
    then ("expired", ocsp_cert_status_revoked)
    else ("good", ocsp_cert_status_good)

unfoldable pub ocsp_status : CertificateManager → String → ℕ → String × ℕ
unfolding ocsp_found
ocsp_status m serial now =
    if str_eq serial ""
    then ("unknown", ocsp_cert_status_unknown)
    else ocsp_found (get_certificate m serial) now

pub record OcspResponse : Type 0 where
  pub ocsp_response_der : List ℕ
  pub status : String
  pub this_update_ms : ℕ
  pub next_update_ms : ℕ

module _ (lib : External) where
  abbrev pub time_bytes : ℕ → List ℕ
  time_bytes ms = as_bytes (lib.generalized_time ms)

  -- What `build_cert_id` wraps.
  unfoldable pub cert_id_contents : String → List ℕ
  cert_id_contents serial = pushes (
      algorithm sha256_oid
      ∷ short_element 0x04 (lib.sha256 (as_bytes "CYAN_FLAME_CA"))
      ∷ short_element 0x04 (lib.sha256 (as_bytes "CYAN_FLAME_CA_KEY"))
      ∷ short_element 0x02 (take 16 (as_bytes serial))
      ∷ [])

  abbrev pub build_cert_id : String → List ℕ
  build_cert_id serial = element 0x30 (cert_id_contents serial)

  -- The three choices of a certificate's status.
  unfoldable pub cert_status_bytes : ℕ → ℕ → List ℕ
  cert_status_bytes cert_status this_update_ms =
      if cert_status == ocsp_cert_status_good
      then 0x80 ∷ 0x00 ∷ []
      else if cert_status == ocsp_cert_status_revoked
      then (0xA1 ∷ 0x0F ∷ []) ++ short_element 0x18 (time_bytes this_update_ms)
      else 0x82 ∷ 0x00 ∷ []

  unfoldable pub single_contents : String → ℕ → ℕ → ℕ → List ℕ
  unfolding cert_status_bytes
  single_contents serial cert_status this_update_ms next_update_ms = pushes (
      build_cert_id serial
      ∷ cert_status_bytes cert_status this_update_ms
      ∷ short_element 0x18 (time_bytes this_update_ms)
      ∷ wrapped 0xA0 0x18 (time_bytes next_update_ms)
      ∷ [])

  abbrev pub build_single_response : String → ℕ → ℕ → ℕ → List ℕ
  build_single_response serial cert_status this_update_ms next_update_ms =
      element 0x30 (single_contents serial cert_status this_update_ms next_update_ms)

  unfoldable pub tbs_contents : String → ℕ → ℕ → ℕ → List ℕ
  unfolding single_contents
  tbs_contents serial cert_status this_update_ms next_update_ms = pushes (
      wrapped 0xA2 0x04 (lib.sha256 (as_bytes "CYAN_FLAME_OCSP_RESPONDER"))
      ∷ short_element 0x18 (time_bytes this_update_ms)
      ∷ element 0x30 (build_single_response serial cert_status this_update_ms next_update_ms)
      ∷ [])

  abbrev pub build_tbs_response_data : String → ℕ → ℕ → ℕ → List ℕ
  build_tbs_response_data serial cert_status this_update_ms next_update_ms =
      element 0x30 (tbs_contents serial cert_status this_update_ms next_update_ms)

  unfoldable pub sig_hash : String → ℕ → List ℕ
  sig_hash serial this_update_ms = lib.sha256 (as_bytes serial ++ to_be_bytes this_update_ms)

  unfoldable pub basic_contents : String → ℕ → ℕ → ℕ → List ℕ
  unfolding tbs_contents sig_hash
  basic_contents serial cert_status this_update_ms next_update_ms =
      let signature = sig_hash serial this_update_ms in
      pushes (
        build_tbs_response_data serial cert_status this_update_ms next_update_ms
        ∷ algorithm sig_alg_oid
        ∷ ((0x03 ∷ byte (length signature + 1) ∷ 0x00 ∷ []) ++ signature)
        ∷ [])

  abbrev pub build_basic_ocsp_response : String → ℕ → ℕ → ℕ → List ℕ
  build_basic_ocsp_response serial cert_status this_update_ms next_update_ms =
      element 0x30 (basic_contents serial cert_status this_update_ms next_update_ms)

  unfoldable pub bytes_contents : String → ℕ → ℕ → ℕ → List ℕ
  unfolding basic_contents
  bytes_contents serial cert_status this_update_ms next_update_ms = pushes (
      short_element 0x06 oid_bytes
      ∷ element 0x04 (build_basic_ocsp_response serial cert_status this_update_ms next_update_ms)
      ∷ [])

  abbrev pub build_response_bytes : String → ℕ → ℕ → ℕ → List ℕ
  build_response_bytes serial cert_status this_update_ms next_update_ms =
      element 0x30 (bytes_contents serial cert_status this_update_ms next_update_ms)

  unfoldable pub response_contents : String → ℕ → ℕ → ℕ → List ℕ
  unfolding bytes_contents
  response_contents serial cert_status this_update_ms next_update_ms = pushes (
      (0x0A ∷ 0x01 ∷ 0 ∷ [])
      ∷ element 0xA0 (build_response_bytes serial cert_status this_update_ms next_update_ms)
      ∷ [])

  abbrev pub build_ocsp_response_der : String → ℕ → ℕ → ℕ → List ℕ
  build_ocsp_response_der serial cert_status this_update_ms next_update_ms =
      element 0x30 (response_contents serial cert_status this_update_ms next_update_ms)

  -- The clock is read for the status and again for the times.
  unfoldable pub check_certificate_ocsp :
      CertificateManager → String → (checked now : ℕ) → Outcome String OcspResponse
  unfolding response_contents ocsp_status
  check_certificate_ocsp m serial checked now = do
    next_update ← or_panic (later lib now day_ns)
    let (status_str, cert_status) = ocsp_status m serial checked in
        ok (record {
          ocsp_response_der =
              build_ocsp_response_der serial cert_status (timestamp_millis now)
                (timestamp_millis next_update);
          status = status_str;
          this_update_ms = timestamp_millis now;
          next_update_ms = timestamp_millis next_update;
        })
