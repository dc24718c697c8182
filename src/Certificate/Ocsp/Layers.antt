-- ===== src/Certificate/Ocsp/Layers.antt =====
-- The OCSP response opened layer by layer, down to the single response.
use mathlib.Core.List.{append-nil}
use cyan_flame_control_plane.Prelude.{
  ℕ, ◌+◌, ◌^◌, ◌<◌, ◌≤◌, ◌≡◌, ap, sym, ◌∙◌, arith, String, some, List, [], ◌∷◌, ◌++◌, length,
  length-append, as_bytes,
}
use cyan_flame_control_plane.Certificate.{External}
use cyan_flame_control_plane.Certificate.Ocsp.{
  encode_length, element, short_element, pushes, wrapped, byte, algorithm, sig_alg_oid, oid_bytes,
  time_bytes, cert_id_contents, cert_status_bytes, single_contents, build_single_response,
  tbs_contents, sig_hash, basic_contents, build_basic_ocsp_response, bytes_contents,
  build_response_bytes, response_contents, build_ocsp_response_der,
}
use cyan_flame_control_plane.Certificate.Ocsp.Der.{
  read_elements, read_elements-pushes, short_element-eq,
}
use cyan_flame_control_plane.Certificate.Ocsp.Response.{
  IsStandard, wrapped-eq, length-time_bytes, length-cert_id_contents,
}

length-element : (tag : ℕ) (contents : List ℕ) → length (element tag contents) ≤ length contents + 4
unfolding encode_length
length-element tag contents =
    ground (arith, length-append (encode_length (length contents)) contents)

read_elements-one :
    (tag : ℕ) (contents : List ℕ)
    → length contents < 2 ^ 16
    → read_elements 1 (element tag contents) ≡ some ((tag, contents) ∷ [])
read_elements-one tag contents h =
    ap (read_elements 1) (sym (append-nil (element tag contents)))
    ∙ read_elements-pushes ((tag, contents) ∷ []) (h, tt)

-- What `algorithm` wraps.
abbrev pub algorithm_contents : List ℕ → List ℕ
algorithm_contents oid = pushes (short_element 0x06 oid ∷ (0x05 ∷ 0x00 ∷ []) ∷ [])

-- A bit string without unused bits.
bit_string-eq :
    (bits : List ℕ)
    → length bits < 126
    → (0x03 ∷ byte (length bits + 1) ∷ 0x00 ∷ []) ++ bits ≡ element 0x03 (0x00 ∷ bits)
bit_string-eq bits h =
    let size : length bits + 1 ≡ length (0x00 ∷ bits) = omega arith in
    ap (λ n. 0x03 ∷ byte n ∷ 0x00 ∷ bits) size
    ∙ short_element-eq 0x03 (0x00 ∷ bits) (omega (arith, h))

module _ (lib : External) (standard : IsStandard lib) where
  length-cert_status_bytes :
      (cert_status ms : ℕ) → length (cert_status_bytes lib cert_status ms) ≤ 19
  unfolding cert_status_bytes
  length-cert_status_bytes cert_status ms = ground (arith, length-time_bytes lib standard ms)

  length-single_contents :
      (serial : String) (cert_status this next : ℕ)
      → length (single_contents lib serial cert_status this next) ≤ 160
  unfolding single_contents
  length-single_contents serial cert_status this next =
      let id = element 0x30 (cert_id_contents lib serial) in
      let status = cert_status_bytes lib cert_status this in
      let now = time_bytes lib this in
      let later = wrapped 0xA0 0x18 (time_bytes lib next) ++ [] in
      omega (
        arith,
        length-append id (status ++ (short_element 0x18 now ++ later)),
        length-append status (short_element 0x18 now ++ later),
        length-append now later,
        length-append (time_bytes lib next) [],
        length-element 0x30 (cert_id_contents lib serial),
        length-cert_id_contents lib standard serial,
        length-cert_status_bytes cert_status this,
        length-time_bytes lib standard this,
        length-time_bytes lib standard next,
      )

  abbrev pub responder_hash : List ℕ
  responder_hash = lib.sha256 (as_bytes "CYAN_FLAME_OCSP_RESPONDER")

  module _ (serial : String) (cert_status this next : ℕ) where
    abbrev pub single : List ℕ
    single = build_single_response lib serial cert_status this next

    abbrev pub tbs : List ℕ
    tbs = tbs_contents lib serial cert_status this next

    abbrev pub basic : List ℕ
    basic = basic_contents lib serial cert_status this next

    abbrev pub bytes : List ℕ
    bytes = bytes_contents lib serial cert_status this next

    abbrev pub response : List ℕ
    response = response_contents lib serial cert_status this next

    length-single : length single ≤ 164
    length-single = omega (
      arith,
      length-element 0x30 (single_contents lib serial cert_status this next),
      length-single_contents serial cert_status this next,
    )

    length-tbs : length tbs ≤ 221
    unfolding tbs_contents
    length-tbs =
        let rest = element 0x30 single ++ [] in
        omega (
          arith,
          length-append responder_hash (short_element 0x18 (time_bytes lib this) ++ rest),
          length-append (time_bytes lib this) rest,
          length-append (element 0x30 single) [],
          length-element 0x30 single,
          length-single,
          length-time_bytes lib standard this,
          standard.digest_size (as_bytes "CYAN_FLAME_OCSP_RESPONDER"),
        )

    length-sig_hash : length (sig_hash lib serial this) ≡ 32
    unfolding sig_hash
    length-sig_hash = standard.digest_size _

    length-basic : length basic ≤ 280
    unfolding basic_contents
    length-basic =
        let signature = sig_hash lib serial this in
        let rest = ((0x03 ∷ byte (length signature + 1) ∷ 0x00 ∷ []) ++ signature) ++ [] in
        omega (
          arith,
          length-append (element 0x30 tbs) (algorithm sig_alg_oid ++ rest),
          length-append (algorithm sig_alg_oid) rest,
          length-append signature [],
          length-element 0x30 tbs,
          length-tbs,
          length-sig_hash,
        )

    length-bytes : length bytes ≤ 299
    unfolding bytes_contents
    length-bytes =
        let whole = element 0x30 basic in
        omega (
          arith,
          length-append (element 0x04 whole) [],
          length-element 0x04 whole,
          length-element 0x30 basic,
          length-basic,
        )

    length-response : length response ≤ 310
    unfolding response_contents
    length-response =
        let whole = element 0x30 bytes in
        omega (
          arith,
          length-append (element 0xA0 whole) [],
          length-element 0xA0 whole,
          length-element 0x30 bytes,
          length-bytes,
        )

    response-layer :
        read_elements 2 response
        ≡ some ((0x0A, 0 ∷ []) ∷ (0xA0, build_response_bytes lib serial cert_status this next) ∷ [])
    unfolding response_contents encode_length
    response-layer =
        read_elements-pushes
          ((0x0A, 0 ∷ []) ∷ (0xA0, build_response_bytes lib serial cert_status this next) ∷ [])
          (omega arith, (omega (arith, length-element 0x30 bytes, length-bytes), tt))

    bytes-layer :
        read_elements 2 bytes
        ≡ some (
            (0x06, oid_bytes)
            ∷ (0x04, build_basic_ocsp_response lib serial cert_status this next)
            ∷ [])
    unfolding bytes_contents encode_length
    bytes-layer =
        read_elements-pushes
          ((0x06, oid_bytes)
            ∷ (0x04, build_basic_ocsp_response lib serial cert_status this next)
            ∷ [])
          (omega arith, (omega (arith, length-element 0x30 basic, length-basic), tt))

    basic-layer :
        read_elements 3 basic
        ≡ some (
            (0x30, tbs)
            ∷ (0x30, algorithm_contents sig_alg_oid)
            ∷ (0x03, 0x00 ∷ sig_hash lib serial this)
            ∷ [])
    unfolding basic_contents encode_length
    basic-layer =
        ap (λ x. read_elements 3 (pushes (element 0x30 tbs ∷ algorithm sig_alg_oid ∷ x ∷ [])))
          (bit_string-eq (sig_hash lib serial this) (omega (arith, length-sig_hash)))
        ∙ read_elements-pushes
            ((0x30, tbs)
              ∷ (0x30, algorithm_contents sig_alg_oid)
              ∷ (0x03, 0x00 ∷ sig_hash lib serial this)
              ∷ [])
            (omega (arith, length-tbs), (omega arith, (omega (arith, length-sig_hash), tt)))

    tbs-layer :
        read_elements 3 tbs
        ≡ some (
            (0xA2, element 0x04 responder_hash) ∷ (0x18, time_bytes lib this) ∷ (0x30, single) ∷ [])
    unfolding tbs_contents
    tbs-layer =
        ap
          (λ x.
            read_elements 3
              (pushes (x ∷ short_element 0x18 (time_bytes lib this) ∷ element 0x30 single ∷ [])))
          (wrapped-eq 0xA2 0x04 responder_hash (omega (arith, hash_size)))
        ∙ ap
            (λ y.
              read_elements 3 (
                pushes (element 0xA2 (element 0x04 responder_hash) ∷ y ∷ element 0x30 single ∷ [])))
            (short_element-eq 0x18 (time_bytes lib this)
              (omega (arith, length-time_bytes lib standard this)))
        ∙ read_elements-pushes
            ((0xA2, element 0x04 responder_hash)
              ∷ (0x18, time_bytes lib this)
              ∷ (0x30, single)
              ∷ [])
            (
              omega (arith, length-element 0x04 responder_hash, hash_size),
              (
                omega (arith, length-time_bytes lib standard this),
                (omega (arith, length-single), tt),
              ),
            )
      where
        hash_size : length responder_hash ≡ 32
        hash_size = standard.digest_size (as_bytes "CYAN_FLAME_OCSP_RESPONDER")

    -- For 32-byte digests and times of fifteen bytes, the OCSP response opens layer by layer,
    -- whatever the status: the sequence with the outcome and the response bytes, the
    -- type and the basic response, its data, algorithm and signature, and in the data the
    -- responder's key hash, the time and the single response.
    pub ocsp_response-layers :
        (read_elements 1 (build_ocsp_response_der lib serial cert_status this next)
          ≡ some ((0x30, response) ∷ []))
        × (read_elements 2 response
            ≡ some (
                (0x0A, 0 ∷ [])
                ∷ (0xA0, build_response_bytes lib serial cert_status this next)
                ∷ []))
        × (read_elements 1 (build_response_bytes lib serial cert_status this next)
            ≡ some ((0x30, bytes) ∷ []))
        × (read_elements 2 bytes
            ≡ some (
                (0x06, oid_bytes)
                ∷ (0x04, build_basic_ocsp_response lib serial cert_status this next)
                ∷ []))
        × (read_elements 1 (build_basic_ocsp_response lib serial cert_status this next)
            ≡ some ((0x30, basic) ∷ []))
        × (read_elements 3 basic
            ≡ some (
                (0x30, tbs)
                ∷ (0x30, algorithm_contents sig_alg_oid)
                ∷ (0x03, 0x00 ∷ sig_hash lib serial this)
                ∷ []))
        × (read_elements 3 tbs
            ≡ some (
                (0xA2, element 0x04 responder_hash)
                ∷ (0x18, time_bytes lib this)
                ∷ (0x30, single)
                ∷ []))
    ocsp_response-layers = (
      read_elements-one 0x30 response (omega (arith, length-response)),
      response-layer,
      read_elements-one 0x30 bytes (omega (arith, length-bytes)),
      bytes-layer,
      read_elements-one 0x30 basic (omega (arith, length-basic)),
      basic-layer,
      tbs-layer,
    )
