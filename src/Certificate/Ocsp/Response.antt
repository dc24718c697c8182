-- ===== src/Certificate/Ocsp/Response.antt =====
-- The single response of the OCSP answer, read back element by element.
use mathlib.Core.Option
use mathlib.Core.List.{append_assoc, map}
use cyan_flame_control_plane.Prelude.{
  ℕ, zero, suc, ◌+◌, ◌^◌, ◌<◌, ◌≤◌, ◌≡◌, ◌≢◌, refl, ap, ◌∙◌, arith, String, none, some, List, [],
  ◌∷◌, ◌++◌, length, take, length-append, ◌==◌, if◌then◌else◌, as_bytes,
}
use cyan_flame_control_plane.Certificate.{External}
use cyan_flame_control_plane.Certificate.Ocsp.{
  encode_length, element, short_element, time_bytes, cert_id_contents, build_cert_id,
  cert_status_bytes, single_contents, pushes, wrapped, byte,
}
use cyan_flame_control_plane.Certificate.Ocsp.Der.{
  read_elements, short_element-eq, read_elements-pushes, read_elements-element, read_element-short,
  written,
}

-- SHA-256 has 32 bytes, and the time of a year of four digits is fourteen digits and `Z`.
pub record IsStandard (lib : External) : Type 0 where
  pub digest_size : (bs : List ℕ) → length (lib.sha256 bs) ≡ 32
  pub time_form :
      (ms : ℕ)
      → (digits : List ℕ) × (last : ℕ) × (length digits ≡ 13)
        × (time_bytes lib ms ≡ digits ++ (last ∷ 0x5A ∷ []))

length-take : (n : ℕ) (xs : List ℕ) → length (take n xs) ≤ n
length-take zero xs = omega arith
length-take (suc n) [] = omega arith
length-take (suc n) (x ∷ xs) = omega (arith, length-take n xs)

-- Two elements, and then two bytes that announce more than there is.
read_elements-left_over :
    (n : ℕ) (xs ys : List ℕ) (last : ℕ) (rest : List ℕ)
    → length xs < 2 ^ 16
    → length ys < 2 ^ 16
    → length rest < 90
    → read_elements n (element 0x30 xs ++ (element 0xA1 ys ++ (last ∷ 0x5A ∷ rest))) ≡ none
unfolding read_elements
read_elements-left_over zero xs ys last rest hx hy hr = refl
read_elements-left_over (suc zero) xs ys last rest hx hy hr =
    read_elements-element zero 0x30 xs (element 0xA1 ys ++ (last ∷ 0x5A ∷ rest)) hx
read_elements-left_over (suc (suc n)) xs ys last rest hx hy hr =
    read_elements-element (suc n) 0x30 xs (element 0xA1 ys ++ (last ∷ 0x5A ∷ rest)) hx
    ∙ ap (Option.map (λ es. (0x30, xs) ∷ es)) (
        read_elements-element n 0xA1 ys (last ∷ 0x5A ∷ rest) hy
        ∙ ap (Option.map (λ es. (0xA1, ys) ∷ es)) (too_long n))
  where
    too_long : (n : ℕ) → read_elements n (last ∷ 0x5A ∷ rest) ≡ none
    too_long zero = refl
    too_long (suc n) = rw (read_element-short last 0x5A rest (omega arith) hr) refl

pub wrapped-eq :
    (tag inner : ℕ) (contents : List ℕ)
    → length contents < 126
    → wrapped tag inner contents ≡ element tag (element inner contents)
wrapped-eq tag inner contents h =
    let size : length contents + 2 ≡ length (short_element inner contents) = omega (arith, h) in
    ap (λ n. tag ∷ byte n ∷ short_element inner contents) size
    ∙ short_element-eq tag (short_element inner contents) (omega (arith, h))
    ∙ ap (element tag) (short_element-eq inner contents (omega (arith, h)))

module _ (lib : External) (standard : IsStandard lib) where
  pub length-time_bytes : (ms : ℕ) → length (time_bytes lib ms) ≡ 15
  length-time_bytes ms =
      let (digits, last, size, form) = standard.time_form ms in
      rw form (omega (arith, length-append digits (last ∷ 0x5A ∷ []), size))

  pub length-cert_id_contents : (serial : String) → length (cert_id_contents lib serial) ≤ 101
  unfolding cert_id_contents
  length-cert_id_contents serial =
      let issuer = lib.sha256 (as_bytes "CYAN_FLAME_CA") in
      let key = lib.sha256 (as_bytes "CYAN_FLAME_CA_KEY") in
      let number = take 16 (as_bytes serial) in
      omega (
        arith,
        length-append issuer (short_element 0x04 key ++ (short_element 0x02 number ++ [])),
        length-append key (short_element 0x02 number ++ []),
        length-append number [],
        standard.digest_size (as_bytes "CYAN_FLAME_CA"),
        standard.digest_size (as_bytes "CYAN_FLAME_CA_KEY"),
        length-take 16 (as_bytes serial),
      )

  status-eq :
      (cert_status ms : ℕ)
      → cert_status ≢ 1
      → cert_status_bytes lib cert_status ms ≡ element (if cert_status == 0 then 0x80 else 0x82) []
  unfolding cert_status_bytes encode_length
  status-eq cert_status ms h = ground arith

  -- What follows the status.
  abbrev tail : ℕ → ℕ → List ℕ
  tail this_update_ms next_update_ms = pushes (
      short_element 0x18 (time_bytes lib this_update_ms)
      ∷ wrapped 0xA0 0x18 (time_bytes lib next_update_ms)
      ∷ [])

  length-tail :
      (this_update_ms next_update_ms : ℕ) → length (tail this_update_ms next_update_ms) < 90
  length-tail this_update_ms next_update_ms = omega (
    arith,
    length-append (time_bytes lib this_update_ms)
        (wrapped 0xA0 0x18 (time_bytes lib next_update_ms) ++ []),
    length-append (time_bytes lib next_update_ms) [],
    length-time_bytes this_update_ms,
    length-time_bytes next_update_ms,
  )

  revoked_status-eq :
      (ms : ℕ) (digits : List ℕ) (last : ℕ)
      → length digits ≡ 13
      → time_bytes lib ms ≡ digits ++ (last ∷ 0x5A ∷ [])
      → cert_status_bytes lib 1 ms ≡ element 0xA1 (0x18 ∷ 0x0F ∷ digits) ++ (last ∷ 0x5A ∷ [])
  unfolding cert_status_bytes
  revoked_status-eq ms digits last size form =
      ap (λ l. 0xA1 ∷ 0x0F ∷ 0x18 ∷ byte l ∷ time_bytes lib ms) (length-time_bytes ms)
      ∙ ap (λ bs. 0xA1 ∷ 0x0F ∷ 0x18 ∷ 0x0F ∷ bs) form
      ∙ ap (λ l. 0xA1 ∷ byte l ∷ 0x18 ∷ 0x0F ∷ (digits ++ (last ∷ 0x5A ∷ []))) counted
      ∙ ap (λ e. e ++ (last ∷ 0x5A ∷ []))
          (short_element-eq 0xA1 (0x18 ∷ 0x0F ∷ digits) (omega (arith, size)))
    where
      counted : 15 ≡ length (0x18 ∷ 0x0F ∷ digits)
      counted = omega (arith, size)

  revoked-eq :
      (serial : String) (this_update_ms next_update_ms : ℕ) (digits : List ℕ) (last : ℕ)
      → length digits ≡ 13
      → time_bytes lib this_update_ms ≡ digits ++ (last ∷ 0x5A ∷ [])
      → single_contents lib serial 1 this_update_ms next_update_ms
        ≡ element 0x30 (cert_id_contents lib serial)
          ++ (element 0xA1 (0x18 ∷ 0x0F ∷ digits)
              ++ (last ∷ 0x5A ∷ tail this_update_ms next_update_ms))
  unfolding single_contents cert_status_bytes
  revoked-eq serial this_update_ms next_update_ms digits last size form =
      ap (λ x. element 0x30 (cert_id_contents lib serial) ++ (x ++ rest))
        (revoked_status-eq this_update_ms digits last size form)
      ∙ ap (λ t. element 0x30 (cert_id_contents lib serial) ++ t)
          (append_assoc (element 0xA1 (0x18 ∷ 0x0F ∷ digits)) (last ∷ 0x5A ∷ []) rest)
    where
      rest : List ℕ
      rest = tail this_update_ms next_update_ms

  -- A single response that is not revoked reads back as the four elements of RFC 6960: the
  -- certificate's identifier, the empty choice for its status, this update, and the next update in
  -- its wrapper.
  pub single_response-elements :
      (serial : String) (cert_status this_update_ms next_update_ms : ℕ)
      → cert_status ≢ 1
      → read_elements 4 (single_contents lib serial cert_status this_update_ms next_update_ms)
        ≡ some (
            (0x30, cert_id_contents lib serial)
            ∷ ((if cert_status == 0 then 0x80 else 0x82), [])
            ∷ (0x18, time_bytes lib this_update_ms)
            ∷ (0xA0, element 0x18 (time_bytes lib next_update_ms))
            ∷ [])
  unfolding single_contents cert_status_bytes
  single_response-elements serial cert_status this_update_ms next_update_ms h =
      ap (read_elements 4) contents-eq
      ∙ read_elements-pushes elements (id_size, (omega arith, (this_size, (next_size, tt))))
    where
      status : ℕ
      status = if cert_status == 0 then 0x80 else 0x82

      this : List ℕ
      this = time_bytes lib this_update_ms

      parts : List ℕ → List ℕ → List ℕ → List ℕ
      parts x y z = pushes (build_cert_id lib serial ∷ x ∷ y ∷ z ∷ [])

      next : List ℕ
      next = time_bytes lib next_update_ms

      elements : List (ℕ × List ℕ)
      elements =
          (0x30, cert_id_contents lib serial)
          ∷ ((if cert_status == 0 then 0x80 else 0x82), [])
          ∷ (0x18, time_bytes lib this_update_ms)
          ∷ (0xA0, element 0x18 next)
          ∷ []

      contents-eq :
          single_contents lib serial cert_status this_update_ms next_update_ms
          ≡ pushes (map written elements)
      contents-eq =
          ap (λ x. parts x (short_element 0x18 this) (wrapped 0xA0 0x18 next))
            (status-eq cert_status this_update_ms h)
          ∙ ap (λ y. parts (element status []) y (wrapped 0xA0 0x18 next))
              (short_element-eq 0x18 this (omega (arith, length-time_bytes this_update_ms)))
          ∙ ap (parts (element status []) (element 0x18 this))
              (wrapped-eq 0xA0 0x18 next (omega (arith, length-time_bytes next_update_ms)))

      id_size : length (cert_id_contents lib serial) < 2 ^ 16
      id_size = omega (arith, length-cert_id_contents serial)

      this_size : length (time_bytes lib this_update_ms) < 2 ^ 16
      this_size = omega (arith, length-time_bytes this_update_ms)

      next_size : length (element 0x18 next) < 2 ^ 16
      next_size = omega (
        arith,
        length-time_bytes next_update_ms,
        ap length (short_element-eq 0x18 next (omega (arith, length-time_bytes next_update_ms))),
      )

  -- For 32-byte digests and times of fifteen bytes, the single response of a revoked certificate cannot
  -- be read: the length of its status covers 15
  -- of the 17 bytes behind it, and the two that are left over begin no element that fits.
  pub revoked_response-unreadable :
      (n : ℕ) (serial : String) (this_update_ms next_update_ms : ℕ)
      → read_elements n (single_contents lib serial 1 this_update_ms next_update_ms) ≡ none
  revoked_response-unreadable n serial this_update_ms next_update_ms =
      let (digits, last, size, form) = standard.time_form this_update_ms in
      ap (read_elements n) (revoked-eq serial this_update_ms next_update_ms digits last size form)
      ∙ read_elements-left_over n (cert_id_contents lib serial) (0x18 ∷ 0x0F ∷ digits) last
          (tail this_update_ms next_update_ms) (omega (arith, length-cert_id_contents serial))
          (omega (arith, size)) (length-tail this_update_ms next_update_ms)
