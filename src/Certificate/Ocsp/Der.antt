-- ===== src/Certificate/Ocsp/Der.antt =====
-- A reader of DER elements (X.690, definite lengths in their shortest form), against which the
-- elements that the OCSP builders write are checked.
use cyan_flame_control_plane.Prelude.{
  ℕ, zero, suc, ◌+◌, ◌*◌, ◌^◌, ◌<◌, ◌≡◌, refl, ap, All, ◌∙◌, arith, Option, none, some, List, [],
  ◌∷◌, ◌++◌, length, ltb, ◌==◌, if◌then◌else◌, lt→ltb,
}
use cyan_flame_control_plane.Certificate.Ocsp.{encode_length, element, short_element, pushes}
use mathlib.Core.Option
use mathlib.Core.List.{append_assoc, map}

abbrev one_byte : List ℕ → Option (ℕ × List ℕ)
one_byte [] = none
one_byte (x ∷ rest) = if ltb x 128 then none else some (x, rest)

abbrev two_bytes : List ℕ → Option (ℕ × List ℕ)
two_bytes [] = none
two_bytes (x ∷ []) = none
two_bytes (x ∷ y ∷ rest) = if ltb x 1 then none else some (x * 256 + y, rest)

-- A length, if it is written the shortest way, and the bytes behind it.
unfoldable read_length : List ℕ → Option (ℕ × List ℕ)
read_length [] = none
read_length (b ∷ rest) =
    if ltb b 128
    then some (b, rest)
    else if b == 0x81
    then one_byte rest
    else if b == 0x82
    then two_bytes rest
    else none

-- The first `n` bytes and the others, where there are so many.
unfoldable split : ℕ → List ℕ → Option (List ℕ × List ℕ)
split zero bs = some ([], bs)
split (suc n) [] = none
split (suc n) (b ∷ bs) = Option.map (λ p. (b ∷ p.0, p.1)) (split n bs)

abbrev read_contents : ℕ → Option (ℕ × List ℕ) → Option (ℕ × List ℕ × List ℕ)
read_contents tag none = none
read_contents tag (some (n, bs)) = Option.map (λ p. (tag, p.0, p.1)) (split n bs)

-- The tag and the contents of the first element, and the bytes behind it.
unfoldable pub read_element : List ℕ → Option (ℕ × List ℕ × List ℕ)
unfolding read_length split
read_element [] = none
read_element (tag ∷ bs) = read_contents tag (read_length bs)

abbrev and_then :
    Option (ℕ × List ℕ × List ℕ)
    → (List ℕ → Option (List (ℕ × List ℕ)))
    → Option (List (ℕ × List ℕ))
and_then none read = none
and_then (some (tag, contents, rest)) read = Option.map (λ es. (tag, contents) ∷ es) (read rest)

-- The elements that the bytes consist of; the fuel bounds their number.
unfoldable pub read_elements : ℕ → List ℕ → Option (List (ℕ × List ℕ))
read_elements n [] = some []
read_elements zero (b ∷ bs) = none
read_elements (suc n) (b ∷ bs) = and_then (read_element (b ∷ bs)) (read_elements n)

split-append : (xs ys : List ℕ) → split (length xs) (xs ++ ys) ≡ some (xs, ys)
unfolding split
split-append [] ys = refl
split-append (x ∷ xs) ys = rw (split-append xs ys) refl

split-short : (n : ℕ) (xs : List ℕ) → length xs < n → split n xs ≡ none
unfolding split
split-short zero xs h = absurd (omega arith)
split-short (suc n) [] h = refl
split-short (suc n) (x ∷ xs) h = let rest = split-short n xs (omega arith) in rw rest refl

read_length-encode_length :
    (n : ℕ) (bs : List ℕ) → n < 2 ^ 16 → read_length (encode_length n ++ bs) ≡ some (n, bs)
unfolding read_length encode_length
read_length-encode_length n bs h = ground arith

-- An element of less than 64 KiB is read back, whatever stands behind it.
pub read_element-element :
    (tag : ℕ) (contents rest : List ℕ)
    → length contents < 2 ^ 16
    → read_element (element tag contents ++ rest) ≡ some (tag, contents, rest)
unfolding read_element
read_element-element tag contents rest h =
    rw
      (
        append_assoc (encode_length (length contents)) contents rest,
        read_length-encode_length (length contents) (contents ++ rest) h,
        split-append contents rest,
      )
      refl

-- An element with a one-byte length of which less is there cannot be read.
pub read_element-short :
    (tag n : ℕ) (rest : List ℕ) → n < 128 → length rest < n → read_element (tag ∷ n ∷ rest) ≡ none
unfolding read_element read_length
read_element-short tag n rest small h = rw (lt→ltb n 128 small, split-short n rest h) refl

-- A one-byte length is the encoding where the contents are short.
pub short_element-eq :
    (tag : ℕ) (contents : List ℕ)
    → length contents < 128
    → short_element tag contents ≡ element tag contents
unfolding encode_length
short_element-eq tag contents h = rw (lt→ltb (length contents) 128 h) refl

read_elements-next :
    (n b : ℕ) (bs : List ℕ) (tag : ℕ) (contents rest : List ℕ)
    → read_element (b ∷ bs) ≡ some (tag, contents, rest)
    → read_elements (suc n) (b ∷ bs)
      ≡ Option.map (λ es. (tag, contents) ∷ es) (read_elements n rest)
unfolding read_elements
read_elements-next n b bs tag contents rest e = rw e refl

pub read_elements-element :
    (n tag : ℕ) (contents rest : List ℕ)
    → length contents < 2 ^ 16
    → read_elements (suc n) (element tag contents ++ rest)
      ≡ Option.map (λ es. (tag, contents) ∷ es) (read_elements n rest)
read_elements-element n tag contents rest h =
    read_elements-next n tag ((encode_length (length contents) ++ contents) ++ rest) tag contents
      rest (read_element-element tag contents rest h)

-- An element as the builders write it.
abbrev pub written : ℕ × List ℕ → List ℕ
written (tag, contents) = element tag contents

-- Elements of less than 64 KiB each that are pushed one after the other are read back.
pub read_elements-pushes :
    (es : List (ℕ × List ℕ))
    → All (λ e. length e.1 < 2 ^ 16) es
    → read_elements (length es) (pushes (map written es)) ≡ some es
unfolding read_elements
read_elements-pushes [] h = refl
read_elements-pushes ((tag, contents) ∷ es) h =
    read_elements-element (length es) tag contents (pushes (map written es)) h.0
    ∙ ap (Option.map (λ rest. (tag, contents) ∷ rest)) (read_elements-pushes es h.1)
