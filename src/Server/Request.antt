-- ===== src/Server/Request.antt =====
-- How `handle_http_request` of src/bin/control_plane_server.rs reads a request. A request is the list
-- of its code points, and a literal in ASCII is its bytes.
use cyan_flame_control_plane.Prelude.{
  ℕ, Bool, true, false, ◌&&◌, ◌||◌, String, as_bytes, Option, none, some, List, [], ◌∷◌, leb, ◌==◌,
  if◌then◌else◌,
}

-- The text behind a prefix.
unfoldable pub strip : List ℕ → List ℕ → Option (List ℕ)
strip [] s = some s
strip (p ∷ ps) [] = none
strip (p ∷ ps) (c ∷ s) = let rest = strip ps s in if p == c then rest else none

abbrev behind_char : ℕ → Option (List ℕ × List ℕ) → Option (List ℕ × List ℕ)
behind_char c none = none
behind_char c (some (before, rest)) = some (c ∷ before, rest)

abbrev or_later : Option (List ℕ) → Option (List ℕ × List ℕ) → Option (List ℕ × List ℕ)
or_later none later = later
or_later (some rest) later = some ([], rest)

-- The texts before and behind the first place of a separator.
unfoldable pub split_once : List ℕ → List ℕ → Option (List ℕ × List ℕ)
unfolding strip
split_once sep [] = or_later (strip sep []) none
split_once sep (c ∷ s) = or_later (strip sep (c ∷ s)) (behind_char c (split_once sep s))

abbrev pub without_return : List ℕ → List ℕ
without_return [] = []
without_return (c ∷ []) = if c == 13 then [] else c ∷ []
without_return (c ∷ d ∷ s) = c ∷ without_return (d ∷ s)

abbrev line_of : List ℕ → Option (List ℕ × List ℕ) → List ℕ
line_of s none = s
line_of s (some (line, rest)) = without_return line

-- `lines().next()`.
unfoldable pub first_line : List ℕ → Option (List ℕ)
unfolding split_once
first_line [] = none
first_line (c ∷ s) = some (line_of (c ∷ s) (split_once (10 ∷ []) (c ∷ s)))

-- `char::is_whitespace`.
unfoldable pub is_whitespace : ℕ → Bool
is_whitespace c =
    (leb 9 c && leb c 13)
    || (c == 32)
    || (c == 133)
    || (c == 160)
    || (c == 5760)
    || (leb 8192 c && leb c 8202)
    || (c == 8232)
    || (c == 8233)
    || (c == 8239)
    || (c == 8287)
    || (c == 12288)

abbrev with_word : List ℕ → List (List ℕ) → List (List ℕ)
with_word [] words = words
with_word (c ∷ word) words = (c ∷ word) ∷ words

-- The word that a text goes on with, and the words behind it.
unfoldable pub word_pieces : List ℕ → List ℕ × List (List ℕ)
unfolding is_whitespace
word_pieces [] = ([], [])
word_pieces (c ∷ s) =
    let (word, words) = word_pieces s in
    if is_whitespace c then ([], with_word word words) else (c ∷ word, words)

unfoldable pub split_whitespace : List ℕ → List (List ℕ)
unfolding word_pieces
split_whitespace s = let (word, words) = word_pieces s in with_word word words

abbrev pub second {ℓ} : {A : Type ℓ} → List A → Option A
second [] = none
second (a ∷ []) = none
second (a ∷ b ∷ rest) = some b

abbrev path_in : Option (List ℕ) → Option (List ℕ)
path_in none = none
path_in (some line) = second (split_whitespace line)

abbrev or_root : Option (List ℕ) → List ℕ
or_root none = as_bytes "/"
or_root (some path) = path

unfoldable pub path_of : List ℕ → List ℕ
unfolding first_line split_whitespace as_bytes
path_of request = or_root (path_in (first_line request))

abbrev blank_line : List ℕ
blank_line = 13 ∷ 10 ∷ 13 ∷ 10 ∷ []

abbrev first_piece : List ℕ → Option (List ℕ × List ℕ) → List ℕ
first_piece s none = s
first_piece s (some (piece, rest)) = piece

abbrev second_piece : Option (List ℕ × List ℕ) → List ℕ
second_piece none = []
second_piece (some (piece, rest)) = first_piece rest (split_once blank_line rest)

-- `split("\r\n\r\n").nth(1).unwrap_or("")`.
unfoldable pub body_of : List ℕ → List ℕ
unfolding split_once
body_of request = second_piece (split_once blank_line request)

unfoldable pub list_eq : List ℕ → List ℕ → Bool
list_eq [] [] = true
list_eq [] (d ∷ ds) = false
list_eq (c ∷ cs) [] = false
list_eq (c ∷ cs) (d ∷ ds) = c == d && list_eq cs ds

unfoldable pub is_path : List ℕ → String → Bool
unfolding list_eq as_bytes
is_path path s = list_eq path (as_bytes s)
