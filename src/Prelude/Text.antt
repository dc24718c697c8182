-- ===== src/Prelude/Text.antt =====
-- `str::as_bytes`: the bytes of a text's UTF-8.
use Prim.Native.Nat.{ℕ, ◌+◌, ◌/◌, ◌%◌}
use Prim.Native.Char.{code}
use Prim.Native.String.{String, [], ◌∷◌}
use mathlib.Core.List.{List, [] as []ᴸ, ◌∷◌ as ◌∷ᴸ◌, ◌++◌}
use cyan_flame_control_plane.Prelude.Tests.{ltb, if◌then◌else◌}

-- The continuation byte for the six bits of `n` above the power `p` of 2.
abbrev continuation : ℕ → ℕ → ℕ
continuation n p = 128 + (n / p) % 64

abbrev utf8 : ℕ → List ℕ
utf8 n =
    if ltb n 128
    then n ∷ᴸ []ᴸ
    else if ltb n 2048
    then (192 + n / 64) ∷ᴸ continuation n 1 ∷ᴸ []ᴸ
    else if ltb n 65536
    then (224 + n / 4096) ∷ᴸ continuation n 64 ∷ᴸ continuation n 1 ∷ᴸ []ᴸ
    else (240 + n / 262144) ∷ᴸ continuation n 4096 ∷ᴸ continuation n 64 ∷ᴸ continuation n 1 ∷ᴸ []ᴸ

unfoldable pub as_bytes : String → List ℕ
as_bytes [] = []ᴸ
as_bytes (c ∷ s) = utf8 (code c) ++ as_bytes s
