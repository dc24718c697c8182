-- ===== src/Prelude/Decimal.antt =====
-- Decimal numbers in texts, as `parse` of an unsigned integer reads them.
use Prim.Native.Nat.{ℕ, ◌+◌, ◌-◌, ◌*◌}
use mathlib.Core.Bool.{◌&&◌}
use mathlib.Core.Option.{Option, none, some}
use mathlib.Core.List.{List, [], ◌∷◌}
use cyan_flame_control_plane.Prelude.Tests.{ltb, leb, ◌==◌, if◌then◌else◌}

-- The value of decimal digits, from `acc` on.
unfoldable pub parse_digits : ℕ → List ℕ → Option ℕ
parse_digits acc [] = some acc
parse_digits acc (b ∷ bs) =
    let rest = parse_digits (acc * 10 + (b - 48)) bs in if leb 48 b && leb b 57 then rest else none

abbrev below : ℕ → Option ℕ → Option ℕ
below bound none = none
below bound (some n) = if ltb n bound then some n else none

abbrev unsigned_digits : ℕ → List ℕ → Option ℕ
unsigned_digits bound [] = none
unsigned_digits bound (b ∷ bs) = below bound (parse_digits 0 (b ∷ bs))

-- `parse` of an unsigned integer type with the given bound: one plus sign may stand in front.
unfoldable pub parse_unsigned : ℕ → List ℕ → Option ℕ
unfolding parse_digits
parse_unsigned bound [] = none
parse_unsigned bound (b ∷ bs) =
    if b == 43 then unsigned_digits bound bs else unsigned_digits bound (b ∷ bs)

abbrev prepend : ℕ → List (List ℕ) → List (List ℕ)
prepend b [] = (b ∷ []) ∷ []
prepend b (p ∷ ps) = (b ∷ p) ∷ ps

-- The parts of a text between the separators.
unfoldable pub split_at : ℕ → List ℕ → List (List ℕ)
split_at sep [] = [] ∷ []
split_at sep (b ∷ bs) = let rest = split_at sep bs in if b == sep then [] ∷ rest else prepend b rest
