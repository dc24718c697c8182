-- ===== src/Tcam/Prefix.antt =====
-- `Prefix` of uao-qtcam/src/phase1/mod.rs. `u32` words are numbers, and `&` is taken bit by bit.
pub mod Matching
use cyan_flame_control_plane.Prelude.{
  ℕ, zero, suc, ◌+◌, ◌-◌, ◌*◌, ◌/◌, ◌%◌, ◌^◌, ◌≤◌, ◌<◌, Bool, true, false, ◌&&◌, ◌||◌, not, String,
  as_bytes, Option, none, some, List, [], ◌∷◌, length, ltb, leb, ◌==◌, if◌then◌else◌, Outcome, ok,
  err, panic,
}
use cyan_flame_control_plane.Prelude.Bits.{and_bits}
use cyan_flame_control_plane.Prelude.Decimal.{parse_digits, parse_unsigned, split_at}

pub record Prefix : Type 0 where
  pub addr : ℕ
  pub len : ℕ

pub data PrefixError : Type 0 where
  invalid_cidr_format : String → PrefixError
  invalid_address : PrefixError
  invalid_number : PrefixError
  invalid_prefix_length : ℕ → PrefixError

abbrev leading_zero : List ℕ → Bool
leading_zero (c ∷ d ∷ ds) = c == 48
leading_zero ds = false

abbrev octet_value : Option ℕ → Option ℕ
octet_value none = none
octet_value (some n) = if ltb n 256 then some n else none

-- One part of an address: one to three digits without a leading zero.
unfoldable pub parse_octet : List ℕ → Option ℕ
unfolding parse_digits
parse_octet [] = none
parse_octet (b ∷ bs) =
    if ltb 3 (length (b ∷ bs)) || leading_zero (b ∷ bs)
    then none
    else octet_value (parse_digits 0 (b ∷ bs))

abbrev address : Option ℕ → Option ℕ → Option ℕ → Option ℕ → Option ℕ
address (some a) (some b) (some c) (some d) = some (a * 2 ^ 24 + b * 2 ^ 16 + c * 2 ^ 8 + d)
address _ _ _ _ = none

abbrev address_of_parts : List (List ℕ) → Option ℕ
address_of_parts (a ∷ b ∷ c ∷ d ∷ []) =
    address (parse_octet a) (parse_octet b) (parse_octet c) (parse_octet d)
address_of_parts parts = none

-- `parse` of an `Ipv4Addr`, as a `u32`.
unfoldable pub parse_ipv4 : List ℕ → Option ℕ
unfolding parse_octet split_at
parse_ipv4 text = address_of_parts (split_at 46 text)

-- `Prefix::new`.
unfoldable pub new : ℕ → ℕ → Outcome PrefixError Prefix
new addr len =
    if ltb 32 len then err (invalid_prefix_length len) else ok (record { addr = addr; len = len })

abbrev with_len : ℕ → Option ℕ → Outcome PrefixError Prefix
with_len addr none = err invalid_number
with_len addr (some len) =
    if ltb 32 len then err (invalid_prefix_length len) else ok (record { addr = addr; len = len })

abbrev from_parts : String → List (List ℕ) → Outcome PrefixError Prefix
from_parts cidr (a ∷ b ∷ []) = elim (parse_ipv4 a) [
  | none ↦ err invalid_address
  | some addr ↦ with_len addr (parse_unsigned 256 b)
]
from_parts cidr parts = err (invalid_cidr_format cidr)

unfoldable pub from_cidr : String → Outcome PrefixError Prefix
unfolding parse_ipv4 parse_unsigned split_at
from_cidr cidr = from_parts cidr (split_at 47 (as_bytes cidr))

-- `!0u32 << (32 - len)`, where a length above 32 wraps the difference and the shift.
unfoldable pub high_bits : ℕ → ℕ
high_bits len = (2 ^ 32 - 1) * 2 ^ ((288 - len) % 256 % 32) % 2 ^ 32

unfoldable pub mask : Prefix → ℕ
unfolding high_bits
mask p = if p.len == 0 then 0 else high_bits p.len

unfoldable pub matches : Prefix → ℕ → Bool
unfolding high_bits and_bits
matches p ip =
    if p.len == 0
    then true
    else and_bits 32 p.addr (high_bits p.len) == and_bits 32 ip (high_bits p.len)

abbrev pub IsPrefix : Prefix → Type 0
IsPrefix p = (p.addr < 2 ^ 32) × (p.len ≤ 32)
