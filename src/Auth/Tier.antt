-- ===== src/Auth/Tier.antt =====
-- `TierConfig` of src/grpc/auth.rs.
use Prim.Native.Char.{code}
use cyan_flame_control_plane.Prelude.{
  ℕ, ◌+◌, Bool, true, false, ◌&&◌, String, List, [], ◌∷◌, map, ◌==◌, leb, if◌then◌else◌,
}

pub record TierConfig : Type 0 where
  pub name : String
  pub amplification_factor : ℕ
  pub max_allocation_tb : ℕ
  pub rate_limit : ℕ
  pub max_concurrent_allocations : ℕ
  pub priority : ℕ

abbrev pub free : TierConfig
free = record {
  name = "free";
  amplification_factor = 100;
  max_allocation_tb = 2;
  rate_limit = 100;
  max_concurrent_allocations = 1;
  priority = 1;
}

abbrev pub starter : TierConfig
starter = record {
  name = "starter";
  amplification_factor = 1000;
  max_allocation_tb = 24;
  rate_limit = 1000;
  max_concurrent_allocations = 5;
  priority = 2;
}

abbrev pub pro : TierConfig
pro = record {
  name = "pro";
  amplification_factor = 10000;
  max_allocation_tb = 240;
  rate_limit = 10000;
  max_concurrent_allocations = 20;
  priority = 3;
}

abbrev pub enterprise : TierConfig
enterprise = record {
  name = "enterprise";
  amplification_factor = 24500;
  max_allocation_tb = 574;
  rate_limit = 0;
  max_concurrent_allocations = 100;
  priority = 4;
}

abbrev pub codes : String → List ℕ
codes String.[] = []
codes (String.◌∷◌ c s) = code c ∷ codes s

abbrev pub lower : ℕ → ℕ
lower c = if leb b'A' c && leb c b'Z' then c + 32 else c

abbrev pub same_codes : List ℕ → List ℕ → Bool
same_codes [] [] = true
same_codes [] (y ∷ ys) = false
same_codes (x ∷ xs) [] = false
same_codes (x ∷ xs) (y ∷ ys) = x == y && same_codes xs ys

-- `to_lowercase` followed by a comparison with an ASCII name. No character outside ASCII has a
-- lower case that is a part of one of the four names, so the ASCII letters decide.
unfoldable pub lowers_to : String → String → Bool
lowers_to s name = same_codes (map lower (codes s)) (codes name)

unfoldable pub from_name : String → TierConfig
unfolding lowers_to
from_name s =
    if lowers_to s "free"
    then free
    else if lowers_to s "starter"
    then starter
    else if lowers_to s "pro"
    then pro
    else if lowers_to s "enterprise"
    then enterprise
    else free
