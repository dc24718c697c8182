-- ===== src/Prelude/Floats.antt =====
-- The operations on floats that the code uses. A type of floats is a parameter of what uses it.
use Prim.Native.Nat.{ℕ}
use Prim.Native.String.{String}
use mathlib.Core.Bool.{Bool}

pub record Floats (F : Type 0) : Type 0 where
  pub of_ℕ : ℕ → F
  -- The float that a literal such as `99.9` stands for.
  pub literal : String → F
  pub add : F → F → F
  pub sub : F → F → F
  pub mul : F → F → F
  pub div : F → F → F
  pub sin : F → F
  pub cos : F → F
  pub pi : F
  pub less : F → F → Bool
