-- ===== src/Server/Json.antt =====
-- The JSON values of the responses. A float is of the parameter `F`; a text that `from_utf8_lossy`
-- makes of bytes stands as the bytes, and one that `format!` makes of a value as both of them.
use cyan_flame_control_plane.Prelude.{ℕ, Bool, String, List, [], ◌∷◌}
use cyan_flame_control_plane.Prelude.Int.{ℤ, pos}

mutual
  pub data Json (F : Type 0) : Type 0 where
    null : Json F
    bool : Bool → Json F
    int : ℤ → Json F
    float : F → Json F
    str : String → Json F
    lossy : List ℕ → Json F
    formatted : String → Json F → Json F
    array : Elements F → Json F
    object : Members F → Json F

  pub data Elements (F : Type 0) : Type 0 where
    stop : Elements F
    item : Json F → Elements F → Elements F

  pub data Members (F : Type 0) : Type 0 where
    end : Members F
    member : String → Json F → Members F → Members F

module _ {F : Type 0} where
  abbrev pub elements : List (Json F) → Elements F
  elements [] = stop
  elements (x ∷ xs) = item x (elements xs)

  abbrev pub members : List (String × Json F) → Members F
  members [] = end
  members ((k, v) ∷ rest) = member k v (members rest)

  abbrev pub json : List (String × Json F) → Json F
  json fields = object (members fields)

  abbrev pub nat : ℕ → Json F
  nat n = int (pos n)

  abbrev pub numbers : List ℕ → List (Json F)
  numbers [] = []
  numbers (n ∷ ns) = nat n ∷ numbers ns

  abbrev pub floats : List F → List (Json F)
  floats [] = []
  floats (x ∷ xs) = float x ∷ floats xs
