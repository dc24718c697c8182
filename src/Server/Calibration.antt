-- ===== src/Server/Calibration.antt =====
-- The calibration matrix of `GetCalibrationMatrix`, src/bin/control_plane_server.rs.
use cyan_flame_control_plane.Prelude.{
  ℕ, zero, suc, ◌+◌, ◌*◌, String, str_eq, Option, none, some, List, [], ◌∷◌, ◌++◌, if◌then◌else◌,
}
use cyan_flame_control_plane.Prelude.Floats.{Floats}

-- The compression ratio and the code of a tier by its name in lower case.
unfoldable pub calibration_tier : String → ℕ × ℕ
calibration_tier name =
    if str_eq name "none"
    then (1, 0)
    else if str_eq name "basic"
    then (10, 1)
    else if str_eq name "standard"
    then (100, 2)
    else if str_eq name "professional"
    then (1250, 3)
    else if str_eq name "enterprise"
    then (10000, 4)
    else (1250, 3)

abbrev pub tier_or_default : Option String → String
tier_or_default none = "professional"
tier_or_default (some t) = t

module _ {F : Type 0} where
  unfoldable pub matrix_value : Floats F → ℕ → ℕ → ℕ → F
  matrix_value fl ratio i j =
      let phase = fl.div (fl.mul (fl.mul fl.pi (fl.of_ℕ 2)) (fl.of_ℕ (i * j))) (fl.of_ℕ 64) in
      let cs_term =
        fl.mul (fl.sin (fl.mul (fl.of_ℕ (i + j)) (fl.literal "0.1"))) (fl.literal "0.1") in
      let base = fl.add (fl.cos phase) cs_term in
      let scaled = fl.mul base (fl.div (fl.of_ℕ ratio) (fl.of_ℕ 1250)) in
      fl.add (fl.of_ℕ 1) (fl.mul scaled (fl.literal "0.001"))

  -- The inner loop of row `i` from column `j` on, and the loop over the rows from `i` on.
  unfoldable pub matrix_row : Floats F → ℕ → ℕ → ℕ → ℕ → List F
  unfolding matrix_value
  matrix_row fl ratio zero i j = []
  matrix_row fl ratio (suc left) i j =
      matrix_value fl ratio i j ∷ matrix_row fl ratio left i (j + 1)

  unfoldable pub matrix_rows : Floats F → ℕ → ℕ → ℕ → List F
  unfolding matrix_row
  matrix_rows fl ratio zero i = []
  matrix_rows fl ratio (suc left) i =
      matrix_row fl ratio 64 i 0 ++ matrix_rows fl ratio left (i + 1)
