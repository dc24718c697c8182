-- ===== src/Gpu.antt =====
-- The enumerations of src/grpc/gpu_detection.rs and their protocol numbers, an `i32` each.
use cyan_flame_control_plane.Prelude.{ℕ, Bool, true, false, ◌==◌, if◌then◌else◌}
use cyan_flame_control_plane.Prelude.Int.{ℤ, pos, negsuc}
pub mod Numbers
pub mod Specifications
pub mod Catalogue
pub mod Target
pub mod Tier
pub mod Manager
pub mod Detection
pub mod Registration
mod Tests

pub data BaselineGpuType : Type 0 where
  unknown : BaselineGpuType
  nvidia_v100 nvidia_a100 nvidia_h100 nvidia_h200 nvidia_l40s : BaselineGpuType
  nvidia_a10 nvidia_a30 nvidia_a40 nvidia_tesla_t4 : BaselineGpuType
  nvidia_rtx4090 nvidia_rtx4080 nvidia_rtx4070_ti nvidia_rtx5090 nvidia_rtx5080 : BaselineGpuType
  nvidia_rtx3090 nvidia_rtx3090_ti nvidia_rtx3080 : BaselineGpuType
  amd_mi100 amd_mi250 amd_mi300x amd_mi325x amd_rx7900_xtx amd_rx7900_xt : BaselineGpuType

unfoldable pub to_proto : BaselineGpuType → ℤ
to_proto unknown = pos 0
to_proto nvidia_v100 = pos 1
to_proto nvidia_a100 = pos 2
to_proto nvidia_h100 = pos 3
to_proto nvidia_h200 = pos 4
to_proto nvidia_l40s = pos 5
to_proto nvidia_a10 = pos 6
to_proto nvidia_a30 = pos 7
to_proto nvidia_a40 = pos 8
to_proto nvidia_tesla_t4 = pos 9
to_proto nvidia_rtx4090 = pos 10
to_proto nvidia_rtx4080 = pos 11
to_proto nvidia_rtx4070_ti = pos 12
to_proto nvidia_rtx5090 = pos 13
to_proto nvidia_rtx5080 = pos 14
to_proto nvidia_rtx3090 = pos 15
to_proto nvidia_rtx3090_ti = pos 16
to_proto nvidia_rtx3080 = pos 17
to_proto amd_mi100 = pos 20
to_proto amd_mi250 = pos 21
to_proto amd_mi300x = pos 22
to_proto amd_mi325x = pos 23
to_proto amd_rx7900_xtx = pos 25
to_proto amd_rx7900_xt = pos 26

unfoldable pub from_proto : ℤ → BaselineGpuType
from_proto (negsuc n) = unknown
from_proto (pos n) =
    if n == 1
    then nvidia_v100
    else if n == 2
    then nvidia_a100
    else if n == 3
    then nvidia_h100
    else if n == 4
    then nvidia_h200
    else if n == 5
    then nvidia_l40s
    else if n == 6
    then nvidia_a10
    else if n == 7
    then nvidia_a30
    else if n == 8
    then nvidia_a40
    else if n == 9
    then nvidia_tesla_t4
    else if n == 10
    then nvidia_rtx4090
    else if n == 11
    then nvidia_rtx4080
    else if n == 12
    then nvidia_rtx4070_ti
    else if n == 13
    then nvidia_rtx5090
    else if n == 14
    then nvidia_rtx5080
    else if n == 15
    then nvidia_rtx3090
    else if n == 16
    then nvidia_rtx3090_ti
    else if n == 17
    then nvidia_rtx3080
    else if n == 20
    then amd_mi100
    else if n == 21
    then amd_mi250
    else if n == 22
    then amd_mi300x
    else if n == 23
    then amd_mi325x
    else if n == 25
    then amd_rx7900_xtx
    else if n == 26
    then amd_rx7900_xt
    else unknown

-- The number that `g as i32` gives: the place in the declaration.
unfoldable pub discriminant : BaselineGpuType → ℕ
discriminant unknown = 0
discriminant nvidia_v100 = 1
discriminant nvidia_a100 = 2
discriminant nvidia_h100 = 3
discriminant nvidia_h200 = 4
discriminant nvidia_l40s = 5
discriminant nvidia_a10 = 6
discriminant nvidia_a30 = 7
discriminant nvidia_a40 = 8
discriminant nvidia_tesla_t4 = 9
discriminant nvidia_rtx4090 = 10
discriminant nvidia_rtx4080 = 11
discriminant nvidia_rtx4070_ti = 12
discriminant nvidia_rtx5090 = 13
discriminant nvidia_rtx5080 = 14
discriminant nvidia_rtx3090 = 15
discriminant nvidia_rtx3090_ti = 16
discriminant nvidia_rtx3080 = 17
discriminant amd_mi100 = 18
discriminant amd_mi250 = 19
discriminant amd_mi300x = 20
discriminant amd_mi325x = 21
discriminant amd_rx7900_xtx = 22
discriminant amd_rx7900_xt = 23

unfoldable pub is_supported : BaselineGpuType → Bool
is_supported unknown = false
is_supported _ = true
