-- ===== src/Gpu/Target.antt =====
-- `TargetGpuType` and the names of the types, src/grpc/gpu_detection.rs.
use cyan_flame_control_plane.Prelude.{◌==◌, String, if◌then◌else◌}
use cyan_flame_control_plane.Prelude.Int.{ℤ, pos, negsuc}
use cyan_flame_control_plane.Gpu.{
  BaselineGpuType, unknown, nvidia_v100, nvidia_a100, nvidia_h100, nvidia_h200, nvidia_l40s,
  nvidia_a10, nvidia_a30, nvidia_a40, nvidia_tesla_t4, nvidia_rtx4090, nvidia_rtx4080,
  nvidia_rtx4070_ti, nvidia_rtx5090, nvidia_rtx5080, nvidia_rtx3090, nvidia_rtx3090_ti,
  nvidia_rtx3080, amd_mi100, amd_mi250, amd_mi300x, amd_mi325x, amd_rx7900_xtx, amd_rx7900_xt,
}

unfoldable pub name : BaselineGpuType → String
name unknown = "Unknown GPU"
name nvidia_v100 = "NVIDIA V100"
name nvidia_a100 = "NVIDIA A100"
name nvidia_h100 = "NVIDIA H100"
name nvidia_h200 = "NVIDIA H200"
name nvidia_l40s = "NVIDIA L40S"
name nvidia_a10 = "NVIDIA A10"
name nvidia_a30 = "NVIDIA A30"
name nvidia_a40 = "NVIDIA A40"
name nvidia_tesla_t4 = "NVIDIA Tesla T4"
name nvidia_rtx4090 = "NVIDIA RTX 4090"
name nvidia_rtx4080 = "NVIDIA RTX 4080"
name nvidia_rtx4070_ti = "NVIDIA RTX 4070 Ti"
name nvidia_rtx5090 = "NVIDIA RTX 5090"
name nvidia_rtx5080 = "NVIDIA RTX 5080"
name nvidia_rtx3090 = "NVIDIA RTX 3090"
name nvidia_rtx3090_ti = "NVIDIA RTX 3090 Ti"
name nvidia_rtx3080 = "NVIDIA RTX 3080"
name amd_mi100 = "AMD Instinct MI100"
name amd_mi250 = "AMD Instinct MI250"
name amd_mi300x = "AMD Instinct MI300X"
name amd_mi325x = "AMD Instinct MI325X"
name amd_rx7900_xtx = "AMD RX 7900 XTX"
name amd_rx7900_xt = "AMD RX 7900 XT"

pub data TargetGpuType : Type 0 where
  unknown_target : TargetGpuType
  target_h100 target_h200 target_mi300x target_a100 target_l40s : TargetGpuType
  custom : TargetGpuType

unfoldable pub target_from_proto : ℤ → TargetGpuType
target_from_proto (negsuc n) = unknown_target
target_from_proto (pos n) =
    if n == 1
    then target_h100
    else if n == 2
    then target_h200
    else if n == 3
    then target_mi300x
    else if n == 4
    then target_a100
    else if n == 5
    then target_l40s
    else if n == 99
    then custom
    else unknown_target

unfoldable pub target_to_proto : TargetGpuType → ℤ
target_to_proto unknown_target = pos 0
target_to_proto target_h100 = pos 1
target_to_proto target_h200 = pos 2
target_to_proto target_mi300x = pos 3
target_to_proto target_a100 = pos 4
target_to_proto target_l40s = pos 5
target_to_proto custom = pos 99

unfoldable pub target_name : TargetGpuType → String
target_name unknown_target = "Unknown Target"
target_name target_h100 = "NVIDIA H100 80GB HBM3"
target_name target_h200 = "NVIDIA H200 141GB HBM3e"
target_name target_mi300x = "AMD MI300X 192GB HBM3"
target_name target_a100 = "NVIDIA A100 80GB HBM2e"
target_name target_l40s = "NVIDIA L40S 48GB GDDR6"
target_name custom = "Custom Target"
