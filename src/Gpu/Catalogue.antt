-- ===== src/Gpu/Catalogue.antt =====
-- `GpuSpecifications::from_type` and `all_supported`, src/grpc/gpu_detection.rs.
use cyan_flame_control_plane.Prelude.{List, [], ◌∷◌}
use cyan_flame_control_plane.Prelude.Floats.{Floats}
use cyan_flame_control_plane.Gpu.{
  BaselineGpuType, unknown, nvidia_v100, nvidia_a100, nvidia_h100, nvidia_h200, nvidia_l40s,
  nvidia_a10, nvidia_a30, nvidia_a40, nvidia_tesla_t4, nvidia_rtx4090, nvidia_rtx4080,
  nvidia_rtx4070_ti, nvidia_rtx5090, nvidia_rtx5080, nvidia_rtx3090, nvidia_rtx3090_ti,
  nvidia_rtx3080, amd_mi100, amd_mi250, amd_mi300x, amd_mi325x, amd_rx7900_xtx, amd_rx7900_xt,
}
use cyan_flame_control_plane.Gpu.Specifications.{GpuSpecifications}
use cyan_flame_control_plane.Gpu.Specifications.DataCentre.{
  h100, v100, a100, h200, l40s, tesla_t4, a10,
}
use cyan_flame_control_plane.Gpu.Specifications.Consumer.{
  rtx_4090, rtx_5090, rtx_4080, rtx_3090, rx_7900_xtx,
}
use cyan_flame_control_plane.Gpu.Specifications.Amd.{mi100, mi250, mi300x, mi325x}

module _ {F : Type 0} (fl : Floats F) where
  unfoldable pub from_type : BaselineGpuType → GpuSpecifications F
  unfolding h100 v100 a100 h200 l40s rtx_4090 rtx_5090 mi100 mi250 mi300x mi325x tesla_t4 a10
      rtx_4080 rtx_3090 rx_7900_xtx
  from_type nvidia_v100 = v100 fl
  from_type nvidia_a100 = a100 fl
  from_type nvidia_h100 = h100 fl
  from_type nvidia_h200 = h200 fl
  from_type nvidia_l40s = l40s fl
  from_type nvidia_a10 = a10 fl
  from_type nvidia_a30 = a10 fl
  from_type nvidia_a40 = a10 fl
  from_type nvidia_tesla_t4 = tesla_t4 fl
  from_type nvidia_rtx4090 = rtx_4090 fl
  from_type nvidia_rtx4080 = rtx_4080 fl
  from_type nvidia_rtx4070_ti = rtx_4080 fl
  from_type nvidia_rtx5090 = rtx_5090 fl
  from_type nvidia_rtx5080 = rtx_5090 fl
  from_type nvidia_rtx3090 = rtx_3090 fl
  from_type nvidia_rtx3090_ti = rtx_3090 fl
  from_type nvidia_rtx3080 = rtx_3090 fl
  from_type amd_mi100 = mi100 fl
  from_type amd_mi250 = mi250 fl
  from_type amd_mi300x = mi300x fl
  from_type amd_mi325x = mi325x fl
  from_type amd_rx7900_xtx = rx_7900_xtx fl
  from_type amd_rx7900_xt = rx_7900_xtx fl
  from_type unknown = h100 fl

  unfoldable pub all_supported : List (GpuSpecifications F)
  unfolding v100 a100 h100 h200 l40s rtx_4090 rtx_5090 mi100 mi250 mi300x
  all_supported =
      v100 fl
      ∷ a100 fl
      ∷ h100 fl
      ∷ h200 fl
      ∷ l40s fl
      ∷ rtx_4090 fl
      ∷ rtx_5090 fl
      ∷ mi100 fl
      ∷ mi250 fl
      ∷ mi300x fl
      ∷ []
