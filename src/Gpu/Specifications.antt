-- ===== src/Gpu/Specifications.antt =====
-- `GpuSpecifications` of src/grpc/gpu_detection.rs.
pub mod DataCentre
pub mod Consumer
pub mod Amd
use cyan_flame_control_plane.Prelude.{ℕ, Bool, String}
use cyan_flame_control_plane.Gpu.{BaselineGpuType}

pub record GpuSpecifications (F : Type 0) : Type 0 where
  pub gpu_type : BaselineGpuType
  pub vendor : String
  pub architecture : String
  pub vram_gb : ℕ
  pub memory_bandwidth_gbs : F
  pub fp16_tflops : F
  pub fp32_tflops : F
  pub tf32_tflops : F
  pub fp8_tflops : F
  pub compute_capability : ℕ × ℕ
  pub supports_fp8 : Bool
  pub supports_sparsity : Bool
  pub supports_nvlink : Bool
