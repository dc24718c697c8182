-- ===== src/Gpu/Tier.antt =====
-- `GpuTierConfig` and `AmplificationTargets` of src/grpc/gpu_detection.rs.
use cyan_flame_control_plane.Prelude.{
  ℕ, Bool, not, ◌||◌, String, str_eq, List, [], ◌∷◌, ◌++◌, ltb, if◌then◌else◌,
}
use cyan_flame_control_plane.Prelude.Floats.{Floats}
use cyan_flame_control_plane.Gpu.{
  BaselineGpuType, unknown, nvidia_v100, nvidia_a100, nvidia_h100, nvidia_h200, nvidia_l40s,
  nvidia_a10, nvidia_a30, nvidia_a40, nvidia_tesla_t4, nvidia_rtx4090, nvidia_rtx4080,
  nvidia_rtx4070_ti, nvidia_rtx5090, nvidia_rtx5080, nvidia_rtx3090, nvidia_rtx3090_ti,
  nvidia_rtx3080, amd_mi100, amd_mi250, amd_mi300x, amd_mi325x, amd_rx7900_xtx, amd_rx7900_xt,
}
use cyan_flame_control_plane.Gpu.Specifications.{GpuSpecifications}
use cyan_flame_control_plane.Gpu.Specifications.DataCentre.{h100}

pub record GpuTierConfig (F : Type 0) : Type 0 where
  pub tier_name : String
  pub memory_bandwidth_amplification : F
  pub effective_memory_multiplier : F
  pub tflops_amplification_target : F
  pub pricing_multiplier : F
  pub pricing_tier : String
  pub max_effective_memory_tb : ℕ
  pub max_concurrent_sessions : ℕ
  pub rate_limit_per_minute : ℕ
  pub optimization_strategies : List String

pub record AmplificationTargets (F : Type 0) : Type 0 where
  pub memory_bandwidth_multiplier : F
  pub current_bandwidth_gbs : F
  pub target_bandwidth_gbs : F
  pub tflops_multiplier : F
  pub current_fp16_tflops : F
  pub target_fp16_tflops : F
  pub current_vram_gb : ℕ
  pub target_vram_gb : ℕ
  pub vram_multiplier : F
  pub needs_fp8_emulation : Bool
  pub needs_sparsity_software : Bool
  pub has_nvlink : Bool

-- The strategies of an architecture.
unfoldable pub architecture_strategies : String → List String
architecture_strategies name =
    if str_eq name "Volta"
    then "aggressive_int8_quantization" ∷ "kernel_fusion" ∷ []
    else if str_eq name "Ampere"
    then "tf32_tensor_optimization" ∷ "tensorrt_llm_integration" ∷ []
    else if str_eq name "Hopper"
    then "transformer_engine_optimization" ∷ []
    else if str_eq name "Ada"
    then "dynamic_batching" ∷ "cuda_graph_optimization" ∷ []
    else if str_eq name "CDNA1" || str_eq name "CDNA2" || str_eq name "CDNA3"
    then "rocm_kernel_optimization" ∷ "hip_stream_parallelism" ∷ []
    else []

module _ {F : Type 0} (fl : Floats F) where
  -- Tier, pricing, the price, and the limits of memory, sessions and rate.
  unfoldable pub tier_row : BaselineGpuType → String × String × F × ℕ × ℕ × ℕ
  tier_row nvidia_v100 = ("legacy", "economy", fl.literal "0.5", 100, 5, 1000)
  tier_row nvidia_a100 = ("workhorse", "standard", fl.literal "1.0", 240, 20, 5000)
  tier_row nvidia_h100 = ("benchmark", "premium", fl.literal "1.5", 574, 100, 0)
  tier_row nvidia_h200 = ("ultra", "premium_plus", fl.literal "2.0", 800, 100, 0)
  tier_row nvidia_l40s = ("inference_pro", "standard", fl.literal "0.9", 200, 15, 3000)
  tier_row nvidia_a10 = ("inference_entry", "economy", fl.literal "0.6", 100, 10, 2000)
  tier_row nvidia_a30 = ("inference_entry", "economy", fl.literal "0.6", 100, 10, 2000)
  tier_row nvidia_a40 = ("inference_entry", "economy", fl.literal "0.6", 100, 10, 2000)
  tier_row nvidia_tesla_t4 = ("budget_inference", "economy", fl.literal "0.3", 40, 3, 500)
  tier_row nvidia_rtx4090 = ("consumer_pro", "economy", fl.literal "0.4", 50, 3, 500)
  tier_row nvidia_rtx4080 = ("consumer_mid", "economy", fl.literal "0.35", 40, 2, 400)
  tier_row nvidia_rtx4070_ti = ("consumer_mid", "economy", fl.literal "0.35", 40, 2, 400)
  tier_row nvidia_rtx5090 = ("consumer_premium", "standard", fl.literal "0.6", 80, 5, 1000)
  tier_row nvidia_rtx5080 = ("consumer_premium_mid", "economy", fl.literal "0.5", 60, 4, 800)
  tier_row nvidia_rtx3090 = ("consumer_legacy_pro", "economy", fl.literal "0.35", 50, 3, 500)
  tier_row nvidia_rtx3090_ti = ("consumer_legacy_pro", "economy", fl.literal "0.35", 50, 3, 500)
  tier_row nvidia_rtx3080 = ("consumer_legacy", "economy", fl.literal "0.3", 30, 2, 300)
  tier_row amd_mi100 = ("amd_legacy", "economy", fl.literal "0.4", 80, 5, 1000)
  tier_row amd_mi250 = ("amd_workhorse", "standard", fl.literal "0.8", 300, 20, 5000)
  tier_row amd_mi300x = ("amd_flagship", "premium", fl.literal "1.3", 500, 50, 0)
  tier_row amd_mi325x = ("amd_ultra", "premium_plus", fl.literal "1.5", 650, 75, 0)
  tier_row amd_rx7900_xtx = ("amd_consumer", "economy", fl.literal "0.35", 50, 3, 500)
  tier_row amd_rx7900_xt = ("amd_consumer", "economy", fl.literal "0.35", 50, 3, 500)
  tier_row unknown = ("unsupported", "blocked", fl.literal "0.0", 0, 0, 0)

  unfoldable pub get_optimization_strategies : GpuSpecifications F → List String
  unfolding architecture_strategies
  get_optimization_strategies specs =
      (if specs.supports_fp8 then "native_fp8_utilization" else "fp8_software_emulation")
      ∷ (if specs.supports_sparsity
          then "structured_sparsity_activation"
          else "software_sparsity_optimization")
      ∷ ((if fl.less specs.memory_bandwidth_gbs (fl.literal "1500.0")
            then "aggressive_memory_caching" ∷ "data_compression" ∷ []
            else [])
          ++ ((if ltb specs.vram_gb 48
                then "model_offloading" ∷ "ultra_low_bit_quantization" ∷ []
                else [])
              ++ architecture_strategies specs.architecture))

  unfoldable pub tier_of : GpuSpecifications F → GpuTierConfig F
  unfolding h100 tier_row get_optimization_strategies
  tier_of specs =
      let (tier_name, pricing_tier, pricing_mult, max_mem, max_sessions, rate_limit) =
        tier_row specs.gpu_type in
      record {
        tier_name = tier_name;
        memory_bandwidth_amplification =
            fl.div (h100 fl).memory_bandwidth_gbs specs.memory_bandwidth_gbs;
        effective_memory_multiplier =
            fl.div
              (fl.div (fl.mul (fl.of_ℕ specs.vram_gb) (fl.literal "24500.0")) (fl.literal "24.0"))
              (fl.literal "1024.0");
        tflops_amplification_target = fl.div (h100 fl).fp16_tflops specs.fp16_tflops;
        pricing_multiplier = pricing_mult;
        pricing_tier = pricing_tier;
        max_effective_memory_tb = max_mem;
        max_concurrent_sessions = max_sessions;
        rate_limit_per_minute = rate_limit;
        optimization_strategies = get_optimization_strategies specs;
      }

  unfoldable pub targets_of : GpuSpecifications F → AmplificationTargets F
  unfolding h100
  targets_of specs = record {
    memory_bandwidth_multiplier = fl.div (h100 fl).memory_bandwidth_gbs specs.memory_bandwidth_gbs;
    current_bandwidth_gbs = specs.memory_bandwidth_gbs;
    target_bandwidth_gbs = (h100 fl).memory_bandwidth_gbs;
    tflops_multiplier = fl.div (h100 fl).fp16_tflops specs.fp16_tflops;
    current_fp16_tflops = specs.fp16_tflops;
    target_fp16_tflops = (h100 fl).fp16_tflops;
    current_vram_gb = specs.vram_gb;
    target_vram_gb = (h100 fl).vram_gb;
    vram_multiplier = fl.div (fl.of_ℕ (h100 fl).vram_gb) (fl.of_ℕ specs.vram_gb);
    needs_fp8_emulation = not specs.supports_fp8;
    needs_sparsity_software = not specs.supports_sparsity;
    has_nvlink = specs.supports_nvlink;
  }
