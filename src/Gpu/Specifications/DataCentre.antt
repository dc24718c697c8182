-- ===== src/Gpu/Specifications/DataCentre.antt =====
-- The specifications of the NVIDIA GPUs for data centres, src/grpc/gpu_detection.rs.
use cyan_flame_control_plane.Prelude.{true, false}
use cyan_flame_control_plane.Prelude.Floats.{Floats}
use cyan_flame_control_plane.Gpu.{
  nvidia_a10, nvidia_a100, nvidia_h100, nvidia_h200, nvidia_l40s, nvidia_tesla_t4, nvidia_v100,
}
use cyan_flame_control_plane.Gpu.Specifications.{GpuSpecifications}

module _ {F : Type 0} (fl : Floats F) where
  unfoldable pub h100 : GpuSpecifications F
  h100 = record {
    gpu_type = nvidia_h100;
    vendor = "NVIDIA";
    architecture = "Hopper";
    vram_gb = 80;
    memory_bandwidth_gbs = fl.literal "3350.0";
    fp16_tflops = fl.literal "989.0";
    fp32_tflops = fl.literal "67.0";
    tf32_tflops = fl.literal "495.0";
    fp8_tflops = fl.literal "1979.0";
    compute_capability = (9, 0);
    supports_fp8 = true;
    supports_sparsity = true;
    supports_nvlink = true;
  }

  unfoldable pub v100 : GpuSpecifications F
  v100 = record {
    gpu_type = nvidia_v100;
    vendor = "NVIDIA";
    architecture = "Volta";
    vram_gb = 32;
    memory_bandwidth_gbs = fl.literal "900.0";
    fp16_tflops = fl.literal "125.0";
    fp32_tflops = fl.literal "15.7";
    tf32_tflops = fl.literal "0.0";
    fp8_tflops = fl.literal "0.0";
    compute_capability = (7, 0);
    supports_fp8 = false;
    supports_sparsity = false;
    supports_nvlink = true;
  }

  unfoldable pub a100 : GpuSpecifications F
  a100 = record {
    gpu_type = nvidia_a100;
    vendor = "NVIDIA";
    architecture = "Ampere";
    vram_gb = 80;
    memory_bandwidth_gbs = fl.literal "2000.0";
    fp16_tflops = fl.literal "312.0";
    fp32_tflops = fl.literal "19.5";
    tf32_tflops = fl.literal "156.0";
    fp8_tflops = fl.literal "0.0";
    compute_capability = (8, 0);
    supports_fp8 = false;
    supports_sparsity = true;
    supports_nvlink = true;
  }

  unfoldable pub h200 : GpuSpecifications F
  h200 = record {
    gpu_type = nvidia_h200;
    vendor = "NVIDIA";
    architecture = "Hopper";
    vram_gb = 141;
    memory_bandwidth_gbs = fl.literal "4800.0";
    fp16_tflops = fl.literal "989.0";
    fp32_tflops = fl.literal "67.0";
    tf32_tflops = fl.literal "495.0";
    fp8_tflops = fl.literal "1979.0";
    compute_capability = (9, 0);
    supports_fp8 = true;
    supports_sparsity = true;
    supports_nvlink = true;
  }

  unfoldable pub l40s : GpuSpecifications F
  l40s = record {
    gpu_type = nvidia_l40s;
    vendor = "NVIDIA";
    architecture = "Ada";
    vram_gb = 48;
    memory_bandwidth_gbs = fl.literal "864.0";
    fp16_tflops = fl.literal "362.0";
    fp32_tflops = fl.literal "91.6";
    tf32_tflops = fl.literal "181.0";
    fp8_tflops = fl.literal "1466.0";
    compute_capability = (8, 9);
    supports_fp8 = true;
    supports_sparsity = false;
    supports_nvlink = false;
  }

  unfoldable pub tesla_t4 : GpuSpecifications F
  tesla_t4 = record {
    gpu_type = nvidia_tesla_t4;
    vendor = "NVIDIA";
    architecture = "Turing";
    vram_gb = 16;
    memory_bandwidth_gbs = fl.literal "300.0";
    fp16_tflops = fl.literal "65.0";
    fp32_tflops = fl.literal "8.1";
    tf32_tflops = fl.literal "0.0";
    fp8_tflops = fl.literal "0.0";
    compute_capability = (7, 5);
    supports_fp8 = false;
    supports_sparsity = false;
    supports_nvlink = false;
  }

  unfoldable pub a10 : GpuSpecifications F
  a10 = record {
    gpu_type = nvidia_a10;
    vendor = "NVIDIA";
    architecture = "Ampere";
    vram_gb = 24;
    memory_bandwidth_gbs = fl.literal "600.0";
    fp16_tflops = fl.literal "125.0";
    fp32_tflops = fl.literal "31.2";
    tf32_tflops = fl.literal "62.5";
    fp8_tflops = fl.literal "0.0";
    compute_capability = (8, 6);
    supports_fp8 = false;
    supports_sparsity = true;
    supports_nvlink = false;
  }
