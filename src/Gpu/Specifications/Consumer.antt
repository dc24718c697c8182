-- ===== src/Gpu/Specifications/Consumer.antt =====
-- The specifications of the GPUs for workstations, src/grpc/gpu_detection.rs.
use cyan_flame_control_plane.Prelude.{true, false}
use cyan_flame_control_plane.Prelude.Floats.{Floats}
use cyan_flame_control_plane.Gpu.{
  amd_rx7900_xtx, nvidia_rtx3090, nvidia_rtx4080, nvidia_rtx4090, nvidia_rtx5090,
}
use cyan_flame_control_plane.Gpu.Specifications.{GpuSpecifications}

module _ {F : Type 0} (fl : Floats F) where
  unfoldable pub rtx_4090 : GpuSpecifications F
  rtx_4090 = record {
    gpu_type = nvidia_rtx4090;
    vendor = "NVIDIA";
    architecture = "Ada";
    vram_gb = 24;
    memory_bandwidth_gbs = fl.literal "1008.0";
    fp16_tflops = fl.literal "330.0";
    fp32_tflops = fl.literal "82.6";
    tf32_tflops = fl.literal "165.0";
    fp8_tflops = fl.literal "660.0";
    compute_capability = (8, 9);
    supports_fp8 = true;
    supports_sparsity = false;
    supports_nvlink = false;
  }

  unfoldable pub rtx_5090 : GpuSpecifications F
  rtx_5090 = record {
    gpu_type = nvidia_rtx5090;
    vendor = "NVIDIA";
    architecture = "Blackwell";
    vram_gb = 32;
    memory_bandwidth_gbs = fl.literal "1792.0";
    fp16_tflops = fl.literal "838.0";
    fp32_tflops = fl.literal "104.8";
    tf32_tflops = fl.literal "419.0";
    fp8_tflops = fl.literal "1676.0";
    compute_capability = (10, 0);
    supports_fp8 = true;
    supports_sparsity = true;
    supports_nvlink = false;
  }

  unfoldable pub rtx_4080 : GpuSpecifications F
  rtx_4080 = record {
    gpu_type = nvidia_rtx4080;
    vendor = "NVIDIA";
    architecture = "Ada";
    vram_gb = 16;
    memory_bandwidth_gbs = fl.literal "717.0";
    fp16_tflops = fl.literal "242.0";
    fp32_tflops = fl.literal "48.7";
    tf32_tflops = fl.literal "121.0";
    fp8_tflops = fl.literal "484.0";
    compute_capability = (8, 9);
    supports_fp8 = true;
    supports_sparsity = false;
    supports_nvlink = false;
  }

  unfoldable pub rtx_3090 : GpuSpecifications F
  rtx_3090 = record {
    gpu_type = nvidia_rtx3090;
    vendor = "NVIDIA";
    architecture = "Ampere";
    vram_gb = 24;
    memory_bandwidth_gbs = fl.literal "936.0";
    fp16_tflops = fl.literal "142.0";
    fp32_tflops = fl.literal "35.6";
    tf32_tflops = fl.literal "71.0";
    fp8_tflops = fl.literal "0.0";
    compute_capability = (8, 6);
    supports_fp8 = false;
    supports_sparsity = true;
    supports_nvlink = true;
  }

  unfoldable pub rx_7900_xtx : GpuSpecifications F
  rx_7900_xtx = record {
    gpu_type = amd_rx7900_xtx;
    vendor = "AMD";
    architecture = "RDNA3";
    vram_gb = 24;
    memory_bandwidth_gbs = fl.literal "960.0";
    fp16_tflops = fl.literal "123.0";
    fp32_tflops = fl.literal "61.4";
    tf32_tflops = fl.literal "0.0";
    fp8_tflops = fl.literal "0.0";
    compute_capability = (0, 0);
    supports_fp8 = false;
    supports_sparsity = false;
    supports_nvlink = false;
  }
