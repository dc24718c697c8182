-- ===== src/Gpu/Specifications/Amd.antt =====
-- The specifications of the AMD accelerators, src/grpc/gpu_detection.rs.
use cyan_flame_control_plane.Prelude.{true, false}
use cyan_flame_control_plane.Prelude.Floats.{Floats}
use cyan_flame_control_plane.Gpu.{amd_mi100, amd_mi250, amd_mi300x, amd_mi325x}
use cyan_flame_control_plane.Gpu.Specifications.{GpuSpecifications}

module _ {F : Type 0} (fl : Floats F) where
  unfoldable pub mi100 : GpuSpecifications F
  mi100 = record {
    gpu_type = amd_mi100;
    vendor = "AMD";
    architecture = "CDNA1";
    vram_gb = 32;
    memory_bandwidth_gbs = fl.literal "1200.0";
    fp16_tflops = fl.literal "184.6";
    fp32_tflops = fl.literal "23.1";
    tf32_tflops = fl.literal "0.0";
    fp8_tflops = fl.literal "0.0";
    compute_capability = (0, 0);
    supports_fp8 = false;
    supports_sparsity = false;
    supports_nvlink = false;
  }

  unfoldable pub mi250 : GpuSpecifications F
  mi250 = record {
    gpu_type = amd_mi250;
    vendor = "AMD";
    architecture = "CDNA2";
    vram_gb = 128;
    memory_bandwidth_gbs = fl.literal "3200.0";
    fp16_tflops = fl.literal "383.0";
    fp32_tflops = fl.literal "47.9";
    tf32_tflops = fl.literal "0.0";
    fp8_tflops = fl.literal "0.0";
    compute_capability = (0, 0);
    supports_fp8 = false;
    supports_sparsity = true;
    supports_nvlink = false;
  }

  unfoldable pub mi300x : GpuSpecifications F
  mi300x = record {
    gpu_type = amd_mi300x;
    vendor = "AMD";
    architecture = "CDNA3";
    vram_gb = 192;
    memory_bandwidth_gbs = fl.literal "5300.0";
    fp16_tflops = fl.literal "1307.0";
    fp32_tflops = fl.literal "163.0";
    tf32_tflops = fl.literal "0.0";
    fp8_tflops = fl.literal "2615.0";
    compute_capability = (0, 0);
    supports_fp8 = true;
    supports_sparsity = true;
    supports_nvlink = false;
  }

  unfoldable pub mi325x : GpuSpecifications F
  mi325x = record {
    gpu_type = amd_mi325x;
    vendor = "AMD";
    architecture = "CDNA3+";
    vram_gb = 256;
    memory_bandwidth_gbs = fl.literal "6000.0";
    fp16_tflops = fl.literal "1500.0";
    fp32_tflops = fl.literal "187.5";
    tf32_tflops = fl.literal "0.0";
    fp8_tflops = fl.literal "3000.0";
    compute_capability = (0, 0);
    supports_fp8 = true;
    supports_sparsity = true;
    supports_nvlink = false;
  }
