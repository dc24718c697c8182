-- ===== src/Gpu/Numbers.antt =====
-- The protocol numbers of `BaselineGpuType`: read and written.
use cyan_flame_control_plane.Prelude.{◌≡◌, refl, ◌⊎◌, inr, arith, false}
use cyan_flame_control_plane.Prelude.Int.{ℤ, pos, negsuc}
use cyan_flame_control_plane.Gpu.{
  BaselineGpuType, unknown, nvidia_v100, nvidia_a100, nvidia_h100, nvidia_h200, nvidia_l40s,
  nvidia_a10, nvidia_a30, nvidia_a40, nvidia_tesla_t4, nvidia_rtx4090, nvidia_rtx4080,
  nvidia_rtx4070_ti, nvidia_rtx5090, nvidia_rtx5080, nvidia_rtx3090, nvidia_rtx3090_ti,
  nvidia_rtx3080, amd_mi100, amd_mi250, amd_mi300x, amd_mi325x, amd_rx7900_xtx, amd_rx7900_xt,
  to_proto, from_proto, is_supported,
}

from_proto-to_proto : (g : BaselineGpuType) → from_proto (to_proto g) ≡ g
unfolding from_proto to_proto
from_proto-to_proto unknown = refl
from_proto-to_proto nvidia_v100 = refl
from_proto-to_proto nvidia_a100 = refl
from_proto-to_proto nvidia_h100 = refl
from_proto-to_proto nvidia_h200 = refl
from_proto-to_proto nvidia_l40s = refl
from_proto-to_proto nvidia_a10 = refl
from_proto-to_proto nvidia_a30 = refl
from_proto-to_proto nvidia_a40 = refl
from_proto-to_proto nvidia_tesla_t4 = refl
from_proto-to_proto nvidia_rtx4090 = refl
from_proto-to_proto nvidia_rtx4080 = refl
from_proto-to_proto nvidia_rtx4070_ti = refl
from_proto-to_proto nvidia_rtx5090 = refl
from_proto-to_proto nvidia_rtx5080 = refl
from_proto-to_proto nvidia_rtx3090 = refl
from_proto-to_proto nvidia_rtx3090_ti = refl
from_proto-to_proto nvidia_rtx3080 = refl
from_proto-to_proto amd_mi100 = refl
from_proto-to_proto amd_mi250 = refl
from_proto-to_proto amd_mi300x = refl
from_proto-to_proto amd_mi325x = refl
from_proto-to_proto amd_rx7900_xtx = refl
from_proto-to_proto amd_rx7900_xt = refl

to_proto-from_proto :
    (v : ℤ) → (to_proto (from_proto v) ≡ v) ⊎ (is_supported (from_proto v) ≡ false)
unfolding from_proto to_proto is_supported
to_proto-from_proto (negsuc n) = inr refl
to_proto-from_proto (pos n) = ground arith

-- The protocol numbers and the GPU types correspond: every type is read back from its own number,
-- and every number is either the number of the type it is read as or read as an unsupported type.
proto_numbers :
    ((g : BaselineGpuType) → from_proto (to_proto g) ≡ g)
    × ((v : ℤ) → (to_proto (from_proto v) ≡ v) ⊎ (is_supported (from_proto v) ≡ false))
proto_numbers = (from_proto-to_proto, to_proto-from_proto)
