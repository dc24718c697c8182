-- ===== src/Gpu/Manager.antt =====
-- `GpuDetectionManager` of src/grpc/gpu_detection.rs. The order of the list of patterns stands for the
-- order of iteration of the HashMap, and `to_uppercase` is a parameter.
use cyan_flame_control_plane.Prelude.{
  ℕ, Bool, true, false, ◌&&◌, ◌||◌, ◌==◌, String, as_bytes, Option, none, some, List, [], ◌∷◌, map,
  Outcome, ok, err, if◌then◌else◌,
}
use cyan_flame_control_plane.Prelude.Dict.{Dict, lookup, insert}
use cyan_flame_control_plane.Prelude.Floats.{Floats}
use cyan_flame_control_plane.Gpu.{
  BaselineGpuType, unknown, nvidia_v100, nvidia_a100, nvidia_h100, nvidia_h200, nvidia_l40s,
  nvidia_rtx4090, nvidia_rtx5090, amd_mi100, amd_mi250, amd_mi300x, is_supported,
}
use cyan_flame_control_plane.Gpu.Specifications.{GpuSpecifications}
use cyan_flame_control_plane.Gpu.Catalogue.{from_type, all_supported}
use cyan_flame_control_plane.Gpu.Tier.{GpuTierConfig, AmplificationTargets, tier_of, targets_of}

pub record GpuRegistration (F : Type 0) : Type 0 where
  pub agent_id : String
  pub api_key_hash : String
  pub detected_gpu : BaselineGpuType
  pub gpu_specs : GpuSpecifications F
  pub tier_config : GpuTierConfig F
  pub amplification_targets : AmplificationTargets F
  pub certificate_fingerprint : Option String
  pub registered_at : ℕ
  pub last_seen : ℕ

pub record GpuDetectionManager (F : Type 0) : Type 0 where
  pub registrations : Dict (GpuRegistration F)
  pub gpu_patterns : List (String × BaselineGpuType)

abbrev pub patterns : List (String × BaselineGpuType)
patterns =
    ("V100", nvidia_v100)
    ∷ ("Tesla V100", nvidia_v100)
    ∷ ("A100", nvidia_a100)
    ∷ ("Tesla A100", nvidia_a100)
    ∷ ("H100", nvidia_h100)
    ∷ ("H200", nvidia_h200)
    ∷ ("L40S", nvidia_l40s)
    ∷ ("L40", nvidia_l40s)
    ∷ ("RTX 4090", nvidia_rtx4090)
    ∷ ("GeForce RTX 4090", nvidia_rtx4090)
    ∷ ("RTX 5090", nvidia_rtx5090)
    ∷ ("GeForce RTX 5090", nvidia_rtx5090)
    ∷ ("MI100", amd_mi100)
    ∷ ("Instinct MI100", amd_mi100)
    ∷ ("MI250", amd_mi250)
    ∷ ("MI250X", amd_mi250)
    ∷ ("Instinct MI250", amd_mi250)
    ∷ ("MI300X", amd_mi300x)
    ∷ ("Instinct MI300X", amd_mi300x)
    ∷ []

abbrev pub new : {F : Type 0} → GpuDetectionManager F
new = record { registrations = []; gpu_patterns = patterns }

abbrev is_prefix : List ℕ → List ℕ → Bool
is_prefix [] s = true
is_prefix (p ∷ ps) [] = false
is_prefix (p ∷ ps) (c ∷ s) = p == c && is_prefix ps s

abbrev has_part : List ℕ → List ℕ → Bool
has_part [] p = is_prefix p []
has_part (c ∷ s) p = is_prefix p (c ∷ s) || has_part s p

-- `str::contains`, on the bytes.
unfoldable pub contains : String → String → Bool
unfolding as_bytes
contains s part = has_part (as_bytes s) (as_bytes part)

-- The error is the name in the message.
pub data GpuError : Type 0 where
  not_supported : String → GpuError

module _ (to_uppercase : String → String) where
  -- The loop over the patterns.
  unfoldable pub detect_loop : String → List (String × BaselineGpuType) → BaselineGpuType
  unfolding contains
  detect_loop name_upper [] = unknown
  detect_loop name_upper ((pattern_, gpu_type) ∷ rest) =
      let later = detect_loop name_upper rest in
      if contains name_upper (to_uppercase pattern_) then gpu_type else later

  unfoldable pub detect_gpu_type : {F : Type 0} → GpuDetectionManager F → String → BaselineGpuType
  unfolding detect_loop
  detect_gpu_type m gpu_name = detect_loop (to_uppercase gpu_name) m.gpu_patterns

  module _ {F : Type 0} (fl : Floats F) where
    abbrev pub registration_of :
        String → String → BaselineGpuType → Option String → ℕ → GpuRegistration F
    registration_of agent_id api_key_hash gpu_type fingerprint now =
        let specs = from_type fl gpu_type in
        record {
          agent_id = agent_id;
          api_key_hash = api_key_hash;
          detected_gpu = gpu_type;
          gpu_specs = specs;
          tier_config = tier_of fl specs;
          amplification_targets = targets_of fl specs;
          certificate_fingerprint = fingerprint;
          registered_at = now;
          last_seen = now;
        }

    unfoldable pub register_gpu :
        GpuDetectionManager F
        → String
        → String
        → String
        → Option String
        → ℕ
        → GpuDetectionManager F × Outcome GpuError (GpuRegistration F)
    unfolding detect_gpu_type from_type tier_of targets_of is_supported
    register_gpu m agent_id api_key_hash gpu_name fingerprint now =
        let gpu_type = detect_gpu_type m gpu_name in
        let registration = registration_of agent_id api_key_hash gpu_type fingerprint now in
        if is_supported gpu_type
        then (
          record m { registrations = insert agent_id registration m.registrations },
          ok registration,
        )
        else (m, err (not_supported gpu_name))

unfoldable pub detect_from_compute_capability : ℕ → ℕ → Option BaselineGpuType
detect_from_compute_capability major minor =
    if major == 7 && minor == 0
    then some nvidia_v100
    else if major == 8 && minor == 0
    then some nvidia_a100
    else if major == 8 && minor == 9
    then some nvidia_rtx4090
    else if major == 9 && minor == 0
    then some nvidia_h100
    else if major == 10 && minor == 0
    then some nvidia_rtx5090
    else none

module _ {F : Type 0} where
  unfoldable pub get_registration : GpuDetectionManager F → String → Option (GpuRegistration F)
  unfolding lookup
  get_registration m agent_id = lookup agent_id m.registrations

  abbrev seen :
      GpuDetectionManager F → String → ℕ → Option (GpuRegistration F) → GpuDetectionManager F
  seen m agent_id now none = m
  seen m agent_id now (some r) = record m {
    registrations = insert agent_id (record r { last_seen = now }) m.registrations;
  }

  unfoldable pub update_last_seen : GpuDetectionManager F → String → ℕ → GpuDetectionManager F
  unfolding lookup insert
  update_last_seen m agent_id now = seen m agent_id now (lookup agent_id m.registrations)

  unfoldable pub get_all_registrations : GpuDetectionManager F → List (GpuRegistration F)
  get_all_registrations m = map (λ x. x.1) m.registrations

  unfoldable pub get_supported_gpus :
      Floats F → List (BaselineGpuType × GpuSpecifications F × GpuTierConfig F)
  unfolding all_supported tier_of
  get_supported_gpus fl =
      map (λ specs. (specs.gpu_type, specs, tier_of fl specs)) (all_supported fl)
