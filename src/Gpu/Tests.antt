-- ===== src/Gpu/Tests.antt =====
-- Runs of the code of src/grpc/gpu_detection.rs.
use cyan_flame_control_plane.Prelude.{
  ℕ, ◌≡◌, refl, ◌⊎◌, All, true, false, String, str_eq, none, some, ok, err, if◌then◌else◌,
}
use cyan_flame_control_plane.Prelude.Floats.{Floats}
use cyan_flame_control_plane.Gpu.{is_supported, unknown, nvidia_l40s}
use cyan_flame_control_plane.Gpu.Manager.{
  GpuRegistration, GpuDetectionManager, not_supported, new, detect_gpu_type, register_gpu,
  get_registration,
}
use cyan_flame_control_plane.Gpu.Registration.{IsKnown, register_gpu-cases}
use cyan_flame_control_plane.Gpu.Detection.{Misses, FirstHit}
use cyan_flame_control_plane.Gpu.Catalogue.{from_type}
use cyan_flame_control_plane.Gpu.Tier.{tier_of}

-- Whole numbers stand for the floats.
abbrev whole : Floats ℕ
whole = record {
  of_ℕ = λ n. n;
  literal = λ s. 0;
  add = λ a b. a;
  sub = λ a b. a;
  mul = λ a b. a;
  div = λ a b. a;
  sin = λ a. a;
  cos = λ a. a;
  pi = 3;
  less = λ a b. false;
}

abbrev empty : GpuDetectionManager ℕ
empty = new

abbrev upper : String → String
upper s = s

detected :
    (detect_gpu_type upper empty "NVIDIA L40S" ≡ nvidia_l40s)
    × (detect_gpu_type upper empty "NVIDIA A10" ≡ unknown)
unfolding detect_gpu_type
detected = (refl, refl)

patterns-IsKnown : All IsKnown empty.gpu_patterns
unfolding is_supported
patterns-IsKnown = (
  refl,
  (
    refl,
    (
      refl,
      (
        refl,
        (
          refl,
          (
            refl,
            (
              refl,
              (
                refl,
                (
                  refl,
                  (
                    refl,
                    (refl, (refl, (refl, (refl, (refl, (refl, (refl, (refl, (refl, tt))))))))),
                  ),
                ),
              ),
            ),
          ),
        ),
      ),
    ),
  ),
)

register_gpu-cases_example :
    (All (Misses upper "NVIDIA L40S") empty.gpu_patterns
      × (register_gpu upper whole empty "a" "h" "NVIDIA L40S" none 7
          ≡ (empty, err (not_supported "NVIDIA L40S"))))
    ⊎ ((h : FirstHit upper "NVIDIA L40S" empty.gpu_patterns) × (r : GpuRegistration ℕ)
        × ((register_gpu upper whole empty "a" "h" "NVIDIA L40S" none 7).1 ≡ ok r)
        × (get_registration (register_gpu upper whole empty "a" "h" "NVIDIA L40S" none 7).0 "a"
            ≡ (if str_eq "a" "a" then some r else get_registration empty "a"))
        × (r.agent_id ≡ "a")
        × (r.detected_gpu ≡ h.found.1)
        × (is_supported h.found.1 ≡ true)
        × (r.gpu_specs ≡ from_type whole h.found.1)
        × (r.tier_config ≡ tier_of whole r.gpu_specs)
        × (str_eq r.tier_config.pricing_tier "blocked" ≡ false))
register_gpu-cases_example =
    register_gpu-cases whole upper empty "a" "h" "NVIDIA L40S" none 7 "a" patterns-IsKnown
