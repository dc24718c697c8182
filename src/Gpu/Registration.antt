-- ===== src/Gpu/Registration.antt =====
-- What `register_gpu` of src/grpc/gpu_detection.rs stores.
use cyan_flame_control_plane.Prelude.{
  ℕ, true, ◌≡◌, refl, subst, All, List, [], ◌∷◌, ◌++◌, ◌⊎◌, inl, inr, false, String, str_eq, Option,
  some, ok, err, if◌then◌else◌,
}
use cyan_flame_control_plane.Prelude.Dict.{lookup-insert}
use cyan_flame_control_plane.Prelude.Floats.{Floats}
use cyan_flame_control_plane.Gpu.{
  BaselineGpuType, unknown, nvidia_v100, nvidia_a100, nvidia_h100, nvidia_h200, nvidia_l40s,
  nvidia_a10, nvidia_a30, nvidia_a40, nvidia_tesla_t4, nvidia_rtx4090, nvidia_rtx4080,
  nvidia_rtx4070_ti, nvidia_rtx5090, nvidia_rtx5080, nvidia_rtx3090, nvidia_rtx3090_ti,
  nvidia_rtx3080, amd_mi100, amd_mi250, amd_mi300x, amd_mi325x, amd_rx7900_xtx, amd_rx7900_xt,
  is_supported,
}
use cyan_flame_control_plane.Gpu.Detection.{Misses, FirstHit, detect_loop-cases}
use cyan_flame_control_plane.Gpu.Catalogue.{from_type}
use cyan_flame_control_plane.Gpu.Tier.{tier_of}
use cyan_flame_control_plane.Gpu.Manager.{
  GpuRegistration, GpuDetectionManager, not_supported, detect_gpu_type, registration_of,
  register_gpu, get_registration,
}

-- The type behind a pattern is supported.
abbrev pub IsKnown : String × BaselineGpuType → Type 0
IsKnown p = is_supported p.1 ≡ true

known_inside :
    (before : List (String × BaselineGpuType)) (p : String × BaselineGpuType)
    (after : List (String × BaselineGpuType))
    → All IsKnown (before ++ p ∷ after)
    → IsKnown p
known_inside [] p after h = h.0
known_inside (q ∷ before) p after h = known_inside before p after h.1

found-IsKnown :
    {upper : String → String} {name : String} {patterns : List (String × BaselineGpuType)}
    (h : FirstHit upper name patterns)
    → All IsKnown patterns
    → IsKnown h.found
found-IsKnown h known = known_inside h.before h.found h.after (subst (All IsKnown) h.parts known)

module _ {F : Type 0} (fl : Floats F) where
  -- No type of the catalogue comes out with the pricing tier of an unsupported GPU.
  priced :
      (t : BaselineGpuType) → str_eq (tier_of fl (from_type fl t)).pricing_tier "blocked" ≡ false
  unfolding tier_of from_type
  priced unknown = refl
  priced nvidia_v100 = refl
  priced nvidia_a100 = refl
  priced nvidia_h100 = refl
  priced nvidia_h200 = refl
  priced nvidia_l40s = refl
  priced nvidia_a10 = refl
  priced nvidia_a30 = refl
  priced nvidia_a40 = refl
  priced nvidia_tesla_t4 = refl
  priced nvidia_rtx4090 = refl
  priced nvidia_rtx4080 = refl
  priced nvidia_rtx4070_ti = refl
  priced nvidia_rtx5090 = refl
  priced nvidia_rtx5080 = refl
  priced nvidia_rtx3090 = refl
  priced nvidia_rtx3090_ti = refl
  priced nvidia_rtx3080 = refl
  priced amd_mi100 = refl
  priced amd_mi250 = refl
  priced amd_mi300x = refl
  priced amd_mi325x = refl
  priced amd_rx7900_xtx = refl
  priced amd_rx7900_xt = refl

  -- With supported types behind all patterns: a registration of a name of which no pattern is a part is
  -- refused and changes nothing. Any other name has a first pattern, in the order of the iteration,
  -- that is a part of it; the registration stores for the agent alone what it returns, which has that
  -- pattern's type, its specifications and their tier, whose pricing is not that of unsupported GPUs.
  pub register_gpu-cases :
      (upper : String → String) (m : GpuDetectionManager F) (agent hash name : String)
      (fingerprint : Option String) (now : ℕ) (other : String)
      → All IsKnown m.gpu_patterns
      → (All (Misses upper (upper name)) m.gpu_patterns
          × (register_gpu upper fl m agent hash name fingerprint now
              ≡ (m, err (not_supported name))))
        ⊎ ((h : FirstHit upper (upper name) m.gpu_patterns) × (r : GpuRegistration F)
            × ((register_gpu upper fl m agent hash name fingerprint now).1 ≡ ok r)
            × (get_registration (register_gpu upper fl m agent hash name fingerprint now).0 other
                ≡ (if str_eq agent other then some r else get_registration m other))
            × (r.agent_id ≡ agent)
            × (r.detected_gpu ≡ h.found.1)
            × (is_supported h.found.1 ≡ true)
            × (r.gpu_specs ≡ from_type fl h.found.1)
            × (r.tier_config ≡ tier_of fl r.gpu_specs)
            × (str_eq r.tier_config.pricing_tier "blocked" ≡ false))
  unfolding register_gpu get_registration detect_gpu_type
  register_gpu-cases upper m agent hash name fingerprint now other known =
      elim (detect_loop-cases upper (upper name) m.gpu_patterns) [
        | inl (none_, e) ↦ inl (none_, rw e (unfold is_supported in refl))
        | inr (h, e) ↦
            let good : is_supported h.found.1 ≡ true = found-IsKnown h known in
            let r = registration_of upper fl agent hash h.found.1 fingerprint now in
            inr (
              h,
              r,
              rw (e, good) refl,
              rw (e, good) (lookup-insert agent other r m.registrations),
              refl,
              refl,
              good,
              refl,
              refl,
              priced h.found.1,
            )
      ]
