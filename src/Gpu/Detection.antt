-- ===== src/Gpu/Detection.antt =====
-- The search of `detect_gpu_type`, src/grpc/gpu_detection.rs, for a pattern in a name.
use cyan_flame_control_plane.Prelude.{
  ◌≡◌, refl, ap, ◌⊎◌, inl, inr, Bool-cases, true, false, String, List, [], ◌∷◌, ◌++◌, All,
}
use cyan_flame_control_plane.Gpu.{BaselineGpuType, unknown}
use cyan_flame_control_plane.Gpu.Manager.{contains, detect_loop}

-- The upper case of a pattern is, and is not, a part of a name in upper case.
abbrev pub Hits : (String → String) → String → String × BaselineGpuType → Type 0
Hits upper name p = contains name (upper p.0) ≡ true

abbrev pub Misses : (String → String) → String → String × BaselineGpuType → Type 0
Misses upper name p = contains name (upper p.0) ≡ false

-- The first pattern, in the order of the iteration, that is a part of the name.
pub record FirstHit (upper : String → String) (name : String)
    (patterns : List (String × BaselineGpuType)) : Type 0 where
  pub before : List (String × BaselineGpuType)
  pub found : String × BaselineGpuType
  pub after : List (String × BaselineGpuType)
  pub parts : patterns ≡ before ++ found ∷ after
  pub misses : All (Misses upper name) before
  pub hits : Hits upper name found

abbrev later :
    {upper : String → String} {name : String} {rest : List (String × BaselineGpuType)}
    (p : String × BaselineGpuType)
    → Misses upper name p
    → FirstHit upper name rest
    → FirstHit upper name (p ∷ rest)
later p miss h = record {
  before = p ∷ h.before;
  found = h.found;
  after = h.after;
  parts = ap (λ ps. p ∷ ps) h.parts;
  misses = (miss, h.misses);
  hits = h.hits;
}

pub detect_loop-cases :
    (upper : String → String) (name : String) (patterns : List (String × BaselineGpuType))
    → (All (Misses upper name) patterns × (detect_loop upper name patterns ≡ unknown))
      ⊎ ((h : FirstHit upper name patterns) × (detect_loop upper name patterns ≡ h.found.1))
unfolding detect_loop
detect_loop-cases upper name [] = inl (tt, refl)
detect_loop-cases upper name ((pattern_, gpu_type) ∷ rest) =
    elim (Bool-cases (contains name (upper pattern_))) [
      | inl hit ↦ inr (
        record {
          before = [];
          found = (pattern_, gpu_type);
          after = rest;
          parts = refl;
          misses = tt;
          hits = hit;
        },
        rw hit refl,
      )
      | inr miss ↦ elim (detect_loop-cases upper name rest) [
        | inl (none_, e) ↦ inl ((miss, none_), rw miss e)
        | inr (h, e) ↦ inr (later (pattern_, gpu_type) miss h, rw miss e)
      ]
    ]
