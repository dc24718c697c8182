-- ===== src/Tcam/Agreement.antt =====
-- The three phases implement longest prefix matching on routes of 17 to 32 bits.
use cyan_flame_control_plane.Prelude.{
  ℕ, ◌≤◌, ◌<◌, ◌^◌, ◌≡◌, refl, ap, subst, sym, ◌∙◌, arith, ◌⊎◌, inl, inr, Bool, true, false, ◌&&◌,
  Bool-cases, String, Option, none, some, List, [], ◌∷◌, map, All, get_elem?, ◌==◌,
}
use mathlib.Core.Path.{fun_ext}
use cyan_flame_control_plane.Prelude.Bits.{and_bits, and_bits-zero}
use cyan_flame_control_plane.Tcam.Prefix.{matches, high_bits, IsPrefix}
use cyan_flame_control_plane.Tcam.Prefix.Matching.{Agree, matches_iff}
use cyan_flame_control_plane.Tcam.Longest.{
  Listed-All, IsLongest, NoneFits, scan-Answers, IsLongest-map, NoneFits-map,
}
use cyan_flame_control_plane.Tcam.{Route, PhaseStrategy, with_strategy}
use cyan_flame_control_plane.Tcam.Ahgf as Phase1
use cyan_flame_control_plane.Tcam.Ahgf.{compress, compressed_matches, lookup_internal}
use cyan_flame_control_plane.Tcam.Ahgf.Search.{fits, size, lookup_internal-IsLongest}
use cyan_flame_control_plane.Tcam.Qagfhg.{RouteEntry, best_match}
use cyan_flame_control_plane.Tcam.Scrtt.{
  ScrttEngine, node_matches, has_hop, node_result, lookup_from_patricia, find,
}
use cyan_flame_control_plane.Tcam.Routes.{
  compressed, entry, node, IsLong, insert_all, inserted-Holds,
}

abbrev pub route_matches : ℕ → Route → Bool
route_matches ip r = matches r.prefix ip

abbrev pub route_len : Route → ℕ
route_len r = r.prefix.len

abbrev pub hop : Route → String × ℕ
hop r = (r.next_hop, r.metric)

-- The next hop and the metric of a longest matching route, or none where no route matches.
abbrev pub Finds : List Route → ℕ → Option (String × ℕ) → Type 0
Finds rs ip result =
    ((result ≡ none) × NoneFits (route_matches ip) route_len rs)
    ⊎ ((r : Route) × (result ≡ some (hop r)) × IsLongest (route_matches ip) route_len rs r)

abbrev pub hop1 : Option Phase1.LookupResult → Option (String × ℕ)
hop1 none = none
hop1 (some r) = some (r.next_hop, r.metric)

abbrev pub hop2 : Option RouteEntry → Option (String × ℕ)
hop2 none = none
hop2 (some r) = some (r.next_hop, r.metric)

pub phase1-Finds :
    (rs : List Route) (ip : ℕ) → Finds rs ip (hop1 (lookup_internal (map compressed rs) ip))
unfolding compressed_matches compress
phase1-Finds rs ip = elim (lookup_internal-IsLongest (map compressed rs) ip) [
  | inl (nothing, none_) ↦ inl (ap hop1 nothing, NoneFits-map compressed (fits ip) size rs none_)
  | inr (c, found, longest) ↦
      let (r, same, l) = IsLongest-map compressed (fits ip) size rs c longest in
      inr (r, ap hop1 found ∙ ap (λ c'. some (c'.next_hop, c'.metric)) (sym same), l)
]

pub phase2-Finds : (rs : List Route) (ip : ℕ) → Finds rs ip (hop2 (best_match (map entry rs) ip))
unfolding best_match
phase2-Finds rs ip =
    elim (scan-Answers (λ (r : RouteEntry). matches r.prefix ip) (λ r. r.prefix.len)
      (map entry rs)) [
        | inl (nothing, none_) ↦ inl (
          ap hop2 nothing,
          NoneFits-map entry (λ r. matches r.prefix ip) (λ r. r.prefix.len) rs none_,
        )
        | inr (c, found, longest) ↦
            let (r, same, l) =
              IsLongest-map entry (λ r. matches r.prefix ip) (λ r. r.prefix.len) rs c longest in
            inr (r, ap hop2 found ∙ ap (λ c'. some (c'.next_hop, c'.metric)) (sym same), l)
      ]

==-comm : (a b : ℕ) → (a == b) ≡ (b == a)
==-comm a b = ground arith

node_matches-eq :
    (ip : ℕ) (r : Route) → (node_matches ip (node r) && has_hop (node r)) ≡ route_matches ip r
unfolding node_matches matches
node_matches-eq ip r = elim (Bool-cases (r.prefix.len == 0)) [
  | inl all ↦ rw (all, and_bits-zero 32 ip, and_bits-zero 32 r.prefix.addr) refl
  | inr some_ ↦
      rw
        (
          some_,
          ==-comm (and_bits 32 ip (high_bits r.prefix.len))
              (and_bits 32 r.prefix.addr (high_bits r.prefix.len)),
        )
        (ground arith)
]

same_fits : (ip : ℕ) → (λ r. node_matches ip (node r) && has_hop (node r)) ≡ route_matches ip
same_fits ip = fun_ext (λ r. node_matches-eq ip r)

patricia-Finds : (rs : List Route) (ip : ℕ) → Finds rs ip (lookup_from_patricia (map node rs) ip)
unfolding lookup_from_patricia
patricia-Finds rs ip =
    elim (scan-Answers (λ n. node_matches ip n && has_hop n) (λ n. n.pattern_len) (map node rs)) [
      | inl (nothing, none_) ↦ inl (
        ap node_result nothing,
        subst (λ f. NoneFits f route_len rs) (same_fits ip)
            (NoneFits-map node (λ n. node_matches ip n && has_hop n) (λ n. n.pattern_len) rs none_),
      )
      | inr (n, found, longest) ↦
          let (r, same, l) =
            IsLongest-map node (λ n. node_matches ip n && has_hop n) (λ n. n.pattern_len) rs n
              longest in
          inr (
            r,
            ap node_result found ∙ ap (λ n'. node_result (some n')) (sym same),
            subst (λ f. IsLongest f route_len rs r) (same_fits ip) l,
          )
    ]

pub phase3-Finds :
    (e : ScrttEngine) (rs : List Route) (ip : ℕ)
    → ((i : ℕ) → e.radix_table i ≡ 0)
    → e.patricia_nodes ≡ map node rs
    → Finds rs ip (find e ip)
unfolding find
phase3-Finds e rs ip empty nodes = rw (empty, nodes) (patricia-Finds rs ip)

-- No two routes of the table with one network have different hops or metrics.
abbrev pub IsUnambiguous : List Route → Type 0
IsUnambiguous rs =
    (i j : ℕ) (a b : Route)
    → get_elem? rs i ≡ some a
    → get_elem? rs j ≡ some b
    → route_len a ≡ route_len b
    → Agree (route_len a) a.prefix.addr b.prefix.addr
    → hop a ≡ hop b

abbrev pub IsRoute : Route → Type 0
IsRoute r = IsPrefix r.prefix × IsLong r

All-IsLong : (rs : List Route) → All IsRoute rs → All IsLong rs
All-IsLong [] h = tt
All-IsLong (r ∷ rs) h = (h.0.1, All-IsLong rs h.1)

longest_unique :
    (rs : List Route) (ip : ℕ) (a b : Route)
    → All IsRoute rs
    → ip < 2 ^ 32
    → IsUnambiguous rs
    → IsLongest (route_matches ip) route_len rs a
    → IsLongest (route_matches ip) route_len rs b
    → hop a ≡ hop b
longest_unique rs ip a b valid word clear la lb =
    let (i, at_a) = la.listed in
    let (j, at_b) = lb.listed in
    let le_ab : route_len b ≤ route_len a =
      Listed-All (λ r. route_matches ip r ≡ true → route_len r ≤ route_len a) rs j b at_b la.longest
        lb.fitting in
    let le_ba : route_len a ≤ route_len b =
      Listed-All (λ r. route_matches ip r ≡ true → route_len r ≤ route_len b) rs i a at_a lb.longest
        la.fitting in
    let same : route_len a ≡ route_len b = omega arith in
    let pa : IsPrefix a.prefix = (Listed-All IsRoute rs i a at_a valid).0 in
    let pb : IsPrefix b.prefix = (Listed-All IsRoute rs j b at_b valid).0 in
    let on_a : Agree (route_len a) a.prefix.addr ip =
      (matches_iff a.prefix ip pa word).0 la.fitting in
    let on_b : Agree (route_len b) b.prefix.addr ip =
      (matches_iff b.prefix ip pb word).0 lb.fitting in
    let on_b' : Agree (route_len a) b.prefix.addr ip =
      subst (λ n. Agree n b.prefix.addr ip) (sym same) on_b in
    clear i j a b at_a at_b same (on_a ∙ sym on_b')

not_both :
    (rs : List Route) (ip : ℕ) (a : Route)
    → NoneFits (route_matches ip) route_len rs
    → IsLongest (route_matches ip) route_len rs a
    → ⊥
not_both rs ip a none_ l =
    let (i, at_a) = l.listed in
    let unfit = Listed-All (λ r. route_matches ip r ≡ false) rs i a at_a none_ in
    let fitting = l.fitting in absurd (cc)

-- Two answers for one table agree.
pub Finds-unique :
    (rs : List Route) (ip : ℕ) (x y : Option (String × ℕ))
    → All IsRoute rs
    → ip < 2 ^ 32
    → IsUnambiguous rs
    → Finds rs ip x
    → Finds rs ip y
    → x ≡ y
Finds-unique rs ip x y valid word clear (inl (ex, _)) (inl (ey, _)) = ex ∙ sym ey
Finds-unique rs ip x y valid word clear (inl (_, none_)) (inr (b, _, lb)) =
    absurd (not_both rs ip b none_ lb)
Finds-unique rs ip x y valid word clear (inr (a, _, la)) (inl (_, none_)) =
    absurd (not_both rs ip a none_ la)
Finds-unique rs ip x y valid word clear (inr (a, ex, la)) (inr (b, ey, lb)) =
    ex ∙ ap some (longest_unique rs ip a b valid word clear la lb) ∙ sym ey

-- On routes of 17 to 32 bits, of which no two with one network differ in their hop or metric, the
-- tables of all three phases give one answer for an address, whatever the order of the routes: the
-- hop and the metric of a longest matching route, or none where no route matches.
pub phases_agree :
    (s : PhaseStrategy) (rs : List Route) (ip : ℕ)
    → All IsRoute rs
    → ip < 2 ^ 32
    → IsUnambiguous rs
    → let e = insert_all (with_strategy s) rs in
      Finds rs ip (find e.phase3 ip)
      × (hop1 (lookup_internal e.phase1.routes ip) ≡ find e.phase3 ip)
      × (hop2 (best_match e.phase2.routes ip) ≡ find e.phase3 ip)
phases_agree s rs ip valid word clear =
    let h = (inserted-Holds s rs (All-IsLong rs valid)).0 in
    let e = insert_all (with_strategy s) rs in
    let three = phase3-Finds e.phase3 rs ip h.no_radix h.phase3 in
    (
      three,
      ap (λ t. hop1 (lookup_internal t ip)) h.phase1
          ∙ Finds-unique rs ip _ (find e.phase3 ip) valid word clear (phase1-Finds rs ip) three,
      ap (λ t. hop2 (best_match t ip)) h.phase2
          ∙ Finds-unique rs ip _ (find e.phase3 ip) valid word clear (phase2-Finds rs ip) three,
    )
