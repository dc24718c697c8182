-- ===== src/Tcam/Routes.antt =====
-- The tables after a history of inserted routes.
use cyan_flame_control_plane.Prelude.{
  ℕ, ◌≤◌, ◌<◌, ◌≡◌, refl, ap, subst, sym, ◌∙◌, arith, false, List, [], ◌∷◌, ◌++◌, map, length, All,
  leb, le→ltb, ok,
}
use mathlib.Core.List.{append-nil}
use cyan_flame_control_plane.Tcam.{
  TcamEngine, Route, PhaseStrategy, with_strategy, insert, insert_rest,
}
use cyan_flame_control_plane.Tcam.Ahgf as Phase1
use cyan_flame_control_plane.Tcam.Ahgf.{CompressedRoute, compress}
use cyan_flame_control_plane.Tcam.Qagfhg as Phase2
use cyan_flame_control_plane.Tcam.Qagfhg.{RouteEntry, QagfhgEngine}
use cyan_flame_control_plane.Tcam.Scrtt as Phase3
use cyan_flame_control_plane.Tcam.Scrtt.{
  ScrttEngine, with_section, PatriciaNode, insert_into_hybrid_trie, node_of,
}

-- The engine after the routes, which are inserted one after the other.
unfoldable pub insert_all : TcamEngine → List Route → TcamEngine
insert_all e [] = e
insert_all e (r ∷ rs) = insert_all (insert e r).0 rs

abbrev pub compressed : Route → CompressedRoute
compressed r = record {
  compressed_prefix = compress r.prefix;
  next_hop = r.next_hop;
  metric = r.metric;
}

abbrev pub entry : Route → RouteEntry
entry r = record { prefix = r.prefix; next_hop = r.next_hop; metric = r.metric }

abbrev pub node : Route → PatriciaNode
node r = node_of r.prefix r.next_hop r.metric

-- A route of 17 to 32 bits, which the third phase keeps as a node.
abbrev pub IsLong : Route → Type 0
IsLong r = (16 < r.prefix.len) × (r.prefix.len ≤ 32)

ltb-leb : (n : ℕ) → 16 < n → leb n 16 ≡ false
ltb-leb n h = ground arith

phase2-long :
    (q : QagfhgEngine) (r : Route)
    → r.prefix.len ≤ 32
    → Phase2.insert q r.prefix r.next_hop r.metric ≡ (
      record q {
        routes = q.routes ++ (entry r ∷ []);
        stats = record q.stats { num_routes = length (q.routes ++ (entry r ∷ [])) };
      },
      ok tt,
    )
unfolding Phase2.insert
phase2-long q r le = rw (le→ltb 32 r.prefix.len le) refl

phase3-long :
    (q : ScrttEngine) (r : Route)
    → 16 < r.prefix.len
    → let q' = insert_into_hybrid_trie q r.prefix r.next_hop r.metric in
      (q'.patricia_nodes ≡ q.patricia_nodes ++ (node r ∷ [])) × (q'.radix_table ≡ q.radix_table)
unfolding insert_into_hybrid_trie
phase3-long q r more = rw (ltb-leb r.prefix.len more) (refl, refl)

-- The engine after a route that the second phase takes.
abbrev after : TcamEngine → Route → TcamEngine
after e r =
    (insert_rest (record e { phase1 = Phase1.insert e.phase1 r.prefix r.next_hop r.metric }) r
      (
        record e.phase2 {
          routes = e.phase2.routes ++ (entry r ∷ []);
          stats = record e.phase2.stats { num_routes = length (e.phase2.routes ++ (entry r ∷ [])) };
        },
        ok tt,
      )).0

insert-after : (e : TcamEngine) (r : Route) → r.prefix.len ≤ 32 → (insert e r).0 ≡ after e r
unfolding insert
insert-after e r le =
    ap
      (λ made.
        (insert_rest (record e { phase1 = Phase1.insert e.phase1 r.prefix r.next_hop r.metric }) r
          made).0)
      (phase2-long e.phase2 r le)

after-phase1 :
    (e : TcamEngine) (r : Route)
    → (after e r).phase1.routes ≡ e.phase1.routes ++ (compressed r ∷ [])
unfolding insert_rest Phase1.insert
after-phase1 e r = refl

after-rest :
    (e : TcamEngine) (r : Route)
    → ((after e r).phase2.routes ≡ e.phase2.routes ++ (entry r ∷ []))
      × ((after e r).strategy ≡ e.strategy)
unfolding insert_rest
after-rest e r = (refl, refl)

after-phase3 :
    (e : TcamEngine) (r : Route)
    → 16 < r.prefix.len
    → ((after e r).phase3.patricia_nodes ≡ e.phase3.patricia_nodes ++ (node r ∷ []))
      × ((after e r).phase3.radix_table ≡ e.phase3.radix_table)
unfolding insert_rest Phase3.insert
after-phase3 e r more = phase3-long (with_section e.phase3 r.prefix r.next_hop r.metric) r more

-- The tables of the phases hold these routes, and the radix table no word.
pub record Holds (e : TcamEngine) (rs : List Route) : Type 0 where
  pub phase1 : e.phase1.routes ≡ map compressed rs
  pub phase2 : e.phase2.routes ≡ map entry rs
  pub phase3 : e.phase3.patricia_nodes ≡ map node rs
  pub no_radix : (i : ℕ) → e.phase3.radix_table i ≡ 0

map-push {ℓ κ} :
    {A : Type ℓ} {B : Type κ} (f : A → B) (xs : List A) (x : A)
    → map f xs ++ (f x ∷ []) ≡ map f (xs ++ (x ∷ []))
map-push f [] x = refl
map-push f (y ∷ ys) x = ap (λ t. f y ∷ t) (map-push f ys x)

insert-Holds :
    (e : TcamEngine) (done : List Route) (r : Route)
    → IsLong r
    → Holds e done
    → Holds (insert e r).0 (done ++ (r ∷ []))
insert-Holds e done r (more, le) h =
    let (two, same) = after-rest e r in
    let (three, radix) = after-phase3 e r more in
    subst (λ t. Holds t (done ++ (r ∷ []))) (sym (insert-after e r le))
      (record {
        phase1 =
            after-phase1 e r
            ∙ ap (λ t. t ++ (compressed r ∷ [])) h.phase1
            ∙ map-push compressed done r;
        phase2 = two ∙ ap (λ t. t ++ (entry r ∷ [])) h.phase2 ∙ map-push entry done r;
        phase3 = three ∙ ap (λ t. t ++ (node r ∷ [])) h.phase3 ∙ map-push node done r;
        no_radix = λ i. ap (λ t. t i) radix ∙ h.no_radix i;
      })

shift {ℓ} :
    {A : Type ℓ} (xs : List A) (y : A) (ys : List A) → (xs ++ (y ∷ [])) ++ ys ≡ xs ++ (y ∷ ys)
shift [] y ys = refl
shift (x ∷ xs) y ys = ap (λ t. x ∷ t) (shift xs y ys)

insert_all-Holds :
    (e : TcamEngine) (done rs : List Route)
    → All IsLong rs
    → Holds e done
    → Holds (insert_all e rs) (done ++ rs) × ((insert_all e rs).strategy ≡ e.strategy)
unfolding insert_all
insert_all-Holds e done [] long h = (subst (Holds e) (sym (append-nil done)) h, refl)
insert_all-Holds e done (r ∷ rs) long h =
    let (held, same) =
      insert_all-Holds (insert e r).0 (done ++ (r ∷ [])) rs long.1
        (insert-Holds e done r long.0 h) in
    let kept : (insert e r).0.strategy ≡ e.strategy =
      ap (λ t. t.strategy) (insert-after e r long.0.1) ∙ (after-rest e r).1 in
    (subst (Holds (insert_all (insert e r).0 rs)) (shift done r rs) held, same ∙ kept)

new-Holds : (s : PhaseStrategy) → Holds (with_strategy s) []
unfolding with_strategy Phase1.new Phase2.new Phase3.new
new-Holds s = record { phase1 = refl; phase2 = refl; phase3 = refl; no_radix = λ i. refl }

pub inserted-Holds :
    (s : PhaseStrategy) (rs : List Route)
    → All IsLong rs
    → Holds (insert_all (with_strategy s) rs) rs × ((insert_all (with_strategy s) rs).strategy ≡ s)
inserted-Holds s rs long =
    let (held, same) = insert_all-Holds (with_strategy s) [] rs long (new-Holds s) in
    (held, same ∙ unfold with_strategy in refl)
