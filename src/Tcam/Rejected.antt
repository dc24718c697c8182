-- ===== src/Tcam/Rejected.antt =====
-- Routes that are refused, and routes that are deleted.
use cyan_flame_control_plane.Prelude.{
  ℕ, ◌<◌, ◌≡◌, refl, ap, ◌∙◌, String, List, [], ◌∷◌, lt→ltb, err,
}
use cyan_flame_control_plane.Tcam.{
  TcamEngine, Route, PhaseStrategy, phase1_only, phase2_only, phase3_only, adaptive, insert,
  insert_rest, lookup, lookup_by, delete,
}
use cyan_flame_control_plane.Tcam.Prefix.{Prefix as NetPrefix, invalid_prefix_length}
use cyan_flame_control_plane.Tcam.Ahgf as Phase1
use cyan_flame_control_plane.Tcam.Qagfhg as Phase2
use cyan_flame_control_plane.Tcam.Qagfhg.{QagfhgEngine}

phase2-refuses :
    (q : QagfhgEngine) (r : Route)
    → 32 < r.prefix.len
    → Phase2.insert q r.prefix r.next_hop r.metric ≡ (q, err (invalid_prefix_length r.prefix.len))
unfolding Phase2.insert
phase2-refuses q r long = rw (lt→ltb 32 r.prefix.len long) refl

-- A route with more than 32 bits is refused by the second phase with an error, but the first phase
-- has stored it: only its table changes, and the insertion is not counted.
insert-refused :
    (e : TcamEngine) (r : Route)
    → 32 < r.prefix.len
    → insert e r ≡ (
      record e { phase1 = Phase1.insert e.phase1 r.prefix r.next_hop r.metric },
      err (invalid_prefix_length r.prefix.len),
    )
unfolding insert insert_rest
insert-refused e r long =
    ap (insert_rest (record e { phase1 = Phase1.insert e.phase1 r.prefix r.next_hop r.metric }) r)
      (phase2-refuses e.phase2 r long)

unfoldable pub delete_all : TcamEngine → List NetPrefix → TcamEngine
unfolding delete
delete_all e [] = e
delete_all e (p ∷ ps) = delete_all (delete e p) ps

delete-lookup :
    (collapse : ℕ → ℕ) (s : PhaseStrategy) (e : TcamEngine) (p : NetPrefix) (ip : String)
    → (lookup_by collapse s (delete e p) ip).1 ≡ (lookup_by collapse s e ip).1
unfolding lookup_by delete
delete-lookup collapse phase1_only e p ip = refl
delete-lookup collapse phase2_only e p ip = refl
delete-lookup collapse phase3_only e p ip = refl
delete-lookup collapse adaptive e p ip = refl

-- Whatever prefixes are deleted, each lookup gives what it gave before, under every strategy: a
-- deleted route is still found.
pub delete_all-lookup :
    (collapse : ℕ → ℕ) (e : TcamEngine) (ps : List NetPrefix) (ip : String)
    → (lookup collapse (delete_all e ps) ip).1 ≡ (lookup collapse e ip).1
unfolding delete_all lookup
delete_all-lookup collapse e [] ip = refl
delete_all-lookup collapse e (p ∷ ps) ip =
    delete_all-lookup collapse (delete e p) ps ip ∙ delete-lookup collapse e.strategy e p ip
