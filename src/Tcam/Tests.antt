-- ===== src/Tcam/Tests.antt =====
-- Runs of the code of uao-qtcam/src.
use cyan_flame_control_plane.Prelude.{
  zero, suc, ◌≡◌, refl, arith, as_bytes, none, some, List, [], ◌∷◌, ok,
}
use cyan_flame_control_plane.Prelude.Decimal.{parse_digits, parse_unsigned, split_at}
use cyan_flame_control_plane.Tcam.Prefix.{Prefix, from_cidr, parse_ipv4, parse_octet}
use cyan_flame_control_plane.Tcam.{Route, phase1_only, adaptive, with_strategy, insert, lookup}
use cyan_flame_control_plane.Tcam.Field.{inv, inv_loop}
use cyan_flame_control_plane.Tcam.Field.Endless.{inv-endless}
use cyan_flame_control_plane.Tcam.Ahgf.{lookup_internal}
use cyan_flame_control_plane.Tcam.Qagfhg.{best_match}
use cyan_flame_control_plane.Tcam.Scrtt as Phase3
use cyan_flame_control_plane.Tcam.Scrtt.{SheafSection, find}
use cyan_flame_control_plane.Tcam.Scrtt.Shadow as Shadow
use cyan_flame_control_plane.Tcam.Scrtt.Shadow.{find-shadowed}
use cyan_flame_control_plane.Tcam.Routes.{insert_all}
use cyan_flame_control_plane.Tcam.Agreement.{IsUnambiguous, Finds, hop1, hop2, phases_agree}
use cyan_flame_control_plane.Tcam.Rejected.{delete_all, delete_all-lookup}

abbrev net : Prefix
net = record { addr = 3232235776; len = 24 }

net_text : from_cidr "192.168.1.0/24" ≡ ok net
unfolding from_cidr parse_ipv4 parse_octet parse_digits parse_unsigned split_at as_bytes
net_text = refl

abbrev wide : Prefix
wide = record { addr = 3232235520; len = 16 }

abbrev first : Route
first = record { prefix = net; next_hop = "gateway1"; metric = 100 }

abbrev host : Route
host = record { prefix = record { addr = 3232235818; len = 32 }; next_hop = "gateway2"; metric = 7 }

abbrev table : List Route
table = first ∷ host ∷ []

-- Each place of the table has its route only.
table-IsUnambiguous : IsUnambiguous table
table-IsUnambiguous zero zero a b ea eb len net = cc
table-IsUnambiguous zero (suc zero) a b ea eb len net = absurd (ground arith)
table-IsUnambiguous zero (suc (suc j)) a b ea eb len net = absurd (cc)
table-IsUnambiguous (suc zero) zero a b ea eb len net = absurd (ground arith)
table-IsUnambiguous (suc zero) (suc zero) a b ea eb len net = cc
table-IsUnambiguous (suc zero) (suc (suc j)) a b ea eb len net = absurd (cc)
table-IsUnambiguous (suc (suc i)) j a b ea eb len net = absurd (cc)

phases_agree_example :
    let e = insert_all (with_strategy adaptive) table in
    Finds table 3232235818 (find e.phase3 3232235818)
    × (hop1 (lookup_internal e.phase1.routes 3232235818) ≡ find e.phase3 3232235818)
    × (hop2 (best_match e.phase2.routes 3232235818) ≡ find e.phase3 3232235818)
phases_agree_example =
    phases_agree adaptive table 3232235818
      (
        ((omega arith, omega arith), (omega arith, omega arith)),
        (((omega arith, omega arith), (omega arith, omega arith)), tt),
      )
      (omega arith) table-IsUnambiguous

abbrev section : SheafSection
section = record { prefix = net; next_hop = "gateway1"; metric = 100; cohomology_class = 0 }

-- A longer route for the address is there, and the hop of neither is found.
find-shadowed_example :
    find (Shadow.insert_all (Phase3.insert Phase3.new wide "gateway0" 50) (section ∷ [])) 3232235818
    ≡ some ("gateway_radix", 50)
find-shadowed_example =
    find-shadowed Phase3.new wide "gateway0" 50 (section ∷ []) 3232235818 (omega arith)
      (omega arith) (omega arith, tt) (omega arith) (omega arith) (omega arith)

abbrev too_long : Route
too_long = record { prefix = record { addr = 0; len = 33 }; next_hop = "gateway3"; metric = 1 }

delete_all-lookup_example :
    (lookup
      (λ n. 0)
      (delete_all (insert (with_strategy phase1_only) first).0 (net ∷ []))
      "192.168.1.42").1
    ≡ (lookup (λ n. 0) (insert (with_strategy phase1_only) first).0 "192.168.1.42").1
delete_all-lookup_example =
    delete_all-lookup (λ n. 0) (insert (with_strategy phase1_only) first).0 (net ∷ [])
      "192.168.1.42"

inv-endless_example :
    (inv_loop 1000 0 1 3 2 ≡ none) × (inv_loop 1000 0 1 2 3 ≡ none) × (inv 1000 2 ≡ none)
inv-endless_example = inv-endless 1000 0 1
