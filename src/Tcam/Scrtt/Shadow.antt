-- ===== src/Tcam/Scrtt/Shadow.antt =====
-- The radix table hides the longer routes.
use cyan_flame_control_plane.Prelude.{
  ℕ, zero, suc, ◌+◌, ◌-◌, ◌/◌, ◌^◌, ◌≤◌, ◌<◌, ◌≡◌, ◌≢◌, refl, ap, ◌∙◌, arith, ◌&&◌, true, false,
  String, some, List, [], ◌∷◌, All, ltb, leb, ◌==◌, if◌then◌else◌,
}
use cyan_flame_control_plane.Tcam.Prefix.{Prefix}
use cyan_flame_control_plane.Tcam.Scrtt.{
  ScrttEngine, SheafSection, with_section, fill_radix, insert, insert_into_hybrid_trie,
  lookup_from_radix, find,
}

-- A word that the loop writes, or one that it leaves.
fill_radix-at :
    (left index metric : ℕ) (table : ℕ → ℕ) (i : ℕ)
    → i < 65536
    → fill_radix left index metric table i
      ≡ (if leb index i && ltb i (index + left) then metric else table i)
unfolding fill_radix
fill_radix-at zero index metric table i h = ground arith
fill_radix-at (suc left) index metric table i h =
    fill_radix-at left (index + 1) metric _ i h ∙ ground arith

written :
    (low high i metric old : ℕ)
    → low ≤ i
    → i < high
    → (if leb low i && ltb i high then metric else old) ≡ metric
written low high i metric old l h = ground arith

top : (ip : ℕ) → ip < 2 ^ 32 → ip / 2 ^ 16 < 65536
top ip h = omega arith

insert-short :
    (e : ScrttEngine) (p : Prefix) (next_hop : String) (metric : ℕ) (i : ℕ)
    → p.len ≤ 16
    → i < 65536
    → p.addr / 2 ^ 16 ≤ i
    → i < p.addr / 2 ^ 16 + 2 ^ (16 - p.len)
    → (insert_into_hybrid_trie e p next_hop metric).radix_table i ≡ metric
unfolding insert_into_hybrid_trie
insert-short e p next_hop metric i short word low high =
    let small : leb p.len 16 ≡ true = ground arith in
    rw small (
      fill_radix-at (2 ^ (16 - p.len)) (p.addr / 2 ^ 16) metric e.radix_table i word
      ∙ written (p.addr / 2 ^ 16) (p.addr / 2 ^ 16 + 2 ^ (16 - p.len)) i metric (e.radix_table i)
          low high)

insert_short :
    (e : ScrttEngine) (p : Prefix) (next_hop : String) (metric : ℕ) (i : ℕ)
    → p.len ≤ 16
    → i < 65536
    → p.addr / 2 ^ 16 ≤ i
    → i < p.addr / 2 ^ 16 + 2 ^ (16 - p.len)
    → (insert e p next_hop metric).radix_table i ≡ metric
unfolding insert
insert_short e p next_hop metric = insert-short (with_section e p next_hop metric) p next_hop metric

insert_long :
    (e : ScrttEngine) (p : Prefix) (next_hop : String) (metric : ℕ)
    → 16 < p.len
    → (insert_into_hybrid_trie e p next_hop metric).radix_table ≡ e.radix_table
unfolding insert_into_hybrid_trie
insert_long e p next_hop metric long = let big : leb p.len 16 ≡ false = ground arith in rw big refl

insert_long_whole :
    (e : ScrttEngine) (p : Prefix) (next_hop : String) (metric : ℕ)
    → 16 < p.len
    → (insert e p next_hop metric).radix_table ≡ e.radix_table
unfolding insert
insert_long_whole e p next_hop metric long =
    insert_long (with_section e p next_hop metric) p next_hop metric long

-- The engine after the routes of the sections, which are inserted one after the other.
unfoldable pub insert_all : ScrttEngine → List SheafSection → ScrttEngine
insert_all e [] = e
insert_all e (r ∷ rs) = insert_all (insert e r.prefix r.next_hop r.metric) rs

insert_all-radix :
    (e : ScrttEngine) (rs : List SheafSection)
    → All (λ r. 16 < r.prefix.len) rs
    → (insert_all e rs).radix_table ≡ e.radix_table
unfolding insert_all
insert_all-radix e [] long = refl
insert_all-radix e (r ∷ rs) long =
    insert_all-radix (insert e r.prefix r.next_hop r.metric) rs long.1
    ∙ insert_long_whole e r.prefix r.next_hop r.metric long.0

find_radix :
    (e : ScrttEngine) (ip metric : ℕ)
    → e.radix_table (ip / 2 ^ 16) ≡ metric
    → metric ≢ 0
    → find e ip ≡ some ("gateway_radix", metric)
unfolding find lookup_from_radix
find_radix e ip metric word some_ =
    let there : (metric == 0) ≡ false = ground arith in rw (word, there) refl

-- After a route of at most 16 bits with a metric other than 0 and any longer routes, the third
-- phase answers for each address of the route's range with the fixed hop `gateway_radix`: neither
-- its own hop nor a longer route is found.
pub find-shadowed :
    (e : ScrttEngine) (p : Prefix) (next_hop : String) (metric : ℕ) (rs : List SheafSection)
    (ip : ℕ)
    → p.len ≤ 16
    → metric ≢ 0
    → All (λ r. 16 < r.prefix.len) rs
    → ip < 2 ^ 32
    → p.addr / 2 ^ 16 ≤ ip / 2 ^ 16
    → ip / 2 ^ 16 < p.addr / 2 ^ 16 + 2 ^ (16 - p.len)
    → find (insert_all (insert e p next_hop metric) rs) ip ≡ some ("gateway_radix", metric)
find-shadowed e p next_hop metric rs ip short some_ long word low high =
    find_radix (insert_all (insert e p next_hop metric) rs) ip metric
      (ap (λ t. t (ip / 2 ^ 16)) (insert_all-radix (insert e p next_hop metric) rs long)
        ∙ insert_short e p next_hop metric (ip / 2 ^ 16) short (top ip word) low high)
      some_
