-- ===== src/Allocation/Locks.antt =====
-- The locks of `allocate_memory` and `free_memory` in src/grpc/allocation.rs: two calls at once.
use cyan_flame_control_plane.Prelude.{◌≡◌, ◌⊎◌, ◌↔◌, inl, inr, refl, Bool, true, false, Bool-cases}

-- How far a call has come. `allocate_memory` takes the lock of the totals, decides, takes that of
-- the table for one statement and keeps the first to its end; `free_memory` takes the lock of the
-- table, looks, and takes that of the totals.
pub data Place : Type 0 where
  allocate_start allocate_totals allocate_granted allocate_both allocate_stored : Place
  free_start free_table free_record free_both : Place
  done : Place

abbrev pub holds_totals : Place → Bool
holds_totals allocate_totals = true
holds_totals allocate_granted = true
holds_totals allocate_both = true
holds_totals allocate_stored = true
holds_totals free_both = true
holds_totals _ = false

abbrev pub holds_table : Place → Bool
holds_table allocate_both = true
holds_table free_table = true
holds_table free_record = true
holds_table free_both = true
holds_table _ = false

-- A step of one call while another is at the place `q`; a write lock is taken while it is free.
pub data Advance (q : Place) : Place → Place → Type 0 where
  takes_totals : holds_totals q ≡ false → Advance q allocate_start allocate_totals
  refuses : Advance q allocate_totals done
  grants : Advance q allocate_totals allocate_granted
  inserts : holds_table q ≡ false → Advance q allocate_granted allocate_both
  drops_table : Advance q allocate_both allocate_stored
  returns_allocated : Advance q allocate_stored done
  takes_table : holds_table q ≡ false → Advance q free_start free_table
  not_found : Advance q free_table done
  finds : Advance q free_table free_record
  lowers : holds_totals q ≡ false → Advance q free_record free_both
  returns_freed : Advance q free_both done

-- What two calls come to, one step of one of them at a time.
pub data Reachable : Place → Place → Type 0 where
  two_allocations : Reachable allocate_start allocate_start
  allocation_and_release : Reachable allocate_start free_start
  release_and_allocation : Reachable free_start allocate_start
  two_releases : Reachable free_start free_start
  first : {p p' q : Place} → Reachable p q → Advance q p p' → Reachable p' q
  second : {p q q' : Place} → Reachable p q → Advance p q q' → Reachable p q'

-- Neither call can take a step.
pub record IsStuck (p q : Place) : Type 0 where
  pub first_stands : (p' : Place) → Advance q p p' → ⊥
  pub second_stands : (q' : Place) → Advance p q q' → ⊥

-- The allocation has the totals and waits for the table, which the release has; the release waits
-- for the totals.
abbrev pub IsDeadlock : Place → Place → Type 0
IsDeadlock p q = (p ≡ allocate_granted) × (q ≡ free_record)

-- The call at `p` waits for a lock that the call at `q` has.
abbrev Waits : Place → Place → Type 0
Waits allocate_start q = holds_totals q ≡ true
Waits allocate_granted q = holds_table q ≡ true
Waits free_start q = holds_table q ≡ true
Waits free_record q = holds_totals q ≡ true
Waits _ q = ⊥

stands-cases : (p q : Place) → ((p' : Place) → Advance q p p' → ⊥) → (p ≡ done) ⊎ Waits p q
stands-cases allocate_start q h = elim (Bool-cases (holds_totals q)) [
  | inl held ↦ inr held
  | inr free ↦ absurd (h allocate_totals (takes_totals free))
]
stands-cases allocate_totals q h = absurd (h done refuses)
stands-cases allocate_granted q h = elim (Bool-cases (holds_table q)) [
  | inl held ↦ inr held
  | inr free ↦ absurd (h allocate_both (inserts free))
]
stands-cases allocate_both q h = absurd (h allocate_stored drops_table)
stands-cases allocate_stored q h = absurd (h done returns_allocated)
stands-cases free_start q h = elim (Bool-cases (holds_table q)) [
  | inl held ↦ inr held
  | inr free ↦ absurd (h free_table (takes_table free))
]
stands-cases free_table q h = absurd (h done not_found)
stands-cases free_record q h = elim (Bool-cases (holds_totals q)) [
  | inl held ↦ inr held
  | inr free ↦ absurd (h free_both (lowers free))
]
stands-cases free_both q h = absurd (h done returns_freed)
stands-cases done q h = inl refl

-- Nobody waits for a call that holds nothing.
idle-awaited : (q p : Place) → holds_totals p ≡ false → holds_table p ≡ false → Waits q p → ⊥
idle-awaited allocate_start p free clear w = cc
idle-awaited allocate_granted p free clear w = cc
idle-awaited free_start p free clear w = cc
idle-awaited free_record p free clear w = cc
idle-awaited _ p free clear w = w

granted-awaited : (q : Place) → holds_table q ≡ true → Waits q allocate_granted → q ≡ free_record
granted-awaited free_record held w = refl
granted-awaited allocate_start held w = cc
granted-awaited allocate_granted held w = cc
granted-awaited free_start held w = cc
granted-awaited _ held w = absurd w

found-awaited : (q : Place) → holds_totals q ≡ true → Waits q free_record → q ≡ allocate_granted
found-awaited allocate_granted held w = refl
found-awaited allocate_start held w = cc
found-awaited free_start held w = cc
found-awaited free_record held w = cc
found-awaited _ held w = absurd w

Waits-cases : (p q : Place) → Waits p q → Waits q p → IsDeadlock p q ⊎ IsDeadlock q p
Waits-cases allocate_start q w v = absurd (idle-awaited q allocate_start refl refl v)
Waits-cases allocate_granted q w v = inl (refl, granted-awaited q w v)
Waits-cases free_start q w v = absurd (idle-awaited q free_start refl refl v)
Waits-cases free_record q w v = inr (found-awaited q w v, refl)
Waits-cases _ q w v = absurd w

stuck-cases :
    (p q : Place) → IsStuck p q → ((p ≡ done) × (q ≡ done)) ⊎ IsDeadlock p q ⊎ IsDeadlock q p
stuck-cases p q h = elim (stands-cases p q h.first_stands) [
  | inl p_done ↦ elim (stands-cases q p h.second_stands) [
    | inl q_done ↦ inl (p_done, q_done)
    | inr v ↦ absurd (idle-awaited q p (rw p_done refl) (rw p_done refl) v)
  ]
  | inr w ↦ elim (stands-cases q p h.second_stands) [
    | inl q_done ↦ absurd (idle-awaited p q (rw q_done refl) (rw q_done refl) w)
    | inr v ↦ inr (Waits-cases p q w v)
  ]
]

swap : {p q : Place} → Reachable p q → Reachable q p
swap two_allocations = two_allocations
swap allocation_and_release = release_and_allocation
swap release_and_allocation = allocation_and_release
swap two_releases = two_releases
swap (first r a) = second (swap r) a
swap (second r a) = first (swap r) a

both_done : Reachable done done
both_done =
    second
      (second (first (first allocation_and_release (takes_totals refl)) refuses) (takes_table refl))
      not_found

deadlock-Reachable : Reachable allocate_granted free_record
deadlock-Reachable =
    second
      (second (first (first allocation_and_release (takes_totals refl)) grants) (takes_table refl))
      finds

granted-stands : (p' : Place) → Advance free_record allocate_granted p' → ⊥
granted-stands p' (inserts free) = cc

found-stands : (q' : Place) → Advance allocate_granted free_record q' → ⊥
found-stands q' (lowers free) = cc

done-stands : (q p' : Place) → Advance q done p' → ⊥
done-stands q p' a = elim a [ ]

-- Two calls can come to a state in which neither can take a step exactly where both have returned,
-- or where an allocation that was granted and a release that found its record wait for each other.
-- Both happen: the allocation has the totals and waits for the table, the release has the table and
-- waits for the totals.
pub IsStuck-iff :
    (p q : Place)
    → (Reachable p q × IsStuck p q) ↔ (((p ≡ done) × (q ≡ done)) ⊎ IsDeadlock p q ⊎ IsDeadlock q p)
IsStuck-iff p q = (λ h. stuck-cases p q h.1, happens)
  where
    happens :
        ((p ≡ done) × (q ≡ done)) ⊎ IsDeadlock p q ⊎ IsDeadlock q p → Reachable p q × IsStuck p q
    happens (inl (ep, eq)) =
        rw (ep, eq)
          (both_done, record { first_stands = done-stands done; second_stands = done-stands done })
    happens (inr (inl (ep, eq))) =
        rw (ep, eq)
          (
            deadlock-Reachable,
            record { first_stands = granted-stands; second_stands = found-stands },
          )
    happens (inr (inr (eq, ep))) =
        rw (ep, eq)
          (
            swap deadlock-Reachable,
            record { first_stands = found-stands; second_stands = granted-stands },
          )
