-- ===== src/Allocation/Routing.antt =====
-- `route_memory_request` finds an agent with the most room.
use cyan_flame_control_plane.Prelude.{
  ℕ, ◌+◌, ◌-◌, ◌≤◌, ◌<◌, ◌≡◌, refl, ap, arith, Bool, true, ◌&&◌, String, Option, none, some, [],
  ◌∷◌, ◌⊎◌, inl, inr, ltb, leb, Bool-cases,
}
use mathlib.Core.Bool.{false≢true}
use cyan_flame_control_plane.Prelude.Dict.{Dict}
use cyan_flame_control_plane.Allocation.{AllocationService, best_loop, route_memory_request}

-- `n` is what the map holds for the agent.
abbrev pub In : String → ℕ → Dict ℕ → Type 0
In agent n [] = ⊥
In agent n ((j, v) ∷ d) = ((j ≡ agent) × (v ≡ n)) ⊎ In agent n d

module _ (max required : ℕ) where
  -- The loop ends with what it had, or with an entry that has more and enough.
  abbrev Chosen : Dict ℕ → Option String → ℕ → Option String × ℕ → Type 0
  Chosen d best available r =
      (r ≡ (best, available))
      ⊎ ((agent : String) × (n : ℕ) × In agent n d
          × (r ≡ (some agent, max - n))
          × (required ≤ max - n)
          × (available < max - n))

  abbrev better : ℕ → ℕ → Bool
  better n available = leb required (max - n) && ltb available (max - n)

  best_loop-Chosen :
      (d : Dict ℕ) (best : Option String) (available : ℕ)
      → Chosen d best available (best_loop max required d best available)
  unfolding best_loop
  best_loop-Chosen [] best available = inl refl
  best_loop-Chosen ((j, v) ∷ d) best available = elim (Bool-cases (better v available)) [
    | inl yes' ↦ rw yes' (elim (best_loop-Chosen d (some j) (max - v)) [
      | inl e ↦ inr (j, v, inl (refl, refl), e, ground arith, ground arith)
      | inr (agent, n, i, e, p, q) ↦ inr (agent, n, inr i, e, p, ground arith)
    ])
    | inr no' ↦ rw no' (elim (best_loop-Chosen d best available) [
      | inl e ↦ inl e
      | inr (agent, n, i, e, p, q) ↦ inr (agent, n, inr i, e, p, q)
    ])
  ]

  best_loop-grows :
      (d : Dict ℕ) (best : Option String) (available : ℕ)
      → available ≤ (best_loop max required d best available).1
  unfolding best_loop
  best_loop-grows [] best available = omega arith
  best_loop-grows ((j, v) ∷ d) best available =
      ground (arith, best_loop-grows d (some j) (max - v), best_loop-grows d best available)

  best_loop-greatest :
      (d : Dict ℕ) (best : Option String) (available : ℕ) (agent : String) (n : ℕ)
      → In agent n d
      → required ≤ max - n
      → max - n ≤ (best_loop max required d best available).1
  unfolding best_loop
  best_loop-greatest [] best available agent n i le = absurd i
  best_loop-greatest ((j, v) ∷ d) best available agent n (inl (_, e)) le =
      ground (arith, best_loop-grows d (some j) (max - v), best_loop-grows d best available)
  best_loop-greatest ((j, v) ∷ d) best available agent n (inr i) le = ground (
    arith,
    best_loop-greatest d (some j) (max - v) agent n i le,
    best_loop-greatest d best available agent n i le,
  )

-- Where an agent of the map has some room left and room for the request, the response names an agent
-- of the map that has the room, and that agent's room is at least as much.
pub route_memory_request-optimal :
    (s : AllocationService) (required_tb : ℕ) (agent : String) (n : ℕ)
    → In agent n s.agent_allocations
    → required_tb ≤ s.max_allocation_per_agent_tb - n
    → 0 < s.max_allocation_per_agent_tb - n
    → let r = route_memory_request s required_tb in
      (r.found ≡ true)
      × (s.max_allocation_per_agent_tb - n ≤ r.available_tb)
      × ((m : ℕ) × In r.optimal_node_id m s.agent_allocations
          × (r.available_tb ≡ s.max_allocation_per_agent_tb - m)
          × (required_tb ≤ r.available_tb))
unfolding route_memory_request
route_memory_request-optimal s required agent n i le pos =
    let max = s.max_allocation_per_agent_tb in
    let top = best_loop-greatest max required s.agent_allocations none 0 agent n i le in
    elim (best_loop-Chosen max required s.agent_allocations none 0) [
      | inl e ↦ absurd (omega (arith, top, ap (λ (r : Option String × ℕ). r.1) e))
      | inr (chosen, m, j, e, p, _) ↦ let top' = rw e at top in rw e (refl, top', (m, j, refl, p))
    ]

-- A response that names an agent names one of the map, with room for the request.
route_memory_request_sound :
    (s : AllocationService) (required_tb : ℕ)
    → (route_memory_request s required_tb).found ≡ true
    → (m : ℕ) × In (route_memory_request s required_tb).optimal_node_id m s.agent_allocations
      × (required_tb + m ≤ s.max_allocation_per_agent_tb)
unfolding route_memory_request
route_memory_request_sound s required h =
    elim (best_loop-Chosen s.max_allocation_per_agent_tb required s.agent_allocations none 0) [
      | inl e ↦ absurd (false≢true (rw e at h))
      | inr (chosen, m, j, e, p, q) ↦ (m, rw e j, omega arith)
    ]
