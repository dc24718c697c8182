-- ===== src/Tcam/Ahgf/Search.antt =====
-- The search of the first phase keeps the first of the longest routes.
use cyan_flame_control_plane.Prelude.{
  ℕ, suc, ◌+◌, ◌≤◌, ◌<◌, ◌≡◌, refl, ap, subst, ◌∙◌, arith, ◌⊎◌, inl, inr, Bool, true, false,
  Bool-cases, Option, none, some, List, [], ◌∷◌, All, get_elem?, ltb,
}
use cyan_flame_control_plane.Tcam.Longest.{IsLongest}
use cyan_flame_control_plane.Tcam.Ahgf.{
  CompressedRoute, compressed_matches, better, best_loop, result_of, at_index, lookup_internal,
  result_at,
}

abbrev pub fits : ℕ → CompressedRoute → Bool
fits ip r = compressed_matches r.compressed_prefix ip

abbrev pub size : CompressedRoute → ℕ
size r = r.compressed_prefix.original_prefix.len

-- The place and the length of a route of the table from `idx` on that fits.
record From (ip idx : ℕ) (rs : List CompressedRoute) (i l : ℕ) : Type 0 where
  place : ℕ
  route : CompressedRoute
  shifted : i ≡ idx + place
  at_place : get_elem? rs place ≡ some route
  fitting : fits ip route ≡ true
  long : l ≡ size route

From-later :
    (ip idx : ℕ) (r : CompressedRoute) (rs : List CompressedRoute) (i l : ℕ)
    → From ip (idx + 1) rs i l
    → From ip idx (r ∷ rs) i l
From-later ip idx r rs i l f = record {
  place = suc f.place;
  route = f.route;
  shifted = omega (arith, f.shifted);
  at_place = f.at_place;
  fitting = f.fitting;
  long = f.long;
}

From-here :
    (ip idx : ℕ) (r : CompressedRoute) (rs : List CompressedRoute)
    → fits ip r ≡ true
    → From ip idx (r ∷ rs) idx (size r)
From-here ip idx r rs fit = record {
  place = 0;
  route = r;
  shifted = omega arith;
  at_place = refl;
  fitting = fit;
  long = refl;
}

abbrev AtMost : ℕ → ℕ → List CompressedRoute → Type 0
AtMost ip l rs = All (λ r. fits ip r ≡ true → size r ≤ l) rs

-- What the loop ends with where it holds a match.
record Held (ip idx : ℕ) (rs : List CompressedRoute) (i l : ℕ) : Type 0 where
  i' : ℕ
  l' : ℕ
  found : best_loop ip idx rs (some (i, l)) ≡ some (i', l')
  source : ((i' ≡ i) × (l' ≡ l)) ⊎ From ip idx rs i' l'
  at_least : l ≤ l'
  longest : AtMost ip l' rs

module _ (ip idx : ℕ) (r : CompressedRoute) (rs : List CompressedRoute) where
  loop_fits :
      (best : Option (ℕ × ℕ))
      → fits ip r ≡ true
      → best_loop ip idx (r ∷ rs) best ≡ best_loop ip (idx + 1) rs (better idx (size r) best)
  unfolding best_loop
  loop_fits best fit = rw fit refl

  loop_passes :
      (best : Option (ℕ × ℕ))
      → fits ip r ≡ false
      → best_loop ip idx (r ∷ rs) best ≡ best_loop ip (idx + 1) rs best
  unfolding best_loop
  loop_passes best fit = rw fit refl

better_longer : (idx s i l : ℕ) → ltb l s ≡ true → better idx s (some (i, l)) ≡ some (idx, s)
unfolding better
better_longer idx s i l h = rw h refl

better_first : (idx s : ℕ) → better idx s none ≡ some (idx, s)
unfolding better
better_first idx s = refl

better_not : (idx s i l : ℕ) → ltb l s ≡ false → better idx s (some (i, l)) ≡ some (i, l)
unfolding better
better_not idx s i l h = rw h refl

-- The loop over the rest, from a match that is no worse than the old one.
Held-on :
    (ip idx : ℕ) (r : CompressedRoute) (rs : List CompressedRoute) (i l : ℕ)
    → best_loop ip idx (r ∷ rs) (some (i, l)) ≡ best_loop ip (idx + 1) rs (some (i, l))
    → (fits ip r ≡ true → size r ≤ l)
    → Held ip (idx + 1) rs i l
    → Held ip idx (r ∷ rs) i l
Held-on ip idx r rs i l e short h = record {
  i' = h.i';
  l' = h.l';
  found = e ∙ h.found;
  source = elim h.source [ inl same ↦ inl same | inr f ↦ inr (From-later ip idx r rs h.i' h.l' f) ];
  at_least = h.at_least;
  longest = ((λ fit. omega (arith, short fit, h.at_least)), h.longest);
}

From-cast :
    (ip idx : ℕ) (rs : List CompressedRoute) (i l i' l' : ℕ)
    → i' ≡ i
    → l' ≡ l
    → From ip idx rs i l
    → From ip idx rs i' l'
From-cast ip idx rs i l i' l' ei el f = record {
  place = f.place;
  route = f.route;
  shifted = ei ∙ f.shifted;
  at_place = f.at_place;
  fitting = f.fitting;
  long = el ∙ f.long;
}

-- The match that the loop holds behind a route that fits comes from it or from a later one.
taken_source :
    (ip idx : ℕ) (r : CompressedRoute) (rs : List CompressedRoute) (i' l' : ℕ)
    → fits ip r ≡ true
    → ((i' ≡ idx) × (l' ≡ size r)) ⊎ From ip (idx + 1) rs i' l'
    → From ip idx (r ∷ rs) i' l'
taken_source ip idx r rs i' l' fit (inl (ei, el)) =
    From-cast ip idx (r ∷ rs) idx (size r) i' l' ei el (From-here ip idx r rs fit)
taken_source ip idx r rs i' l' fit (inr f) = From-later ip idx r rs i' l' f

loop-Held : (ip idx : ℕ) (rs : List CompressedRoute) (i l : ℕ) → Held ip idx rs i l
loop-Held ip idx [] i l = record {
  i' = i;
  l' = l;
  found = unfold best_loop in refl;
  source = inl (refl, refl);
  at_least = omega arith;
  longest = tt;
}
loop-Held ip idx (r ∷ rs) i l = elim (Bool-cases (fits ip r)) [
  | inr unfit ↦
      Held-on ip idx r rs i l (loop_passes ip idx r rs (some (i, l)) unfit) (λ fit. absurd (cc))
        (loop-Held ip (idx + 1) rs i l)
  | inl fit ↦ elim (Bool-cases (ltb l (size r))) [
    | inr short ↦
        Held-on ip idx r rs i l
          (loop_fits ip idx r rs (some (i, l)) fit
            ∙ ap (best_loop ip (idx + 1) rs) (better_not idx (size r) i l short))
          (λ _. ground arith) (loop-Held ip (idx + 1) rs i l)
    | inl longer ↦
        let h = loop-Held ip (idx + 1) rs idx (size r) in
        let more : l < size r = ground arith in
        record {
          i' = h.i';
          l' = h.l';
          found =
              loop_fits ip idx r rs (some (i, l)) fit
              ∙ ap (best_loop ip (idx + 1) rs) (better_longer idx (size r) i l longer)
              ∙ h.found;
          source = inr (taken_source ip idx r rs h.i' h.l' fit h.source);
          at_least = omega (arith, h.at_least, more);
          longest = ((λ _. h.at_least), h.longest);
        }
  ]
]

-- What the loop ends with from no match on.
abbrev Ends : ℕ → ℕ → List CompressedRoute → Type 0
Ends ip idx rs =
    ((best_loop ip idx rs none ≡ none) × All (λ r. fits ip r ≡ false) rs)
    ⊎ ((i : ℕ) × (l : ℕ) × (best_loop ip idx rs none ≡ some (i, l))
        × From ip idx rs i l
        × AtMost ip l rs)

loop-Ends : (ip idx : ℕ) (rs : List CompressedRoute) → Ends ip idx rs
loop-Ends ip idx [] = inl (unfold best_loop in refl, tt)
loop-Ends ip idx (r ∷ rs) = elim (Bool-cases (fits ip r)) [
  | inl fit ↦
      let h = loop-Held ip (idx + 1) rs idx (size r) in
      inr (
        h.i',
        h.l',
        loop_fits ip idx r rs none fit
            ∙ ap (best_loop ip (idx + 1) rs) (better_first idx (size r))
            ∙ h.found,
        taken_source ip idx r rs h.i' h.l' fit h.source,
        ((λ _. h.at_least), h.longest),
      )
  | inr unfit ↦ elim (loop-Ends ip (idx + 1) rs) [
    | inl (nothing, none_) ↦ inl (loop_passes ip idx r rs none unfit ∙ nothing, (unfit, none_))
    | inr (i, l, found, f, most) ↦ inr (
      i,
      l,
      loop_passes ip idx r rs none unfit ∙ found,
      From-later ip idx r rs i l f,
      ((λ fit. absurd (cc)), most),
    )
  ]
]

-- The search of the first phase finds a route that matches the address and that no matching one
-- exceeds in length, and finds none only where no route matches.
pub lookup_internal-IsLongest :
    (rs : List CompressedRoute) (ip : ℕ)
    → ((lookup_internal rs ip ≡ none) × All (λ r. fits ip r ≡ false) rs)
      ⊎ ((r : CompressedRoute) × (lookup_internal rs ip ≡ some (result_of r))
          × IsLongest (fits ip) size rs r)
unfolding lookup_internal at_index
lookup_internal-IsLongest rs ip = elim (loop-Ends ip 0 rs) [
  | inl (nothing, none_) ↦ inl (rw nothing refl, none_)
  | inr (i, l, found, f, most) ↦
      let there : get_elem? rs i ≡ some f.route =
        ap (get_elem? rs) (f.shifted ∙ omega arith) ∙ f.at_place in
      inr (
        f.route,
        rw found (ap result_at there),
        record {
          listed = (i, there);
          fitting = f.fitting;
          longest = subst (λ (n : ℕ). All (λ r. fits ip r ≡ true → size r ≤ n) rs) f.long most;
        },
      )
]
