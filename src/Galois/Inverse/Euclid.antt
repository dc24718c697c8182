-- ===== src/Galois/Inverse/Euclid.antt =====
-- The loop of the extended Euclidean algorithm: its coefficients, and what it computes.
use mathlib.Core.WellFounded.{Acc}
use native.Mathlib.Nat.{dvd_refl, dvd-zero, dvd-mod_iff, mod-eq-sub-div-mul, le-div_iff_mul-le}
use Prim.Native.Nat.{◌∣◌}
use cyan_flame_control_plane.Prelude.{
  ℕ, zero, suc, ◌+◌, ◌-◌, ◌*◌, ◌/◌, ◌≤◌, ◌<◌, ◌≡◌, refl, ap, sym, subst, arith, lt_wf,
}
use cyan_flame_control_plane.Prelude.Int.{ℤ, pos, neg, neg-sub-pos, pos-sub-neg, ◌-ℤ◌, ◌*ℤ◌}
use cyan_flame_control_plane.Galois.Inverse.{shrinks, euclid_loop, extended_euclid}

-- The state of the loop for the modulus `m` and the value `v`. The coefficients have opposite
-- signs and magnitudes `x ≤ y`; modulo `m` they carry `v` to the remainders; and the last
-- equation keeps the magnitudes at most `m`.
pub data Bezout (m v old_r r : ℕ) (old_s s : ℤ) : Type 0 where
  even :
      (x y k l : ℕ)
      → old_s ≡ neg x
      → s ≡ pos y
      → y * v ≡ r + k * m
      → x * v + old_r ≡ l * m
      → x * r + y * old_r ≡ m
      → x ≤ y
      → Bezout m v old_r r old_s s
  odd :
      (x y k l : ℕ)
      → old_s ≡ pos x
      → s ≡ neg y
      → y * v + r ≡ k * m
      → x * v ≡ old_r + l * m
      → x * r + y * old_r ≡ m
      → x ≤ y
      → Bezout m v old_r r old_s s

Bezout-start : (m v : ℕ) → Bezout m v m v (pos 0) (pos 1)
Bezout-start m v = even 0 1 0 1 refl refl (omega arith) (omega arith) (omega arith) (omega arith)

y-le : (x y q : ℕ) → 0 < q → y ≤ x + q * y
y-le x y q h = grind arith

Bezout-step :
    (m v a r r' q : ℕ) (s t : ℤ)
    → 0 < q
    → r' + q * r ≡ a
    → Bezout m v a r s t
    → Bezout m v r r' t (s -ℤ pos (q) *ℤ t)
Bezout-step m v a r r' q s t one split (even x y k l es et e1 e2 e3 le) =
    odd y (x + q * y) (l + q * k) k et (rw (es, et) (neg-sub-pos x (q) y))
      (omega (arith, ap (λ (n : ℕ). q * n) e1)) e1 (omega (arith, ap (λ (n : ℕ). y * n) split))
      (y-le x y q one)
Bezout-step m v a r r' q s t one split (odd x y k l es et e1 e2 e3 le) =
    even y (x + q * y) (l + q * k) k et (rw (es, et) (pos-sub-neg x (q) y))
      (omega (arith, ap (λ (n : ℕ). q * n) e1)) e1 (omega (arith, ap (λ (n : ℕ). y * n) split))
      (y-le x y q one)

quotient_pos : (a c : ℕ) → suc c < a → 0 < a / suc c
quotient_pos a c lt = (le-div_iff_mul-le (omega arith)).1 (omega arith)

-- The loop ends in a state with `r = 0`.
loop-Bezout :
    (m v a r : ℕ) (s t : ℤ) (w : Acc ◌<◌ r)
    → r < a
    → Bezout m v a r s t
    → (t' : ℤ) × Bezout m v (euclid_loop a r s t w).0 0 (euclid_loop a r s t w).1 t'
unfolding euclid_loop
loop-Bezout m v a r s t (Acc.intro zero _) lt b = (t, b)
loop-Bezout m v a r s t (Acc.intro (suc c) smaller) lt b =
    loop-Bezout m v (suc c) (a - a / suc c * suc c) t _
      (smaller (a - a / suc c * suc c) (shrinks a c)) (shrinks a c)
      (Bezout-step m v a (suc c) _ (a / suc c) s t (quotient_pos a c lt) (omega arith) b)

loop-dvd :
    (a r : ℕ) (s t : ℤ) (w : Acc ◌<◌ r)
    → ((euclid_loop a r s t w).0 ∣ a) × ((euclid_loop a r s t w).0 ∣ r)
unfolding euclid_loop
loop-dvd a r s t (Acc.intro zero _) = (dvd_refl a, dvd-zero a)
loop-dvd a r s t (Acc.intro (suc c) smaller) =
    let (left, right) =
      loop-dvd (suc c) (a - a / suc c * suc c) t (s -ℤ pos (a / suc c) *ℤ t)
        (smaller (a - a / suc c * suc c) (shrinks a c)) in
    ((dvd-mod_iff _ left).0 (subst (◌∣◌ _) (sym (mod-eq-sub-div-mul a (suc c))) right), left)

pub extended_euclid-Bezout :
    (m v : ℕ) → v < m → (t : ℤ) × Bezout m v (extended_euclid m v).0 0 (extended_euclid m v).1 t
unfolding extended_euclid
extended_euclid-Bezout m v lt = loop-Bezout m v m v _ _ (lt_wf.apply v) lt (Bezout-start m v)

-- The remainder that is left divides the modulus and the value.
pub extended_euclid-dvd : (m v : ℕ) → ((extended_euclid m v).0 ∣ m) × ((extended_euclid m v).0 ∣ v)
unfolding extended_euclid
extended_euclid-dvd m v = loop-dvd m v _ _ (lt_wf.apply v)
