-- ===== src/Tcam/Prefix/Matching.antt =====
-- A prefix matches the addresses that agree with it on their first bits.
use cyan_flame_control_plane.Prelude.{
  ℕ, ◌-◌, ◌*◌, ◌/◌, ◌%◌, ◌^◌, ◌≤◌, ◌<◌, ◌≡◌, refl, ap, ◌∙◌, arith, ◌↔◌, true, inl, inr, Bool-cases,
  ◌==◌,
}
use cyan_flame_control_plane.Prelude.Bits.{and_bits, and_bits-mask, power_pos, power_mono}
use cyan_flame_control_plane.Tcam.Prefix.{Prefix, high_bits, matches, IsPrefix}

-- The words agree on all but their lowest `32 - len` bits.
abbrev pub Agree : ℕ → ℕ → ℕ → Type 0
Agree len a b = a / 2 ^ (32 - len) ≡ b / 2 ^ (32 - len)

shift-eq : (len : ℕ) → 0 < len → len ≤ 32 → (288 - len) % 256 % 32 ≡ 32 - len
shift-eq len pos le = omega arith

shifted-ones : (z : ℕ) → z < 32 → (2 ^ 32 - 1) * 2 ^ z % 2 ^ 32 ≡ 2 ^ 32 - 2 ^ z
shifted-ones z small =
    let p : 0 < 2 ^ z = power_pos z in
    let q : 2 ^ z ≤ 2 ^ 31 = power_mono z 31 (omega arith) in omega (arith, p, q)

high_bits-eq : (len : ℕ) → 0 < len → len ≤ 32 → high_bits len ≡ 2 ^ 32 - 2 ^ (32 - len)
unfolding high_bits
high_bits-eq len pos le =
    ap (λ (z : ℕ). (2 ^ 32 - 1) * 2 ^ z % 2 ^ 32) (shift-eq len pos le)
    ∙ shifted-ones (32 - len) (omega arith)

==-iff : (a b : ℕ) → ((a == b) ≡ true) ↔ (a ≡ b)
==-iff a b = (λ e. ground arith, λ e. ground arith)

no_bits : (a : ℕ) → a < 2 ^ 32 → a / 2 ^ 32 ≡ 0
no_bits a h = omega arith

-- A prefix of at most 32 bits matches an address exactly where the first bits of both, as many as
-- its length says, are equal.
pub matches_iff :
    (p : Prefix) (ip : ℕ) → IsPrefix p → ip < 2 ^ 32 → (matches p ip ≡ true) ↔ Agree p.len p.addr ip
unfolding matches
matches_iff p ip (small, le) word = elim (Bool-cases (p.len == 0)) [
  | inl none_ ↦
      let all : p.len ≡ 0 = ground arith in
      rw (none_, all, no_bits p.addr small, no_bits ip word) (λ e. refl, λ e. refl)
  | inr some_ ↦
      let m = high_bits-eq p.len (ground arith) le in
      let (to, from) = and_bits-mask 32 (32 - p.len) p.addr ip (omega arith) small word in
      let (eq, same) =
        ==-iff (and_bits 32 p.addr (high_bits p.len)) (and_bits 32 ip (high_bits p.len)) in
      rw some_ (λ e. to (rw (← m) (eq e)), λ e. same (rw m (from e)))
]
