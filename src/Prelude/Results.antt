-- ===== src/Prelude/Results.antt =====
-- What a Rust call can end in: a value, an error value (`Err`), or a panic, which aborts.
use mathlib.Core.Option.{Option, none, some}

pub data Outcome {ℓ κ} (E : Type ℓ) (A : Type κ) : Type (ℓ ⊔ κ) where
  ok : A → Outcome E A
  err : E → Outcome E A
  panic : Outcome E A

infixl 5 ◌>>=◌
abbrev pub ◌>>=◌ {ℓ κ μ} :
    {E : Type ℓ} {A : Type κ} {B : Type μ} → Outcome E A → (A → Outcome E B) → Outcome E B
ok a >>= f = f a
err e >>= f = err e
panic >>= f = panic

abbrev pub or_panic {ℓ κ} : {E : Type ℓ} {A : Type κ} → Option A → Outcome E A
or_panic none = panic
or_panic (some a) = ok a
