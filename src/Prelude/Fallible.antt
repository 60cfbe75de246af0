-- ===== src/Prelude/Fallible.antt =====
-- Rust's `?` on a `Result`, with no state.
use mathlib.Core.Bool.{Bool, true, false}
use tarvaultsync.Prelude.Result.{Result, ok, err}

infixl 5 ◌>>=◌ ◌>>◌
abbrev pub ◌>>=◌ {ℓ κ ℓ'} :
    {E : Type ℓ} {A : Type κ} {B : Type ℓ'} → Result E A → (A → Result E B) → Result E B
ok a >>= f = f a
err e >>= f = err e

abbrev pub ◌>>◌ {ℓ κ ℓ'} :
    {E : Type ℓ} {A : Type κ} {B : Type ℓ'} → Result E A → Result E B → Result E B
m >> k = m >>= λ _. k

-- `if test { return Err(e) }`
abbrev pub refuse_if : {E : Type 0} → Bool → E → Result E (Unit {0})
refuse_if true e = err e
refuse_if false e = ok tt
