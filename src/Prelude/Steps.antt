-- ===== src/Prelude/Steps.antt =====
-- What a chain of steps that succeeds went through.
use mathlib.Core.Path.{◌≡◌, ap}
use mathlib.Core.Logic.{inl, inr}
use native.Mathlib.Omega.{arith}
use tarvaultsync.Prelude.Result.{ok, Action, ◌>>=◌, Result-cases}

pub bind_ok :
    {S E A B : Type 0} (m : Action S E A) (f : A → Action S E B) (s s' : S) (b : B)
    → (m >>= f) s ≡ (ok b, s')
    → (a : A) × (s1 : S) × (m s ≡ (ok a, s1)) × (f a s1 ≡ (ok b, s'))
bind_ok m f s s' b h = elim (Result-cases (m s).0) [
  | inl (a, e) ↦ (a, (m s).1, ap (λ r. (r, (m s).1)) e, ground arith)
  | inr (x, e) ↦ absurd (ground arith)
]
