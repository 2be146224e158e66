-- ===== src/Prelude/Result.antt =====
-- `Result<T, E>`, with `?` as the bind of a `do` block.
use mathlib.Core.Path.{◌≡◌, refl}
use mathlib.Core.Logic.{◌⊎◌, inl, inr}
use mathlib.Core.Bool.{Bool, true, false}
use mathlib.Core.Option.{Option, none, some}

pub data Result {ℓ} (A E : Type ℓ) : Type ℓ where
  ok : A → Result A E
  err : E → Result A E

infixl 5 ◌>>=◌ ◌>>◌
abbrev pub ◌>>=◌ {ℓ} : {A B E : Type ℓ} → Result A E → (A → Result B E) → Result B E
ok a >>= f = f a
err e >>= f = err e

abbrev pub ◌>>◌ {ℓ} : {A B E : Type ℓ} → Result A E → Result B E → Result B E
m >> k = m >>= λ _. k

-- `if bad { return Err(e); }`
abbrev pub reject_if : {E : Type 0} → Bool → E → Result (Unit {0}) E
reject_if true e = err e
reject_if false e = ok tt

-- `map_err`
abbrev pub map_err {ℓ} : {A E F : Type ℓ} → (E → F) → Result A E → Result A F
map_err f (ok a) = ok a
map_err f (err e) = err (f e)

-- `ok_or`
abbrev pub ok_or {ℓ} : {A E : Type ℓ} → E → Option A → Result A E
ok_or e none = err e
ok_or e (some a) = ok a

pub Result-cases {ℓ} :
    {E : Type ℓ} (r : Result (Unit {ℓ}) E) → (r ≡ ok tt) ⊎ ((e : E) × (r ≡ err e))
Result-cases (ok tt) = inl refl
Result-cases (err e) = inr (e, refl)
