-- ===== src/Prelude/Exec.antt =====
-- Code that changes a state and may fail. What was written before an error stays written.
use mathlib.Core.Path.{◌≡◌, refl}
use mathlib.Core.Bool.{Bool, true, false}
use bridgeos.Prelude.Result.{Result, ok, err}

abbrev pub Exec {ℓ} : Type ℓ → Type ℓ → Type ℓ → Type ℓ
Exec S E A = S → Result A E × S

module _ {ℓ} {S E A B : Type ℓ} where
  abbrev pub continue : Result A E × S → (A → Exec S E B) → Result B E × S
  continue (ok a, s) f = f a s
  continue (err e, s) f = (err e, s)

  infixl 5 ◌>>=◌ ◌>>◌
  abbrev pub ◌>>=◌ : Exec S E A → (A → Exec S E B) → Exec S E B
  ◌>>=◌ m f s = continue (m s) f

  abbrev pub ◌>>◌ : Exec S E A → Exec S E B → Exec S E B
  m >> n = m >>= λ _. n

  -- A chain that succeeds had a first step that did, and a rest that did from there.
  pub continue-succeeds :
      (r : Result A E × S) (f : A → Exec S E B) {b : B}
      → (continue r f).0 ≡ ok b
      → (a : A) × (r.0 ≡ ok a) × ((f a r.1).0 ≡ ok b)
  continue-succeeds (ok a, t) f k = (a, refl, k)
  continue-succeeds (err e, t) f k = cc

module _ {ℓ} {S E A : Type ℓ} where
  abbrev pub pure : A → Exec S E A
  pure a s = (ok a, s)

  abbrev pub raise : E → Exec S E A
  raise e s = (err e, s)

  abbrev pub lift : Result A E → Exec S E A
  lift r s = (r, s)

  abbrev pub gets : (S → A) → Exec S E A
  gets f s = (ok (f s), s)

module _ {S E : Type 0} where
  abbrev pub modify : (S → S) → Exec S E (Unit {0})
  modify f s = (ok tt, f s)

  -- `if bad { return Err(e); }`
  abbrev pub reject_if : Bool → E → Exec S E (Unit {0})
  reject_if true e s = (err e, s)
  reject_if false e s = (ok tt, s)
