-- ===== src/Prelude/Outcome.antt =====
-- What holds after code that may fail: one condition for each way it ends.
use mathlib.Core.Path.{Path}
use bridgeos.Prelude.{◌≡◌, refl, sym, subst}
use bridgeos.Prelude.Exec.{Exec, continue}
use bridgeos.Prelude.Result.{Result, ok, err}

pub record Outcome {ℓ} {A E S : Type ℓ} (Q : A → S → Type 0) (R : E → S → Type 0)
    (r : Result A E × S) : Type ℓ where
  pub on_ok : (a : A) → r.0 ≡ ok a → Q a r.1
  pub on_err : (e : E) → r.0 ≡ err e → R e r.1

ok_injective : {A E : Type 0} {a b : A} → Path (Result A E) (ok a) (ok b) → a ≡ b
ok_injective e = cc

err_injective : {A E : Type 0} {a b : E} → Path (Result A E) (err a) (err b) → a ≡ b
err_injective e = cc

module _ {A E S : Type 0} {Q : A → S → Type 0} {R : E → S → Type 0} where
  pub ends_ok : (a : A) (s : S) → Q a s → Outcome Q R (ok a, s)
  ends_ok a s q = record {
    on_ok = λ b e. subst (λ c. Q c s) (ok_injective e) q;
    on_err = λ x e. cc;
  }

  pub ends_err : (x : E) (s : S) → R x s → Outcome Q R (err x, s)
  ends_err x s h = record {
    on_ok = λ a e. cc;
    on_err = λ y e. subst (λ z. R z s) (err_injective e) h;
  }

module _ {A E S : Type 0} {Q : A → S → Type 0} {R : E → S → Type 0} where
  -- A step that is known to succeed.
  pub succeeds : (r : Result A E × S) (a : A) → r.0 ≡ ok a → Q a r.1 → Outcome Q R r
  succeeds (ok b, s) a e q = ends_ok b s (subst (λ c. Q c s) (sym (ok_injective e)) q)
  succeeds (err f, s) a e q = cc

module _ {A B E S : Type 0} {Q : A → S → Type 0} {Q' : B → S → Type 0} {R : E → S → Type 0} where
  -- A chain: the first step's condition is what the rest starts from.
  pub continue-Outcome :
      (r : Result A E × S) (f : A → Exec S E B)
      → Outcome Q R r
      → ((a : A) (s : S) → Q a s → Outcome Q' R (f a s))
      → Outcome Q' R (continue r f)
  continue-Outcome (ok a, s) f h next = next a s (h.on_ok a refl)
  continue-Outcome (err e, s) f h next = ends_err e s (h.on_err e refl)

module _ {A E S : Type 0} {Q Q' : A → S → Type 0} {R : E → S → Type 0} where
  -- A weaker condition.
  pub weaken :
      {r : Result A E × S} → ((a : A) (s : S) → Q a s → Q' a s) → Outcome Q R r → Outcome Q' R r
  weaken {r} f h = record { on_ok = λ a e. f a r.1 (h.on_ok a e); on_err = h.on_err }
