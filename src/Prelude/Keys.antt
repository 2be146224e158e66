-- ===== src/Prelude/Keys.antt =====
-- Keys with a Boolean equality.
use mathlib.Core.Path.{◌≡◌, refl}
use mathlib.Core.Logic.{◌↔◌}
use mathlib.Core.Bool.{Bool, true, ◌&&◌}
use native.Mathlib.Omega.{arith}
use bridgeos.Prelude.ByteStrings.{Bytes, bytes_eq, bytes_eq_iff}

pub record Key {ℓ} (K : Type ℓ) : Type ℓ where
  pub same : K → K → Bool
  pub same_iff : (a b : K) → (same a b ≡ true) ↔ (a ≡ b)

instance abbrev pub bytes_key : Key Bytes
bytes_key = record { same = bytes_eq; same_iff = bytes_eq_iff }

-- A pair of texts, compared one after the other.
abbrev pub pair_same : Bytes × Bytes → Bytes × Bytes → Bool
pair_same p q = bytes_eq p.0 q.0 && bytes_eq p.1 q.1

pub pair_same_iff : (p q : Bytes × Bytes) → (pair_same p q ≡ true) ↔ (p ≡ q)
pair_same_iff p q = ground (arith, bytes_eq_iff p.0 q.0, bytes_eq_iff p.1 q.1)

instance abbrev pub pair_key : Key (Bytes × Bytes)
pair_key = record { same = pair_same; same_iff = pair_same_iff }

pub same_refl {ℓ} : {K : Type ℓ} ⦃k : Key K⦄ (a : K) → k.same a a ≡ true
same_refl ⦃k⦄ a = (k.same_iff a a).1 refl
