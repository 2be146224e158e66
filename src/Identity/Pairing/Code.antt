-- ===== src/Identity/Pairing/Code.antt =====
-- The short authentication string of a pairing (pairing.rs).
use bridgeos.Prelude.{
  Bool-cases, length, take, drop, Bytes, ℕ, ◌/◌, ◌%◌, ◌<◌, ◌≡◌, refl, ap, ◌≢◌, ◌↔◌, inl, inr, arith,
}
use bridgeos.Identity.Keys.{Crypto, bytes_le, bytes_le_flip}
use bridgeos.Identity.Pairing.{pad3, format_pin, sas_input, derive}

pad3-injective : (m n : ℕ) → m < 1000 → n < 1000 → pad3 m ≡ pad3 n → m ≡ n
unfolding pad3
pad3-injective m n hm hn e = ground arith

from_thousands : (p q : ℕ) → p / 1000 ≡ q / 1000 → p % 1000 ≡ q % 1000 → p ≡ q
from_thousands p q e f = omega arith

format_pin-injective : (p q : ℕ) → p < 1000000 → q < 1000000 → format_pin p ≡ format_pin q → p ≡ q
unfolding format_pin pad3
format_pin-injective p q hp hq e =
    let high : pad3 (p / 1000) ≡ pad3 (q / 1000) = ap (take 3) e in
    let low : pad3 (p % 1000) ≡ pad3 (q % 1000) = ap (drop 4) e in
    from_thousands p q (pad3-injective (p / 1000) (q / 1000) (omega arith) (omega arith) high)
      (pad3-injective (p % 1000) (q % 1000) (omega arith) (omega arith) low)

-- Both peers derive the same verification string, whichever of them started the pairing.
pub derive_symmetric :
    (x : Crypto) (a b na nb : Bytes) → a ≢ b → derive x a b na nb ≡ derive x b a nb na
unfolding derive sas_input
derive_symmetric x a b na nb d = elim (Bool-cases (bytes_le a b)) [
  | inl le ↦ ground (arith, le, bytes_le_flip a b d)
  | inr gt ↦ ground (arith, gt, bytes_le_flip a b d)
]

-- The number has six digits, its display has the length of "ddd-ddd", and two verifications show the
-- same display exactly if their numbers are equal.
pub derive_pin :
    (x : Crypto) (a b na nb : Bytes) (c d nc nd : Bytes)
    → ((derive x a b na nb).numeric_pin < 1000000)
      × (length (derive x a b na nb).formatted_pin ≡ 7)
      × (((derive x a b na nb).formatted_pin ≡ (derive x c d nc nd).formatted_pin)
          ↔ ((derive x a b na nb).numeric_pin ≡ (derive x c d nc nd).numeric_pin))
unfolding derive format_pin
derive_pin x a b na nb c d nc nd = (
  omega arith,
  refl,
  (
    format_pin-injective (derive x a b na nb).numeric_pin (derive x c d nc nd).numeric_pin
        (omega arith) (omega arith),
    ap format_pin,
  ),
)
