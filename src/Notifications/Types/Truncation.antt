-- ===== src/Notifications/Types/Truncation.antt =====
-- Cutting a text to a number of bytes (types.rs).
use bridgeos.Prelude.{
  ltb, if◌then◌else◌, Bool-cases, Str, char_len, str_len, ℕ, zero, suc, ◌-◌, ◌≤◌, ◌≡◌, refl, sym,
  ◌∙◌, inl, inr, true, false, [], ◌∷◌, ◌++◌, arith,
}
use bridgeos.Notifications.Types.{is_char_boundary, truncate, walk_back, truncate_str_bytes}

is_char_boundary-zero : (s : Str) → is_char_boundary s 0 ≡ true
unfolding is_char_boundary
is_char_boundary-zero [] = refl
is_char_boundary-zero (c ∷ s) = refl

-- Between two boundaries the cut is the same.
truncate-inside :
    (s : Str) (n : ℕ) → is_char_boundary s (suc n) ≡ false → truncate s (suc n) ≡ truncate s n
unfolding is_char_boundary truncate
truncate-inside [] n h = refl
truncate-inside (c ∷ s) n h = ground (
  arith,
  h,
  is_char_boundary-zero s,
  truncate-inside s (n - char_len c),
  λ (l : char_len c ≤ n). later l,
)
  where
    later : char_len c ≤ n → suc n - char_len c ≡ suc (n - char_len c)
    later l = omega arith

truncate-walk_back : (s : Str) (n : ℕ) → truncate s (walk_back s n) ≡ truncate s n
unfolding walk_back
truncate-walk_back s zero = refl
truncate-walk_back s (suc n) = elim (Bool-cases (is_char_boundary s (suc n))) [
  | inl here ↦ rw here refl
  | inr inside ↦ rw inside (truncate-walk_back s n ∙ sym (truncate-inside s n inside))
]

-- What is left out.
abbrev dropped : Str → ℕ → Str
dropped [] n = []
dropped (c ∷ s) n =
    let rest = dropped s (n - char_len c) in if ltb n (char_len c) then c ∷ s else rest

truncate-dropped : (s : Str) (n : ℕ) → truncate s n ++ dropped s n ≡ s
unfolding truncate
truncate-dropped [] n = refl
truncate-dropped (c ∷ s) n = ground (arith, truncate-dropped s (n - char_len c))

str_len-truncate : (s : Str) (n : ℕ) → str_len (truncate s n) ≤ n
unfolding truncate str_len
str_len-truncate [] n = omega arith
str_len-truncate (c ∷ s) n = ground (arith, str_len-truncate s (n - char_len c))

str_len-truncate_longest :
    (p q : Str) (n : ℕ) → str_len p ≤ n → str_len p ≤ str_len (truncate (p ++ q) n)
unfolding truncate str_len
str_len-truncate_longest [] q n h = omega arith
str_len-truncate_longest (c ∷ p) q n h =
    ground (arith, h, str_len-truncate_longest p q (n - char_len c))

truncate-whole : (s : Str) (n : ℕ) → str_len s ≤ n → truncate s n ≡ s
unfolding truncate str_len
truncate-whole [] n h = refl
truncate-whole (c ∷ s) n h = ground (arith, h, truncate-whole s (n - char_len c))

truncate_str_bytes-truncate : (s : Str) (n : ℕ) → truncate_str_bytes s n ≡ truncate s n
unfolding truncate_str_bytes
truncate_str_bytes-truncate s n = ground (arith, truncate-whole s n, truncate-walk_back s n)

-- Cutting a text to `n` bytes leaves a beginning of the text, of at most `n` bytes, and no beginning
-- of the text within `n` bytes is longer.
pub truncate_str_bytes-longest :
    (s : Str) (n : ℕ)
    → ((rest : Str) × (truncate_str_bytes s n ++ rest ≡ s))
      × (str_len (truncate_str_bytes s n) ≤ n)
      × ((p q : Str) → p ++ q ≡ s → str_len p ≤ n → str_len p ≤ str_len (truncate_str_bytes s n))
truncate_str_bytes-longest s n = rw (truncate_str_bytes-truncate s n) (
  (dropped s n, truncate-dropped s n),
  str_len-truncate s n,
  λ p q e h. rw (sym e) (str_len-truncate_longest p q n h),
)
