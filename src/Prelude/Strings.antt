-- ===== src/Prelude/Strings.antt =====
-- `String` and `&str`: lists of Unicode scalar values, with the lengths and bytes of their UTF-8 form.
use Prim.Native.Nat.{ℕ, ◌+◌, ◌/◌, ◌%◌}
use Prim.Native.Char.{code}
use Prim.Native.String.{String}
use mathlib.Core.Path.{◌≡◌, refl, sym, ap, ◌∙◌}
use mathlib.Core.Bool.{Bool, ◌&&◌, ◌||◌}
use mathlib.Core.List.{List, [], ◌∷◌, ◌++◌, map, reverse, append_assoc}
use bridgeos.Prelude.Tests.{ltb, leb, ◌==◌, if◌then◌else◌}
use bridgeos.Prelude.ByteStrings.{Bytes}

abbrev pub Str : Type 0
Str = List ℕ

-- The characters of a literal.
abbrev pub lit : String → Str
lit String.[] = []
lit (String.◌∷◌ c s) = code c ∷ lit s

-- The number of bytes of one character.
unfoldable pub char_len : ℕ → ℕ
char_len c = if ltb c 0x80 then 1 else if ltb c 0x800 then 2 else if ltb c 0x10000 then 3 else 4

-- `str::len`: a count of bytes.
unfoldable pub str_len : Str → ℕ
str_len [] = 0
str_len (c ∷ s) = char_len c + str_len s

abbrev tail_byte : ℕ → ℕ
tail_byte c = 0x80 + c % 64

unfoldable pub char_bytes : ℕ → Bytes
char_bytes c =
    if ltb c 0x80
    then c ∷ []
    else if ltb c 0x800
    then (0xc0 + c / 64) ∷ tail_byte c ∷ []
    else if ltb c 0x10000
    then (0xe0 + c / 4096) ∷ tail_byte (c / 64) ∷ tail_byte c ∷ []
    else (0xf0 + c / 262144) ∷ tail_byte (c / 4096) ∷ tail_byte (c / 64) ∷ tail_byte c ∷ []

-- `str::as_bytes`
unfoldable pub as_bytes : Str → Bytes
as_bytes [] = []
as_bytes (c ∷ s) = char_bytes c ++ as_bytes s

-- `char::is_whitespace`
unfoldable pub is_whitespace : ℕ → Bool
is_whitespace c =
    (leb 9 c && leb c 13)
    || c == 0x20
    || c == 0x85
    || c == 0xa0
    || c == 0x1680
    || (leb 0x2000 c && leb c 0x200a)
    || c == 0x2028
    || c == 0x2029
    || c == 0x202f
    || c == 0x205f
    || c == 0x3000

unfoldable pub trim_start : Str → Str
trim_start [] = []
trim_start (c ∷ s) = if is_whitespace c then trim_start s else c ∷ s

-- `str::trim`
unfoldable pub trim : Str → Str
trim s = reverse (trim_start (reverse (trim_start s)))

-- `str::to_ascii_lowercase`
unfoldable pub to_ascii_lowercase : Str → Str
to_ascii_lowercase = map (λ c. if leb 65 c && leb c 90 then c + 32 else c)

pub as_bytes-append : (s t : Str) → as_bytes (s ++ t) ≡ as_bytes s ++ as_bytes t
unfolding as_bytes
as_bytes-append [] t = refl
as_bytes-append (c ∷ s) t =
    ap (λ b. char_bytes c ++ b) (as_bytes-append s t)
    ∙ sym (append_assoc (char_bytes c) (as_bytes s) (as_bytes t))
