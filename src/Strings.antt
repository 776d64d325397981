-- ===== src/Strings.antt =====
-- What the program uses of Go's package `strings`, on the bytes of a string.
-- `trim_space` strips the white space of `unicode.IsSpace` from both ends: the ASCII ones, and the
-- UTF-8 forms of U+0085, U+00A0, U+1680, U+2000 to U+200A, U+2028, U+2029, U+202F, U+205F, U+3000.
-- `to_lower` folds ASCII, and the two other code points whose lower case is ASCII (U+0130 to `i`, U+212A to
-- `k`); it leaves the bytes of other code points, which no pattern and no name of the program holds.
pub mod Plain
use goqueue.Base.{
  leb, ◌==◌, if◌then◌else◌, length, Text, ℕ, zero, suc, ◌+◌, Bool, true, false, ◌&&◌, ◌||◌, Option,
  none, some, [], ◌∷◌, reverse,
}

abbrev pub is_ascii_space : ℕ → Bool
is_ascii_space c = c == 32 || leb 9 c && leb c 13

-- The second byte of a white space of two bytes.
abbrev is_space2 : ℕ → ℕ → Bool
is_space2 c d = c == 0xC2 && (d == 0x85 || d == 0xA0)

abbrev is_space3 : ℕ → ℕ → ℕ → Bool
is_space3 c d e =
    c == 0xE1 && d == 0x9A && e == 0x80
    || c == 0xE2 && d == 0x80 && (leb 0x80 e && leb e 0x8A || e == 0xA8 || e == 0xA9 || e == 0xAF)
    || c == 0xE2 && d == 0x81 && e == 0x9F
    || c == 0xE3 && d == 0x80 && e == 0x80

-- The text behind a white space at its head, or `none` where its head is no white space.
drop_space : Text → Option Text
drop_space [] = none
drop_space (c ∷ []) = if is_ascii_space c then some [] else none
drop_space (c ∷ d ∷ []) =
    if is_ascii_space c then some (d ∷ []) else if is_space2 c d then some [] else none
drop_space (c ∷ d ∷ e ∷ s) =
    if is_ascii_space c
    then some (d ∷ e ∷ s)
    else if is_space2 c d
    then some (e ∷ s)
    else if is_space3 c d e
    then some s
    else none

-- The same on the reversed bytes, for the end of a text.
drop_last_space : Text → Option Text
drop_last_space [] = none
drop_last_space (c ∷ []) = if is_ascii_space c then some [] else none
drop_last_space (d ∷ c ∷ []) =
    if is_ascii_space d then some (c ∷ []) else if is_space2 c d then some [] else none
drop_last_space (e ∷ d ∷ c ∷ s) =
    if is_ascii_space e
    then some (d ∷ c ∷ s)
    else if is_space2 d e
    then some (c ∷ s)
    else if is_space3 c d e
    then some s
    else none

-- The loop of a trim; each round drops a byte at least, so the length of the text is fuel enough.
trim_loop : (Text → Option Text) → ℕ → Text → Text
trim_loop drop_one zero s = s
trim_loop drop_one (suc fuel) s = elim (drop_one s) [
  | none ↦ s
  | some rest ↦ trim_loop drop_one fuel rest
]

unfoldable pub trim_space : Text → Text
unfolding trim_loop drop_space drop_last_space
trim_space s =
    let left = trim_loop drop_space (length s) s in
    reverse (trim_loop drop_last_space (length left) (reverse left))

-- The lower case of a byte that is ASCII.
abbrev pub lower_byte : ℕ → ℕ
lower_byte c = if leb b'A' c && leb c b'Z' then c + 32 else c

-- The lower case of the head, and the rest.
lower_head : ℕ → Text → ℕ × Text
lower_head c [] = (lower_byte c, [])
lower_head c (d ∷ []) = if c == 0xC4 && d == 0xB0 then (b'i', []) else (lower_byte c, d ∷ [])
lower_head c (d ∷ e ∷ s) =
    if c == 0xC4 && d == 0xB0
    then (b'i', e ∷ s)
    else if c == 0xE2 && d == 0x84 && e == 0xAA
    then (b'k', s)
    else (lower_byte c, d ∷ e ∷ s)

lower_loop : ℕ → Text → Text
lower_loop fuel [] = []
lower_loop zero (c ∷ s) = []
lower_loop (suc fuel) (c ∷ s) = let (b, rest) = lower_head c s in b ∷ lower_loop fuel rest

unfoldable pub to_lower : Text → Text
unfolding lower_loop lower_head
to_lower s = lower_loop (length s) s

-- `ContainsAny` for a set of ASCII characters.
unfoldable pub contains_any : (ℕ → Bool) → Text → Bool
contains_any set [] = false
contains_any set (c ∷ s) = set c || contains_any set s

-- A text that matches `^[first][rest]{0,max}$`.
all_bytes : (ℕ → Bool) → Text → Bool
all_bytes set [] = true
all_bytes set (c ∷ s) = set c && all_bytes set s

unfoldable pub matches : (first rest : ℕ → Bool) → ℕ → Text → Bool
unfolding all_bytes
matches first rest max [] = false
matches first rest max (c ∷ s) = first c && all_bytes rest s && leb (length s) max
