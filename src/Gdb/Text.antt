-- ===== src/Gdb/Text.antt =====
-- What gdb_protocol.c uses of the C library on text: `snprintf` with %02x and %08x, `sscanf` with
-- %x, `atoi`, `strcmp`, `strncmp` and `index`. A text is the list of its bytes, without the final
-- NUL; it ends at the first NUL within it.
pub mod Hex
use arm_simulator.Base.{
  min, ℕ, zero, suc, ◌+◌, ◌-◌, ◌*◌, ◌/◌, ◌%◌, ◌^◌, u32, ltb, leb, ◌==◌, if◌then◌else◌, ◌&&◌, ◌||◌,
  Bool, true, false, Option, none, some, List, [], ◌∷◌, ◌++◌,
}
use Prim.Native.Char.{code}
use Prim.Native.String.{String}

-- The bytes of a literal.
abbrev pub codes : String → List ℕ
codes String.[] = []
codes (String.◌∷◌ c s) = code c ∷ codes s

-- A hexadecimal digit, in lower case.
unfoldable pub hex_digit : ℕ → ℕ
hex_digit d = if ltb d 10 then b'0' + d else b'a' + (d - 10)

-- `%0kx` of a value below 16^k.
unfoldable pub hex_text : ℕ → ℕ → List ℕ
unfolding hex_digit
hex_text zero value = []
hex_text (suc k) value = hex_digit (value / 16 ^ k % 16) ∷ hex_text k value

-- The value of a hexadecimal digit.
unfoldable pub hex_value : ℕ → Option ℕ
hex_value c =
    if leb b'0' c && leb c b'9'
    then some (c - b'0')
    else if leb b'a' c && leb c b'f'
    then some (c - b'a' + 10)
    else if leb b'A' c && leb c b'F'
    then some (c - b'A' + 10)
    else none

-- `isspace`
unfoldable pub is_space : ℕ → Bool
is_space c = c == 0x20 || (leb 0x09 c && leb c 0x0D)

unfoldable pub skip_space : List ℕ → List ℕ
skip_space [] = []
skip_space (c ∷ s) = let rest = skip_space s in if is_space c then rest else c ∷ s

-- The digits that %x reads, `width` at most: the number, and the rest. A number of 2^64 or more is
-- cut to 2^64 - 1, as in `strtoul`.
unfoldable pub scan_digits : ℕ → ℕ → List ℕ → ℕ × List ℕ
scan_digits zero value s = (value, s)
scan_digits (suc width) value [] = (value, [])
scan_digits (suc width) value (c ∷ s) = elim (hex_value c) [
  | none ↦ (value, c ∷ s)
  | some d ↦ scan_digits width (value * 16 + d) s
]

unfoldable pub saturate : ℕ → ℕ
saturate value = if ltb value (2 ^ 64) then value else 2 ^ 64 - 1

-- The digits after the sign and the prefix; at least one is wanted.
unfoldable pub scan_number : ℕ → List ℕ → Option (ℕ × List ℕ)
unfolding saturate
scan_number zero s = none
scan_number (suc width) [] = none
scan_number (suc width) (c ∷ s) = elim (hex_value c) [
  | none ↦ none
  | some d ↦ let (value, rest) = scan_digits (suc width) 0 (c ∷ s) in some (saturate value, rest)
]

-- An optional "0x" before the digits; "0x" with no digit after it is no number.
unfoldable pub scan_prefix : ℕ → List ℕ → Option (ℕ × List ℕ)
scan_prefix width (a ∷ b ∷ s) =
    if a == b'0' && (b == b'x' || b == b'X') && leb 2 width
    then scan_number (width - 2) s
    else scan_number width (a ∷ b ∷ s)
scan_prefix width s = scan_number width s

-- `%x` with a width, into an unsigned int: blanks, a sign, a prefix, digits.
unfoldable pub scan_signed : ℕ → List ℕ → Option (ℕ × List ℕ)
scan_signed width [] = none
scan_signed width (c ∷ s) =
    if c == b'-'
    then elim (scan_prefix (width - 1) s) [
      | none ↦ none
      | some (value, rest) ↦ some ((2 ^ 64 - value) % 2 ^ 64, rest)
    ]
    else if c == b'+'
    then scan_prefix (width - 1) s
    else scan_prefix width (c ∷ s)

-- The number as it is stored in an unsigned int.
unfoldable pub stored : Option (ℕ × List ℕ) → Option (ℕ × List ℕ)
stored none = none
stored (some (value, rest)) = some (u32 value, rest)

unfoldable pub scan_hex : ℕ → List ℕ → Option (ℕ × List ℕ)
scan_hex width s = stored (scan_signed width (skip_space s))

-- A character that the format names.
unfoldable pub scan_char : ℕ → List ℕ → Option (List ℕ)
scan_char c [] = none
scan_char c (d ∷ s) = if c == d then some s else none

-- `atoi`, into an unsigned int: `strtol`, which stops at the ends of a long, of 64 bits, and then the
-- low 32 bits.
unfoldable pub decimal_digits : ℕ → List ℕ → ℕ
decimal_digits value [] = value
decimal_digits value (c ∷ s) =
    let more = decimal_digits (value * 10 + (c - b'0')) s in
    if leb b'0' c && leb c b'9' then more else value

unfoldable pub signed_decimal : List ℕ → ℕ
unfolding decimal_digits
signed_decimal [] = 0
signed_decimal (c ∷ s) =
    if c == b'-'
    then (2 ^ 32 - min (decimal_digits 0 s) (2 ^ 63) % 2 ^ 32) % 2 ^ 32
    else if c == b'+'
    then u32 (min (decimal_digits 0 s) (2 ^ 63 - 1))
    else u32 (min (decimal_digits 0 (c ∷ s)) (2 ^ 63 - 1))

unfoldable pub atoi : List ℕ → ℕ
unfolding skip_space signed_decimal
atoi s = signed_decimal (skip_space s)

-- The text up to its first NUL.
unfoldable pub c_string : List ℕ → List ℕ
c_string [] = []
c_string (c ∷ s) = if c == 0 then [] else c ∷ c_string s

-- `strcmp(s, t) == 0` for texts without NUL.
unfoldable pub text_equal : List ℕ → List ℕ → Bool
text_equal [] [] = true
text_equal (a ∷ s) (b ∷ t) = a == b && text_equal s t
text_equal s t = false

-- `strncmp(s, t, length of t) == 0`.
unfoldable pub starts_with : List ℕ → List ℕ → Bool
starts_with s [] = true
starts_with [] (b ∷ t) = false
starts_with (a ∷ s) (b ∷ t) = a == b && starts_with s t

-- `index(s, c) + 1`, as the number of bytes before that place; `none` where the text has no `c`.
unfoldable pub after_char : ℕ → List ℕ → Option ℕ
after_char c [] = none
after_char c (d ∷ s) =
    let further : Option ℕ = elim (after_char c s) [ none ↦ none | some k ↦ some (k + 1) ] in
    if c == d then some 1 else if d == 0 then none else further
