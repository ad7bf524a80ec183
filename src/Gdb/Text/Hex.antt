-- ===== src/Gdb/Text/Hex.antt =====
-- `%x` of `sscanf` on what %02x and %08x of `snprintf` print.
use arm_simulator.Base.{
  ℕ, suc, ◌+◌, ◌*◌, ◌/◌, ◌%◌, ◌^◌, ◌<◌, ◌≡◌, refl, arith, u32, ◌==◌, ◌||◌, false, Option, some,
  List, [], ◌∷◌, ◌++◌, ◌∙◌, ap,
}
use arm_simulator.Gdb.Text.{
  hex_digit, hex_text, hex_value, is_space, skip_space, scan_digits, saturate, scan_number,
  scan_prefix, scan_signed, scan_hex, stored,
}

module _ (d : ℕ) (h : d < 16) where
  hex_value-hex_digit : hex_value (hex_digit d) ≡ some d
  unfolding hex_value hex_digit
  hex_value-hex_digit = ground arith

  not_space : is_space (hex_digit d) ≡ false
  unfolding is_space hex_digit
  not_space = ground arith

  not_minus : (hex_digit d == b'-') ≡ false
  unfolding hex_digit
  not_minus = ground arith

  not_plus : (hex_digit d == b'+') ≡ false
  unfolding hex_digit
  not_plus = ground arith

  not_x : (hex_digit d == b'x' || hex_digit d == b'X') ≡ false
  unfolding hex_digit
  not_x = ground arith

-- Two digits begin a number without blanks, sign or prefix.
module _ (w a b : ℕ) (s : List ℕ) (ha : a < 16) (hb : b < 16) where
  abbrev text : List ℕ
  text = hex_digit a ∷ hex_digit b ∷ s

  abbrev read : ℕ × List ℕ
  read = scan_digits (suc (suc w)) 0 text

  scan_number-digits : scan_number (suc (suc w)) text ≡ some (saturate read.0, read.1)
  unfolding scan_number
  scan_number-digits = rw (hex_value-hex_digit a ha, scan_number) refl

  scan_prefix-digits : scan_prefix (suc (suc w)) text ≡ some (saturate read.0, read.1)
  unfolding scan_prefix
  scan_prefix-digits = rw (not_x b hb) (ground (arith, scan_number-digits))

  scan_signed-digits : scan_signed (suc (suc w)) text ≡ some (saturate read.0, read.1)
  unfolding scan_signed
  scan_signed-digits = rw (not_minus a ha) (rw (not_plus a ha) scan_prefix-digits)

  skip_space-digits : skip_space text ≡ text
  unfolding skip_space
  skip_space-digits = rw (not_space a ha) refl

  scan_hex-digits : scan_hex (suc (suc w)) text ≡ some (u32 (saturate read.0), read.1)
  unfolding scan_hex stored
  scan_hex-digits = rw skip_space-digits (rw scan_signed-digits refl)

-- One digit read.
scan_digits-suc :
    (w value d : ℕ) (s : List ℕ)
    → d < 16
    → scan_digits (suc w) value (hex_digit d ∷ s) ≡ scan_digits w (value * 16 + d) s
unfolding scan_digits
scan_digits-suc w value d s h = rw (hex_value-hex_digit d h, scan_digits) refl

-- What was read, where it is below 2^32.
found :
    (value : ℕ) (rest : List ℕ) (read : ℕ × List ℕ)
    → value < 2 ^ 32
    → read ≡ (value, rest)
    → ◌≡◌ {A = Option (ℕ × List ℕ)} (some (u32 (saturate read.0), read.1)) (some (value, rest))
unfolding saturate
found value rest read h e = rw e (ground arith)

-- %02x is read back.
pub scan_hex-two : (value : ℕ) → value < 2 ^ 8 → scan_hex 2 (hex_text 2 value) ≡ some (value, [])
unfolding hex_text scan_digits
scan_hex-two value h =
    let d1 = value / 16 % 16 in
    let d0 = value / 1 % 16 in
    let nothing : List ℕ = [] in
    let whole : (0 * 16 + d1) * 16 + d0 ≡ value = omega arith in
    scan_hex-digits 0 d1 d0 [] (omega arith) (omega arith)
    ∙ found value [] _ (omega arith) (
        scan_digits-suc 1 0 d1 _ (omega arith)
        ∙ scan_digits-suc 0 (0 * 16 + d1) d0 [] (omega arith)
        ∙ ap (λ (v : ℕ). (v, nothing)) whole)

-- %08x is read back, whatever follows.
pub scan_hex-eight :
    (value : ℕ) (rest : List ℕ)
    → value < 2 ^ 32
    → scan_hex 8 (hex_text 8 value ++ rest) ≡ some (value, rest)
unfolding hex_text scan_digits
scan_hex-eight value rest h =
    let d7 = value / 268435456 % 16 in
    let d6 = value / 16777216 % 16 in
    let d5 = value / 1048576 % 16 in
    let d4 = value / 65536 % 16 in
    let d3 = value / 4096 % 16 in
    let d2 = value / 256 % 16 in
    let d1 = value / 16 % 16 in
    let d0 = value / 1 % 16 in
    let v6 = (0 * 16 + d7) * 16 + d6 in
    let v4 = (v6 * 16 + d5) * 16 + d4 in
    let v2 = (v4 * 16 + d3) * 16 + d2 in
    let whole : (v2 * 16 + d1) * 16 + d0 ≡ value = omega arith in
    scan_hex-digits 6 d7 d6 _ (omega arith) (omega arith)
    ∙ found value rest _ h (
        scan_digits-suc 7 0 d7 _ (omega arith)
        ∙ scan_digits-suc 6 (0 * 16 + d7) d6 _ (omega arith)
        ∙ scan_digits-suc 5 v6 d5 _ (omega arith)
        ∙ scan_digits-suc 4 (v6 * 16 + d5) d4 _ (omega arith)
        ∙ scan_digits-suc 3 v4 d3 _ (omega arith)
        ∙ scan_digits-suc 2 (v4 * 16 + d3) d2 _ (omega arith)
        ∙ scan_digits-suc 1 v2 d1 _ (omega arith)
        ∙ scan_digits-suc 0 (v2 * 16 + d1) d0 rest (omega arith)
        ∙ ap (λ (v : ℕ). (v, rest)) whole)
