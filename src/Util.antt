-- ===== src/Util.antt =====
-- util.h and util.c: bit fields, arithmetic shift right and rotation of a uint32_t.
pub mod Bounds
pub mod Fields
pub mod Shifts
pub mod Inserted
use arm_simulator.Base.{
  ℕ, ◌+◌, ◌-◌, ◌*◌, ◌/◌, ◌%◌, ◌^◌, bit_and, bit_or, u32, not32, shl32, shr32, ltb, ◌==◌,
  if◌then◌else◌,
}

abbrev pub get_bit : ℕ → ℕ → ℕ
get_bit x i = x / 2 ^ i % 2

unfoldable pub set_bit : ℕ → ℕ → ℕ
set_bit x i = bit_or x (shl32 1 i)

unfoldable pub clr_bit : ℕ → ℕ → ℕ
clr_bit x i = bit_and x (not32 (shl32 1 i))

-- `(x >> l) & ~((~0 >> (h - l + 1)) << (h - l + 1))`
unfoldable pub get_bits : ℕ → ℕ → ℕ → ℕ
get_bits x h l =
    let width = h - l + 1 in bit_and (shr32 x l) (not32 (shl32 (shr32 0xFFFFFFFF width) width))

-- C leaves `x << k` undefined at `k ≥ 32`; `wide x k` is what the target gives there.
module _ (wide : ℕ → ℕ → ℕ) where
  abbrev pub shl : ℕ → ℕ → ℕ
  shl x k = if ltb k 32 then shl32 x k else wide x k

  unfoldable pub asr : ℕ → ℕ → ℕ
  asr value shift =
      bit_or (shr32 value shift) (if get_bit value 31 == 1 then shl 0xFFFFFFFF (32 - shift) else 0)

  unfoldable pub ror : ℕ → ℕ → ℕ
  ror value rotation = bit_or (shr32 value rotation) (shl value (32 - rotation))

-- The bytes of a word in the other order.
unfoldable pub reverse_4 : ℕ → ℕ
reverse_4 x =
    bit_or
      (bit_or (bit_or (shl32 (bit_and x 0xFF) 24) (shl32 (bit_and (shr32 x 8) 0xFF) 16))
        (shl32 (bit_and (shr32 x 16) 0xFF) 8))
      (bit_and (shr32 x 24) 0xFF)

-- For `h < 31`: `(~0) >> l` on an int is ~0 again.
unfoldable pub set_bits : ℕ → ℕ → ℕ → ℕ → ℕ
set_bits x h l bits =
    let low = bit_and x (not32 (shl32 0xFFFFFFFF l)) in
    let high = bit_and x (shl32 (shr32 0xFFFFFFFF (h + 1)) (h + 1)) in
    bit_or (bit_or low high) (shl32 bits l)

-- The bytes of a uint16_t in the other order.
unfoldable pub reverse_2 : ℕ → ℕ
reverse_2 x = bit_or (shl32 (bit_and x 0xFF) 8) (bit_and (shr32 x 8) 0xFF)

-- At the first byte that the host stores of a uint32_t of value 1.
unfoldable pub is_big_endian : ℕ → ℕ
is_big_endian first_byte = if first_byte == 0 then 1 else 0
