-- ===== src/Memory/Words.antt =====
-- A word in the memory of memory.c as the sum of its four bytes, in either byte order.
use arm_simulator.Base.{
  ℕ, ◌+◌, ◌*◌, ◌^◌, ◌≤◌, ◌<◌, ◌≡◌, refl, arith, bit_or, shl32, List, AllBelow, AllBelow-get_or, u32,
  ap, ◌≢◌, ==_ne,
}
use arm_simulator.Base.Bits.{bit_or_fields, zero-bit_or}
use arm_simulator.Memory.{word_of, byte_at}

-- `x | y` is a sum where `x` is a multiple of 2^k and `y` is below it.
or-eq-add : (k q x y : ℕ) → x ≡ q * 2 ^ k → y < 2 ^ k → bit_or x y ≡ x + y
or-eq-add k q x y e h = rw e (bit_or_fields k q y h)

-- Four bytes or-ed into their places, the highest first.
module _ (b3 b2 b1 b0 : ℕ) (h3 : b3 < 256) (h2 : b2 < 256) (h1 : b1 < 256) (h0 : b0 < 256) where
  one_byte : bit_or 0 (shl32 b3 24) ≡ b3 * 2 ^ 24
  one_byte = omega (arith, zero-bit_or (shl32 b3 24))

  two_bytes : bit_or (bit_or 0 (shl32 b3 24)) (shl32 b2 16) ≡ (b3 * 256 + b2) * 2 ^ 16
  two_bytes =
      rw one_byte (omega (arith, or-eq-add 24 b3 (b3 * 2 ^ 24) (shl32 b2 16) refl (omega arith)))

  three_bytes :
      bit_or (bit_or (bit_or 0 (shl32 b3 24)) (shl32 b2 16)) (shl32 b1 8)
      ≡ ((b3 * 256 + b2) * 256 + b1) * 2 ^ 8
  three_bytes =
      let q = b3 * 256 + b2 in
      rw two_bytes (omega (arith, or-eq-add 16 q (q * 2 ^ 16) (shl32 b1 8) refl (omega arith)))

  pub pack :
      bit_or (bit_or (bit_or (bit_or 0 (shl32 b3 24)) (shl32 b2 16)) (shl32 b1 8)) (shl32 b0 0)
      ≡ b3 * 2 ^ 24 + b2 * 2 ^ 16 + b1 * 2 ^ 8 + b0
  pack =
      let q = (b3 * 256 + b2) * 256 + b1 in
      rw three_bytes (omega (arith, or-eq-add 8 q (q * 2 ^ 8) (shl32 b0 0) refl (omega arith)))

-- The bytes at four consecutive addresses, as numbers.
module _ (bytes : List ℕ) (address : ℕ) (a : AllBelow 256 bytes) (fits : address + 3 < 2 ^ 32) where
  byte_lt : (i : ℕ) → byte_at bytes i < 256
  byte_lt i = AllBelow-get_or 256 bytes i 0 (omega arith) a

  no_wrap : (i : ℕ) → i ≤ 3 → byte_at bytes (u32 (address + i)) ≡ byte_at bytes (address + i)
  no_wrap i le = ap (byte_at bytes) (omega arith)

  first : byte_at bytes (u32 (address + 0)) ≡ byte_at bytes address
  first = ap (byte_at bytes) (omega arith)

  pub word_of-little :
      word_of bytes address 0
      ≡ byte_at bytes (address + 3) * 2 ^ 24
        + byte_at bytes (address + 2) * 2 ^ 16
        + byte_at bytes (address + 1) * 2 ^ 8
        + byte_at bytes address
  unfolding word_of
  word_of-little = omega (
    arith,
    pack (byte_at bytes (u32 (address + 3))) (byte_at bytes (u32 (address + 2)))
        (byte_at bytes (u32 (address + 1))) (byte_at bytes (u32 (address + 0))) (byte_lt _)
        (byte_lt _) (byte_lt _) (byte_lt _),
    no_wrap 1 (omega arith),
    no_wrap 2 (omega arith),
    no_wrap 3 (omega arith),
    first,
  )

  pub word_of-big :
      (be : ℕ)
      → be ≢ 0
      → word_of bytes address be
        ≡ byte_at bytes address * 2 ^ 24
          + byte_at bytes (address + 1) * 2 ^ 16
          + byte_at bytes (address + 2) * 2 ^ 8
          + byte_at bytes (address + 3)
  unfolding word_of
  word_of-big be ne = rw (==_ne be 0 ne) (
      omega (
        arith,
        pack (byte_at bytes (u32 (address + 0))) (byte_at bytes (u32 (address + 1)))
            (byte_at bytes (u32 (address + 2))) (byte_at bytes (u32 (address + 3))) (byte_lt _)
            (byte_lt _) (byte_lt _) (byte_lt _),
        no_wrap 1 (omega arith),
        no_wrap 2 (omega arith),
        no_wrap 3 (omega arith),
        first,
      ))
