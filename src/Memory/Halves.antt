-- ===== src/Memory/Halves.antt =====
-- memory.c: half-words after writes of words and half-words.
use arm_simulator.Base.{
  ℕ, ◌+◌, ◌-◌, ◌*◌, ◌/◌, ◌%◌, ◌^◌, ◌≤◌, ◌<◌, ◌≡◌, refl, arith, List, length, set, get_or-set_self,
  get_or-set_ne, length-set, ap, Option, leb, lt→leb, if◌then◌else◌, inl, inr, u8, u32, shl32,
  AllBelow, AllBelow-get_or, ◌==◌, Bool-cases, ◌∙◌, false,
}
use arm_simulator.Base.Bits.{bit_or_fields, bit_or_fields_left, zero-bit_or}
use arm_simulator.Constants.{success}
use arm_simulator.Memory.{
  Memory, with_bytes, put_word, put_half, half_of, byte_at, memory_read_half, memory_write_half,
  memory_write_word,
}
use arm_simulator.Memory.Holds.{Holds, read_half-Holds, write_half-Holds}
use arm_simulator.Memory.RoundTrip.{stored, after_0, after_1, after_2, after_3, written}
use arm_simulator.Memory.Bounds.{put_word-Holds, put_half-Holds, length-put_half, length-put_word}

-- A half-word as the sum of its two bytes.
module _ (bytes : List ℕ) (address : ℕ) (a : AllBelow 256 bytes) (fits : address + 1 < 2 ^ 32) where
  half_of-bytes :
      (be : ℕ)
      → half_of bytes address be ≡ (
          if be == 0
          then byte_at bytes (address + 1) * 2 ^ 8 + byte_at bytes address
          else byte_at bytes address * 2 ^ 8 + byte_at bytes (address + 1))
  unfolding half_of
  half_of-bytes be =
      let b0 = byte_at bytes address in
      let b1 = byte_at bytes (address + 1) in
      let l0 : b0 < 256 = AllBelow-get_or 256 bytes address 0 (omega arith) a in
      let l1 : b1 < 256 = AllBelow-get_or 256 bytes (address + 1) 0 (omega arith) a in
      let next : u32 (address + 1) ≡ address + 1 = omega arith in
      let s0 : shl32 b0 8 ≡ b0 * 2 ^ 8 = omega arith in
      let s1 : shl32 b1 8 ≡ b1 * 2 ^ 8 = omega arith in
      rw
        (
          next,
          s0,
          s1,
          zero-bit_or b0,
          zero-bit_or (b0 * 2 ^ 8),
          bit_or_fields_left 8 b1 b0 l0,
          bit_or_fields 8 b0 b1 l1,
        )
        refl

module _ (bytes : List ℕ) (address value be : ℕ) (fits : address + 1 < length bytes)
    (small : length bytes ≤ 2 ^ 32) where
  abbrev halved : List ℕ
  halved = put_half bytes address value be

  two-bytes :
      (u w : ℕ)
      → let xs = set (set bytes address u) (address + 1) w in
        (byte_at xs address ≡ u) × (byte_at xs (address + 1) ≡ w)
  two-bytes u w =
      let xs = set bytes address u in
      let l : length xs ≡ length bytes = length-set bytes address u in
      (
        get_or-set_ne xs (address + 1) address w 0 (omega arith)
            ∙ get_or-set_self bytes address u 0 (omega arith),
        get_or-set_self xs (address + 1) w 0 (omega (arith, l)),
      )

  halved-bytes :
      (byte_at halved address ≡ (if be == 0 then value % 256 else value / 256 % 256))
      × (byte_at halved (address + 1) ≡ (if be == 0 then value / 256 % 256 else value % 256))
  unfolding put_half
  halved-bytes =
      let next : u32 (address + 1) ≡ address + 1 = omega arith in
      elim (Bool-cases (be == 0)) [
        | inl little ↦ rw (next, little) (two-bytes (u8 value) (u8 (value / 2 ^ 8)))
        | inr big ↦ rw (next, big) (two-bytes (u8 (value / 2 ^ 8)) (u8 value))
      ]

  half_of-put_half : value < 2 ^ 16 → AllBelow 256 halved → half_of halved address be ≡ value
  half_of-put_half v a =
      let (low, high) = halved-bytes in
      half_of-bytes halved address a (omega arith) be ∙ rw (low, high) (ground arith)

-- The two halves of a word that was put.
module _ (bytes : List ℕ) (address value be : ℕ) (fits : address + 3 < length bytes)
    (small : length bytes ≤ 2 ^ 32) (v : value < 2 ^ 32)
    (a : AllBelow 256 (put_word bytes address value be)) where
  word_halves :
      (half_of (put_word bytes address value be) address be
        ≡ (if be == 0 then value % 2 ^ 16 else value / 2 ^ 16))
      × (half_of (put_word bytes address value be) (address + 2) be
          ≡ (if be == 0 then value / 2 ^ 16 else value % 2 ^ 16))
  word_halves =
      let xs = put_word bytes address value be in
      let three : address + 2 + 1 ≡ address + 3 = omega arith in
      let b0 = after_0 bytes address value be fits small in
      let b1 = after_1 bytes address value be fits small in
      let b2 = after_2 bytes address value be fits small in
      let b3 = after_3 bytes address value be fits small in
      (
        half_of-bytes xs address a (omega arith) be ∙ rw (b0, b1) (sums be),
        half_of-bytes xs (address + 2) a (omega arith) be ∙ rw (three, b2, b3) (sums' be),
      )
    where
      sums :
          (be : ℕ)
          → (if be == 0
              then stored value be 1 * 2 ^ 8 + stored value be 0
              else stored value be 0 * 2 ^ 8 + stored value be 1)
            ≡ (if be == 0 then value % 2 ^ 16 else value / 2 ^ 16)
      sums be = ground arith

      sums' :
          (be : ℕ)
          → (if be == 0
              then stored value be 3 * 2 ^ 8 + stored value be 2
              else stored value be 2 * 2 ^ 8 + stored value be 3)
            ≡ (if be == 0 then value / 2 ^ 16 else value % 2 ^ 16)
      sums' be = ground arith

module _ {mem : Option Memory} {bytes : List ℕ} (address value be : ℕ) (h : Holds mem bytes) where
  -- A half-word that is written inside the memory is read back in the same byte order.
  pub read_half-write_half :
      (old : ℕ)
      → address + 1 < length bytes
      → value < 2 ^ 16
      → let (code, mem') = memory_write_half mem address value be in
        (code ≡ success) × (memory_read_half mem' address old be ≡ (success, value))
  read_half-write_half old fits v =
      let guard : leb (length bytes - 1) address ≡ false = lt→leb _ _ (omega arith) in
      let h' = put_half-Holds h address value be in
      let wrote : memory_write_half mem address value be
          ≡ (success, with_bytes (put_half bytes address value be) (length bytes)) =
        write_half-Holds h address value be ∙ rw guard refl in
      rw wrote (
        refl,
        rw (read_half-Holds h') (
            rw (length-put_half h address value be) (
              rw guard (
                ap (λ (w : ℕ). (success, w))
                  (half_of-put_half bytes address value be fits h.at_most v h'.are_bytes)))),
      )

  -- A half-word that is read at either half of a word that was written inside the memory is that
  -- half of the word: the low one is first in little-endian order, the high one in the other.
  pub read_half-write_word :
      (old : ℕ)
      → address + 3 < length bytes
      → value < 2 ^ 32
      → let mem' = (memory_write_word mem address value be).1 in
        (memory_read_half mem' address old be
          ≡ (success, if be == 0 then value % 2 ^ 16 else value / 2 ^ 16))
        × (memory_read_half mem' (address + 2) old be
            ≡ (success, if be == 0 then value / 2 ^ 16 else value % 2 ^ 16))
  read_half-write_word old fits v =
      let after = put_word bytes address value be in
      let h' = put_word-Holds h address value be in
      let l : length after ≡ length bytes = length-put_word h address value be in
      let first : leb (length after - 1) address ≡ false = lt→leb _ _ (omega (arith, l)) in
      let second : leb (length after - 1) (address + 2) ≡ false = lt→leb _ _ (omega (arith, l)) in
      let (here, there) = word_halves bytes address value be fits h.at_most v h'.are_bytes in
      rw (written address value be h fits) (
        read_half-Holds h' address old be ∙ rw first (ap (λ (w : ℕ). (success, w)) here),
        read_half-Holds h' (address + 2) old be ∙ rw second (ap (λ (w : ℕ). (success, w)) there),
      )
