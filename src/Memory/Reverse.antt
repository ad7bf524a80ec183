-- ===== src/Memory/Reverse.antt =====
-- memory.c and reverse_4 of util.h: the two byte orders of a word.
use arm_simulator.Base.{
  ℕ, ◌+◌, ◌-◌, ◌*◌, ◌^◌, ◌<◌, ◌≡◌, ◌≢◌, arith, bit_or, bit_and, shl32, shr32, List, length, Option,
  AllBelow-get_or, ◌∙◌, ap, lt→leb, leb, false, sym,
}
use arm_simulator.Base.Bits.{bit_and_mask, zero-bit_or}
use arm_simulator.Constants.{success}
use arm_simulator.Util.{reverse_4}
use arm_simulator.Memory.{Memory, memory_read_word, byte_at, word_of}
use arm_simulator.Memory.Holds.{Holds, read_word-Holds}
use arm_simulator.Memory.Words.{pack, word_of-little, word_of-big}

reverse_4-bytes :
    (b3 b2 b1 b0 : ℕ)
    → b3 < 256
    → b2 < 256
    → b1 < 256
    → b0 < 256
    → reverse_4 (b3 * 2 ^ 24 + b2 * 2 ^ 16 + b1 * 2 ^ 8 + b0)
      ≡ b0 * 2 ^ 24 + b1 * 2 ^ 16 + b2 * 2 ^ 8 + b3
unfolding reverse_4
reverse_4-bytes b3 b2 b1 b0 h3 h2 h1 h0 =
    let x = b3 * 2 ^ 24 + b2 * 2 ^ 16 + b1 * 2 ^ 8 + b0 in
    let e0 : bit_and x 0xFF ≡ b0 = omega (arith, bit_and_mask 8 x) in
    let e1 : bit_and (shr32 x 8) 0xFF ≡ b1 = omega (arith, bit_and_mask 8 (shr32 x 8)) in
    let e2 : bit_and (shr32 x 16) 0xFF ≡ b2 = omega (arith, bit_and_mask 8 (shr32 x 16)) in
    let e3 : bit_and (shr32 x 24) 0xFF ≡ b3 = omega (arith, bit_and_mask 8 (shr32 x 24)) in
    let low : shl32 b3 0 ≡ b3 = omega arith in
    rw (e0, e1, e2, e3)
      (ap (λ (y : ℕ). bit_or (bit_or (bit_or y (shl32 b1 16)) (shl32 b2 8)) b3)
          (sym (zero-bit_or (shl32 b0 24)))
        ∙ ap (bit_or (bit_or (bit_or (bit_or 0 (shl32 b0 24)) (shl32 b1 16)) (shl32 b2 8)))
            (sym low)
        ∙ pack b0 b1 b2 b3 h0 h1 h2 h3)

-- A word inside the memory that is read in big-endian order is the word that is read there in
-- little-endian order with its four bytes reversed.
pub read_word-reverse_4 :
    {mem : Option Memory} {bytes : List ℕ} (address value be : ℕ)
    → Holds mem bytes
    → address + 3 < length bytes
    → be ≢ 0
    → memory_read_word mem address value be
      ≡ (success, reverse_4 (memory_read_word mem address value 0).1)
read_word-reverse_4 {mem} {bytes} address value be h fits big =
    let byte = λ (i : ℕ). AllBelow-get_or 256 bytes i 0 (omega arith) h.are_bytes in
    let fits32 : address + 3 < 2 ^ 32 = omega (arith, h.at_most) in
    rw (reads be, reads 0)
      (ap (λ (w : ℕ). (success, w))
        (word_of-big bytes address h.are_bytes fits32 be big
          ∙ sym (
              reverse_4-bytes (byte_at bytes (address + 3)) (byte_at bytes (address + 2))
                (byte_at bytes (address + 1)) (byte_at bytes address) (byte _) (byte _) (byte _)
                (byte _))
          ∙ ap reverse_4 (sym (word_of-little bytes address h.are_bytes fits32))))
  where
    passes : leb (length bytes - 3) address ≡ false
    passes = lt→leb _ _ (omega arith)

    reads :
        (order : ℕ)
        → memory_read_word mem address value order ≡ (success, word_of bytes address order)
    reads order = rw (read_word-Holds h address value order) (rw passes)
