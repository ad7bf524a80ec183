-- ===== src/Memory.antt =====
-- memory.c: the simulated memory, with byte, half-word and word accesses in either byte order.
-- An address is a uint32_t, a size is a size_t of 64 bits. An out-parameter `uint8_t *value` is a
-- value passed in, and the value that it holds afterwards beside the status.
pub mod Holds
pub mod Bounds
pub mod Words
pub mod RoundTrip
pub mod Halves
pub mod Apart
pub mod Reverse
use arm_simulator.Base.{
  ℕ, zero, suc, ◌+◌, ◌-◌, ◌*◌, ◌/◌, ◌%◌, ◌^◌, bit_or, u8, u16, u32, shl32, leb, ◌==◌, if◌then◌else◌,
  get_or, set, Bool, true, false, Option, none, some, List,
}
use arm_simulator.Constants.{
  success, alloc_error, null_reference, data_corrupted, index_out_of_range,
}

-- `struct memory_data`; the array `data` is `bytes`, `none` where the pointer is null. A `memory`
-- is a pointer to it: an `Option Memory`.
pub record Memory : Type 0 where
  pub bytes : Option (List ℕ)
  pub size : ℕ

-- `_check_mem_integrity`: the status to return, or the array and its size.
pub data Check : Type 0 where
  failed : ℕ → Check
  intact : List ℕ → ℕ → Check

unfoldable pub check_mem_integrity : Option Memory → Check
check_mem_integrity none = failed null_reference
check_mem_integrity (some m) = elim m.bytes [
  | none ↦ failed data_corrupted
  | some bytes ↦ if m.size == 0 then failed data_corrupted else intact bytes m.size
]

-- `raise` leaves the process with a code.
pub data Created : Type 0 where
  created : Option Memory → Created
  exited : ℕ → Created

-- `structure` says whether the first `malloc` succeeds, and `space` is what the second returns.
unfoldable pub memory_create : Bool → Option (List ℕ) → ℕ → Created
memory_create structure space size =
    if size == 0
    then created none
    else if structure
    then elim space [
      | none ↦ exited alloc_error
      | some bytes ↦ created (some (record { bytes = some bytes; size = size }))
    ]
    else exited alloc_error

unfoldable pub memory_get_size : Option Memory → ℕ
memory_get_size none = 0
memory_get_size (some m) = elim m.bytes [ none ↦ 0 | some bytes ↦ m.size ]

-- `mem->size - k` wraps in a size_t.
abbrev pub sub_size : ℕ → ℕ → ℕ
sub_size size k = (size + 2 ^ 64 - k) % 2 ^ 64

-- `mem->data[i]`
abbrev pub byte_at : List ℕ → ℕ → ℕ
byte_at bytes i = get_or bytes i 0

-- Reads: `memory address value` to the status and the value then held.
unfoldable pub memory_read_byte : Option Memory → ℕ → ℕ → ℕ × ℕ
memory_read_byte mem address value = elim (check_mem_integrity mem) [
  | failed code ↦ (code, value)
  | intact bytes size ↦
      if leb size address then (index_out_of_range, value) else (success, byte_at bytes address)
]

unfoldable pub half_of : List ℕ → ℕ → ℕ → ℕ
half_of bytes address be =
    if be == 0
    then bit_or (bit_or 0 (byte_at bytes address)) (shl32 (byte_at bytes (u32 (address + 1))) 8)
    else bit_or (bit_or 0 (shl32 (byte_at bytes address) 8)) (byte_at bytes (u32 (address + 1)))

unfoldable pub memory_read_half : Option Memory → ℕ → ℕ → ℕ → ℕ × ℕ
memory_read_half mem address value be = elim (check_mem_integrity mem) [
  | failed code ↦ (code, value)
  | intact bytes size ↦
      if leb (sub_size size 1) address
      then (index_out_of_range, value)
      else (success, half_of bytes address be)
]

-- The two loops of `memory_read_word`, with the rounds left: `i` is `4 - left`, so that the byte
-- goes to bit `(3 - i) * 8`.
unfoldable pub read_big : List ℕ → ℕ → ℕ → ℕ → ℕ
read_big bytes address zero aux = aux
read_big bytes address (suc left) aux =
    read_big bytes address left
      (bit_or aux (shl32 (byte_at bytes (u32 (address + (3 - left)))) (left * 8)))

unfoldable pub read_little : List ℕ → ℕ → ℕ → ℕ → ℕ
read_little bytes address zero aux = aux
read_little bytes address (suc left) aux =
    read_little bytes address left
      (bit_or aux (shl32 (byte_at bytes (u32 (address + left))) (left * 8)))

unfoldable pub word_of : List ℕ → ℕ → ℕ → ℕ
unfolding read_big read_little
word_of bytes address be =
    if be == 0 then read_little bytes address 4 0 else read_big bytes address 4 0

unfoldable pub memory_read_word : Option Memory → ℕ → ℕ → ℕ → ℕ × ℕ
memory_read_word mem address value be = elim (check_mem_integrity mem) [
  | failed code ↦ (code, value)
  | intact bytes size ↦
      if leb (sub_size size 3) address
      then (index_out_of_range, value)
      else (success, word_of bytes address be)
]

-- Writes: the status, and the memory then.
abbrev pub with_bytes : List ℕ → ℕ → Option Memory
with_bytes bytes size = some (record { bytes = some bytes; size = size })

unfoldable pub memory_write_byte : Option Memory → ℕ → ℕ → ℕ × Option Memory
memory_write_byte mem address value = elim (check_mem_integrity mem) [
  | failed code ↦ (code, mem)
  | intact bytes size ↦
      if leb size address
      then (index_out_of_range, mem)
      else (success, with_bytes (set bytes address value) size)
]

unfoldable pub put_half : List ℕ → ℕ → ℕ → ℕ → List ℕ
put_half bytes address value be =
    if be == 0
    then set (set bytes address (u8 value)) (u32 (address + 1)) (u8 (value / 2 ^ 8))
    else set (set bytes address (u8 (value / 2 ^ 8))) (u32 (address + 1)) (u8 value)

unfoldable pub memory_write_half : Option Memory → ℕ → ℕ → ℕ → ℕ × Option Memory
memory_write_half mem address value be = elim (check_mem_integrity mem) [
  | failed code ↦ (code, mem)
  | intact bytes size ↦
      if leb (sub_size size 1) address
      then (index_out_of_range, mem)
      else (success, with_bytes (put_half bytes address value be) size)
]

-- The two loops of `memory_write_word`; `i` is `4 - left` again.
unfoldable pub write_big : List ℕ → ℕ → ℕ → ℕ → List ℕ
write_big bytes address value zero = bytes
write_big bytes address value (suc left) =
    write_big (set bytes (u32 (address + (3 - left))) (u8 (value / 2 ^ (left * 8)))) address value
      left

unfoldable pub write_little : List ℕ → ℕ → ℕ → ℕ → List ℕ
write_little bytes address value zero = bytes
write_little bytes address value (suc left) =
    write_little (set bytes (u32 (address + (3 - left))) (u8 (value / 2 ^ ((3 - left) * 8))))
      address value left

unfoldable pub put_word : List ℕ → ℕ → ℕ → ℕ → List ℕ
unfolding write_big write_little
put_word bytes address value be =
    if be == 0 then write_little bytes address value 4 else write_big bytes address value 4

unfoldable pub memory_write_word : Option Memory → ℕ → ℕ → ℕ → ℕ × Option Memory
memory_write_word mem address value be = elim (check_mem_integrity mem) [
  | failed code ↦ (code, mem)
  | intact bytes size ↦
      if leb (sub_size size 3) address
      then (index_out_of_range, mem)
      else (success, with_bytes (put_word bytes address value be) size)
]
