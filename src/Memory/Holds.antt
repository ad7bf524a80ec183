-- ===== src/Memory/Holds.antt =====
-- The abstract view of a memory of memory.c: a list of bytes.
use arm_simulator.Base.{
  ℕ, ◌-◌, ◌^◌, ◌≤◌, ◌≡◌, arith, length, AllBelow, set, leb, if◌then◌else◌, Option, List,
}
use arm_simulator.Constants.{success, index_out_of_range}
use arm_simulator.Memory.{
  Memory, with_bytes, check_mem_integrity, intact, memory_read_byte, memory_read_half,
  memory_read_word, memory_write_byte, memory_write_half, memory_write_word, half_of, word_of,
  put_half, put_word, byte_at, memory_get_size, sub_size,
}

-- The memory is intact and holds these bytes. Every address is a uint32_t, and the guards of the
-- half-word and word accesses need three bytes not to wrap.
pub record Holds (mem : Option Memory) (bytes : List ℕ) : Type 0 where
  pub is_intact : mem ≡ with_bytes bytes (length bytes)
  pub are_bytes : AllBelow 256 bytes
  pub at_least : 3 ≤ length bytes
  pub at_most : length bytes ≤ 2 ^ 32

module _ {mem : Option Memory} {bytes : List ℕ} (h : Holds mem bytes) where
  check-Holds : check_mem_integrity mem ≡ intact bytes (length bytes)
  unfolding check_mem_integrity
  check-Holds = rw h.is_intact (let b = h.at_least in ground arith)

  sub_size-Holds : (k : ℕ) → k ≤ 3 → sub_size (length bytes) k ≡ length bytes - k
  sub_size-Holds k le = omega (arith, h.at_least, h.at_most)

  pub read_byte-Holds :
      (address value : ℕ)
      → memory_read_byte mem address value ≡ (
          if leb (length bytes) address
          then (index_out_of_range, value)
          else (success, byte_at bytes address))
  unfolding memory_read_byte
  read_byte-Holds address value = rw (check-Holds, memory_read_byte)

  pub read_half-Holds :
      (address value be : ℕ)
      → memory_read_half mem address value be ≡ (
          if leb (length bytes - 1) address
          then (index_out_of_range, value)
          else (success, half_of bytes address be))
  unfolding memory_read_half
  read_half-Holds address value be =
      rw (check-Holds, memory_read_half) (rw (sub_size-Holds 1 (omega arith)))

  pub read_word-Holds :
      (address value be : ℕ)
      → memory_read_word mem address value be ≡ (
          if leb (length bytes - 3) address
          then (index_out_of_range, value)
          else (success, word_of bytes address be))
  unfolding memory_read_word
  read_word-Holds address value be =
      rw (check-Holds, memory_read_word) (rw (sub_size-Holds 3 (omega arith)))

  pub write_byte-Holds :
      (address value : ℕ)
      → memory_write_byte mem address value ≡ (
          if leb (length bytes) address
          then (index_out_of_range, mem)
          else (success, with_bytes (set bytes address value) (length bytes)))
  unfolding memory_write_byte
  write_byte-Holds address value = rw (check-Holds, memory_write_byte)

  pub write_half-Holds :
      (address value be : ℕ)
      → memory_write_half mem address value be ≡ (
          if leb (length bytes - 1) address
          then (index_out_of_range, mem)
          else (success, with_bytes (put_half bytes address value be) (length bytes)))
  unfolding memory_write_half
  write_half-Holds address value be =
      rw (check-Holds, memory_write_half) (rw (sub_size-Holds 1 (omega arith)))

  pub write_word-Holds :
      (address value be : ℕ)
      → memory_write_word mem address value be ≡ (
          if leb (length bytes - 3) address
          then (index_out_of_range, mem)
          else (success, with_bytes (put_word bytes address value be) (length bytes)))
  unfolding memory_write_word
  write_word-Holds address value be =
      rw (check-Holds, memory_write_word) (rw (sub_size-Holds 3 (omega arith)))

  pub get_size-Holds : memory_get_size mem ≡ length bytes
  unfolding memory_get_size
  get_size-Holds = rw h.is_intact
