-- ===== src/Gdb/Commands/Replies.antt =====
-- The replies of gdb_protocol.c to `m` and `p`.
use arm_simulator.Base.{
  Bool-cases, inl, inr, ◌⊎◌, u8, ◌-◌, min, true, ap, ltb, [], ◌++◌, ◌<◌, ◌^◌, ap₂, ℕ, zero, suc,
  ◌+◌, ◌*◌, ◌≤◌, ◌≡◌, refl, arith, u32, ◌==◌, leb, ◌&&◌, false, Option, List, ◌∷◌, length,
}
use arm_simulator.Memory.Holds.{Holds, read_byte-Holds, get_size-Holds}
use arm_simulator.Memory.{byte_at, memory_get_size, Memory, memory_read_byte, check_mem_integrity}
use arm_simulator.Gdb.Text.{
  codes, hex_text, atoi, skip_space, is_space, signed_decimal, decimal_digits,
}
use arm_simulator.Gdb.Session.{Session, Outside, overrun, fits, returned, gdb_send_data}
use arm_simulator.Gdb.Commands.{
  memory_text, two_numbers, read_memory, efault_text, register_text, read_single_register,
}

-- A read never returns -1.
read_byte-code :
    (mem : Option Memory) (address value : ℕ)
    → ((memory_read_byte mem address value).0 == 0xFFFFFFFF) ≡ false
unfolding memory_read_byte check_mem_integrity
read_byte-code mem address value = ground arith

length-two : (value : ℕ) → length (hex_text 2 value) ≡ 2
unfolding hex_text
length-two value = refl

-- The digits of `size` bytes from `address` on, where the last byte of the memory stands for those
-- past its end.
abbrev pub digits_from : List ℕ → ℕ → ℕ → List ℕ
digits_from bytes address zero = []
digits_from bytes address (suc size) =
    hex_text 2 (byte_at bytes (min address (length bytes - 1)))
    ++ digits_from bytes (address + 1) size

-- The address is inside, or the variable holds the last byte.
abbrev Reads : List ℕ → ℕ → ℕ → Type 0
Reads bytes address value = (address < length bytes) ⊎ (value ≡ byte_at bytes (length bytes - 1))

module _ {mem : Option Memory} {bytes : List ℕ} (h : Holds mem bytes) where
  read-value :
      (address value : ℕ)
      → Reads bytes address value
      → (memory_read_byte mem address value).1 ≡ byte_at bytes (min address (length bytes - 1))
  read-value address value r = elim (Bool-cases (leb (length bytes) address)) [
    | inl past ↦ rw (read_byte-Holds h address value) (
        rw past (elim r [
          | inl inside ↦ absurd (ground arith)
          | inr last ↦
              let e : min address (length bytes - 1) ≡ length bytes - 1 = ground arith in rw e last
        ]))
    | inr inside ↦
        let e : min address (length bytes - 1) ≡ address = ground arith in
        rw (read_byte-Holds h address value) (rw (inside, e) refl)
  ]

  next-Reads :
      (address value : ℕ)
      → Reads bytes address value
      → Reads bytes (address + 1) (memory_read_byte mem address value).1
  next-Reads address value r = elim (Bool-cases (ltb (address + 1) (length bytes))) [
    | inl inside ↦ inl (ground arith)
    | inr past ↦
        let e : min address (length bytes - 1) ≡ length bytes - 1 = ground arith in
        inr (rw (read-value address value r, e) refl)
  ]

  -- The loop.
  memory_text-digits_from :
      (size address value : ℕ)
      → Reads bytes address value
      → address + size < 2 ^ 32
      → memory_text mem size address value ≡ digits_from bytes address size
  unfolding memory_text
  memory_text-digits_from zero address value r small = refl
  memory_text-digits_from (suc size) address value r small =
      let read = (memory_read_byte mem address value).1 in
      let up : u32 (address + 1) ≡ address + 1 = omega arith in
      rw (read_byte-code mem address value) (
        rw up (
          ap₂ (λ (x : ℕ) (rest : List ℕ). hex_text 2 x ++ rest) (read-value address value r)
            (memory_text-digits_from size (address + 1) read (next-Reads address value r)
              (omega arith))))

-- The reply to `m` in a session whose memory holds at most 2^32 - 4096 bytes, by the two numbers of
-- the command: the error E0E for an address outside the memory; for an address inside it, two digits
-- for each byte that was asked for, those past the end of the memory being its last byte again, where
-- the reply fits into the 4096 bytes of the packet; and the array is overrun where it does not fit.
pub read_memory-digits_from :
    (o : Outside) (s : Session) (text : List ℕ) {bytes : List ℕ}
    → Holds s.arm.mem bytes
    → length bytes + 4096 ≤ 2 ^ 32
    → let (address, size) = two_numbers o text in
      (length bytes ≤ address → read_memory o s text ≡ returned (gdb_send_data s (codes "E0E")))
      × (address < length bytes
          → 2 * size + 5 ≤ 4096
          → read_memory o s text ≡ returned (gdb_send_data s (digits_from bytes address size)))
      × (address < length bytes → 4096 < 2 * size + 5 → read_memory o s text ≡ overrun)
unfolding read_memory efault_text fits
read_memory-digits_from o s text {bytes} h small =
    let address = (two_numbers o text).0 in
    let size = (two_numbers o text).1 in
    let same = get_size-Holds h in
    (
      λ out.
          (let no : ltb address (memory_get_size s.arm.mem) ≡ false = ground (arith, same) in
            rw no refl),
      λ inside room.
          (let yes : ltb address (memory_get_size s.arm.mem) ≡ true = ground (arith, same) in
            let fit : leb (2 * size + 5) 4096 ≡ true = ground arith in
            rw (yes, fit)
              (ap (λ (x : List ℕ). returned (gdb_send_data s x))
                (memory_text-digits_from h size address (u8 o.unset) (inl inside) (omega arith)))),
      λ inside much.
          (let yes : ltb address (memory_get_size s.arm.mem) ≡ true = ground (arith, same) in
            let no : leb (2 * size + 5) 4096 ≡ false = ground arith in rw (yes, no) refl),
    )

letter_not_space : (c : ℕ) → b'a' ≤ c → is_space c ≡ false
unfolding is_space
letter_not_space c lo = ground arith

decimal_digits-letter : (c : ℕ) (rest : List ℕ) → b'a' ≤ c → decimal_digits 0 (c ∷ rest) ≡ 0
unfolding decimal_digits
decimal_digits-letter c rest lo =
    let above : (leb b'0' c && leb c b'9') ≡ false = ground arith in rw above refl

atoi-letter : (c : ℕ) (rest : List ℕ) → b'a' ≤ c → c ≤ b'f' → atoi (c ∷ rest) ≡ 0
unfolding atoi skip_space signed_decimal
atoi-letter c rest lo hi =
    let no_minus : (c == b'-') ≡ false = ground arith in
    let no_plus : (c == b'+') ≡ false = ground arith in
    rw (letter_not_space c lo) (rw (no_minus, no_plus) (rw (decimal_digits-letter c rest lo) refl))

-- A request for one of the registers 10 to 15, whose number the protocol writes as a hexadecimal
-- digit, is answered with the register 0.
pub read_single_register-letter :
    (s : Session) (c : ℕ) (rest : List ℕ)
    → b'a' ≤ c
    → c ≤ b'f'
    → read_single_register s (c ∷ rest) ≡ returned (gdb_send_data s (register_text s.arm.reg 0))
unfolding read_single_register
read_single_register-letter s c rest lo hi = rw (atoi-letter c rest lo hi) refl
