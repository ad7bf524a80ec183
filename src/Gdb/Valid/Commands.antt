-- ===== src/Gdb/Valid/Commands.antt =====
-- The commands of gdb_protocol.c that write registers, memory and breakpoints, on a valid session.
use arm_simulator.Base.{
  ℕ, zero, suc, ◌+◌, ◌*◌, ◌^◌, ◌<◌, ◌≡◌, refl, arith, u32, ◌==◌, Option, none, some, List, length,
  drop, AllBelow, AllBelow-get_or, ◌∙◌, ltb, Bool-cases, Option-cases, inl, inr,
}
use arm_simulator.Base.Bits.{bit_xor-lt}
use arm_simulator.Memory.{Memory, memory_write_byte, memory_get_size}
use arm_simulator.Memory.Holds.{Holds}
use arm_simulator.Memory.Bounds.{write_byte-Kept}
use arm_simulator.Registers.{Registers, registers_get_mode}
use arm_simulator.Registers.Valid as RegistersValid
use arm_simulator.Core.Valid.{parts, with_registers, with_memory}
use arm_simulator.Gdb.{Breakpoints, gdb_add_breakpoint, gdb_remove_breakpoint}
use arm_simulator.Gdb.Search.{IsSorted}
use arm_simulator.Gdb.Insertion.{refused, set_there, gdb_add_breakpoint_lem}
use arm_simulator.Gdb.Removal.{not_there, taken_out, gdb_remove_breakpoint_lem}
use arm_simulator.Gdb.Text.{codes, scan_hex, stored, scan_signed, skip_space, after_char}
use arm_simulator.Gdb.Session.{Session, Outside}
use arm_simulator.Gdb.Commands.{
  read_uint32, two_numbers, kind_and_address, text_at, write_register, write_registers,
  write_general, write_general_registers, write_single_register, char_at, content_byte,
  content_next, write_bytes, write_memory_binary, set_breakpoint, remove_breakpoint,
}
use arm_simulator.Gdb.Valid.{IsSession, session, Keeps, at_end, replied}

-- A number that was read fits a uint32_t, and so does the local that was not assigned.
stored-lt :
    (o : Outside) (x : Option (ℕ × List ℕ))
    → elim (stored x) as (λ y. ℕ) [ none ↦ o.unset | some (value, rest) ↦ value ] < 2 ^ 32
unfolding stored
stored-lt o none = o.unset-lt
stored-lt o (some (value, rest)) = omega arith

module _ (o : Outside) where
  read_uint32-lt : (text : List ℕ) → read_uint32 o text < 2 ^ 32
  unfolding read_uint32 scan_hex
  read_uint32-lt text = stored-lt o (scan_signed 8 (skip_space text))

  write_register-IsValid :
      (r : Registers) (reg : ℕ) (text : List ℕ)
      → RegistersValid.IsValid r
      → RegistersValid.IsValid (write_register o r reg text)
  unfolding write_register
  write_register-IsValid r reg text v =
      RegistersValid.write-IsValid reg (registers_get_mode r) _ v (read_uint32-lt text)

  write_registers-IsValid :
      (left i : ℕ) (r : Registers) (text : List ℕ)
      → RegistersValid.IsValid r
      → RegistersValid.IsValid (write_registers o r text left i)
  unfolding write_registers
  write_registers-IsValid zero i r text v = v
  write_registers-IsValid (suc left) i r text v =
      write_registers-IsValid left (i + 1) (write_register o r i (text_at o text (8 * i))) text
        (write_register-IsValid r i (text_at o text (8 * i)) v)

  write_general-IsValid :
      (r : Registers) (text : List ℕ)
      → RegistersValid.IsValid r
      → RegistersValid.IsValid (write_general o r text)
  unfolding write_general
  write_general-IsValid r text v =
      RegistersValid.write_cpsr-IsValid _ (write_registers-IsValid 16 0 r text v)
        (read_uint32-lt (text_at o text 328))

  char_at-lt : (text : List ℕ) (k : ℕ) → AllBelow 256 text → char_at o text k < 256
  unfolding char_at
  char_at-lt text k a = ground (
    arith,
    AllBelow-get_or 256 text k 0 (omega arith) a,
    AllBelow-get_or 256 (o.elsewhere k) 0 0 (omega arith) (o.elsewhere-lt k),
  )

  content_byte-lt : (text : List ℕ) (k : ℕ) → AllBelow 256 text → content_byte o text k < 256
  unfolding content_byte
  content_byte-lt text k a = ground (
    arith,
    char_at-lt text k a,
    bit_xor-lt 8 (char_at o text (k + 1)) 0x20 (char_at-lt text (k + 1) a) (omega arith),
  )

  -- The loop of `X` keeps a memory of bytes, of the same size.
  write_bytes-Holds :
      (left k address : ℕ) (mem : Option Memory) (bytes text : List ℕ)
      → AllBelow 256 text
      → Holds mem bytes
      → (bytes' : List ℕ) × Holds (write_bytes o mem text left k address).1 bytes'
        × (length bytes' ≡ length bytes)
  unfolding write_bytes
  write_bytes-Holds zero k address mem bytes text a h = (bytes, h, refl)
  write_bytes-Holds (suc left) k address mem bytes text a h =
      let (bytes1, h1, l1) =
        write_byte-Kept h address (content_byte o text k) (content_byte-lt text k a) in
      let (code, mem') = memory_write_byte mem address (content_byte o text k) in
      let (bytes2, h2, l2) =
        write_bytes-Holds left (content_next o text k) (u32 (address + 1)) mem' bytes1 text a h1 in
      elim (Bool-cases (code == 0)) [
        | inl e ↦ rw e (bytes2, h2, l2 ∙ l1)
        | inr e ↦ rw e (bytes1, h1, l1)
      ]

module _ {size : ℕ} (o : Outside) (s : Session) (v : IsSession size s) (text : List ℕ) where
  with_reg :
      (r : Registers)
      → (RegistersValid.IsValid s.arm.reg → RegistersValid.IsValid r)
      → IsSession size (record s { arm = record s.arm { reg = r } })
  with_reg r f = elim v [
    | session cycle p b ↦ session cycle (with_registers p (f (parts p).registers)) b
  ]

  pub write_general_registers-Keeps : Keeps size (write_general_registers o s text)
  unfolding write_general_registers
  write_general_registers-Keeps =
      replied _ (with_reg (write_general o s.arm.reg text) (write_general-IsValid o s.arm.reg text))
        (codes "OK")

  -- The number of the register in `P`.
  abbrev single_reg : ℕ
  single_reg = elim (scan_hex (length text) text) as (λ x. ℕ) [
    | none ↦ o.unset
    | some (reg, rest) ↦ reg
  ]

  -- The number and the place decide whether `P` writes or the process ends.
  pub write_single_register-Keeps : Keeps size (write_single_register o s text)
  unfolding write_single_register
  write_single_register-Keeps = elim (Option-cases (after_char b'=' text)) [
    | inl e ↦ rw (e, write_single_register) at_end
    | inr (k, e) ↦ elim (Bool-cases (ltb single_reg 16)) [
      | inl f ↦
          rw (e, write_single_register)
            (rw f (
              replied _
                (with_reg (write_register o s.arm.reg single_reg (drop k text))
                  (write_register-IsValid o s.arm.reg single_reg (drop k text)))
                (codes "OK")))
      | inr f ↦ rw (e, write_single_register) (rw f at_end)
    ]
  ]

  with_mem :
      (mem : Option Memory)
      → ((bytes : List ℕ)
          → Holds s.arm.mem bytes
          → (bytes' : List ℕ) × Holds mem bytes' × (length bytes' ≡ length bytes))
      → IsSession size (record s { arm = record s.arm { mem = mem } })
  with_mem mem f = elim v [
    | session cycle p b ↦ session cycle (with_memory p (f (parts p).bytes (parts p).memory)) b
  ]

  pub write_memory_binary-Keeps : AllBelow 256 text → Keeps size (write_memory_binary o s text)
  unfolding write_memory_binary
  write_memory_binary-Keeps a = elim (Option-cases (after_char b':' text)) [
    | inl e ↦ rw (e, write_memory_binary) at_end
    | inr (k, e) ↦
        let (address, count) = two_numbers o text in
        elim (Bool-cases (ltb address (memory_get_size s.arm.mem))) [
          | inl f ↦
              rw (e, write_memory_binary)
                (rw f (
                  replied _
                    (with_mem (write_bytes o s.arm.mem text count k address).1
                      λ bytes h. write_bytes-Holds o count k address s.arm.mem bytes text a h)
                    _))
          | inr f ↦ rw (e, write_memory_binary) (rw f (replied s v (codes "E02")))
        ]
  ]

  with_breaks :
      (breaks : Breakpoints)
      → (IsSorted s.breaks → IsSorted breaks)
      → IsSession size (record s { breaks = breaks })
  with_breaks breaks f = elim v [ session cycle p b ↦ session cycle p (f b) ]

  add-IsSorted :
      (address : ℕ) → IsSorted s.breaks → IsSorted (gdb_add_breakpoint s.breaks address).1
  add-IsSorted address b = elim (gdb_add_breakpoint_lem s.breaks address b) [
    | refused full answer same ↦ rw same b
    | set_there answer sorted elements ↦ sorted
  ]

  remove-IsSorted :
      (address : ℕ) → IsSorted s.breaks → IsSorted (gdb_remove_breakpoint s.breaks address).1
  remove-IsSorted address b = elim (gdb_remove_breakpoint_lem s.breaks address b) [
    | not_there absent answer same ↦ rw same b
    | taken_out answer sorted elements ↦ sorted
  ]

  pub set_breakpoint-Keeps : Keeps size (set_breakpoint o s text)
  unfolding set_breakpoint
  set_breakpoint-Keeps =
      let (kind, address) = kind_and_address o text in
      elim (Bool-cases (kind == 0)) [
        | inl e ↦ rw e (
            replied _ (with_breaks (gdb_add_breakpoint s.breaks address).1 (add-IsSorted address))
              _)
        | inr e ↦ rw e (replied s v (codes "E03"))
      ]

  pub remove_breakpoint-Keeps : Keeps size (remove_breakpoint o s text)
  unfolding remove_breakpoint
  remove_breakpoint-Keeps =
      let (kind, address) = kind_and_address o text in
      elim (Bool-cases (kind == 0)) [
        | inl e ↦ rw e (
            replied _
              (with_breaks (gdb_remove_breakpoint s.breaks address).1 (remove-IsSorted address)) _)
        | inr e ↦ rw e (replied s v (codes "E03"))
      ]
