-- ===== src/Gdb/Commands.antt =====
-- The commands of gdb_protocol.c that read and write registers, memory and breakpoints.
pub mod RoundTrip
pub mod Replies
use arm_simulator.Base.{
  ℕ, zero, suc, ◌+◌, ◌-◌, ◌*◌, ◌%◌, ◌^◌, ◌<◌, u8, u32, bit_xor, ltb, leb, ◌==◌, if◌then◌else◌, ◌&&◌,
  ◌||◌, Bool, true, false, Option, none, some, List, [], ◌∷◌, ◌++◌, length, drop, get_or, replicate,
}
use arm_simulator.Memory.{Memory, memory_get_size, memory_read_byte, memory_write_byte}
use arm_simulator.Registers.{
  Registers, registers_read, registers_get_mode, registers_read_cpsr, registers_write,
  registers_write_cpsr,
}
use arm_simulator.Core.{Arm}
use arm_simulator.Gdb.{Breakpoints, gdb_add_breakpoint, gdb_remove_breakpoint}
use arm_simulator.Gdb.Text.{
  codes, hex_text, scan_hex, scan_char, atoi, after_char, c_string, text_equal, starts_with,
}
use arm_simulator.Gdb.Session.{
  Session, Outside, Outcome, returned, ended, overrun, fits, gdb_send_data,
}

unfoldable pub write_uint32 : ℕ → List ℕ
write_uint32 value = hex_text 8 value

-- The text of a register of the current mode, without the assertion on its number.
unfoldable pub register_text : Registers → ℕ → List ℕ
register_text r reg = write_uint32 (registers_read r reg (registers_get_mode r))

-- The loop over the general registers, with the rounds left.
unfoldable pub registers_text : Registers → ℕ → ℕ → List ℕ
registers_text r zero i = []
registers_text r (suc left) i = register_text r i ++ registers_text r left (i + 1)

-- The reply to `g`: r0 to r15, the eight floating point registers and fps as "x", the CPSR.
unfoldable pub general_registers_text : Registers → List ℕ
general_registers_text r =
    registers_text r 16 0 ++ (replicate 200 b'x' ++ write_uint32 (registers_read_cpsr r))

unfoldable pub read_general_registers : Session → Outcome
read_general_registers s = returned (gdb_send_data s (general_registers_text s.arm.reg))

-- `p`: the number goes to a uint8_t before the assertion.
unfoldable pub read_single_register : Session → List ℕ → Outcome
read_single_register s text =
    let reg = u8 (atoi text) in
    if ltb reg 16 then returned (gdb_send_data s (register_text s.arm.reg reg)) else ended

-- The loop of `m`: the variable keeps its value where a read fails, and the test of the result
-- compares it with -1. So it writes two digits for each byte that was asked for.
unfoldable pub memory_text : Option Memory → ℕ → ℕ → ℕ → List ℕ
memory_text mem zero address value = []
memory_text mem (suc size) address value =
    let (code, read) = memory_read_byte mem address value in
    let rest = memory_text mem size (u32 (address + 1)) read in
    if code == 0xFFFFFFFF then [] else hex_text 2 read ++ rest

-- EFAULT is 14.
unfoldable pub efault_text : List ℕ
efault_text = codes "E0E"

unfoldable pub set_thread : Session → List ℕ → Outcome
set_thread s text =
    let kind = get_or text 0 0 in
    let value = atoi (drop 1 text) in
    if (kind == b'c' || kind == b'g') && (value == 0 || value == 0xFFFFFFFF)
    then returned (gdb_send_data s (codes "OK"))
    else returned (gdb_send_data s (codes "E01"))

unfoldable pub query_text : List ℕ → List ℕ
query_text text =
    if text_equal text (codes "Offsets")
    then codes "Text=0;Data=0;Bss=0"
    else if starts_with text (codes "Supported")
    then codes "PacketSize=400"
    else if text_equal text (codes "TStatus")
    then codes "T0;tnotrun:0"
    else []

unfoldable pub query : Session → List ℕ → Outcome
query s text = returned (gdb_send_data s (query_text (c_string text)))

module _ (o : Outside) where
  -- A number that `sscanf` reads, or the local as it was.
  unfoldable pub read_uint32 : List ℕ → ℕ
  read_uint32 text = elim (scan_hex 8 text) [ none ↦ o.unset | some (value, rest) ↦ value ]

  -- `%x,%x`
  unfoldable pub two_numbers : List ℕ → ℕ × ℕ
  two_numbers text = elim (scan_hex (length text) text) [
    | none ↦ (o.unset, o.unset)
    | some (first, rest) ↦ elim (scan_char b',' rest) [
      | none ↦ (first, o.unset)
      | some rest ↦ elim (scan_hex (length rest) rest) [
        | none ↦ (first, o.unset)
        | some (second, rest) ↦ (first, second)
      ]
    ]
  ]

  -- `%hhx,%x,%x` for the first two; the third is not used.
  unfoldable pub kind_and_address : List ℕ → ℕ × ℕ
  kind_and_address text = let (kind, address) = two_numbers text in (u8 kind, address)

  -- The text `k` bytes after the start of `text`.
  unfoldable pub text_at : List ℕ → ℕ → List ℕ
  text_at text k = if leb k (length text) then drop k text else o.elsewhere k

  unfoldable pub read_memory : Session → List ℕ → Outcome
  read_memory s text =
      let (address, size) = two_numbers text in
      if ltb address (memory_get_size s.arm.mem)
      then if fits (2 * size)
        then returned (gdb_send_data s (memory_text s.arm.mem size address (u8 o.unset)))
        else overrun
      else returned (gdb_send_data s efault_text)

  -- The write of a register by `P` and `G`, after the assertion.
  unfoldable pub write_register : Registers → ℕ → List ℕ → Registers
  write_register r reg text = registers_write r reg (registers_get_mode r) (read_uint32 text)

  unfoldable pub write_registers : Registers → List ℕ → ℕ → ℕ → Registers
  write_registers r text zero i = r
  write_registers r text (suc left) i =
      write_registers (write_register r i (text_at text (8 * i))) text left (i + 1)

  -- `G`: the 16 registers, and the CPSR after the 25 places that are skipped.
  unfoldable pub write_general : Registers → List ℕ → Registers
  write_general r text =
      registers_write_cpsr (write_registers r text 16 0) (read_uint32 (text_at text 328))

  unfoldable pub write_general_registers : Session → List ℕ → Outcome
  write_general_registers s text = returned (
      gdb_send_data (record s { arm = record s.arm { reg = write_general s.arm.reg text } })
        (codes "OK"))

  -- `P`: without "=" the data is at a null pointer.
  unfoldable pub write_single_register : Session → List ℕ → Outcome
  write_single_register s text =
      let reg : ℕ = elim (scan_hex (length text) text) [
        | none ↦ o.unset
        | some (reg, rest) ↦ reg
      ] in
      elim (after_char b'=' text) [
        | none ↦ ended
        | some k ↦
            if ltb reg 16
            then returned (
                gdb_send_data
                  (record s {
                    arm = record s.arm { reg = write_register s.arm.reg reg (drop k text) };
                  })
                  (codes "OK"))
            else ended
      ]

  -- The byte `k` of a command; after the text comes its NUL.
  unfoldable pub char_at : List ℕ → ℕ → ℕ
  char_at text k = if leb k (length text) then get_or text k 0 else get_or (o.elsewhere k) 0 0

  -- A byte of the content: 0x7d escapes the next one.
  unfoldable pub content_byte : List ℕ → ℕ → ℕ
  content_byte text k =
      if char_at text k == 0x7d then bit_xor (char_at text (k + 1)) 0x20 else char_at text k

  unfoldable pub content_next : List ℕ → ℕ → ℕ
  content_next text k = if char_at text k == 0x7d then k + 2 else k + 1

  -- The loop of `X`, with the bytes left: whether all writes succeeded, and the memory.
  unfoldable pub write_bytes : Option Memory → List ℕ → ℕ → ℕ → ℕ → Bool × Option Memory
  write_bytes mem text zero k address = (true, mem)
  write_bytes mem text (suc left) k address =
      let (code, mem') = memory_write_byte mem address (content_byte text k) in
      let rest = write_bytes mem' text left (content_next text k) (u32 (address + 1)) in
      if code == 0 then rest else (false, mem')

  unfoldable pub write_memory_binary : Session → List ℕ → Outcome
  write_memory_binary s text =
      let (address, size) = two_numbers text in
      elim (after_char b':' text) [
        | none ↦ ended
        | some k ↦
            if ltb address (memory_get_size s.arm.mem)
            then (let (write_ok, mem) = write_bytes s.arm.mem text size k address in
                returned (
                  gdb_send_data (record s { arm = record s.arm { mem = mem } })
                    (if write_ok then codes "OK" else codes "E02")))
            else returned (gdb_send_data s (codes "E02"))
      ]

  unfoldable pub set_breakpoint : Session → List ℕ → Outcome
  set_breakpoint s text =
      let (kind, address) = kind_and_address text in
      let (answer, breaks) = gdb_add_breakpoint s.breaks address in
      if kind == 0
      then returned (
          gdb_send_data (record s { breaks = breaks })
            (if answer == 0 then codes "E04" else codes "OK"))
      else returned (gdb_send_data s (codes "E03"))

  unfoldable pub remove_breakpoint : Session → List ℕ → Outcome
  remove_breakpoint s text =
      let (kind, address) = kind_and_address text in
      let (answer, breaks) = gdb_remove_breakpoint s.breaks address in
      if kind == 0
      then returned (
          gdb_send_data (record s { breaks = breaks })
            (if answer == 0 then codes "E05" else codes "OK"))
      else returned (gdb_send_data s (codes "E03"))
