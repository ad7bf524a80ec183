-- ===== src/Gdb/Commands/RoundTrip.antt =====
-- The commands `g` and `G` of gdb_protocol.c.
use arm_simulator.Base.{
  ℕ, zero, suc, ◌+◌, ◌*◌, ◌^◌, ◌<◌, ◌≤◌, ◌≡◌, refl, arith, ◌==◌, List, [], ◌++◌, length, drop,
  replicate, ◌∙◌, ap, sym, drop-append, drop-append_more, length-append, length-replicate,
  set-get_or, Bool-cases, inl, inr, le→leb,
}
use mathlib.Core.List.{append_assoc, append-nil}
use arm_simulator.Registers.{
  Registers, registers_read, registers_get_mode, registers_read_cpsr, registers_write,
  registers_write_cpsr, mode_ind, no_index,
}
use arm_simulator.Registers.Valid.{IsValid, read-lt}
use arm_simulator.Gdb.Text.{hex_text}
use arm_simulator.Gdb.Text.Hex.{scan_hex-eight}
use arm_simulator.Gdb.Session.{Outside}
use arm_simulator.Gdb.Commands.{
  write_uint32, register_text, registers_text, general_registers_text, read_uint32, text_at,
  write_register, write_registers, write_general,
}

-- A register that is written with its own value.
write-read :
    (r : Registers) (reg mode : ℕ) → registers_write r reg mode (registers_read r reg mode) ≡ r
unfolding registers_write registers_read
write-read r reg mode = elim (Bool-cases (mode_ind reg mode == no_index)) [
  | inl e ↦ rw e refl
  | inr e ↦ rw e (
      ap (λ (g : List ℕ). record r { genreg = g })
        (set-get_or r.genreg (mode_ind reg mode + reg) 0))
]

length-write_uint32 : (value : ℕ) → length (write_uint32 value) ≡ 8
unfolding write_uint32 hex_text
length-write_uint32 value = refl

module _ (o : Outside) where
  read_uint32-write_uint32 :
      (value : ℕ) (rest : List ℕ)
      → value < 2 ^ 32
      → read_uint32 o (write_uint32 value ++ rest) ≡ value
  unfolding read_uint32 write_uint32
  read_uint32-write_uint32 value rest h = rw (scan_hex-eight value rest h, read_uint32) refl

  read_alone : (value : ℕ) → value < 2 ^ 32 → read_uint32 o (write_uint32 value) ≡ value
  read_alone value h =
      ap (read_uint32 o) (sym (append-nil (write_uint32 value)))
      ∙ read_uint32-write_uint32 value [] h

module _ (r : Registers) where
  length-register_text : (reg : ℕ) → length (register_text r reg) ≡ 8
  unfolding register_text
  length-register_text reg = length-write_uint32 (registers_read r reg (registers_get_mode r))

  length-registers_text : (left i : ℕ) → length (registers_text r left i) ≡ 8 * left
  unfolding registers_text
  length-registers_text zero i = refl
  length-registers_text (suc left) i = omega (
    arith,
    length-append {0} (register_text r i) (registers_text r left (i + 1)),
    length-register_text i,
    length-registers_text left (i + 1),
  )

  -- What stands from the place of a register on.
  from_register :
      (left i k : ℕ) (tail : List ℕ)
      → k < left
      → (rest : List ℕ) × (drop (8 * k) (registers_text r left i ++ tail)
          ≡ register_text r (i + k) ++ rest)
  unfolding registers_text
  from_register zero i k tail h = absurd (omega arith)
  from_register (suc left) i zero tail h =
      let here : i ≡ i + 0 = omega arith in
      (
        registers_text r left (i + 1) ++ tail,
        append_assoc (register_text r i) (registers_text r left (i + 1)) tail
            ∙ ap (λ (n : ℕ). register_text r n ++ (registers_text r left (i + 1) ++ tail)) here,
      )
  from_register (suc left) i (suc k) tail h =
      let more = registers_text r left (i + 1) ++ tail in
      let (rest, e) = from_register left (i + 1) k tail (omega arith) in
      let here : i + 1 + k ≡ i + suc k = omega arith in
      (
        rest,
        ap (drop (8 * suc k))
              (append_assoc (register_text r i) (registers_text r left (i + 1)) tail)
            ∙ drop-append_more (register_text r i) more (8 * suc k) (8 * k)
                (omega (arith, length-register_text i))
            ∙ e
            ∙ ap (λ (n : ℕ). register_text r n ++ rest) here,
      )

-- The reply to `g`, and where its parts stand.
module _ (o : Outside) (r : Registers) (v : IsValid r) where
  abbrev status_text : List ℕ
  status_text = write_uint32 (registers_read_cpsr r)

  abbrev tail : List ℕ
  tail = replicate 200 b'x' ++ status_text

  length-general : length (general_registers_text r) ≡ 336
  unfolding general_registers_text
  length-general = omega (
    arith,
    length-append {0} (registers_text r 16 0) tail,
    length-append {0} (replicate 200 b'x') status_text,
    length-registers_text r 16 0,
    length-replicate {0} {A = ℕ} 200 b'x',
    length-write_uint32 (registers_read_cpsr r),
  )

  text_at-general :
      (k : ℕ) → k ≤ 336 → text_at o (general_registers_text r) k ≡ drop k (general_registers_text r)
  unfolding text_at
  text_at-general k h =
      rw (le→leb k (length (general_registers_text r)) (omega (arith, length-general))) refl

  status_at : text_at o (general_registers_text r) 328 ≡ status_text
  unfolding general_registers_text
  status_at =
      text_at-general 328 (omega arith)
      ∙ drop-append_more (registers_text r 16 0) tail 328 200
          (omega (arith, length-registers_text r 16 0))
      ∙ drop-append (replicate 200 b'x') status_text 200
          (omega (arith, length-replicate {0} {A = ℕ} 200 b'x'))

  same_register :
      (reg : ℕ)
      → reg < 16
      → write_register o r reg (text_at o (general_registers_text r) (8 * reg)) ≡ r
  unfolding write_register general_registers_text register_text
  same_register reg h =
      let (rest, e) = from_register r 16 0 reg tail h in
      let mode = registers_get_mode r in
      let here : 0 + reg ≡ reg = omega arith in
      ap (λ (s : List ℕ). registers_write r reg mode (read_uint32 o s))
        (text_at-general (8 * reg) (omega arith)
          ∙ e
          ∙ ap (λ (n : ℕ). register_text r n ++ rest) here)
      ∙ ap (registers_write r reg mode)
          (read_uint32-write_uint32 o (registers_read r reg mode) rest (read-lt reg mode v))
      ∙ write-read r reg mode

  same_registers :
      (left i : ℕ) → i + left ≤ 16 → write_registers o r (general_registers_text r) left i ≡ r
  unfolding write_registers
  same_registers zero i h = refl
  same_registers (suc left) i h =
      ap (λ (q : Registers). write_registers o q (general_registers_text r) left (i + 1))
        (same_register i (omega arith))
      ∙ same_registers left (i + 1) (omega arith)

-- The text that `g` sends, given back to `G`, leaves every register and the CPSR of a valid
-- register file as they were.
pub write_general-general_registers_text :
    (o : Outside) (r : Registers) → IsValid r → write_general o r (general_registers_text r) ≡ r
unfolding write_general registers_write_cpsr registers_read_cpsr
write_general-general_registers_text o r v =
    rw (same_registers o r v 16 0 (omega arith), status_at o r v)
      (ap (λ (c : ℕ). record r { cpsr = c }) (read_alone o r.cpsr v.status))
