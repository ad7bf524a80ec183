-- ===== src/LoadStore/Single.antt =====
-- STR and LDR of arm_load_store.c with an offset and without write-back.
use arm_simulator.Base.{ℕ, ◌+◌, ◌<◌, ◌≡◌, ◌≢◌, refl, ap, ◌∙◌, arith, ◌==◌, if◌then◌else◌, ==_ne}
use arm_simulator.Constants.{success}
use arm_simulator.Util.{get_bit, get_bits}
use arm_simulator.Util.Fields.{get_bits_lem}
use arm_simulator.Memory.{memory_read_word}
use arm_simulator.Memory.RoundTrip.{read_word-write_word}
use arm_simulator.Registers.{Registers, registers_get_mode, registers_read}
use arm_simulator.Registers.Valid as RegistersValid
use arm_simulator.Registers.Banks.{IsMode, read-write_same_mode}
use arm_simulator.Core.{
  Arm, Target, value_local, arm_read_register, arm_read_register_internal, arm_read_word,
  arm_write_word, arm_write_register, arm_write_register_internal,
}
use arm_simulator.Core.Valid.{IsValid, parts, read_register-lt}
use arm_simulator.LoadStore.{arm_load_store, transfer}
use arm_simulator.LoadStore.Offset.{
  IsOffset, effective, addressed, as_load, lower, as_load-IsOffset, same_effective, effective-mem,
}

-- STR of a word inside the memory.
module _ {size cycle : ℕ} {p : Arm} (t : Target) (ins : ℕ) (v : IsValid size cycle p) where
  abbrev stored_word : Arm
  stored_word =
      (arm_write_word t p (effective t p ins) (arm_read_register p (get_bits ins 15 12))).1

  str-eq :
      IsOffset ins
      → get_bit ins 20 ≡ 0
      → get_bit ins 22 ≡ 0
      → arm_load_store t p ins ≡ (0, stored_word)
  unfolding transfer
  str-eq o store word = addressed t p ins o ∙ rw (store, word) refl

  str-registers : stored_word.reg ≡ p.reg
  unfolding arm_write_word
  str-registers = refl

  str-memory :
      (old : ℕ)
      → effective t p ins + 3 < size
      → memory_read_word stored_word.mem (effective t p ins) old t.endianess
        ≡ (success, arm_read_register p (get_bits ins 15 12))
  unfolding arm_write_word
  str-memory old inside =
      let (_, reads) =
        read_word-write_word (effective t p ins) (arm_read_register p (get_bits ins 15 12))
          t.endianess (parts v).memory (rw (parts v).same_size inside) old
          (read_register-lt v (get_bits ins 15 12)) in
      reads

-- LDR of a word.
ldr-eq :
    (t : Target) (p : Arm) (ins value : ℕ)
    → IsOffset ins
    → get_bit ins 20 ≡ 1
    → get_bit ins 22 ≡ 0
    → ((old : ℕ) → memory_read_word p.mem (effective t p ins) old t.endianess ≡ (success, value))
    → arm_load_store t p ins ≡ (0, arm_write_register p (get_bits ins 15 12) value)
unfolding transfer arm_read_word
ldr-eq t p ins value o load word reads =
    addressed t p ins o ∙ rw (load, word, reads (t.uninit value_local p)) refl

pub read_register-eq :
    (p : Arm) (reg : ℕ)
    → reg ≢ 15
    → arm_read_register p reg ≡ registers_read p.reg reg (registers_get_mode p.reg)
unfolding arm_read_register arm_read_register_internal
read_register-eq p reg n = rw (==_ne reg 15 n) refl

destination-le : (ins : ℕ) → get_bits ins 15 12 < 16
destination-le ins = rw (get_bits_lem ins 15 12 (omega arith)) (omega arith)

-- An STR of a word, with an immediate offset or a register, shifted or not, as the offset, without
-- write-back, of a register but the PC, to an address whose four bytes are inside the memory of a
-- valid processor in one of the seven modes, returns 0 and changes no register; after any change of
-- the registers that keeps the mode and the address, the LDR with the same fields returns 0, gives
-- the register its value at the STR, and leaves the other registers of the mode and the memory as
-- they are.
pub load_word-store_word :
    {size cycle : ℕ} {p : Arm} (t : Target) (ins : ℕ) (r : Registers) (k : ℕ)
    → IsValid size cycle p
    → RegistersValid.IsValid r
    → IsMode (registers_get_mode p.reg)
    → registers_get_mode r ≡ registers_get_mode p.reg
    → effective t (record p { reg = r }) ins ≡ effective t p ins
    → IsOffset ins
    → get_bit ins 20 ≡ 0
    → get_bit ins 22 ≡ 0
    → get_bits ins 15 12 ≢ 15
    → effective t p ins + 3 < size
    → k < 16
    → let mode = registers_get_mode p.reg in
      let rd = get_bits ins 15 12 in
      (q q' : Arm) × (arm_load_store t p ins ≡ (0, q))
      × (q.reg ≡ p.reg)
      × (arm_load_store t (record q { reg = r }) (as_load ins) ≡ (0, q'))
      × (registers_read q'.reg k mode
          ≡ (if rd == k then registers_read p.reg rd mode else registers_read r k mode))
      × (q'.mem ≡ q.mem)
unfolding arm_write_register arm_write_register_internal arm_write_word
load_word-store_word {p = p} t ins r k v w m e same o store word not_pc inside l =
    let mode = registers_get_mode p.reg in
    let rd = get_bits ins 15 12 in
    let q = stored_word t ins v in
    let q1 : Arm = record q { reg = r } in
    let load = as_load ins in
    let at : effective t q1 load ≡ effective t p ins =
      same_effective ins store t q1 ∙ effective-mem t p r q.mem ins ∙ same in
    let value = arm_read_register p rd in
    let same_rd : get_bits load 15 12 ≡ rd = lower ins store 15 12 (omega arith) (omega arith) in
    let q' = arm_write_register q1 (get_bits load 15 12) value in
    (
      q,
      q',
      str-eq t ins v o store word,
      str-registers t ins v,
      ldr-eq t q1 load value (as_load-IsOffset ins store o) (omega arith) (omega arith) (λ old.
          ap (λ (a : ℕ). memory_read_word q.mem a old t.endianess) at
          ∙ str-memory t ins v old inside),
      rw (same_rd, e)
          (read-write_same_mode rd mode value k w (destination-le ins) l m
            ∙ rw (read_register-eq p rd not_pc) refl),
      refl,
    )
