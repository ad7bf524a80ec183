-- ===== src/LoadStore/Multiple/Restored.antt =====
-- STM and then LDM of arm_load_store.c, with the registers changed in between.
use arm_simulator.Base.{
  ap₂, ℕ, zero, suc, ◌+◌, ◌*◌, ◌/◌, ◌^◌, ◌≤◌, ◌<◌, ◌≡◌, ◌≢◌, refl, arith, ◌==◌, if◌then◌else◌,
  Bool-cases, inl, inr, ap, sym, ◌∙◌, List, length, ==_iff, some,
}
use arm_simulator.Base.Bits.{bit_and_mask}
use mathlib.Core.Path.{subst}
use arm_simulator.Util.{get_bit, get_bits}
use arm_simulator.Memory.Holds.{Holds}
use arm_simulator.Registers.{Registers, registers_get_mode, registers_read}
use arm_simulator.Registers.Valid as RegistersValid
use arm_simulator.Registers.Banks.{IsMode}
use arm_simulator.Core.{Arm, Target, arm_read_register, arm_read_register_internal}
use arm_simulator.Core.Valid.{IsValid, parts, read_register-lt}
use arm_simulator.LoadStore.Offset.{as_load}
use arm_simulator.LoadStore.Single.{read_register-eq}
use arm_simulator.LoadStore.Multiple.{arm_load_store_multiple}
use arm_simulator.LoadStore.Multiple.Range.{bits_from, bits_from-last}
use arm_simulator.LoadStore.Multiple.Transfer.{
  list_of, base_of, range_of, first, stored, loaded, stm-eq, ldm-eq,
}
use arm_simulator.LoadStore.Multiple.Stored.{Words, each_register-Stored}
use arm_simulator.LoadStore.Multiple.Loaded.{Loaded, each_register-Loaded}

Words-init :
    (be : ℕ) (bytes : List ℕ) (value : ℕ → ℕ) (list left i address : ℕ)
    → Words be bytes value list (suc left) i address
    → Words be bytes value list left i address
Words-init be bytes value list zero i address w = tt
Words-init be bytes value list (suc left) i address (w, more) =
    (w, Words-init be bytes value list left (i + 1) (address + 4 * get_bit list i) more)

module _ (ins : ℕ) (store : get_bit ins 20 ≡ 0) where
  same_list : list_of (as_load ins) ≡ list_of ins
  unfolding get_bits
  same_list = omega (arith, bit_and_mask 16 (ins / 2 ^ 0), bit_and_mask 16 (as_load ins / 2 ^ 0))

  same_base : base_of (as_load ins) ≡ base_of ins
  unfolding get_bits
  same_base = omega (arith, bit_and_mask 4 (ins / 2 ^ 16), bit_and_mask 4 (as_load ins / 2 ^ 16))

  same_mode : get_bits (as_load ins) 24 23 ≡ get_bits ins 24 23
  unfolding get_bits
  same_mode = omega (arith, bit_and_mask 2 (ins / 2 ^ 23), bit_and_mask 2 (as_load ins / 2 ^ 23))

-- The value of the base in two processors.
same_register :
    (p q : Arm) (k : ℕ)
    → registers_get_mode q.reg ≡ registers_get_mode p.reg
    → registers_read q.reg k (registers_get_mode p.reg)
      ≡ registers_read p.reg k (registers_get_mode p.reg)
    → arm_read_register q k ≡ arm_read_register p k
unfolding arm_read_register arm_read_register_internal
same_register p q k e f = rw (e, f) refl

-- The LDM from a memory that holds the words of its list.
load-Loaded :
    (t : Target) (q : Arm) (ins mode : ℕ) (value : ℕ → ℕ) (bytes : List ℕ)
    → IsMode mode
    → registers_get_mode q.reg ≡ mode
    → RegistersValid.IsValid q.reg
    → Holds q.mem bytes
    → length bytes < 2 ^ 32
    → list_of ins ≢ 0
    → get_bit (list_of ins) 15 ≡ 0
    → get_bit ins 20 ≡ 1
    → get_bit ins 21 ≡ 0
    → get_bit ins 22 ≡ 0
    → arm_read_register q (base_of ins) < 2 ^ 32
    → Words t.endianess bytes value (list_of ins) 15 0 (range_of q ins).0
    → (range_of q ins).0 + 4 * bits_from (list_of ins) 15 0 ≤ length bytes
    → (q' : Arm) × (arm_load_store_multiple t q ins ≡ some (0, q'))
      × Loaded mode value (list_of ins) 15 0 q.reg q'.reg
load-Loaded t q ins mode value bytes known e v h small some_register no_pc load no_w no_s base-lt
      words inside =
    (
      (loaded t q ins some_register no_pc no_s no_w base-lt).after,
      ldm-eq t q ins some_register no_pc no_s no_w base-lt load,
      each_register-Loaded t (list_of ins) mode value known 15 0 (first t q ins) bytes h v e words
          (omega arith) inside small,
    )

-- The register `k` after the LDM, by the list.
listed_or_not :
    (p : Arm) (r q : Registers) (list k : ℕ)
    → Loaded (registers_get_mode p.reg) (arm_read_register p) list 15 0 r q
    → get_bit list 15 ≡ 0
    → k < 16
    → registers_read q k (registers_get_mode p.reg) ≡ (
        if get_bit list k == 1
        then registers_read p.reg k (registers_get_mode p.reg)
        else registers_read r k (registers_get_mode p.reg))
listed_or_not p r q list k d no_pc l = elim (Bool-cases (get_bit list k == 1)) [
  | inl f ↦
      let listed : get_bit list k ≡ 1 = (==_iff (get_bit list k) 1).0 f in
      let not_pc : k ≢ 15 =
        λ g. (let c : get_bit list 15 ≡ 1 = ap (get_bit list) (sym g) ∙ listed in omega arith) in
      rw f (d.listed k (omega arith) (omega arith) listed ∙ read_register-eq p k (omega arith))
  | inr f ↦ rw f (d.others k l (inr (inr (ground arith))))
]

-- The words of r0 to r14 of a processor, for a list and an address.
abbrev WordsFrom : Target → Arm → List ℕ → ℕ × ℕ → Type 0
WordsFrom t p bytes x = Words t.endianess bytes (arm_read_register p) x.0 15 0 x.1

-- An STM in any addressing mode, with a register in its list, without S, write-back and the PC,
-- and with its addresses inside a memory of fewer than 2^32 bytes, in a valid processor in one of
-- the seven modes, succeeds and changes no register; after any change of the registers that keeps
-- the mode and the base, the LDM with the same fields succeeds, gives each register of the list its
-- value at the STM, and leaves the other registers and the CPSR as they are.
pub load_multiple-store_multiple :
    {size cycle : ℕ} {p : Arm} (t : Target) (ins : ℕ) (r : Registers) (k : ℕ)
    → IsValid size cycle p
    → RegistersValid.IsValid r
    → IsMode (registers_get_mode p.reg)
    → registers_get_mode r ≡ registers_get_mode p.reg
    → registers_read r (base_of ins) (registers_get_mode p.reg)
      ≡ registers_read p.reg (base_of ins) (registers_get_mode p.reg)
    → list_of ins ≢ 0
    → get_bit (list_of ins) 15 ≡ 0
    → get_bit ins 20 ≡ 0
    → get_bit ins 21 ≡ 0
    → get_bit ins 22 ≡ 0
    → (range_of p ins).0 + 4 * bits_from (list_of ins) 16 0 ≤ size
    → size < 2 ^ 32
    → k < 16
    → (q q' : Arm) × (arm_load_store_multiple t p ins ≡ some (0, q))
      × (q.reg ≡ p.reg)
      × (arm_load_store_multiple t (record q { reg = r }) (as_load ins) ≡ some (0, q'))
      × (registers_read q'.reg k (registers_get_mode p.reg) ≡ (
          if get_bit (list_of ins) k == 1
          then registers_read p.reg k (registers_get_mode p.reg)
          else registers_read r k (registers_get_mode p.reg)))
      × (q'.reg.cpsr ≡ r.cpsr)
load_multiple-store_multiple {size = size} {p = p} t ins r k v w known e base some_register no_pc
      store no_w no_s inside small l =
    let base-lt = read_register-lt v (base_of ins) in
    let same_size = (parts v).same_size in
    let s =
      each_register-Stored t (list_of ins) 16 0 (first t p ins) (parts v).bytes (parts v).memory
        (read_register-lt v) (omega (arith, inside, same_size)) (omega (arith, same_size)) in
    let q = (stored t p ins some_register no_pc no_s no_w base-lt).after in
    let q1 : Arm = record q { reg = r } in
    let load = as_load ins in
    let lists : list_of load ≡ list_of ins = same_list ins store in
    let base1 : arm_read_register q1 (base_of load) ≡ arm_read_register p (base_of ins) =
      ap (arm_read_register q1) (same_base ins store) ∙ same_register p q1 (base_of ins) e base in
    let range : range_of q1 load ≡ range_of p ins = rw (same_mode ins store, base1, lists) refl in
    let from : (range_of q1 load).0 ≡ (range_of p ins).0 = ap (λ (x : ℕ × ℕ). x.0) range in
    let bits : bits_from (list_of load) 15 0 ≡ bits_from (list_of ins) 15 0 =
      ap (λ (x : ℕ). bits_from x 15 0) lists in
    let words : WordsFrom t p s.bytes_then (list_of load, (range_of q1 load).0) =
      subst (WordsFrom t p s.bytes_then) (ap₂ (λ (x y : ℕ). (x, y)) (sym lists) (sym from)) (
        Words-init t.endianess s.bytes_then (arm_read_register p) (list_of ins) 15 0
          (range_of p ins).0 s.words) in
    let (q', load-eq, d) =
      load-Loaded t q1 load (registers_get_mode p.reg) (arm_read_register p) s.bytes_then known e w
        s.holds (omega (arith, s.same_length, same_size)) (rw lists some_register) (rw lists no_pc)
        (omega arith) (omega arith) (omega arith) (rw base1 base-lt) words
        (omega (
          arith,
          from,
          bits,
          inside,
          s.same_length,
          same_size,
          bits_from-last (list_of ins),
          no_pc,
        )) in
    (
      q,
      q',
      stm-eq t p ins some_register no_pc no_s no_w base-lt store,
      s.same_registers,
      load-eq,
      listed_or_not p r q'.reg (list_of ins) k
          (subst
            (λ (x : ℕ). Loaded (registers_get_mode p.reg) (arm_read_register p) x 15 0 r q'.reg)
            lists d)
          no_pc l,
      d.same_status,
    )
