-- ===== src/LoadStore/Multiple/Loaded.antt =====
-- LDM of arm_load_store.c: what the registers are after the loop.
use arm_simulator.Base.{
  ℕ, zero, suc, ◌+◌, ◌*◌, ◌%◌, ◌^◌, ◌≤◌, ◌<◌, ◌≡◌, ◌≢◌, refl, arith, add32, ◌==◌, Bool-cases, inl,
  inr, ◌⊎◌, ap, sym, ◌∙◌, List, length, ==_iff, ==_ne, ltb,
}
use mathlib.Core.Path.{subst}
use arm_simulator.Util.{get_bit}
use arm_simulator.Memory.{word_of}
use arm_simulator.Memory.Holds.{Holds}
use arm_simulator.Memory.Bounds.{word_of-lt}
use arm_simulator.Memory.Apart.{read_inside}
use arm_simulator.Registers.{Registers, registers_get_mode, registers_read, registers_write}
use arm_simulator.Registers.Valid.{IsValid, write-IsValid, get_mode-eq}
use arm_simulator.Registers.Banks.{IsMode, read-write}
use arm_simulator.Exception.Create.{read-write_same}
use arm_simulator.Exception.Entry.{write-keeps_cpsr}
use arm_simulator.Core.{Target, arm_write_register, arm_write_register_internal, arm_read_word}
use arm_simulator.LoadStore.Multiple.{Moved, each_register, load_keeping}
use arm_simulator.LoadStore.Multiple.Range.{bits_from}
use arm_simulator.LoadStore.Multiple.Stored.{Words}

-- The registers after the loop: those of the list are the words, the others as they were.
pub record Loaded (mode : ℕ) (value : ℕ → ℕ) (list left i : ℕ) (r q : Registers) : Type 0 where
  pub listed :
      (k : ℕ) → i ≤ k → k < i + left → get_bit list k ≡ 1 → registers_read q k mode ≡ value k
  pub others :
      (k : ℕ)
      → k < 16
      → (k < i) ⊎ (i + left ≤ k) ⊎ (get_bit list k ≡ 0)
      → registers_read q k mode ≡ registers_read r k mode
  pub same_status : q.cpsr ≡ r.cpsr

read-write_other :
    {r : Registers} (reg mode value k : ℕ)
    → IsValid r
    → reg < 16
    → k < 16
    → IsMode mode
    → reg ≢ k
    → registers_read (registers_write r reg mode value) k mode ≡ registers_read r k mode
read-write_other {r} reg mode value k v h l m n =
    read-write {r = r} reg mode value k mode v h l m m ∙ rw (==_ne reg k n) refl

module _ (t : Target) (m : Moved) (i : ℕ) {bytes : List ℕ} (h : Holds m.after.mem bytes)
    (fits : m.address + 3 < length bytes) where
  load_keeping-eq :
      let word = word_of bytes m.address t.endianess in
      load_keeping t i m ≡ record {
        address = add32 m.address 4;
        value = word;
        after = record m.after {
          reg = registers_write m.after.reg i (registers_get_mode m.after.reg) word;
        };
      }
  unfolding load_keeping arm_write_register arm_write_register_internal arm_read_word
  load_keeping-eq = rw (read_inside h m.address m.value t.endianess fits) refl

module _ (t : Target) (list mode : ℕ) (value : ℕ → ℕ) (known : IsMode mode) where
  -- The loop of an LDM whose addresses are inside the memory.
  pub each_register-Loaded :
      (left i : ℕ) (m : Moved) (bytes : List ℕ)
      → Holds m.after.mem bytes
      → IsValid m.after.reg
      → registers_get_mode m.after.reg ≡ mode
      → Words t.endianess bytes value list left i m.address
      → i + left ≤ 15
      → m.address + 4 * bits_from list left i ≤ length bytes
      → length bytes < 2 ^ 32
      → Loaded mode value list left i m.after.reg
          (each_register (load_keeping t) list left i m).after.reg
  unfolding each_register
  each_register-Loaded zero i m bytes h v e w le fits small = record {
    listed = λ k l u b. absurd (omega arith);
    others = λ k l o. refl;
    same_status = refl;
  }
  each_register-Loaded (suc left) i m bytes h v e (w, more) le fits small =
      elim (Bool-cases (get_bit list i == 1)) [
        | inr f ↦
            rw (f, each_register)
              (let words : Words t.endianess bytes value list left (i + 1) m.address =
                  subst (Words t.endianess bytes value list left (i + 1)) (ground arith) more in
                let s =
                  each_register-Loaded left (i + 1) m bytes h v e words (omega arith) (omega arith)
                    small in
                record {
                  listed = λ k l u b.
                      s.listed k
                        (let n : k ≢ i = λ g.
                            (let c : get_bit list i ≡ 1 = ap (get_bit list) (sym g) ∙ b in
                              ground arith) in
                          omega arith)
                        (omega arith) b;
                  others = λ k l o. s.others k l (omega arith);
                  same_status = s.same_status;
                })
        | inl f ↦
            let one : get_bit list i ≡ 1 = (==_iff (get_bit list i) 1).0 f in
            let inside : m.address + 3 < length bytes = omega (arith, one) in
            let word = word_of bytes m.address t.endianess in
            let r1 = registers_write m.after.reg i mode word in
            let v1 = write-IsValid i mode word v (word_of-lt bytes m.address t.endianess) in
            let status = write-keeps_cpsr m.after.reg i mode word in
            let e1 : registers_get_mode r1 ≡ mode =
              get_mode-eq r1 ∙ ap (λ (c : ℕ). c % 32) status ∙ sym (get_mode-eq m.after.reg) ∙ e in
            let m1 : Moved = record {
              address = add32 m.address 4;
              value = word;
              after = record m.after { reg = r1 };
            } in
            let words : Words t.endianess bytes value list left (i + 1) (add32 m.address 4) =
              subst (Words t.endianess bytes value list left (i + 1)) (omega (arith, one)) more in
            let s =
              each_register-Loaded left (i + 1) m1 bytes h v1 e1 words (omega arith)
                (omega (arith, one)) small in
            rw (f, each_register)
              (rw (load_keeping-eq t m i h inside) (
                rw e (record {
                  listed = λ k l u b. elim (Bool-cases (ltb i k)) [
                    | inl g ↦ s.listed k (ground arith) (omega arith) b
                    | inr g ↦
                        let at : i ≡ k = ground arith in
                        rw (sym at) (
                          s.others i (omega arith) (inl (omega arith))
                          ∙ read-write_same {r = m.after.reg} i mode word v (omega arith) known
                          ∙ w one)
                  ];
                  others = λ k l o.
                      let n : i ≢ k = λ g.
                        (let c : get_bit list k ≡ 1 = ap (get_bit list) (sym g) ∙ one in
                          omega arith) in
                      s.others k l (omega arith)
                      ∙ read-write_other {r = m.after.reg} i mode word k v (omega arith) l known n;
                  same_status = s.same_status ∙ status;
                })))
      ]
