-- ===== src/LoadStore/Multiple/Stored.antt =====
-- STM of arm_load_store.c: what the words in the memory are after the loop.
use arm_simulator.Base.{
  ℕ, zero, suc, ◌+◌, ◌*◌, ◌^◌, ◌≤◌, ◌<◌, ◌≡◌, refl, arith, add32, ◌==◌, Bool-cases, inl, inr, ◌∙◌,
  List, length, ==_iff, Option,
}
use mathlib.Core.Path.{subst}
use arm_simulator.Util.{get_bit}
use arm_simulator.Memory.{Memory, put_word, word_of, with_bytes}
use arm_simulator.Memory.Holds.{Holds}
use arm_simulator.Memory.Bounds.{put_word-Holds, length-put_word}
use arm_simulator.Memory.RoundTrip.{written, word_of-put_word}
use arm_simulator.Memory.Apart.{word_of-put_word_apart}
use arm_simulator.Core.{Arm, Target, arm_read_register, arm_read_register_internal, arm_write_word}
use arm_simulator.LoadStore.Multiple.{Moved, each_register, store_one}
use arm_simulator.LoadStore.Multiple.Range.{bits_from}

-- From `address` on, the words of the registers in the list.
abbrev pub Words : ℕ → List ℕ → (ℕ → ℕ) → ℕ → ℕ → ℕ → ℕ → Type 0
Words be bytes value list zero i address = Unit {0}
Words be bytes value list (suc left) i address =
    (get_bit list i ≡ 1 → word_of bytes address be ≡ value i)
    × Words be bytes value list left (i + 1) (address + 4 * get_bit list i)

-- The processor after the loop, from a memory with `bytes`.
pub record Stored (be : ℕ) (bytes : List ℕ) (value : ℕ → ℕ) (list left i : ℕ) (m q : Moved)
    : Type 0 where
  pub bytes_then : List ℕ
  pub holds : Holds q.after.mem bytes_then
  pub same_length : length bytes_then ≡ length bytes
  pub same_registers : q.after.reg ≡ m.after.reg
  pub words : Words be bytes_then value list left i m.address
  pub words_before : (a : ℕ) → a + 3 < m.address → word_of bytes_then a be ≡ word_of bytes a be

module _ (t : Target) (m : Moved) (i : ℕ) {bytes : List ℕ} (h : Holds m.after.mem bytes)
    (fits : m.address + 3 < length bytes) where
  abbrev value : ℕ
  value = arm_read_register m.after i

  -- One register.
  pub store_one-eq : store_one t arm_read_register i m ≡ record m {
    address = add32 m.address 4;
    after = record m.after {
      mem = with_bytes (put_word bytes m.address value t.endianess) (length bytes);
    };
  }
  unfolding store_one arm_write_word
  store_one-eq = rw (written m.address value t.endianess h fits) refl

-- The registers do not depend on the memory.
read_register-mem :
    (p : Arm) (mem : Option Memory) (k : ℕ)
    → arm_read_register (record p { mem = mem }) k ≡ arm_read_register p k
unfolding arm_read_register arm_read_register_internal
read_register-mem p mem k = refl

module _ (be : ℕ) (bytes : List ℕ) (value value' : ℕ → ℕ) (list : ℕ)
    (same : (k : ℕ) → value k ≡ value' k) where
  Words-value :
      (left i address : ℕ)
      → Words be bytes value list left i address
      → Words be bytes value' list left i address
  Words-value zero i address w = w
  Words-value (suc left) i address (w, more) =
      (λ e. w e ∙ same i, Words-value left (i + 1) (address + 4 * get_bit list i) more)

module _ (t : Target) (list : ℕ) where
  -- The loop of an STM whose addresses are inside the memory.
  pub each_register-Stored :
      (left i : ℕ) (m : Moved) (bytes : List ℕ)
      → Holds m.after.mem bytes
      → ((k : ℕ) → arm_read_register m.after k < 2 ^ 32)
      → m.address + 4 * bits_from list left i ≤ length bytes
      → length bytes < 2 ^ 32
      → Stored t.endianess bytes
          (arm_read_register m.after)
          list
          left
          i
          m
          (each_register (store_one t arm_read_register) list left i m)
  unfolding each_register
  each_register-Stored zero i m bytes h v fits small = record {
    bytes_then = bytes;
    holds = h;
    same_length = refl;
    same_registers = refl;
    words = tt;
    words_before = λ a l. refl;
  }
  each_register-Stored (suc left) i m bytes h v fits small =
      elim (Bool-cases (get_bit list i == 1)) [
        | inr e ↦
            rw (e, each_register)
              (let s = each_register-Stored left (i + 1) m bytes h v (omega arith) small in
                record {
                  bytes_then = s.bytes_then;
                  holds = s.holds;
                  same_length = s.same_length;
                  same_registers = s.same_registers;
                  words = (
                    λ f. absurd (ground arith),
                    subst
                        (Words t.endianess s.bytes_then (arm_read_register m.after) list left
                          (i + 1))
                        (ground arith) s.words,
                  );
                  words_before = s.words_before;
                })
        | inl e ↦
            rw (e, each_register)
              (let x = arm_read_register m.after i in
                let bytes1 = put_word bytes m.address x t.endianess in
                let m1 : Moved = record m {
                  address = add32 m.address 4;
                  after = record m.after { mem = with_bytes bytes1 (length bytes) };
                } in
                let h1 : Holds m1.after.mem bytes1 = put_word-Holds h m.address x t.endianess in
                let l1 = length-put_word h m.address x t.endianess in
                let one : get_bit list i ≡ 1 = (==_iff (get_bit list i) 1).0 e in
                let inside : m.address + 3 < length bytes = omega (arith, one) in
                let same_value = read_register-mem m.after (with_bytes bytes1 (length bytes)) in
                let s =
                  each_register-Stored left (i + 1) m1 bytes1 h1 (λ k. rw (same_value k) (v k))
                    (omega (arith, one, l1)) (omega (arith, l1)) in
                rw (store_one-eq t m i h inside) (record {
                  bytes_then = s.bytes_then;
                  holds = s.holds;
                  same_length = s.same_length ∙ l1;
                  same_registers = s.same_registers;
                  words = (
                    λ f.
                        s.words_before m.address (omega arith)
                        ∙ word_of-put_word bytes m.address x t.endianess inside h.at_most (v i)
                            h1.are_bytes,
                    subst
                        (Words t.endianess s.bytes_then (arm_read_register m.after) list left
                          (i + 1))
                        (omega (arith, one))
                        (Words-value t.endianess s.bytes_then (arm_read_register m1.after)
                          (arm_read_register m.after) list same_value left (i + 1) m1.address
                          s.words),
                  );
                  words_before = λ a l.
                      s.words_before a (omega arith)
                      ∙ word_of-put_word_apart h m.address x t.endianess a inside (omega arith)
                          (inl l);
                }))
      ]
