-- ===== src/LoadStore/Multiple/Valid.antt =====
-- LDM and STM of arm_load_store.c: the invariant of the processor, and the assertions.
use arm_simulator.Base.{
  ℕ, zero, suc, ◌+◌, ◌*◌, ◌/◌, ◌^◌, ◌<◌, ◌≡◌, refl, arith, u32, sub32, ◌==◌, if◌then◌else◌, ◌∙◌,
  Bool-cases, inl, inr, ap, ==_iff, bit_and, Option, some, true, false, ◌⊎◌, ◌&&◌, ◌||◌, ◌≢◌, ◌≢◌,
}
use arm_simulator.Base.Bits.{bit_and_mask, bit_and-lt_left}
use arm_simulator.Constants.{usr, sys, undefined_instruction}
use arm_simulator.Util.{get_bit, get_bits}
use arm_simulator.Core.{
  Arm, Target, value_local, arm_read_register, arm_read_usr_register, arm_read_cpsr, arm_read_spsr,
  arm_write_register, arm_write_usr_register, arm_write_cpsr, arm_read_word,
  arm_current_mode_has_spsr,
}
use arm_simulator.Core.Valid.{
  IsValid, write_register-IsValid, write_usr_register-IsValid, write_cpsr-IsValid, has_spsr-IsValid,
  read_register-lt, read_spsr-lt, arm_read_word-lt, write_word-IsValid,
}
use arm_simulator.LoadStore.Multiple.{
  Moved, number_set_bits_in, each_register, transfer_range, load_one, load_keeping, store_one,
  ldm_spsr_pc, ldm_plain, transfer_all, finish, arm_load_store_multiple,
}
use arm_simulator.LoadStore.Multiple.Range.{
  bits_from, bits_from-last, number_set_bits_in-eq, Advances, each_register-address,
  transfer_range-eq,
}

-- What a loop keeps: a valid processor, and words in its variables.
pub record MovedValid (size cycle : ℕ) (m : Moved) : Type 0 where
  pub address_lt : m.address < 2 ^ 32
  pub value_lt : m.value < 2 ^ 32
  pub after_valid : IsValid size cycle m.after

-- A write to a register that keeps the processor valid.
abbrev KeepsValid : ℕ → ℕ → (Arm → ℕ → ℕ → Arm) → Type 0
KeepsValid size cycle write =
    (p : Arm) (reg value : ℕ)
    → value < 2 ^ 32
    → IsValid size cycle p
    → IsValid size cycle (write p reg value)

module _ {size cycle : ℕ} where
  each_register-Valid :
      (body : ℕ → Moved → Moved)
      → ((i : ℕ) (m : Moved) → MovedValid size cycle m → MovedValid size cycle (body i m))
      → (list left i : ℕ) (m : Moved) → MovedValid size cycle m
      → MovedValid size cycle (each_register body list left i m)
  unfolding each_register
  each_register-Valid body keep list zero i m v = v
  each_register-Valid body keep list (suc left) i m v = elim (Bool-cases (get_bit list i == 1)) [
    | inl e ↦
        rw (e, each_register)
          (each_register-Valid body keep list left (i + 1) (body i m) (keep i m v))
    | inr e ↦ rw (e, each_register) (each_register-Valid body keep list left (i + 1) m v)
  ]

  module _ (t : Target) (i : ℕ) (m : Moved) (v : MovedValid size cycle m) where
    load_one-Valid :
        (write : Arm → ℕ → ℕ → Arm)
        → KeepsValid size cycle write
        → MovedValid size cycle (load_one t write i m)
    unfolding load_one
    load_one-Valid write keep = record {
      address_lt = omega arith;
      value_lt = v.value_lt;
      after_valid =
          keep m.after i _ (arm_read_word-lt v.after_valid t m.address _ (t.uninit-lt _ _))
            v.after_valid;
    }

    load_keeping-Valid : MovedValid size cycle (load_keeping t i m)
    unfolding load_keeping
    load_keeping-Valid =
        let b = arm_read_word-lt v.after_valid t m.address m.value v.value_lt in
        record {
          address_lt = omega arith;
          value_lt = b;
          after_valid = write_register-IsValid v.after_valid i _ b;
        }

    store_one-Valid : (read : Arm → ℕ → ℕ) → MovedValid size cycle (store_one t read i m)
    unfolding store_one
    store_one-Valid read = record {
      address_lt = omega arith;
      value_lt = v.value_lt;
      after_valid = write_word-IsValid v.after_valid t m.address _;
    }

module _ (t : Target) where
  load_one-Advances : (write : Arm → ℕ → ℕ → Arm) → Advances (load_one t write)
  unfolding load_one
  load_one-Advances write i m = refl

  load_keeping-Advances : Advances (load_keeping t)
  unfolding load_keeping
  load_keeping-Advances i m = refl

  store_one-Advances : (read : Arm → ℕ → ℕ) → Advances (store_one t read)
  unfolding store_one
  store_one-Advances read i m = refl

-- A transfer that returns 0 has moved the address by four for each register in the list.
record Completed (size cycle start list : ℕ) (r : ℕ × Moved) : Type 0 where
  after_valid : IsValid size cycle r.1.after
  reached : r.0 ≡ 0 → r.1.address ≡ u32 (start + 4 * bits_from list 16 0)

module _ {size cycle : ℕ} (t : Target) (list : ℕ) (m : Moved) (v : MovedValid size cycle m) where
  -- A loop over r0 to r14 of a list without the PC, or over all.
  low_Completed :
      (body : ℕ → Moved → Moved)
      → Advances body
      → ((i : ℕ) (n : Moved) → MovedValid size cycle n → MovedValid size cycle (body i n))
      → get_bit list 15 ≢ 1
      → Completed size cycle m.address list (0, each_register body list 15 0 m)
  low_Completed body adv keep no_pc = record {
    after_valid = (each_register-Valid body keep list 15 0 m v).after_valid;
    reached = λ _.
        each_register-address body adv list 15 0 m v.address_lt
        ∙ omega (arith, bits_from-last list);
  }

  all_Completed :
      (body : ℕ → Moved → Moved)
      → Advances body
      → ((i : ℕ) (n : Moved) → MovedValid size cycle n → MovedValid size cycle (body i n))
      → Completed size cycle m.address list (0, each_register body list 16 0 m)
  all_Completed body adv keep = record {
    after_valid = (each_register-Valid body keep list 16 0 m v).after_valid;
    reached = λ _. each_register-address body adv list 16 0 m v.address_lt;
  }

  ldm_spsr_pc-Completed :
      get_bit list 15 ≡ 1 → Completed size cycle m.address list (ldm_spsr_pc t list m)
  unfolding ldm_spsr_pc
  ldm_spsr_pc-Completed pc =
      let loaded = each_register (load_one t arm_write_register) list 15 0 m in
      let lv =
        each_register-Valid (load_one t arm_write_register)
          (λ i n w.
            load_one-Valid t i n w arm_write_register
              (λ p reg value h u. write_register-IsValid u reg value h))
          list 15 0 m v in
      let end_at =
        each_register-address (load_one t arm_write_register)
          (load_one-Advances t arm_write_register) list 15 0 m v.address_lt in
      let w = has_spsr-IsValid lv.after_valid in
      let p1 = (arm_current_mode_has_spsr loaded.after).1 in
      let w2 = write_cpsr-IsValid w (arm_read_spsr p1) (read_spsr-lt w) in
      let p2 = arm_write_cpsr p1 (arm_read_spsr p1) in
      let pc_value = (arm_read_word t p2 loaded.address (t.uninit value_local p2)).1 in
      elim (Bool-cases ((arm_current_mode_has_spsr loaded.after).0 == 0)) [
        | inl e ↦
            rw (e, ldm_spsr_pc) (record { after_valid = w; reached = λ h. absurd (omega arith) })
        | inr e ↦
            rw (e, ldm_spsr_pc)
              (record {
                after_valid =
                    write_register-IsValid w2 15 pc_value
                      (arm_read_word-lt w2 t loaded.address _ (t.uninit-lt value_local p2));
                reached = λ _. omega (arith, end_at, bits_from-last list);
              })
      ]

  ldm_plain-Completed : Completed size cycle m.address list (0, ldm_plain t list m)
  unfolding ldm_plain
  ldm_plain-Completed =
      let loaded = each_register (load_keeping t) list 15 0 m in
      let lv =
        each_register-Valid (load_keeping t) (λ i n w. load_keeping-Valid t i n w) list 15 0 m v in
      let end_at =
        each_register-address (load_keeping t) (load_keeping-Advances t) list 15 0 m v.address_lt in
      let value = (arm_read_word t loaded.after loaded.address loaded.value).1 in
      elim (Bool-cases (get_bit list 15 == 1)) [
        | inl e ↦
            rw (e, ldm_plain)
              (record {
                after_valid = write_register-IsValid lv.after_valid 15 (bit_and value 0xFFFFFFFC) (
                    bit_and-lt_left 32 value 0xFFFFFFFC
                      (arm_read_word-lt lv.after_valid t loaded.address loaded.value lv.value_lt));
                reached = λ _. ground (arith, end_at, bits_from-last list);
              })
        | inr e ↦
            rw (e, ldm_plain)
              (record {
                after_valid = lv.after_valid;
                reached = λ _. ground (arith, end_at, bits_from-last list);
              })
      ]

  usr_load :
      (i : ℕ) (n : Moved)
      → MovedValid size cycle n
      → MovedValid size cycle (load_one t arm_write_usr_register i n)
  usr_load i n w =
      load_one-Valid t i n w arm_write_usr_register
        λ p reg value h u. write_usr_register-IsValid u reg value h

  transfer_all-Completed :
      (s l : ℕ) → Completed size cycle m.address list (transfer_all t s l list m)
  unfolding transfer_all
  transfer_all-Completed s l = ground (
    arith,
    ldm_spsr_pc-Completed,
    ldm_plain-Completed,
    low_Completed (load_one t arm_write_usr_register) (load_one-Advances t arm_write_usr_register)
        usr_load,
    all_Completed (store_one t arm_read_usr_register) (store_one-Advances t arm_read_usr_register)
        (λ i n w. store_one-Valid t i n w arm_read_usr_register),
    all_Completed (store_one t arm_read_register) (store_one-Advances t arm_read_register)
        (λ i n w. store_one-Valid t i n w arm_read_register),
  )

-- An outcome that is a return, with a valid processor.
abbrev pub Returns : ℕ → ℕ → Option (ℕ × Arm) → Type 0
Returns size cycle o = (r : ℕ × Arm) × (o ≡ some r) × IsValid size cycle r.1

finish-Returns :
    {size cycle : ℕ} (ins end_address start list : ℕ) (r : ℕ × Moved)
    → start < 2 ^ 32
    → Completed size cycle start list r
    → end_address ≡ sub32 (u32 (start + 4 * bits_from list 16 0)) 4
    → Returns size cycle (finish ins end_address r)
unfolding finish
finish-Returns {size} {cycle} ins end_address start list (status, m) h c e =
    elim (Bool-cases (status == 0)) [
      | inl z ↦
          rw (z, finish)
            (rw (asserted ((==_iff status 0).0 z))
              (updated ((==_iff status 0).0 z) (Bool-cases (get_bit ins 21 == 1))))
      | inr z ↦ rw (z, finish) ((status, m.after), refl, c.after_valid)
    ]
  where
    asserted : status ≡ 0 → (end_address == sub32 m.address 4) ≡ true
    asserted z = ground (arith, c.reached z)

    updated :
        status ≡ 0
        → (get_bit ins 21 == 1 ≡ true) ⊎ (get_bit ins 21 == 1 ≡ false)
        → Returns size cycle (
            if get_bit ins 21 == 1
            then some (zero, arm_write_register m.after (get_bits ins 19 16) m.address)
            else some (zero, m.after))
    updated z (inl w) = rw w (
      (zero, arm_write_register m.after (get_bits ins 19 16) m.address),
      refl,
      write_register-IsValid c.after_valid _ m.address (ground (arith, c.reached z)),
    )
    updated z (inr w) = rw w ((zero, m.after), refl, c.after_valid)

list-lt : (ins : ℕ) → get_bits ins 15 0 < 2 ^ 16
unfolding get_bits
list-lt ins = omega (arith, bit_and_mask 16 (ins / 2 ^ 0))

-- LDM and STM return in every state and for every instruction word: no assertion fails. The
-- processor is valid afterwards.
pub arm_load_store_multiple-Returns :
    {size cycle : ℕ} {p : Arm} (t : Target) (ins : ℕ)
    → IsValid size cycle p
    → Returns size cycle (arm_load_store_multiple t p ins)
unfolding arm_load_store_multiple
arm_load_store_multiple-Returns {size} {cycle} {p} t ins v = elim (Bool-cases (list == 0)) [
  | inl e ↦ rw (e, arm_load_store_multiple) ((undefined_instruction, p), refl, v)
  | inr e ↦
      rw (e, arm_load_store_multiple)
        (elim (Bool-cases (s == 1 && (mode == usr || mode == sys))) [
          | inl f ↦ rw f ((undefined_instruction, p), refl, v)
          | inr f ↦ rw f (
              finish-Returns ins range.1 range.0 list (transfer_all t s (get_bit ins 20) list start)
                bounds.0 (transfer_all-Completed t list start start-Valid s (get_bit ins 20))
                (bounds.1 ∙ ap (λ (n : ℕ). sub32 (u32 (range.0 + 4 * n)) 4) counted))
        ])
]
  where
    list : ℕ
    list = get_bits ins 15 0

    s : ℕ
    s = get_bit ins 22

    mode : ℕ
    mode = bit_and (arm_read_cpsr p) 0x1F

    rn : ℕ
    rn = arm_read_register p (get_bits ins 19 16)

    range : ℕ × ℕ
    range = transfer_range (get_bits ins 24 23) rn list

    bounds : (range.0 < 2 ^ 32) × (range.1 ≡ sub32 (u32 (range.0 + 4 * number_set_bits_in list)) 4)
    bounds = transfer_range-eq (get_bits ins 24 23) rn list (read_register-lt v _)

    start : Moved
    start = record { address = range.0; value = t.uninit value_local p; after = p }

    start-Valid : MovedValid size cycle start
    start-Valid = record {
      address_lt = bounds.0;
      value_lt = t.uninit-lt value_local p;
      after_valid = v;
    }

    counted : number_set_bits_in list ≡ bits_from list 16 0
    counted = number_set_bits_in-eq list (list-lt ins)
