-- ===== src/Registers/Valid.antt =====
-- The invariant of the register file of registers.c: both tables have their length, and every
-- register is a uint32_t.
use arm_simulator.Base.{
  ℕ, zero, suc, ◌+◌, ◌%◌, ◌^◌, ◌≤◌, ◌<◌, ◌≡◌, refl, arith, List, length, length-set, AllBelow,
  AllBelow-set, AllBelow-get_or, AllBelow-from_get_or, get_or-set_self, ==_iff, ◌∷◌, [], true,
  false, ltb, get_or_beyond, get_or, set, ◌==◌, Bool-cases, inl, inr, ◌⊎◌, ◌∙◌,
}
use arm_simulator.Base.Bits.{bit_and_mask}
use arm_simulator.Registers.{
  Registers, clear, registers_create, registers_get_mode, registers_mode_has_spsr, registers_read,
  registers_write, registers_read_spsr, registers_write_spsr, registers_write_cpsr, mode_ind,
  no_index,
}

pub record IsValid (r : Registers) : Type 0 where
  pub general : length r.genreg ≡ 96
  pub words : AllBelow (2 ^ 32) r.genreg
  pub status : r.cpsr < 2 ^ 32
  pub saved : length r.rstat ≡ 5
  pub saved_words : AllBelow (2 ^ 32) r.rstat

-- The mode is the CPSR modulo 32.
pub get_mode-eq : (r : Registers) → registers_get_mode r ≡ r.cpsr % 32
unfolding registers_get_mode
get_mode-eq r = omega (arith, bit_and_mask 5 r.cpsr)

pub read-lt : {r : Registers} (reg mode : ℕ) → IsValid r → registers_read r reg mode < 2 ^ 32
unfolding registers_read
read-lt {r} reg mode v =
    ground
      (arith, AllBelow-get_or (2 ^ 32) r.genreg (mode_ind reg mode + reg) 0 (omega arith) v.words)

pub write-IsValid :
    {r : Registers} (reg mode value : ℕ)
    → IsValid r
    → value < 2 ^ 32
    → IsValid (registers_write r reg mode value)
unfolding registers_write
write-IsValid {r} reg mode value v h = elim (Bool-cases (mode_ind reg mode == no_index)) [
  | inl e ↦ rw e v
  | inr e ↦ rw e (record {
    general = length-set r.genreg _ value ∙ v.general;
    words = AllBelow-set (2 ^ 32) r.genreg _ value h v.words;
    status = v.status;
    saved = v.saved;
    saved_words = v.saved_words;
  })
]

pub write_cpsr-IsValid :
    {r : Registers} (value : ℕ)
    → IsValid r
    → value < 2 ^ 32
    → IsValid (registers_write_cpsr r value)
unfolding registers_write_cpsr
write_cpsr-IsValid value v h = record {
  general = v.general;
  words = v.words;
  status = h;
  saved = v.saved;
  saved_words = v.saved_words;
}

set-rstat :
    {r : Registers} (i value : ℕ)
    → IsValid r
    → value < 2 ^ 32
    → IsValid (record r { rstat = set r.rstat i value })
set-rstat {r} i value v h = record {
  general = v.general;
  words = v.words;
  status = v.status;
  saved = length-set r.rstat i value ∙ v.saved;
  saved_words = AllBelow-set (2 ^ 32) r.rstat i value h v.saved_words;
}

pub write_spsr-IsValid :
    {r : Registers} (mode value : ℕ)
    → IsValid r
    → value < 2 ^ 32
    → IsValid (registers_write_spsr r mode value)
unfolding registers_write_spsr
write_spsr-IsValid {r} mode value v h = ground (
  arith,
  set-rstat 0 value v h,
  set-rstat 1 value v h,
  set-rstat 2 value v h,
  set-rstat 3 value v h,
  set-rstat 4 value v h,
)

pub read_spsr-lt : {r : Registers} (mode : ℕ) → IsValid r → registers_read_spsr r mode < 2 ^ 32
unfolding registers_read_spsr
read_spsr-lt {r} mode v = ground (
  arith,
  AllBelow-get_or (2 ^ 32) r.rstat 0 0 (omega arith) v.saved_words,
  AllBelow-get_or (2 ^ 32) r.rstat 1 0 (omega arith) v.saved_words,
  AllBelow-get_or (2 ^ 32) r.rstat 2 0 (omega arith) v.saved_words,
  AllBelow-get_or (2 ^ 32) r.rstat 3 0 (omega arith) v.saved_words,
  AllBelow-get_or (2 ^ 32) r.rstat 4 0 (omega arith) v.saved_words,
)

pub mode_has_spsr-IsValid :
    {r : Registers} (mode : ℕ) → IsValid r → IsValid (registers_mode_has_spsr r mode).1
unfolding registers_mode_has_spsr
mode_has_spsr-IsValid {r} mode v = ground (
  arith,
  set-rstat 0 r.cpsr v v.status,
  set-rstat 1 r.cpsr v v.status,
  set-rstat 2 r.cpsr v v.status,
  set-rstat 3 r.cpsr v v.status,
  set-rstat 4 r.cpsr v v.status,
)

-- The loops of `registers_create`: from an array of the right length to as many zeros.
clear-length : (left i : ℕ) (table : List ℕ) → length (clear left i table) ≡ length table
unfolding clear
clear-length zero i table = refl
clear-length (suc left) i table = clear-length left (i + 1) (set table i 0) ∙ length-set table i 0

get_or-set_zero : (xs : List ℕ) (i j : ℕ) → get_or xs j 0 ≡ 0 → get_or (set xs i 0) j 0 ≡ 0
get_or-set_zero [] i j h = h
get_or-set_zero (x ∷ xs) zero zero h = refl
get_or-set_zero (x ∷ xs) zero (suc j) h = h
get_or-set_zero (x ∷ xs) (suc i) zero h = h
get_or-set_zero (x ∷ xs) (suc i) (suc j) h = get_or-set_zero xs i j h

clear-get_or :
    (left i : ℕ) (table : List ℕ) (j : ℕ)
    → get_or table j 0 ≡ 0 ⊎ i ≤ j × j < i + left × j < length table
    → get_or (clear left i table) j 0 ≡ 0
unfolding clear
clear-get_or zero i table j (inl e) = e
clear-get_or zero i table j (inr l) = absurd (omega arith)
clear-get_or (suc left) i table j h =
    clear-get_or left (i + 1) (set table i 0) j (next (Bool-cases (i == j)) h)
  where
    next :
        (i == j ≡ true) ⊎ (i == j ≡ false)
        → get_or table j 0 ≡ 0 ⊎ i ≤ j × j < i + suc left × j < length table
        → get_or (set table i 0) j 0 ≡ 0 ⊎ i + 1 ≤ j × j < i + 1 + left × j < length (set table i 0)
    next c (inl z) = inl (get_or-set_zero table i j z)
    next (inl e) (inr l) =
        let i=j : i ≡ j = (==_iff i j).0 e in
        inl (rw (← i=j) (get_or-set_self table i 0 0 (omega arith)))
    next (inr ne) (inr l) = inr (ground arith, omega arith, rw (length-set table i 0) l.2)

clear-zero : (n : ℕ) (table : List ℕ) (j : ℕ) → length table ≡ n → get_or (clear n 0 table) j 0 ≡ 0
clear-zero n table j e = elim (Bool-cases (ltb j n)) [
  | inl l ↦ clear-get_or n 0 table j (inr (omega arith, ground arith, ground arith))
  | inr l ↦ clear-get_or n 0 table j (inl (get_or_beyond table j 0 (ground arith)))
]

clear-AllBelow : (n : ℕ) (table : List ℕ) → length table ≡ n → AllBelow (2 ^ 32) (clear n 0 table)
clear-AllBelow n table e =
    AllBelow-from_get_or (2 ^ 32) (clear n 0 table) λ j l. omega (arith, clear-zero n table j e)

-- Whatever the two arrays from `malloc` hold, the register file that is made of them is valid, and
-- every register of every mode reads 0.
pub create-IsValid :
    (genreg rstat : List ℕ) (reg mode : ℕ)
    → length genreg ≡ 96
    → length rstat ≡ 5
    → let r = registers_create genreg rstat in
      IsValid r × (registers_get_mode r ≡ 0) × (registers_read r reg mode ≡ 0)
unfolding registers_create registers_read registers_get_mode
create-IsValid genreg rstat reg mode g s = (
  record {
    general = clear-length 96 0 genreg ∙ g;
    words = clear-AllBelow 96 genreg g;
    status = omega arith;
    saved = clear-length 5 0 rstat ∙ s;
    saved_words = clear-AllBelow 5 rstat s;
  },
  refl,
  ground (arith, clear-zero 96 genreg (mode_ind reg mode + reg) g),
)
