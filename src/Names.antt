-- ===== src/Names.antt =====
-- arm_constants.c: the names of modes, registers and exceptions, and the search of send_irq.c for
-- the exception to send. A name is its bytes, NULL is `none`.
pub mod Search
use arm_simulator.Base.{
  ℕ, zero, suc, ◌+◌, ltb, ◌==◌, if◌then◌else◌, Bool, true, false, Option, none, some, List, [], ◌∷◌,
  ◌++◌, replicate, get_or,
}
use arm_simulator.Constants.{reset, interrupt}
use arm_simulator.Gdb.Text.{codes, text_equal}

-- The names from the place 16 on.
abbrev pub mode_names_from_16 : List (Option (List ℕ))
mode_names_from_16 =
    some (codes "USR")
    ∷ some (codes "FIQ")
    ∷ some (codes "IRQ")
    ∷ some (codes "SVC")
    ∷ none
    ∷ none
    ∷ none
    ∷ some (codes "ABT")
    ∷ none
    ∷ none
    ∷ none
    ∷ some (codes "UND")
    ∷ none
    ∷ none
    ∷ none
    ∷ some (codes "SYS")
    ∷ []

abbrev pub arm_mode_names : List (Option (List ℕ))
arm_mode_names = replicate 16 none ++ mode_names_from_16

abbrev pub arm_register_names : List (List ℕ)
arm_register_names =
    codes "R00"
    ∷ codes "R01"
    ∷ codes "R02"
    ∷ codes "R03"
    ∷ codes "R04"
    ∷ codes "R05"
    ∷ codes "R06"
    ∷ codes "R07"
    ∷ codes "R08"
    ∷ codes "R09"
    ∷ codes "R10"
    ∷ codes "R11"
    ∷ codes "R12"
    ∷ codes "SP"
    ∷ codes "LR"
    ∷ codes "PC"
    ∷ codes "CPSR"
    ∷ codes "SPSR"
    ∷ []

abbrev pub arm_exception_names : List (Option (List ℕ))
arm_exception_names =
    none
    ∷ some (codes "reset")
    ∷ some (codes "data abort")
    ∷ some (codes "fast interrupt")
    ∷ some (codes "interrupt")
    ∷ some (codes "imprecise abort")
    ∷ some (codes "prefetch abort")
    ∷ some (codes "undefined instruction")
    ∷ some (codes "software interrupt")
    ∷ []

unfoldable pub arm_get_exception_name : ℕ → Option (List ℕ)
arm_get_exception_name exception =
    if ltb exception 8 then get_or arm_exception_names exception none else none

-- For a mode below 32; C leaves a read past the table open.
unfoldable pub arm_get_mode_name : ℕ → Option (List ℕ)
arm_get_mode_name mode = get_or arm_mode_names mode none

-- For a register below 18.
unfoldable pub arm_get_register_name : ℕ → List ℕ
arm_get_register_name reg = get_or arm_register_names reg []

-- `entry && strcmp(name, entry) == 0`
unfoldable pub is_named : Option (List ℕ) → List ℕ → Bool
is_named none name = false
is_named (some entry) name = text_equal name entry

-- The loop of `arm_get_mode_number`, with the rounds left; `none` is -1.
unfoldable pub mode_number_from : ℕ → ℕ → List ℕ → Option ℕ
mode_number_from zero i name = none
mode_number_from (suc left) i name =
    let further = mode_number_from left (i + 1) name in
    if is_named (arm_get_mode_name i) name then some i else further

unfoldable pub arm_get_mode_number : List ℕ → Option ℕ
arm_get_mode_number name = mode_number_from 32 0 name

-- The search of send_irq.c from an exception on, with its rounds as fuel; `none` is its exit with
-- "Unknown irq".
unfoldable pub irq_from : ℕ → ℕ → List ℕ → Option ℕ
irq_from zero irq name = none
irq_from (suc fuel) irq name =
    let further = irq_from fuel (irq + 1) name in
    elim (arm_get_exception_name irq) [
      | none ↦ none
      | some irq_name ↦ if text_equal irq_name name then some irq else further
    ]

-- The byte that send_irq.c sends; no third argument means INTERRUPT. The table ends after seven
-- names, so that eight rounds are enough.
unfoldable pub chosen_irq : Option (List ℕ) → Option ℕ
chosen_irq none = some interrupt
chosen_irq (some name) = irq_from 8 reset name
