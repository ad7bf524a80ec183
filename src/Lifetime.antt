-- ===== src/Lifetime.antt =====
-- memory.c, registers.c, arm_core.c and the end of main in arm_simulator.c: which structures and
-- arrays are allocated and freed. A block stands for what one `malloc` returned; the arrays'
-- contents are in Memory.antt and Registers.antt.
pub mod Balance
use arm_simulator.Base.{
  ℕ, ◌+◌, ◌<◌, ◌≤◌, ◌≡◌, ◌==◌, if◌then◌else◌, Bool, true, false, Option, none, some,
}

-- A field that is not assigned is `none`, and a pointer 0 is NULL.
pub data Block : Type 0 where
  memory_data : Option ℕ → Block
  registers_data : Option ℕ → Option ℕ → Block
  arm_core_data : ℕ → ℕ → Block
  array : Block

-- The blocks that are live, and a pointer above all that `malloc` has returned.
pub record Heap : Type 0 where
  pub live : ℕ → Option Block
  pub next : ℕ

-- A run that C leaves undefined reads through NULL or a block that is not live, or frees one.
pub data Outcome (A : Type 0) : Type 0 where
  undefined : Outcome A
  returned : A → Heap → Outcome A

abbrev pub Action : Type 0 → Type 0
Action A = Heap → Outcome A

abbrev pub followed_by : {A B : Type 0} → Outcome A → (A → Action B) → Outcome B
followed_by undefined next_action = undefined
followed_by (returned value heap) next_action = next_action value heap

infixl 5 ◌>>=◌ ◌>>◌
abbrev pub ◌>>=◌ : {A B : Type 0} → Action A → (A → Action B) → Action B
◌>>=◌ action next_action heap = followed_by (action heap) next_action

abbrev pub ◌>>◌ : {A B : Type 0} → Action A → Action B → Action B
◌>>◌ action next_action heap = followed_by (action heap) (λ _. next_action)

abbrev pub return : {A : Type 0} → A → Action A
return value heap = returned value heap

abbrev pub put : ℕ → Option Block → Heap → Heap
put p b h = record h { live = λ q. if q == p then b else h.live q }

-- `malloc`, which succeeds or not, and `free`, which accepts NULL.
unfoldable pub malloc : Bool → Block → Action ℕ
malloc true b h = returned h.next (record (put h.next (some b) h) { next = h.next + 1 })
malloc false b h = returned 0 h

unfoldable pub free : ℕ → Action (Unit {0})
free p h =
    if p == 0
    then returned tt h
    else elim (h.live p) [ none ↦ undefined | some b ↦ returned tt (put p none h) ]

-- An assignment to the fields of a structure.
unfoldable pub store : ℕ → Block → Action (Unit {0})
store p b h = elim (h.live p) [ none ↦ undefined | some old ↦ returned tt (put p (some b) h) ]

-- `mem->data`, `r->genreg`, `r->rstat`, and the two fields of an arm_core.
unfoldable pub memory_bytes : ℕ → Action ℕ
memory_bytes p h = elim (h.live p) [ some (memory_data (some a)) ↦ returned a h | _ ↦ undefined ]

unfoldable pub registers_genreg : ℕ → Action ℕ
registers_genreg p h = elim (h.live p) [
  | some (registers_data (some a) b) ↦ returned a h
  | _ ↦ undefined
]

unfoldable pub registers_rstat : ℕ → Action ℕ
registers_rstat p h = elim (h.live p) [
  | some (registers_data a (some b)) ↦ returned b h
  | _ ↦ undefined
]

unfoldable pub arm_parts : ℕ → Action (ℕ × ℕ)
arm_parts p h = elim (h.live p) [
  | some (arm_core_data reg mem) ↦ returned (reg, mem) h
  | _ ↦ undefined
]

-- memory_create at a size that is not 0: `none` where `raise` ends the process.
unfoldable pub memory_create : Bool → Bool → Action (Option ℕ)
memory_create structure space = do
  mem ← malloc structure (memory_data none)
  if mem == 0 then return none else do
    bytes ← malloc space array
    store mem (memory_data (some bytes))
    if bytes == 0 then free mem >> return none else return (some mem)

unfoldable pub memory_destroy : ℕ → Action (Unit {0})
memory_destroy mem =
    if mem == 0 then return tt else do bytes ← memory_bytes mem; free bytes; free mem

unfoldable pub registers_create : Bool → Bool → Bool → Action ℕ
registers_create structure general status = do
  r ← malloc structure (registers_data none none)
  if r == 0 then return r else do
    genreg ← malloc general array
    store r (registers_data (some genreg) none)
    if genreg == 0 then return r else do
      rstat ← malloc status array
      store r (registers_data (some genreg) (some rstat))
      return r

unfoldable pub registers_destroy : ℕ → Action (Unit {0})
registers_destroy r = do
  genreg ← registers_genreg r
  free genreg
  rstat ← registers_rstat r
  free rstat
  free r

-- The reset that arm_create runs is in Exception.antt.
unfoldable pub arm_create : Bool → ℕ → ℕ → Action ℕ
arm_create structure reg mem = malloc structure (arm_core_data reg mem)

unfoldable pub arm_destroy : ℕ → Action (Unit {0})
arm_destroy p = do (reg, mem) ← arm_parts p; memory_destroy mem; registers_destroy reg; free p

-- The three that main creates, at what each `malloc` answers.
unfoldable pub main_creates : Bool → Bool → Bool → Bool → Bool → Bool → Action (Option (ℕ × ℕ × ℕ))
main_creates m0 m1 r0 r1 r2 a0 = do
  mem ← memory_create m0 m1
  elim mem [
    | none ↦ return none
    | some mem ↦ (do
      reg ← registers_create r0 r1 r2
      arm ← arm_create a0 reg mem
      return (some (reg, mem, arm)))
  ]

-- The last three calls of main.
unfoldable pub main_destroys : ℕ → ℕ → ℕ → Action (Unit {0})
main_destroys reg mem arm = do arm_destroy arm; registers_destroy reg; memory_destroy mem
