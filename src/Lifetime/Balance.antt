-- ===== src/Lifetime/Balance.antt =====
-- What main of arm_simulator.c creates, and what its end frees.
use arm_simulator.Base.{ℕ, ◌+◌, ◌≤◌, ◌<◌, ◌≡◌, ◌≢◌, arith, true, false, Bool, ◌&&◌, none, some}
use arm_simulator.Lifetime.{
  Block, memory_data, registers_data, arm_core_data, array, Heap, undefined, returned, put, malloc,
  free, store, memory_bytes, registers_genreg, registers_rstat, arm_parts, memory_create,
  memory_destroy, registers_create, registers_destroy, arm_create, arm_destroy, main_creates,
  main_destroys,
}

-- A heap whose pointers are below `next`, and not NULL.
pub record IsFresh (h : Heap) : Type 0 where
  pub not_null : 0 < h.next
  pub null : h.live 0 ≡ none
  pub unused : (q : ℕ) → h.next ≤ q → h.live q ≡ none

-- The heap after a `malloc` that succeeds.
abbrev added : Block → Heap → Heap
added b h = record (put h.next (some b) h) { next = h.next + 1 }

-- The heaps after each of the three that main creates.
module _ (h : Heap) where
  abbrev pub with_memory : Heap
  with_memory =
      put h.next (some (memory_data (some (h.next + 1)))) (added array (added (memory_data none) h))

  abbrev pub with_registers : Heap
  with_registers =
      let n = h.next in
      put n (some (registers_data (some (n + 1)) (some (n + 2)))) (
        added array (
          put n (some (registers_data (some (n + 1)) none))
            (added array (added (registers_data none none) h))))

abbrev pub with_machine : Heap → Heap
with_machine h = added (arm_core_data (with_memory h).next h.next) (with_registers (with_memory h))

module _ (h : Heap) (f : IsFresh h) where
  memory_create_lem : memory_create true true h ≡ returned (some h.next) (with_memory h)
  unfolding memory_create malloc store
  memory_create_lem = ground arith

  registers_create_lem : registers_create true true true h ≡ returned h.next (with_registers h)
  unfolding registers_create malloc store
  registers_create_lem = ground arith

  with_memory-IsFresh : IsFresh (with_memory h)
  with_memory-IsFresh = record {
    not_null = omega arith;
    null = ground (arith, f.null);
    unused = λ q le. ground (arith, f.unused q (omega arith));
  }

-- A simulator in a heap: the structures, their arrays, which differ, and NULL, which is not live.
pub record HasMachine (h : Heap) (reg mem arm : ℕ) : Type 0 where
  pub bytes : ℕ
  pub genreg : ℕ
  pub rstat : ℕ
  pub memory : h.live mem ≡ some (memory_data (some bytes))
  pub space : h.live bytes ≡ some array
  pub registers : h.live reg ≡ some (registers_data (some genreg) (some rstat))
  pub general : h.live genreg ≡ some array
  pub status : h.live rstat ≡ some array
  pub core : h.live arm ≡ some (arm_core_data reg mem)
  pub null : h.live 0 ≡ none
  pub apart_general : bytes ≢ genreg
  pub apart_status : bytes ≢ rstat
  pub apart_arrays : genreg ≢ rstat

module _ {h : Heap} {reg mem arm : ℕ} (m : HasMachine h reg mem arm) where
  abbrev without_memory : Heap
  without_memory = put mem none (put m.bytes none h)

  memory_destroy_lem : memory_destroy mem h ≡ returned tt without_memory
  unfolding memory_destroy memory_bytes free
  memory_destroy_lem = ground arith

  abbrev without_registers : Heap
  without_registers = put reg none (put m.rstat none (put m.genreg none without_memory))

  registers_destroy_lem : registers_destroy reg without_memory ≡ returned tt without_registers
  unfolding registers_destroy registers_genreg registers_rstat free
  registers_destroy_lem = ground arith

  arm_destroy_lem : arm_destroy arm h ≡ returned tt (put arm none without_registers)
  unfolding arm_destroy arm_parts free
  arm_destroy_lem = ground (arith, memory_destroy_lem, registers_destroy_lem)

  -- The registers are not live any more when main destroys them.
  main_destroys-undefined : main_destroys reg mem arm h ≡ undefined
  unfolding main_destroys registers_destroy registers_genreg
  main_destroys-undefined = ground (arith, arm_destroy_lem)

module _ (h : Heap) (f : IsFresh h) where
  abbrev reg_of : ℕ
  reg_of = (with_memory h).next

  abbrev arm_of : ℕ
  arm_of = (with_registers (with_memory h)).next

  main_creates_lem :
      main_creates true true true true true true h
      ≡ returned (some (reg_of, h.next, arm_of)) (with_machine h)
  unfolding main_creates arm_create malloc
  main_creates_lem =
      ground (
        arith,
        memory_create_lem h f,
        registers_create_lem (with_memory h) (with_memory-IsFresh h f),
      )

  with_machine-HasMachine : HasMachine (with_machine h) reg_of h.next arm_of
  with_machine-HasMachine = record {
    bytes = h.next + 1;
    genreg = reg_of + 1;
    rstat = reg_of + 2;
    memory = ground arith;
    space = ground arith;
    registers = ground arith;
    general = ground arith;
    status = ground arith;
    core = ground arith;
    null = ground (arith, f.null);
    apart_general = omega arith;
    apart_status = omega arith;
    apart_arrays = omega arith;
  }

-- Where the six allocations of main succeed, arm_destroy by itself makes live again exactly what was
-- live before main created the memory, the registers and the processor; the three calls with which
-- main ends, arm_destroy, registers_destroy and memory_destroy, have no defined behaviour, since the
-- second reads the registers that the first has freed.
pub main_creates-main_destroys :
    (h : Heap)
    → IsFresh h
    → (reg : ℕ) × (mem : ℕ) × (arm : ℕ) × (h1 : Heap) × (h2 : Heap) × (main_creates true true true
          true true true h
        ≡ returned (some (reg, mem, arm)) h1)
      × (arm_destroy arm h1 ≡ returned tt h2)
      × ((q : ℕ) → h2.live q ≡ h.live q)
      × (main_destroys reg mem arm h1 ≡ undefined)
main_creates-main_destroys h f =
    let m = with_machine-HasMachine h f in
    (
      reg_of h f,
      h.next,
      arm_of h f,
      with_machine h,
      put (arm_of h f) none (without_registers m),
      main_creates_lem h f,
      arm_destroy_lem m,
      λ q. ground (arith, f.unused q),
      main_destroys-undefined m,
    )

-- Where an allocation of registers_create fails before rstat is assigned, registers_destroy of what
-- it returns has no defined behaviour: it reads through NULL, or a field that has no value.
pub registers_create-registers_destroy :
    (structure general status : Bool) (h : Heap)
    → IsFresh h
    → (structure && general) ≡ false
    → (r : ℕ) × (h1 : Heap) × (registers_create structure general status h ≡ returned r h1)
      × (registers_destroy r h1 ≡ undefined)
unfolding registers_create registers_destroy registers_genreg registers_rstat malloc free store
registers_create-registers_destroy false general status h f e =
    (0, h, ground arith, ground (arith, f.null))
registers_create-registers_destroy true false status h f e = (
  h.next,
  put h.next (some (registers_data (some 0) none)) (added (registers_data none none) h),
  ground arith,
  ground arith,
)
registers_create-registers_destroy true true status h f e = cc
