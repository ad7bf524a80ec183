-- ===== src/Simulator/Chosen.antt =====
-- main of arm_simulator.c: what any list of options configures.
use arm_simulator.Base.{
  ℕ, ◌≡◌, ◌≢◌, ◌⊎◌, arith, refl, ap, ◌∙◌, Bool, Option, none, some, List, [], ◌∷◌, length, inl, inr,
}
use mathlib.Core.Path.{subst}
use arm_simulator.Simulator.Options.{Options, Parsed, parsed, exited, parse_option, parse_options}
use arm_simulator.Simulator.Settings.{last_port, Chosen}
use arm_simulator.Simulator.OneOption.{parse_option-Chosen}

nothing-Chosen : (o : Options) → Chosen o [] o
nothing-Chosen o = record {
  gdb = refl;
  irq = refl;
  memory = ground arith;
  registers = ground arith;
  position = ground arith;
  state = ground arith;
  modes = λ mode. refl;
  same_length = refl;
}

module _ {o q r : Options} (opt : ℕ) (optarg : Option (List ℕ)) (rest : List (ℕ × Option (List ℕ)))
    (c : Chosen o ((opt, optarg) ∷ []) q) (d : Chosen q rest r) where
  next-Chosen : Chosen o ((opt, optarg) ∷ rest) r
  next-Chosen = record {
    gdb = d.gdb ∙ ap (last_port b'g' rest) c.gdb;
    irq = d.irq ∙ ap (last_port b'i' rest) c.irq;
    memory = ground (arith, c.memory, d.memory);
    registers = ground (arith, c.registers, d.registers);
    position = ground (arith, c.position, d.position);
    state = ground (arith, c.state, d.state);
    modes = λ mode. ground (arith, c.modes mode, d.modes mode);
    same_length = d.same_length ∙ c.same_length;
  }

Parsed-cases :
    (p : Option Parsed)
    → ((q : Options) × (p ≡ some (parsed q))) ⊎ ((q : Options) → p ≢ some (parsed q))
Parsed-cases none = inr λ q e. cc
Parsed-cases (some (parsed q)) = inl (q, refl)
Parsed-cases (some (exited code)) = inr λ q e. cc

abbrev options_of : Options → Option Parsed → Options
options_of d (some (parsed q)) = q
options_of d other = d

goes_on :
    (fopen : List ℕ → Bool) (rest : List (ℕ × Option (List ℕ))) (p : Option Parsed)
    → ((q : Options) → p ≢ some (parsed q))
    → (q : Options)
    → elim p [ some (parsed r) ↦ parse_options fopen rest r | other ↦ other ] ≢ some (parsed q)
goes_on fopen rest none stops q e = cc
goes_on fopen rest (some (parsed r)) stops q e = stops r refl
goes_on fopen rest (some (exited code)) stops q e = cc

-- Where the options of any list, given in any order, are read, each port is the last one that was
-- given for it (or stays as it was), memory accesses, register accesses, positions and states are
-- traced where one of the options asked for them (or they were traced before), and of the modes
-- exactly those that were named, or marked before, are marked.
pub parse_options-Chosen :
    (fopen : List ℕ → Bool) (opts : List (ℕ × Option (List ℕ))) (o q : Options)
    → length o.tracer.states ≡ 32
    → parse_options fopen opts o ≡ some (parsed q)
    → Chosen o opts q
unfolding parse_options
parse_options-Chosen fopen [] o q h e = subst (Chosen o []) (ap (options_of o) e) (nothing-Chosen o)
parse_options-Chosen fopen ((opt, optarg) ∷ rest) o q h e =
    elim (Parsed-cases (parse_option fopen o opt optarg)) [
      | inl (r, one) ↦
          let c = parse_option-Chosen fopen o r opt optarg h one in
          next-Chosen opt optarg rest c
            (parse_options-Chosen fopen rest r q (c.same_length ∙ h) (rw (one, parse_options) at e))
      | inr stops ↦ absurd (goes_on fopen rest (parse_option fopen o opt optarg) stops q e)
    ]
