-- ===== src/Tests/Names.antt =====
-- The theorems on names, at concrete inputs.
use arm_simulator.Base.{◌≡◌, ◌↔◌, ◌≤◌, ◌<◌, some, none, refl}
use arm_simulator.Constants.{interrupt}
use arm_simulator.Gdb.Text.{codes, text_equal}
use arm_simulator.Names.{arm_get_exception_name, chosen_irq, irq_from}
use arm_simulator.Names.Search.{chosen_irq_lem}

chosen_irq_lem_example : (chosen_irq (some (codes "interrupt")) ≡ some interrupt) ↔ (
    (1 ≤ interrupt)
    × (interrupt < 8)
    × (arm_get_exception_name interrupt ≡ some (codes "interrupt")))
chosen_irq_lem_example = chosen_irq_lem interrupt (codes "interrupt")

-- The last exception has a name in the table, but cannot be sent by it.
software_interrupt_unknown : chosen_irq (some (codes "software interrupt")) ≡ none
unfolding chosen_irq irq_from arm_get_exception_name text_equal
software_interrupt_unknown = refl
