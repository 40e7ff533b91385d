-- ===== src/Isa/Run.antt =====
-- A run of the microcode of one instruction, as a program sees it.
use jaris.Base.{ℕ, Bool, Option, none, some, ◌≡◌}
use jaris.Instructions.{Instruction, opcode}
use jaris.Microcode.{check_microcode}
use jaris.Rom.Program.{control_calls}
use jaris.Rom.Lookup.{entry}
use jaris.Cpu.State.{Cpu}
use jaris.Cpu.Tick.{execute, drive_bus, latch, finish, latch_devices, alu}
use jaris.Cpu.Run.{steps, word}
use jaris.Isa.State.{Machine, machine}
use jaris.Isa.Spec.{isa_plain}

-- The state in which the second fetch step leaves the CPU.
unfoldable pub fetched : Instruction → Cpu → Cpu
unfolding opcode
fetched i cpu = record cpu { sc = 2; ir = opcode i }

-- What is seen of a run: the machine, the step counter and the flag `running`.
abbrev pub Seen : Type 0
Seen = Option (Machine × ℕ × Bool)

unfoldable pub observe : Option (Cpu × Bool) → Seen
observe none = none
observe (some (cpu, running)) = some (machine cpu, cpu.sc, running)

-- All that a run of the microcode computes with, for the lines of the proofs.
unfoldable pub microcode : Unit {0}
unfolding steps word execute drive_bus latch finish latch_devices alu check_microcode control_calls
    entry fetched observe isa_plain
microcode = tt

-- The microcode of `i` takes `n` cycles to do what the instruction set says, and ends at step 0.
abbrev pub Implements : Instruction → ℕ → Cpu → Type 0
Implements i n cpu =
    (running : Bool)
    → observe (steps n (fetched i cpu) running) ≡ some (isa_plain i (machine cpu), 0, running)
