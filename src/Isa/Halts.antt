-- ===== src/Isa/Halts.antt =====
-- Programs that end: the instructions up to a HLT, and the stop of src/runtime.c `tick`.
use jaris.Base.{ℕ, ◌+◌, ◌*◌, ◌≡◌, ◌≤◌, arith, ◌∙◌, ap, true, false, some}
use jaris.Instructions.{opcode}
use jaris.Instructions.Instruction.{hlt}
use jaris.Rom.Program.{control_rom}
use jaris.Cpu.State.{Cpu}
use jaris.Cpu.Valid.{IsValid}
use jaris.Cpu.Run.{run, run-add}
use jaris.Isa.State.{Machine, machine, plus}
use jaris.Isa.Run.{observe}
use jaris.Isa.Correct.{run-hlt}
use jaris.Isa.Program.{isa_run, run-isa_run}

-- A program that comes to a HLT after `n` instructions stops the CPU, which has been running till
-- then, at the latest in 16 cycles for each of them and the three of the HLT.
pub run-halts :
    (n : ℕ) (c : Cpu) (m : Machine)
    → IsValid c
    → c.sc ≡ 0
    → isa_run n (machine c) ≡ some m
    → m.ram m.ip ≡ opcode hlt
    → (k : ℕ) × (k ≤ 16 * n + 3)
      × (observe (run control_rom k c true) ≡ some (record m { ip = plus m.ip 1 }, 1, false))
run-halts n c m h start e code =
    let r = run-isa_run n c m h start e in
    let at_hlt : r.end.ram r.end.ip ≡ opcode hlt = ap (λ (m : Machine). m.ram m.ip) r.sees ∙ code in
    (
      r.k + 3,
      omega (arith, r.k_le),
      ap observe (run-add r.k 3 c r.end true true h r.runs)
          ∙ run-hlt r.end true r.valid r.at_fetch at_hlt
          ∙ ap (λ (m : Machine). some (record m { ip = plus m.ip 1 }, 1, false)) r.sees,
    )
