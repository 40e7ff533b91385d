-- ===== src/Instructions/Tests.antt =====
-- One mnemonic.
use jaris.Base.{◌≡◌, ◌↔◌, some}
use jaris.Instructions.{instruction_to_string, sv_to_instruction}
use jaris.Instructions.Instruction.{pusha}
use jaris.Files.Types.{codes}
use jaris.Instructions.Names.{sv_to_instruction_iff}

sv_to_instruction_iff_example :
    (sv_to_instruction (codes "PUSHA") ≡ some pusha)
    ↔ (codes (instruction_to_string pusha) ≡ codes "PUSHA")
sv_to_instruction_iff_example = sv_to_instruction_iff (codes "PUSHA") pusha
