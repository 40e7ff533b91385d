-- ===== src/Instructions/Opcodes.antt =====
-- Opcodes are distinct six-bit numbers.
use jaris.Base.{◌<◌, arith}
use jaris.Instructions.{Instruction, opcode}

-- The opcode of every instruction fits the six bits that address the control ROM.
pub opcode-lt : (i : Instruction) → opcode i < 64
unfolding opcode
opcode-lt Instruction.nop = omega arith
opcode-lt _ = omega arith
