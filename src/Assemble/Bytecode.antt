-- ===== src/Assemble/Bytecode.antt =====
-- src/instructions.h `bytecode_t`: a kind with what the kind uses of the instruction and argument.
use jaris.Base.{ℕ, List}
use jaris.Instructions.{Instruction}

pub data Bytecode : Type 0 where
  bnone : Bytecode
  binst : Instruction → Bytecode
  binsthex binsthex2 : Instruction → ℕ → Bytecode
  binstlabel binstrellabel : Instruction → List ℕ → Bytecode
  bhex bhex2 : ℕ → Bytecode
  bstring bsetlabel bglobal bextern : List ℕ → Bytecode
  balign : Bytecode
  bdb : ℕ → Bytecode
