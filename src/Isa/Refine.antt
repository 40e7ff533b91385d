-- ===== src/Isa/Refine.antt =====
-- src/runtime.c: the microcode of each instruction implements the instruction.
pub mod Arith
pub mod Stack
pub mod Moves
pub mod Devices
pub mod Branches
