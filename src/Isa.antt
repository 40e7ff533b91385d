-- ===== src/Isa.antt =====
-- The instruction set as a program sees it, and that the microcode implements it.
pub mod State
pub mod Spec
pub mod Bridge
pub mod Run
pub mod Refine
pub mod Correct
pub mod Laws
pub mod Program
pub mod Halts
pub mod Stack
mod Tests
