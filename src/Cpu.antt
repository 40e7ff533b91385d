-- ===== src/Cpu.antt =====
-- src/runtime.c and src/runtime.h: the simulated CPU.
pub mod State
pub mod Tick
pub mod Valid
pub mod Flags
pub mod Keeps
pub mod Run
pub mod Faults
pub mod Boot
pub mod Keyboard
pub mod Queue
pub mod Harness
mod Tests
mod HarnessTests
