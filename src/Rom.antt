-- ===== src/Rom.antt =====
-- src/runtime.c: the control ROM, the functions that fill it, and what each entry holds.
pub mod Calls
pub mod Program
pub mod Lookup
mod Tests
