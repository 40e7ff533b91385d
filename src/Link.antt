-- ===== src/Link.antt =====
-- The static and the dynamic linking of src/link.h and src/link.c.
pub mod State
pub mod Objects
pub mod Check
pub mod Patch
pub mod Resolve
pub mod Keeps
pub mod Layout
pub mod Correct
pub mod Load
mod Tests
