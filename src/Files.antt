-- ===== src/Files.antt =====
-- The object, shared object and executable files: src/files.h and src/files.c.
pub mod Stream
pub mod Types
pub mod Codec
pub mod Strings
pub mod RoundTrip
pub mod Kinds
mod Tests
mod KindTests
