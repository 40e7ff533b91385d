-- ===== src/Assemble.antt =====
-- The assembler, src/assemble.c: from text to bytecodes and from bytecodes to an object.
pub mod Bytecode
pub mod Token
pub mod Lex
pub mod Tokenizer
pub mod Parse
pub mod Print
pub mod Text
pub mod Object
pub mod Compile
pub mod Aligned
pub mod Program
pub mod Check
pub mod Strip
pub mod Tables
mod Tests
