-- ===== src/Lib.antt =====
-- Jaris: a 16-bit microcoded computer, its simulator and its tools, in C under src/.
--
-- The parts and how they interact. The assembler (src/assemble.c) makes objects, the linker
-- (src/link.c) joins them to executables and shared objects, whose files src/files.c writes and
-- reads, and the simulator (src/runtime.c) runs the code: each call of `tick` looks up a word in the
-- control ROM by opcode, step and flags, and the bits of the word move data over the bus.
-- `set_control_rom` fills the ROM. src/instructions.c names the instructions for all of them.
--
-- What stands where.
-- - Base: tests, options, lists, C's shifts and masks, integers.
-- - Instructions: src/instructions.h and src/instructions.c. `Instruction` and `opcode` are
--   `instruction_t`; `sv_to_instruction` is the function of that name.
-- - Microcode: the flags of src/runtime.h and `check_microcode`.
-- - Rom: the control ROM of src/runtime.c. Rom/Calls has `set_instruction_flags` and
--   `set_instruction_allflag`, Rom/Program every call of `set_control_rom` in its order, Rom/Lookup
--   what an entry holds.
-- - Cpu: `cpu_t` (Cpu/State) and `tick` (Cpu/Tick), whose phases are `drive_bus`, `pop_key`, `latch`,
--   `latch_devices` and `finish`, the ranges of the registers (Cpu/Valid, Cpu/Keeps), runs (Cpu/Run)
--   and faults (Cpu/Faults).
-- - Isa: the instruction set as a program sees it, a specification that src/ does not have as code
--   (Isa/State, Isa/Spec), and that the microcode implements it (Isa/Refine for single instructions,
--   Isa/Correct for all, Isa/Program for programs, Isa/Stack for what programs rely on).
-- - Files: the records of src/files.h (Files/Types), `fread` and `fwrite` (Files/Stream), the
--   encoders and decoders (Files/Codec), their round trips (Files/RoundTrip) and the kinds of files
--   (Files/Kinds).
-- - Link: the state of the linker (Link/State), `exe_link_obj`, `exe_link_so` and
--   `exe_link_boilerplate` (Link/Objects), `exe_state_check_exe` and `so_from_exe_state` (Link/Check).
--   Link/Keeps and Link/Layout say where an object goes, Link/Patch what the relocations write, and
--   Link/Resolve and Link/Correct how externs are resolved.
--   Link/Load is `exe_reloc` and `so_reloc` of src/runtime.c.
-- - Assemble: bytecodes (Assemble/Bytecode) to objects in src/assemble.c: the object that is built
--   (Assemble/Object), `obj_compile_bytecode` (Assemble/Compile) and `obj_check` (Assemble/Check);
--   Assemble/Aligned and Assemble/Program are about the uses of labels, Assemble/Strip and
--   Assemble/Tables about the tables that are left. From text to bytecodes: the tokens
--   (Assemble/Token), the switch of `asm_token_next` (Assemble/Lex), the rest of it with its macros
--   (Assemble/Tokenizer), `asm_parse_bytecode` (Assemble/Parse) and `assemble` (Assemble/Text);
--   Assemble/Print is `bytecode_to_asm` of src/instructions.c.
-- - Disk: src/encodemem.c and src/decodemem.c. Disk/Image has the sectors and the pushes,
--   Disk/FileChain `encode_file` and `decode_file`, Disk/Directory and Disk/Build
--   `encode_dir_from_file`, Disk/Paths `solve_path`; Disk/Keeps and the files of that name, with
--   Disk/Steps and Disk/Commands, say what each leaves alone, Disk/TextFile and Disk/FileEntry what
--   an entry puts on the image.
-- - Cpu/Harness: `test_check` and what it expects. Cpu/Boot: `cpu_init` of src/runtime.c. Cpu/Keyboard and Cpu/Queue: `load_input_string`.
--
-- How the state corresponds. Registers and bytes are natural numbers with the wrap-around written
-- out; `IsValid` gives their widths. RAM, MEM and the other arrays are functions from the index. An
-- array with a count is the list of its counted elements, a C string the bytes before its NUL. A
-- failed assertion, an access out of bounds and an `eprintf`, which ends the program, are `none`, or
-- `failed` where a result can also run out of fuel (Base/Outcome).
-- The bytes of a file are a list, and little-endian words are two of them. The sectors of an image
-- stand side by side: a write at a place past the end of one changes a later one (Disk/Image). A
-- sector is taken only while there is one of the 2048 left.
--
-- Bounds and fuel. `digits` has the number itself as fuel, which is more than its digits. The loops
-- over flags and opcodes count down from 8 and 64, the bounds of the source. `asm_token_next` and
-- the loops of src/encodemem.c have the length of their text as fuel, since each round takes a
-- character; `assemble` has 33 rounds for each character and one more, since a macro has fewer than 32
-- tokens; a file has fewer sectors than bytes and one. These are shown to be enough. `decode_file`
-- has 2048 rounds, and a longer chain of sectors is a cycle.
--
-- What is not modelled. The window and its drawing, the dumps and the command lines are output or
-- glue. The analyzer, the disassembler, the formatter and `decode_dir` of src/decodemem.c are
-- not modelled. A signed `char` is written out where its sign counts. The renaming of local
-- symbols inside the caller's object is left out of `exe_link_obj`: no caller reads it again.
pub mod Base
pub mod Instructions
pub mod Microcode
pub mod Rom
pub mod Cpu
pub mod Disk
pub mod Isa
pub mod Files
pub mod Link
pub mod Assemble
