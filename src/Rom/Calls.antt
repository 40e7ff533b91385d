-- ===== src/Rom/Calls.antt =====
-- src/runtime.c: the array `control_rom` and the two functions that write it.
use jaris.Base.{ℕ, zero, suc, ◌+◌, Bool, true, not, if◌then◌else◌, ◌==◌, bit_or, bit_and, ◌<<<◌}
use jaris.Base.{List, [], ◌∷◌}
use jaris.Instructions.{Instruction, opcode}
use jaris.Microcode.{MicrocodeFlag, micro, ◌<|>◌}

-- The array `control_rom`, from index to microcode word.
abbrev pub Rom : Type 0
Rom = ℕ → ℕ

abbrev pub store : Rom → ℕ → ℕ → Rom
store rom at code = λ j. if at == j then code else rom j

-- `inst | (step << 6) | (flags << (6 + 4))`
unfoldable pub rom_index : ℕ → ℕ → ℕ → ℕ
rom_index inst step flags = bit_or (bit_or inst (step <<< 6)) (flags <<< 10)

-- The loop of both functions below: `i` counts the values of the flag register, `left` the rounds.
unfoldable pub write_flags : (ℕ → Bool) → ℕ → ℕ → ℕ → ℕ → ℕ → Rom → Rom
write_flags guard zero i inst step code rom = rom
write_flags guard (suc left) i inst step code rom =
    write_flags guard left (i + 1) inst step code
      (if guard i then store rom (rom_index inst step i) code else rom)

unfoldable pub set_instruction_allflag : ℕ → ℕ → ℕ → Rom → Rom
set_instruction_allflag inst step code rom = write_flags (λ _. true) 8 0 inst step code rom

abbrev pub flag_test : ℕ → Bool → ℕ → Bool
flag_test flags invert i = if invert then bit_and flags i == 0 else not (bit_and flags i == 0)

unfoldable pub set_instruction_flags : ℕ → ℕ → ℕ → Bool → ℕ → Rom → Rom
set_instruction_flags inst step flags invert code rom =
    write_flags (flag_test flags invert) 8 0 inst step code rom

-- A call of one of the two functions, as `set_control_rom` makes it.
pub data RomCall : Type 0 where
  allflag : Instruction → ℕ → ℕ → RomCall
  someflag : Instruction → ℕ → ℕ → Bool → ℕ → RomCall

unfoldable pub call : RomCall → Rom → Rom
unfolding opcode
call (allflag inst step code) rom = set_instruction_allflag (opcode inst) step code rom
call (someflag inst step flags invert code) rom =
    set_instruction_flags (opcode inst) step flags invert code rom

unfoldable pub call_all : List RomCall → Rom → Rom
call_all [] rom = rom
call_all (c ∷ cs) rom = call_all cs (call c rom)

abbrev pub fetch_0 : ℕ
unfolding micro
fetch_0 = micro MicrocodeFlag.ipo <|> micro MicrocodeFlag.mari

abbrev pub fetch_1 : ℕ
unfolding micro
fetch_1 =
    micro MicrocodeFlag.ram
    <|> micro MicrocodeFlag.ramo
    <|> micro MicrocodeFlag.iri
    <|> micro MicrocodeFlag.ipp

-- The loop at the head of `set_control_rom`: the two fetch steps of every opcode.
unfoldable pub fetch_loop : ℕ → ℕ → Rom → Rom
fetch_loop zero i rom = rom
fetch_loop (suc left) i rom =
    fetch_loop left (i + 1)
      (set_instruction_allflag i 1 fetch_1 (set_instruction_allflag i 0 fetch_0 rom))
