-- ===== src/Assemble/Print.antt =====
-- src/instructions.c `bytecode_to_asm`: the text of a bytecode. `printf` of a 16-bit number is
-- written out. A program is printed with a newline behind each bytecode.
pub mod Reads
pub mod Decimals
pub mod Lines
pub mod RoundTrip
pub mod Programs
use jaris.Base.{
  ℕ, zero, suc, ◌+◌, ◌/◌, ◌%◌, ◌<◌, ◌≤◌, ◌≡◌, ◌⊎◌, Bool, true, false, not, ◌&&◌, List, [], ◌∷◌,
  ◌++◌, length, ltb, ◌==◌, if◌then◌else◌, All, Option, none, some, ◌>>=◌,
}
use jaris.Instructions.{Instruction, InstructionStat, instruction_to_string, instruction_stat}
use jaris.Instructions.InstructionStat.{no_args, arg_8bits, arg_16bits, label_arg, rellabel_arg}
use jaris.Assemble.Bytecode.{Bytecode}
use jaris.Assemble.Bytecode.Bytecode.{
  bnone, binst, binsthex, binsthex2, binstlabel, binstrellabel, bhex, bhex2, bstring, bsetlabel,
  bglobal, bextern, balign, bdb,
}
use jaris.Assemble.Token.TokenKind.{asmt_sym}
use jaris.Assemble.Lex.{codes, starts_name, in_name, word_token}
use jaris.Assemble.Parse.{is_relative, label_max_len}

abbrev pub hex_digit : ℕ → ℕ
hex_digit n = if ltb n 10 then n + 48 else n + 55

-- `%04X`
unfoldable pub hex4 : ℕ → List ℕ
hex4 n =
    hex_digit (n / 4096 % 16)
    ∷ hex_digit (n / 256 % 16)
    ∷ hex_digit (n / 16 % 16)
    ∷ hex_digit (n % 16)
    ∷ []

-- `%02X`, which takes as many digits as it needs.
unfoldable pub hex2 : ℕ → List ℕ
hex2 n =
    if ltb n 256
    then hex_digit (n / 16 % 16) ∷ hex_digit (n % 16) ∷ []
    else if ltb n 4096
    then hex_digit (n / 256 % 16) ∷ hex_digit (n / 16 % 16) ∷ hex_digit (n % 16) ∷ []
    else hex4 n

-- `%d`, of at most as many digits as `fuel` says.
unfoldable pub decimal_fuel : ℕ → ℕ → List ℕ
decimal_fuel zero n = []
decimal_fuel (suc fuel) n =
    let high = decimal_fuel fuel (n / 10) in
    if ltb n 10 then (n + 48) ∷ [] else high ++ ((n % 10 + 48) ∷ [])

-- Five digits are enough for 16 bits.
abbrev pub decimal : ℕ → List ℕ
decimal n = decimal_fuel 5 n

abbrev pub mnemonic : Instruction → List ℕ
mnemonic i = codes (instruction_to_string i)

-- A bytecode of kind `BNONE` is a failed assertion.
unfoldable pub bytecode_to_asm : Bytecode → Option (List ℕ)
bytecode_to_asm bnone = none
bytecode_to_asm (binst i) = some (mnemonic i)
bytecode_to_asm (binsthex i num) = some (mnemonic i ++ (b' ' ∷ b'0' ∷ b'x' ∷ hex2 num))
bytecode_to_asm (binsthex2 i num) = some (mnemonic i ++ (b' ' ∷ b'0' ∷ b'x' ∷ hex4 num))
bytecode_to_asm (binstlabel i name) = some (mnemonic i ++ (b' ' ∷ name))
bytecode_to_asm (binstrellabel i name) = some (mnemonic i ++ (b' ' ∷ b'$' ∷ name))
bytecode_to_asm (bhex num) = some (b'0' ∷ b'x' ∷ hex2 num)
bytecode_to_asm (bhex2 num) = some (b'0' ∷ b'x' ∷ hex4 num)
bytecode_to_asm (bstring string) = some (b'"' ∷ string ++ (b'"' ∷ []))
bytecode_to_asm (bsetlabel name) = some (name ++ (b':' ∷ []))
bytecode_to_asm (bglobal name) = some (codes "GLOBAL " ++ name)
bytecode_to_asm (bextern name) = some (codes "EXTERN " ++ name)
bytecode_to_asm balign = some (codes "ALIGN")
bytecode_to_asm (bdb num) = some (codes "db " ++ decimal num)

-- The lines of a program.
unfoldable pub program_to_asm : List Bytecode → Option (List ℕ)
program_to_asm [] = some []
program_to_asm (bc ∷ bytecodes) = do
  line ← bytecode_to_asm bc
  lines ← program_to_asm bytecodes
  some (line ++ (10 ∷ lines))

unfoldable pub all_are : (ℕ → Bool) → List ℕ → Bool
all_are test [] = true
all_are test (c ∷ l) = test c && all_are test l

-- The spelling of names and mnemonics.
unfoldable pub is_name : List ℕ → Bool
is_name [] = false
is_name (c ∷ l) = starts_name c && all_are in_name l

-- A name that the tokenizer reads as one, and that fits its array.
pub record IsLabel (name : List ℕ) : Type 0 where
  pub spelled : is_name name ≡ true
  pub not_reserved : (word_token name).kind ≡ asmt_sym
  pub fits : ltb (length name) label_max_len ≡ true

-- The bytecodes that the assembler's grammar has: the argument is what the instruction takes.
unfoldable pub IsSource : Bytecode → Type 0
IsSource bnone = ⊥
IsSource (binst i) = instruction_stat i ≡ no_args
IsSource (binsthex i num) =
    (instruction_stat i ≡ arg_8bits) × (num < 256) × ((is_relative i && not (num % 2 == 0)) ≡ false)
IsSource (binsthex2 i num) = (instruction_stat i ≡ arg_16bits) × (num < 65536)
IsSource (binstlabel i name) =
    ((instruction_stat i ≡ arg_16bits) ⊎ (instruction_stat i ≡ label_arg)) × IsLabel name
IsSource (binstrellabel i name) = (instruction_stat i ≡ rellabel_arg) × IsLabel name
IsSource (bhex num) = num < 256
IsSource (bhex2 num) = num < 65536
IsSource (bstring string) =
    (all_are (λ c. not (c == b'"')) string ≡ true) × (ltb (length string) label_max_len ≡ true)
IsSource (bsetlabel name) = IsLabel name
IsSource (bglobal name) = IsLabel name
IsSource (bextern name) = IsLabel name
IsSource balign = Unit
IsSource (bdb num) = num < 65535
