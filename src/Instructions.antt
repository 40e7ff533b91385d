-- ===== src/Instructions.antt =====
-- src/instructions.h and src/instructions.c: the instruction set, its opcodes, its mnemonics and
-- what argument each instruction takes.
pub mod Opcodes
pub mod Names
mod Tests
use mathlib.Core.List.{List}
use Prim.Native.String.{String}
use jaris.Files.Types.{str_eq, codes}
use jaris.Base.{ℕ, ◌≡◌, Bool, Option, none, some, ◌==◌, if◌then◌else◌}

-- `instruction_t`
pub data Instruction : Type 0 where
  nop inca deca incb ram_al ram_bl ram_a ram_b incsp decsp pusha popa peeka : Instruction
  peekar pushar pushb popb peekb sum sub shr shl and cmpa cmpb jmp jmpr jmprz : Instruction
  jmprn jmprc jmprnz jmprnn jmprnc jmpa jmpar a_b b_a b_ah al_rb a_rb rb_al : Instruction
  rb_a a_sp sp_a a_sec sec_a ram_ndx incndx ndx_a a_ndx mem_a mem_ah a_mem call : Instruction
  callr ret key_a drw ram_drw hlt : Instruction

-- The value of each enumerator, which is its opcode.
unfoldable pub opcode : Instruction → ℕ
opcode nop = 0
opcode inca = 1
opcode deca = 2
opcode incb = 3
opcode ram_al = 4
opcode ram_bl = 5
opcode ram_a = 6
opcode ram_b = 7
opcode incsp = 8
opcode decsp = 9
opcode pusha = 10
opcode popa = 11
opcode peeka = 12
opcode peekar = 13
opcode pushar = 14
opcode pushb = 15
opcode popb = 16
opcode peekb = 17
opcode sum = 18
opcode sub = 19
opcode shr = 20
opcode shl = 21
opcode and = 22
opcode cmpa = 23
opcode cmpb = 24
opcode jmp = 25
opcode jmpr = 26
opcode jmprz = 27
opcode jmprn = 28
opcode jmprc = 29
opcode jmprnz = 30
opcode jmprnn = 31
opcode jmprnc = 32
opcode jmpa = 33
opcode jmpar = 34
opcode a_b = 35
opcode b_a = 36
opcode b_ah = 37
opcode al_rb = 38
opcode a_rb = 39
opcode rb_al = 40
opcode rb_a = 41
opcode a_sp = 42
opcode sp_a = 43
opcode a_sec = 44
opcode sec_a = 45
opcode ram_ndx = 46
opcode incndx = 47
opcode ndx_a = 48
opcode a_ndx = 49
opcode mem_a = 50
opcode mem_ah = 51
opcode a_mem = 52
opcode call = 53
opcode callr = 54
opcode ret = 55
opcode key_a = 56
opcode drw = 57
opcode ram_drw = 58
opcode hlt = 63

-- The mnemonic. `KEY_A` is spelled `_KEY_A` in the enumeration only.
unfoldable pub instruction_to_string : Instruction → String
instruction_to_string nop = "NOP"
instruction_to_string inca = "INCA"
instruction_to_string deca = "DECA"
instruction_to_string incb = "INCB"
instruction_to_string ram_al = "RAM_AL"
instruction_to_string ram_bl = "RAM_BL"
instruction_to_string ram_a = "RAM_A"
instruction_to_string ram_b = "RAM_B"
instruction_to_string incsp = "INCSP"
instruction_to_string decsp = "DECSP"
instruction_to_string pusha = "PUSHA"
instruction_to_string popa = "POPA"
instruction_to_string peeka = "PEEKA"
instruction_to_string peekar = "PEEKAR"
instruction_to_string pushar = "PUSHAR"
instruction_to_string pushb = "PUSHB"
instruction_to_string popb = "POPB"
instruction_to_string peekb = "PEEKB"
instruction_to_string sum = "SUM"
instruction_to_string sub = "SUB"
instruction_to_string shr = "SHR"
instruction_to_string shl = "SHL"
instruction_to_string and = "AND"
instruction_to_string cmpa = "CMPA"
instruction_to_string cmpb = "CMPB"
instruction_to_string jmp = "JMP"
instruction_to_string jmpr = "JMPR"
instruction_to_string jmprz = "JMPRZ"
instruction_to_string jmprn = "JMPRN"
instruction_to_string jmprc = "JMPRC"
instruction_to_string jmprnz = "JMPRNZ"
instruction_to_string jmprnn = "JMPRNN"
instruction_to_string jmprnc = "JMPRNC"
instruction_to_string jmpa = "JMPA"
instruction_to_string jmpar = "JMPAR"
instruction_to_string a_b = "A_B"
instruction_to_string b_a = "B_A"
instruction_to_string b_ah = "B_AH"
instruction_to_string al_rb = "AL_rB"
instruction_to_string a_rb = "A_rB"
instruction_to_string rb_al = "rB_AL"
instruction_to_string rb_a = "rB_A"
instruction_to_string a_sp = "A_SP"
instruction_to_string sp_a = "SP_A"
instruction_to_string a_sec = "A_SEC"
instruction_to_string sec_a = "SEC_A"
instruction_to_string ram_ndx = "RAM_NDX"
instruction_to_string incndx = "INCNDX"
instruction_to_string ndx_a = "NDX_A"
instruction_to_string a_ndx = "A_NDX"
instruction_to_string mem_a = "MEM_A"
instruction_to_string mem_ah = "MEM_AH"
instruction_to_string a_mem = "A_MEM"
instruction_to_string call = "CALL"
instruction_to_string callr = "CALLR"
instruction_to_string ret = "RET"
instruction_to_string key_a = "KEY_A"
instruction_to_string drw = "DRW"
instruction_to_string ram_drw = "RAM_DRW"
instruction_to_string hlt = "HLT"

-- The chain of comparisons of `sv_to_instruction`; `none` is its return value 0.
unfoldable pub sv_to_instruction : List ℕ → Option Instruction
sv_to_instruction sv =
    if str_eq sv (codes "NOP")
    then some nop
    else if str_eq sv (codes "INCA")
    then some inca
    else if str_eq sv (codes "DECA")
    then some deca
    else if str_eq sv (codes "INCB")
    then some incb
    else if str_eq sv (codes "RAM_AL")
    then some ram_al
    else if str_eq sv (codes "RAM_BL")
    then some ram_bl
    else if str_eq sv (codes "RAM_A")
    then some ram_a
    else if str_eq sv (codes "RAM_B")
    then some ram_b
    else if str_eq sv (codes "INCSP")
    then some incsp
    else if str_eq sv (codes "DECSP")
    then some decsp
    else if str_eq sv (codes "PUSHA")
    then some pusha
    else if str_eq sv (codes "POPA")
    then some popa
    else if str_eq sv (codes "PEEKA")
    then some peeka
    else if str_eq sv (codes "PEEKAR")
    then some peekar
    else if str_eq sv (codes "PUSHAR")
    then some pushar
    else if str_eq sv (codes "PUSHB")
    then some pushb
    else if str_eq sv (codes "POPB")
    then some popb
    else if str_eq sv (codes "PEEKB")
    then some peekb
    else if str_eq sv (codes "SUM")
    then some sum
    else if str_eq sv (codes "SUB")
    then some sub
    else if str_eq sv (codes "SHR")
    then some shr
    else if str_eq sv (codes "SHL")
    then some shl
    else if str_eq sv (codes "AND")
    then some and
    else if str_eq sv (codes "CMPA")
    then some cmpa
    else if str_eq sv (codes "CMPB")
    then some cmpb
    else if str_eq sv (codes "JMP")
    then some jmp
    else if str_eq sv (codes "JMPR")
    then some jmpr
    else if str_eq sv (codes "JMPRZ")
    then some jmprz
    else if str_eq sv (codes "JMPRN")
    then some jmprn
    else if str_eq sv (codes "JMPRC")
    then some jmprc
    else if str_eq sv (codes "JMPRNZ")
    then some jmprnz
    else if str_eq sv (codes "JMPRNN")
    then some jmprnn
    else if str_eq sv (codes "JMPRNC")
    then some jmprnc
    else if str_eq sv (codes "JMPA")
    then some jmpa
    else if str_eq sv (codes "JMPAR")
    then some jmpar
    else if str_eq sv (codes "A_B")
    then some a_b
    else if str_eq sv (codes "B_A")
    then some b_a
    else if str_eq sv (codes "B_AH")
    then some b_ah
    else if str_eq sv (codes "AL_rB")
    then some al_rb
    else if str_eq sv (codes "A_rB")
    then some a_rb
    else if str_eq sv (codes "rB_AL")
    then some rb_al
    else if str_eq sv (codes "rB_A")
    then some rb_a
    else if str_eq sv (codes "A_SP")
    then some a_sp
    else if str_eq sv (codes "SP_A")
    then some sp_a
    else if str_eq sv (codes "A_SEC")
    then some a_sec
    else if str_eq sv (codes "SEC_A")
    then some sec_a
    else if str_eq sv (codes "RAM_NDX")
    then some ram_ndx
    else if str_eq sv (codes "INCNDX")
    then some incndx
    else if str_eq sv (codes "NDX_A")
    then some ndx_a
    else if str_eq sv (codes "A_NDX")
    then some a_ndx
    else if str_eq sv (codes "MEM_A")
    then some mem_a
    else if str_eq sv (codes "MEM_AH")
    then some mem_ah
    else if str_eq sv (codes "A_MEM")
    then some a_mem
    else if str_eq sv (codes "CALL")
    then some call
    else if str_eq sv (codes "CALLR")
    then some callr
    else if str_eq sv (codes "RET")
    then some ret
    else if str_eq sv (codes "KEY_A")
    then some key_a
    else if str_eq sv (codes "DRW")
    then some drw
    else if str_eq sv (codes "RAM_DRW")
    then some ram_drw
    else if str_eq sv (codes "HLT")
    then some hlt
    else none

-- `instruction_stat_t`
pub data InstructionStat : Type 0 where
  no_args arg_8bits arg_16bits label_arg rellabel_arg : InstructionStat

unfoldable pub instruction_stat : Instruction → InstructionStat
instruction_stat nop = no_args
instruction_stat inca = no_args
instruction_stat deca = no_args
instruction_stat incb = no_args
instruction_stat ram_al = arg_8bits
instruction_stat ram_bl = arg_8bits
instruction_stat ram_a = arg_16bits
instruction_stat ram_b = arg_16bits
instruction_stat incsp = no_args
instruction_stat decsp = no_args
instruction_stat pusha = no_args
instruction_stat popa = no_args
instruction_stat peeka = no_args
instruction_stat peekar = arg_8bits
instruction_stat pushar = arg_8bits
instruction_stat pushb = no_args
instruction_stat popb = no_args
instruction_stat peekb = no_args
instruction_stat sum = no_args
instruction_stat sub = no_args
instruction_stat shr = no_args
instruction_stat shl = no_args
instruction_stat and = no_args
instruction_stat cmpa = no_args
instruction_stat cmpb = no_args
instruction_stat jmp = label_arg
instruction_stat jmpr = rellabel_arg
instruction_stat jmprz = rellabel_arg
instruction_stat jmprn = rellabel_arg
instruction_stat jmprc = rellabel_arg
instruction_stat jmprnz = rellabel_arg
instruction_stat jmprnn = rellabel_arg
instruction_stat jmprnc = rellabel_arg
instruction_stat jmpa = no_args
instruction_stat jmpar = no_args
instruction_stat a_b = no_args
instruction_stat b_a = no_args
instruction_stat b_ah = no_args
instruction_stat al_rb = no_args
instruction_stat a_rb = no_args
instruction_stat rb_al = no_args
instruction_stat rb_a = no_args
instruction_stat a_sp = no_args
instruction_stat sp_a = no_args
instruction_stat a_sec = no_args
instruction_stat sec_a = no_args
instruction_stat ram_ndx = arg_8bits
instruction_stat incndx = no_args
instruction_stat ndx_a = no_args
instruction_stat a_ndx = no_args
instruction_stat mem_a = no_args
instruction_stat mem_ah = no_args
instruction_stat a_mem = no_args
instruction_stat call = label_arg
instruction_stat callr = rellabel_arg
instruction_stat ret = no_args
instruction_stat key_a = no_args
instruction_stat drw = no_args
instruction_stat ram_drw = arg_8bits
instruction_stat hlt = no_args
