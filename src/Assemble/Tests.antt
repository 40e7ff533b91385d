-- ===== src/Assemble/Tests.antt =====
-- `_start: JMP _start` with `GLOBAL _start`, assembled.
use jaris.Assemble.Object.{no_obj}
use jaris.Base.{ℕ, ◌≡◌, refl, false, Option, none, some, List, [], ◌∷◌}
use jaris.Instructions.{opcode}
use jaris.Instructions.Instruction.{jmp, jmpr}
use jaris.Files.Types.{Obj, str_eq}
use jaris.Link.State.{symbol_at, find_symbol}
use jaris.Link.Objects.{mem}
use jaris.Assemble.Bytecode.{Bytecode}
use jaris.Assemble.Bytecode.Bytecode.{binstlabel, binstrellabel, bsetlabel, bglobal}
use jaris.Assemble.Object.{
  emit, skip, obj_find_symbol, obj_add_symbol, obj_add_symbol_reloc, obj_add_symbol_relreloc,
}
use jaris.Assemble.Object.{place_symbol, new_symbol, find_or_add, add_reloc, add_relreloc}
use jaris.Assemble.Compile.{emit_aligned, unset_label, add_global, obj_compile_bytecode, compile}
use jaris.Assemble.Check.{
  fill, fill_relative, fill_absolute, check_externs, check_symbol, check_symbols, strip, obj_check,
}
use jaris.Assemble.Aligned.{IsAligned}
use jaris.Assemble.Program.{compile-IsAligned}
use jaris.Assemble.Strip.{Stripped}
use jaris.Assemble.Tables.{obj_check-Stripped}

abbrev start : List ℕ
start = 115 ∷ []

abbrev program : List Bytecode
program = bglobal start ∷ bsetlabel start ∷ binstlabel jmp start ∷ binstrellabel jmpr start ∷ []

abbrev or_empty : Option Obj → Obj
or_empty none = no_obj
or_empty (some o) = o

compiled : Obj
unfolding compile obj_compile_bytecode emit_aligned emit skip obj_add_symbol find_symbol str_eq
    new_symbol place_symbol add_global unset_label obj_find_symbol obj_add_symbol_reloc
    obj_add_symbol_relreloc find_or_add add_reloc add_relreloc symbol_at opcode
compiled = or_empty (compile program no_obj)

assembled : Obj
unfolding compiled obj_check check_externs check_symbols check_symbol fill_relative fill_absolute
    fill mem symbol_at strip
assembled = or_empty (obj_check false compiled)

compiling : compile program no_obj ≡ some compiled
unfolding compiled
compiling = refl

checking : obj_check false compiled ≡ some assembled
unfolding assembled
checking = refl

assembled_code :
    (assembled.code_size ≡ 8)
    × (assembled.code 1 ≡ 25)
    × (assembled.code 2 ≡ 0)
    × (assembled.code 5 ≡ 26)
    × (assembled.code 6 ≡ 0xfa)
    × (assembled.code 7 ≡ 0xff)
unfolding assembled
assembled_code = (refl, refl, refl, refl, refl, refl)

no_obj-IsAligned : IsAligned no_obj
unfolding IsAligned
no_obj-IsAligned = tt

compile-IsAligned_example : IsAligned compiled
compile-IsAligned_example = compile-IsAligned program no_obj compiled no_obj-IsAligned compiling

obj_check-Stripped_example : Stripped compiled assembled
obj_check-Stripped_example = obj_check-Stripped compiled assembled checking
