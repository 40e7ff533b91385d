-- ===== src/Assemble/Compile.antt =====
-- src/assemble.c `obj_compile_bytecode`: one bytecode added to an object.
use jaris.Base.{
  ℕ, ◌+◌, ◌%◌, List, [], ◌∷◌, ◌++◌, length, ltb, ◌==◌, when, Option, none, some, ◌>>=◌, ◌>>◌,
  ensure, Bool, true,
}
use jaris.Instructions.{Instruction, opcode}
use jaris.Instructions.Instruction.{nop}
use jaris.Files.Types.{Obj, no_pos, global_max_count, extern_max_count}
use jaris.Link.State.{symbol_at}
use jaris.Assemble.Bytecode.{Bytecode}
use jaris.Assemble.Bytecode.Bytecode.{
  bnone, binst, binsthex, binsthex2, binstlabel, binstrellabel, bhex, bhex2,
}
use jaris.Assemble.Bytecode.Bytecode.{bstring, bsetlabel, bglobal, bextern, balign, bdb}
use jaris.Assemble.Object.{
  emit, skip, obj_add_hex2, obj_find_symbol, obj_add_symbol, obj_add_symbol_reloc,
  obj_add_symbol_relreloc,
}

-- An instruction with a word goes to an odd address, behind a `NOP` if need be, so that the word is
-- at an even one.
unfoldable pub emit_aligned : Instruction → Obj → Obj
emit_aligned i obj = emit (opcode i) (when (obj.code_size % 2 == 0) (emit (opcode nop)) obj)

unfoldable pub emit_string : List ℕ → Obj → Obj
emit_string [] obj = obj
emit_string (c ∷ string) obj = emit_string string (emit c obj)

-- An index into the symbols becomes the next global or extern.
unfoldable pub add_global : ℕ × Obj → Option Obj
add_global (index, obj) = do
  ensure (ltb (length obj.globals + 1) global_max_count)
  some (record obj { globals = obj.globals ++ (index ∷ []) })

unfoldable pub add_extern : ℕ × Obj → Option Obj
add_extern (index, obj) = do
  ensure (ltb (length obj.externs + 1) extern_max_count)
  some (record obj { externs = obj.externs ++ (index ∷ []) })

-- The object behind the index that `obj_add_symbol` returns.
abbrev pub only_obj : ℕ × Obj → Option Obj
only_obj (index, obj) = some obj

-- The argument of a label's instruction: two bytes that are filled later.
abbrev pub skip_word : Obj → Option Obj
skip_word obj = some (skip 2 obj)

-- No label of that name has a position.
unfoldable pub unset_label : List ℕ → Obj → Bool
unset_label name obj = elim (obj_find_symbol obj name) [
  | none ↦ true
  | some index ↦ (symbol_at obj.symbols index).pos == no_pos
]

unfoldable pub obj_compile_bytecode : Bytecode → Obj → Option Obj
obj_compile_bytecode bnone obj = none
obj_compile_bytecode (binst i) obj = some (emit (opcode i) obj)
obj_compile_bytecode (binsthex i num) obj = some (emit num (emit (opcode i) obj))
obj_compile_bytecode (binsthex2 i num) obj = some (obj_add_hex2 num (emit_aligned i obj))
obj_compile_bytecode (binstlabel i name) obj =
    obj_add_symbol_reloc name (emit_aligned i obj).code_size (emit_aligned i obj) >>= skip_word
obj_compile_bytecode (binstrellabel i name) obj =
    obj_add_symbol_relreloc name (emit_aligned i obj).code_size (emit_aligned i obj) >>= skip_word
obj_compile_bytecode (bhex num) obj = some (emit num obj)
obj_compile_bytecode (bhex2 num) obj = some (obj_add_hex2 num obj)
obj_compile_bytecode (bstring string) obj = some (emit_string string obj)
obj_compile_bytecode (bsetlabel name) obj =
    ensure (unset_label name obj) >> (obj_add_symbol name obj.code_size obj >>= only_obj)
obj_compile_bytecode (bglobal name) obj = obj_add_symbol name no_pos obj >>= add_global
obj_compile_bytecode (bextern name) obj = obj_add_symbol name no_pos obj >>= add_extern
obj_compile_bytecode balign obj = some (when (obj.code_size % 2 == 1) (skip 1) obj)
obj_compile_bytecode (bdb num) obj = some (skip num obj)

-- The bytecodes of a program, in their order.
unfoldable pub compile : List Bytecode → Obj → Option Obj
compile [] obj = some obj
compile (bc ∷ bytecodes) obj = obj_compile_bytecode bc obj >>= compile bytecodes
