-- ===== src/Assemble/Program.antt =====
-- Whole programs of src/assemble.c `obj_compile_bytecode`.
use jaris.Base.{ℕ, ◌+◌, ◌≡◌, subst, List, [], ◌∷◌, ◌++◌, length, ltb, Option, some}
use jaris.Base.{◌>>=◌, >>=-some, ensure->>, some_injective}
use jaris.Instructions.{Instruction}
use jaris.Files.Types.{Obj, no_pos, global_max_count, extern_max_count}
use jaris.Assemble.Bytecode.{Bytecode}
use jaris.Assemble.Bytecode.Bytecode.{
  bnone, binst, binsthex, binsthex2, binstlabel, binstrellabel, bhex, bhex2,
}
use jaris.Assemble.Bytecode.Bytecode.{bstring, bsetlabel, bglobal, bextern, balign, bdb}
use jaris.Assemble.Object.{
  skip, obj_add_hex2, obj_add_symbol, obj_add_symbol_reloc, obj_add_symbol_relreloc,
}
use jaris.Assemble.Object.{find_or_add, add_reloc, add_relreloc}
use jaris.Assemble.Compile.{
  emit_aligned, add_global, add_extern, only_obj, skip_word, unset_label, obj_compile_bytecode,
  compile,
}
use jaris.Assemble.Aligned.{
  IsAligned, emit-IsAligned, when-IsAligned, emit_aligned-IsAligned, emit_aligned-even,
  emit_string-IsAligned,
}
use jaris.Assemble.Aligned.{
  obj_add_symbol-IsAligned, find_or_add-IsAligned, add_reloc-IsAligned, add_relreloc-IsAligned,
}

skip-IsAligned : (n : ℕ) (obj : Obj) → IsAligned obj → IsAligned (skip n obj)
unfolding skip IsAligned
skip-IsAligned n obj h = h

obj_add_hex2-IsAligned : (num : ℕ) (obj : Obj) → IsAligned obj → IsAligned (obj_add_hex2 num obj)
unfolding obj_add_hex2
obj_add_hex2-IsAligned num obj h = emit-IsAligned _ _ (emit-IsAligned _ obj h)

skip_word-IsAligned :
    (o : Option Obj) (obj' : Obj)
    → ((m : Obj) → o ≡ some m → IsAligned m)
    → (o >>= skip_word) ≡ some obj'
    → IsAligned obj'
skip_word-IsAligned o obj' h e =
    let (m, made, out) = >>=-some o skip_word obj' e in
    subst IsAligned (some_injective out) (skip-IsAligned 2 m (h m made))

add_global-IsAligned :
    (p : ℕ × Obj) (obj' : Obj) → IsAligned p.1 → add_global p ≡ some obj' → IsAligned obj'
unfolding add_global IsAligned
add_global-IsAligned (index, obj) obj' h e =
    let (_, made) =
      ensure->> (ltb (length obj.globals + 1) global_max_count)
        (some (record obj { globals = obj.globals ++ (index ∷ []) })) obj' e in
    subst IsAligned (some_injective made) h

add_extern-IsAligned :
    (p : ℕ × Obj) (obj' : Obj) → IsAligned p.1 → add_extern p ≡ some obj' → IsAligned obj'
unfolding add_extern IsAligned
add_extern-IsAligned (index, obj) obj' h e =
    let (_, made) =
      ensure->> (ltb (length obj.externs + 1) extern_max_count)
        (some (record obj { externs = obj.externs ++ (index ∷ []) })) obj' e in
    subst IsAligned (some_injective made) h

add_symbol_then :
    (name : List ℕ) (pos : ℕ) (obj obj' : Obj) (f : ℕ × Obj → Option Obj)
    → IsAligned obj
    → ((p : ℕ × Obj) → IsAligned p.1 → f p ≡ some obj' → IsAligned obj')
    → (obj_add_symbol name pos obj >>= f) ≡ some obj'
    → IsAligned obj'
add_symbol_then name pos obj obj' f h k e =
    let (p, added, out) = >>=-some (obj_add_symbol name pos obj) f obj' e in
    k p (obj_add_symbol-IsAligned name pos obj p h added) out

reloc-IsAligned :
    (name : List ℕ) (i : Instruction) (obj m : Obj)
    → IsAligned obj
    → obj_add_symbol_reloc name (emit_aligned i obj).code_size (emit_aligned i obj) ≡ some m
    → IsAligned m
unfolding obj_add_symbol_reloc
reloc-IsAligned name i obj m h e =
    let start = emit_aligned i obj in
    let (p, found, out) = >>=-some (find_or_add name start) (add_reloc start.code_size) m e in
    add_reloc-IsAligned start.code_size p m (emit_aligned-even i obj)
      (find_or_add-IsAligned name start p (emit_aligned-IsAligned i obj h) found) out

relreloc-IsAligned :
    (name : List ℕ) (i : Instruction) (obj m : Obj)
    → IsAligned obj
    → obj_add_symbol_relreloc name (emit_aligned i obj).code_size (emit_aligned i obj) ≡ some m
    → IsAligned m
unfolding obj_add_symbol_relreloc
relreloc-IsAligned name i obj m h e =
    let start = emit_aligned i obj in
    let (p, found, out) = >>=-some (find_or_add name start) (add_relreloc start.code_size) m e in
    add_relreloc-IsAligned start.code_size p m (emit_aligned-even i obj)
      (find_or_add-IsAligned name start p (emit_aligned-IsAligned i obj h) found) out

obj_compile_bytecode-IsAligned :
    (bc : Bytecode) (obj obj' : Obj)
    → IsAligned obj
    → obj_compile_bytecode bc obj ≡ some obj'
    → IsAligned obj'
unfolding obj_compile_bytecode
obj_compile_bytecode-IsAligned bnone obj obj' h e = cc
obj_compile_bytecode-IsAligned (binst i) obj obj' h e =
    subst IsAligned (some_injective e) (emit-IsAligned _ obj h)
obj_compile_bytecode-IsAligned (binsthex i num) obj obj' h e =
    subst IsAligned (some_injective e) (emit-IsAligned num _ (emit-IsAligned _ obj h))
obj_compile_bytecode-IsAligned (binsthex2 i num) obj obj' h e =
    subst IsAligned (some_injective e)
      (obj_add_hex2-IsAligned num _ (emit_aligned-IsAligned i obj h))
obj_compile_bytecode-IsAligned (binstlabel i name) obj obj' h e =
    skip_word-IsAligned
      (obj_add_symbol_reloc name (emit_aligned i obj).code_size (emit_aligned i obj)) obj'
      (λ m k. reloc-IsAligned name i obj m h k) e
obj_compile_bytecode-IsAligned (binstrellabel i name) obj obj' h e =
    skip_word-IsAligned
      (obj_add_symbol_relreloc name (emit_aligned i obj).code_size (emit_aligned i obj)) obj'
      (λ m k. relreloc-IsAligned name i obj m h k) e
obj_compile_bytecode-IsAligned (bhex num) obj obj' h e =
    subst IsAligned (some_injective e) (emit-IsAligned num obj h)
obj_compile_bytecode-IsAligned (bhex2 num) obj obj' h e =
    subst IsAligned (some_injective e) (obj_add_hex2-IsAligned num obj h)
obj_compile_bytecode-IsAligned (bstring string) obj obj' h e =
    subst IsAligned (some_injective e) (emit_string-IsAligned string obj h)
obj_compile_bytecode-IsAligned (bsetlabel name) obj obj' h e =
    let (_, added) =
      ensure->> (unset_label name obj) (obj_add_symbol name obj.code_size obj >>= only_obj) obj'
        e in
    add_symbol_then name obj.code_size obj obj' only_obj h
      (λ p k out. subst IsAligned (some_injective out) k) added
obj_compile_bytecode-IsAligned (bglobal name) obj obj' h e =
    add_symbol_then name no_pos obj obj' add_global h (λ p k out. add_global-IsAligned p obj' k out)
      e
obj_compile_bytecode-IsAligned (bextern name) obj obj' h e =
    add_symbol_then name no_pos obj obj' add_extern h (λ p k out. add_extern-IsAligned p obj' k out)
      e
obj_compile_bytecode-IsAligned balign obj obj' h e =
    subst IsAligned (some_injective e) (when-IsAligned _ (skip 1) obj (skip-IsAligned 1) h)
obj_compile_bytecode-IsAligned (bdb num) obj obj' h e =
    subst IsAligned (some_injective e) (skip-IsAligned num obj h)

-- However the bytecodes of a program are mixed, an object whose uses of labels are all at even
-- addresses is compiled to one of which that holds.
pub compile-IsAligned :
    (bytecodes : List Bytecode) (obj obj' : Obj)
    → IsAligned obj
    → compile bytecodes obj ≡ some obj'
    → IsAligned obj'
unfolding compile
compile-IsAligned [] obj obj' h e = subst IsAligned (some_injective e) h
compile-IsAligned (bc ∷ bytecodes) obj obj' h e =
    let (m, made, rest) = >>=-some (obj_compile_bytecode bc obj) (compile bytecodes) obj' e in
    compile-IsAligned bytecodes m obj' (obj_compile_bytecode-IsAligned bc obj m h made) rest
