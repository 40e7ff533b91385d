-- ===== src/Link/Tests.antt =====
-- The start code and one object with `_start` at its second word; two objects that use one extern.
use jaris.Base.{◌+◌, ◌%◌}
use jaris.Files.Types.{SharedObject}
use jaris.Base.{
  ℕ, ◌^◌, ◌<◌, ◌≡◌, refl, arith, inl, inr, false, Option, some, none, List, [], ◌∷◌, All,
  if◌then◌else◌, ◌==◌, ◌>>=◌,
}
use jaris.Instructions.{Instruction, opcode}
use jaris.Files.Types.{Obj, RelocEntry, str_eq}
use jaris.Link.State.{
  ExeState, symbol_at, find_symbol, find_global, exe_find_symbol, exe_state_find_global,
  exe_add_symbol_offset, offset_symbol, add_uses,
}
use jaris.Link.Objects.{
  link_code, link_relocs, link_extern, link_global, new_extern, old_extern, old_global,
}
use jaris.Link.Objects.{
  each_symbol, add_locals, link_symbols, place_obj, exe_link_obj, boilerplate, exe_link_boilerplate,
}
use jaris.Link.Check.{
  add_relocs, use_sos, resolve, resolve_externs, reloc_externs, apply_relocs, serve_externs,
  relocate, patch, exe_state_check_exe, so_from_exe_state,
}
use jaris.Link.Patch.{AllFit, code_word}
use jaris.Link.Resolve.{UsesHold, HasPos}
use jaris.Link.Correct.{exe_state_check_exe-uses, exe_state_check_exe-HasPos}
use jaris.Link.Load.{so_reloc, so_reloc_lem}
use jaris.Link.Layout.{Placed, exe_link_obj-Placed}

abbrev empty : ExeState
empty = record {
  exe = record { code_size = 0; code = λ i. 0; relocs = []; dynamics = []; symbols = [] };
  globals = [];
  externs = [];
  sos = [];
  obj_count = 0;
}

abbrev start_name : List ℕ
start_name = 95 ∷ 115 ∷ 116 ∷ 97 ∷ 114 ∷ 116 ∷ []

-- `NOP; NOP; _start: HLT`
abbrev halting : Obj
halting = record {
  code_size = 3;
  code = λ i. if i == 2 then 63 else 0;
  relocs = [];
  globals = 0 ∷ [];
  externs = [];
  symbols = record { image = start_name; pos = 2; relocs = []; relrelocs = [] } ∷ [];
}

abbrev nothing_left : Option ExeState → ExeState
nothing_left none = empty
nothing_left (some s) = s

-- The states after the start code, after the object and after the check.
booted : ExeState
unfolding exe_link_boilerplate exe_link_obj place_obj link_code link_relocs link_symbols each_symbol
    link_extern exe_find_symbol find_symbol str_eq new_extern exe_add_symbol_offset offset_symbol
    add_locals boilerplate opcode
booted = nothing_left (exe_link_boilerplate false empty)

linked : ExeState
unfolding booted exe_link_obj place_obj link_code link_relocs link_symbols each_symbol link_global
    exe_find_symbol find_symbol str_eq old_global symbol_at add_uses add_locals
linked = nothing_left (exe_link_obj halting false booted)

checked : ExeState
unfolding linked exe_state_check_exe serve_externs use_sos resolve_externs resolve relocate
    reloc_externs add_relocs patch apply_relocs exe_state_find_global find_global symbol_at str_eq
checked = nothing_left (exe_state_check_exe linked)

linking : exe_link_obj halting false booted ≡ some linked
unfolding linked
linking = refl

checking : exe_state_check_exe linked ≡ some checked
unfolding checked
checking = refl

static : linked.sos ≡ []
unfolding linked
static = refl

relocs_checked : checked.exe.relocs ≡ record { place = 2; what = 6 } ∷ []
unfolding checked
relocs_checked = refl

exe_link_obj-Placed_example : Placed halting booted.exe linked.exe
exe_link_obj-Placed_example = exe_link_obj-Placed halting false booted linked linking

exe_state_check_exe-HasPos_example : All (HasPos checked.exe.symbols) linked.externs
exe_state_check_exe-HasPos_example = exe_state_check_exe-HasPos linked checked checking static

-- `EXTERN d; CALL d`, and an object with `d` at its second byte.
abbrev caller : Obj
caller = record {
  code_size = 4;
  code = λ i. if i == 1 then opcode Instruction.call else 0;
  relocs = [];
  globals = [];
  externs = 0 ∷ [];
  symbols = record { image = 100 ∷ []; pos = 0xffff; relocs = 2 ∷ []; relrelocs = [] } ∷ [];
}

abbrev callee : Obj
callee = record {
  code_size = 2;
  code = λ i. if i == 1 then opcode Instruction.ret else 0;
  relocs = [];
  globals = 0 ∷ [];
  externs = [];
  symbols = record { image = 100 ∷ []; pos = 1; relocs = []; relrelocs = [] } ∷ [];
}

-- Two callers of one extern: it is listed twice, and each of its uses is relocated twice.
abbrev called : Option ExeState
called = do
  state ← exe_link_obj caller false empty
  state ← exe_link_obj caller false state
  exe_link_obj callee false state

callers : ExeState
unfolding exe_link_obj place_obj link_code link_relocs link_symbols each_symbol link_extern
    exe_find_symbol find_symbol str_eq new_extern old_extern exe_add_symbol_offset offset_symbol
    add_locals link_global old_global symbol_at add_uses opcode
callers = nothing_left called

callers_checked : ExeState
unfolding callers exe_state_check_exe serve_externs use_sos resolve_externs resolve relocate
    reloc_externs add_relocs patch apply_relocs exe_state_find_global find_global symbol_at str_eq
callers_checked = nothing_left (exe_state_check_exe callers)

callers_checking : exe_state_check_exe callers ≡ some callers_checked
unfolding callers_checked
callers_checking = refl

abbrev four_relocs : List RelocEntry
four_relocs =
    record { place = 2; what = 9 }
    ∷ record { place = 6; what = 9 }
    ∷ record { place = 2; what = 9 }
    ∷ record { place = 6; what = 9 }
    ∷ []

callers_relocs : callers_checked.exe.relocs ≡ four_relocs
unfolding callers_checked
callers_relocs = refl

callers_externs : callers.externs ≡ 0 ∷ 0 ∷ []
unfolding callers
callers_externs = refl

four_relocs-AllFit : AllFit four_relocs
unfolding AllFit
four_relocs-AllFit = (
  (inl (inl (omega arith)), (inr (refl, refl), (inl (inl (omega arith)), tt))),
  ((inl (inr (omega arith)), (inr (refl, refl), tt)), ((inl (inl (omega arith)), tt), (tt, tt))),
)

callers_words : All (λ r. r.what < 2 ^ 16) four_relocs
callers_words = (omega arith, (omega arith, (omega arith, (omega arith, tt))))

exe_state_check_exe-uses_example :
    All
      (UsesHold
        (λ r. code_word callers_checked.exe.code r.place ≡ r.what)
        callers_checked.exe.symbols)
      callers.externs
unfolding callers_checked
exe_state_check_exe-uses_example =
    exe_state_check_exe-uses callers callers_checked callers_checking four_relocs-AllFit
      callers_words

-- The same three objects as a shared object, loaded at 0x300.
abbrev nothing : SharedObject
nothing = record { code_size = 0; code = λ i. 0; relocs = []; globals = []; symbols = [] }

abbrev object_or : SharedObject → Option SharedObject → SharedObject
object_or so none = so
object_or so (some so') = so'

library : SharedObject
unfolding callers_checked so_from_exe_state
library = object_or nothing (so_from_exe_state callers_checked)

placed : SharedObject
unfolding library so_reloc apply_relocs
placed = object_or nothing (so_reloc 0x300 library)

loading : so_reloc 0x300 library ≡ some placed
unfolding placed
loading = refl

so_reloc_lem_example :
    All (λ r. code_word placed.code r.place ≡ (r.what + 0x300) % 2 ^ 16) library.relocs
unfolding library
so_reloc_lem_example = so_reloc_lem 0x300 library placed loading four_relocs-AllFit
