-- ===== src/Link/Objects.antt =====
-- src/link.c `exe_link_obj`, `exe_link_so` and `exe_link_boilerplate`.
use jaris.Base.{
  ℕ, zero, suc, ◌+◌, ◌-◌, ◌/◌, ◌%◌, ◌^◌, Bool, false, ◌||◌, ◌&&◌, List, [], ◌∷◌, ◌++◌, length,
  get_elem?, set, ltb, leb,
}
use jaris.Base.{Option, none, some, if◌then◌else◌, ◌==◌, u16, ◌>>=◌, ◌>>◌, ensure}
use jaris.Instructions.{Instruction, opcode}
use jaris.Files.Types.{
  Symbol, Exe, Obj, SharedObject, RelocEntry, no_pos, extern_max_count, global_max_count,
  reloc_max_count, symbol_max_count,
}
use jaris.Files.Types.{dynamic_max_count, label_max_len, file_name_max_len}
use jaris.Link.State.{ExeState, symbol_at, exe_find_symbol, exe_add_symbol_offset, add_uses}

-- The object's code is copied behind the executable's, which stays of even size.
unfoldable pub link_code : Obj → Exe → Option Exe
link_code obj exe = do
  ensure (leb (exe.code_size + obj.code_size) (2 ^ 16))
  some (record exe {
    code = λ i.
        if leb exe.code_size i && ltb i (exe.code_size + obj.code_size)
        then obj.code (i - exe.code_size)
        else exe.code i;
    code_size = u16 (exe.code_size + (obj.code_size + obj.code_size % 2));
  })

unfoldable pub link_relocs : ℕ → List RelocEntry → List RelocEntry → Option (List RelocEntry)
link_relocs offset [] relocs = some relocs
link_relocs offset (r ∷ rest) relocs = do
  ensure (ltb (length relocs + 1) reloc_max_count)
  link_relocs offset rest
      (relocs ++ (record { place = u16 (r.place + offset); what = u16 (r.what + offset) } ∷ []))

-- A symbol that the executable does not have yet, as its next extern.
unfoldable pub new_extern : ℕ → Symbol → ExeState → Option ExeState
new_extern offset from state = do
  ensure (ltb (length state.externs + 1) extern_max_count)
  exe ← exe_add_symbol_offset state.exe from offset
  some (record state { externs = state.externs ++ (length state.exe.symbols ∷ []); exe = exe })

-- The symbol at `index` as the next extern; its uses grow.
unfoldable pub old_extern : Bool → ℕ → Symbol → ℕ → ExeState → Option ExeState
old_extern debug_info offset from index state = do
  ensure (ltb (length state.externs + 1) extern_max_count)
  s ← add_uses debug_info offset from (symbol_at state.exe.symbols index)
  some (record state {
    externs = state.externs ++ (index ∷ []);
    exe = record state.exe { symbols = set state.exe.symbols index s };
  })

-- The round of the loop over the externs for the symbol `from`.
unfoldable pub link_extern : Bool → ℕ → Symbol → ExeState → Option ExeState
link_extern debug_info offset from state = elim (exe_find_symbol state.exe from.image) [
  | none ↦ new_extern offset from state
  | some index ↦ old_extern debug_info offset from index state
]

unfoldable pub new_global : ℕ → Symbol → ExeState → Option ExeState
new_global offset from state = do
  ensure (ltb (length state.globals + 1) global_max_count)
  exe ← exe_add_symbol_offset state.exe from offset
  some (record state { globals = state.globals ++ (length state.exe.symbols ∷ []); exe = exe })

-- A symbol that has a position already is an error.
unfoldable pub old_global : Bool → ℕ → Symbol → ℕ → ExeState → Option ExeState
old_global debug_info offset from index state = do
  let old = symbol_at state.exe.symbols index
  ensure (old.pos == no_pos)
  ensure (ltb (length state.globals + 1) global_max_count)
  s ← add_uses debug_info offset from (record old { pos = u16 (from.pos + offset) })
  some (record state {
    globals = state.globals ++ (index ∷ []);
    exe = record state.exe { symbols = set state.exe.symbols index s };
  })

-- The round of the loop over the globals.
unfoldable pub link_global : Bool → ℕ → Symbol → ExeState → Option ExeState
link_global debug_info offset from state = elim (exe_find_symbol state.exe from.image) [
  | none ↦ new_global offset from state
  | some index ↦ old_global debug_info offset from index state
]

-- A loop over the indices of some of the object's symbols; one past their count is out of bounds.
unfoldable pub each_symbol :
    (Symbol → ExeState → Option ExeState) → List Symbol → List ℕ → ExeState → Option ExeState
each_symbol round symbols [] state = some state
each_symbol round symbols (i ∷ rest) state = do
  from ← get_elem? symbols i
  state ← round from state
  each_symbol round symbols rest state

-- The decimal digits of a number, on fuel that the number itself is enough of.
unfoldable pub digits : ℕ → ℕ → List ℕ
digits zero n = (48 + n % 10) ∷ []
digits (suc fuel) n =
    let rest = digits fuel (n / 10) in
    if ltb n 10 then (48 + n) ∷ [] else rest ++ ((48 + n % 10) ∷ [])

unfoldable pub take : ℕ → List ℕ → List ℕ
take zero l = []
take (suc n) [] = []
take (suc n) (x ∷ l) = x ∷ take n l

-- `"%d@%-s"` into an array of LABEL_MAX_LEN bytes.
unfoldable pub local_image : ℕ → List ℕ → List ℕ
local_image obj_count image = take (label_max_len - 1) (digits obj_count obj_count ++ (64 ∷ image))

unfoldable pub mem : ℕ → List ℕ → Bool
mem i [] = false
mem i (j ∷ l) = (i == j) || mem i l

-- With debug information the symbols that are not copied yet come in under a local name; `i` counts
-- them.
unfoldable pub link_locals : ℕ → List ℕ → ℕ → List Symbol → ℕ → Exe → Option Exe
link_locals offset copied obj_count [] i exe = some exe
link_locals offset copied obj_count (s ∷ symbols) i exe = do
  exe ←
      if mem i copied
      then some exe
      else exe_add_symbol_offset exe (record s { image = local_image obj_count s.image }) offset
  link_locals offset copied obj_count symbols (suc i) exe

-- The end of a link: the local symbols, and the count of objects.
unfoldable pub add_locals : Obj → Bool → ℕ → ExeState → Option ExeState
add_locals obj debug_info offset state = do
  exe ←
      if debug_info
      then link_locals offset (obj.externs ++ obj.globals) state.obj_count obj.symbols 0 state.exe
      else some state.exe
  some (record state { exe = exe; obj_count = state.obj_count + 1 })

-- The loops over the symbols.
unfoldable pub link_symbols : Obj → Bool → ℕ → ExeState → Option ExeState
link_symbols obj debug_info offset state =
    each_symbol (link_extern debug_info offset) obj.symbols obj.externs state
    >>= each_symbol (link_global debug_info offset) obj.symbols obj.globals
    >>= add_locals obj debug_info offset

-- The code and the relocations.
unfoldable pub place_obj : Obj → ExeState → Option ExeState
place_obj obj state = do
  exe ← link_code obj state.exe
  relocs ← link_relocs state.exe.code_size obj.relocs exe.relocs
  some (record state { exe = record exe { relocs = relocs } })

unfoldable pub exe_link_obj : Obj → Bool → ExeState → Option ExeState
exe_link_obj obj debug_info state =
    place_obj obj state >>= link_symbols obj debug_info state.exe.code_size

-- The names and positions of the globals of a shared object; an index past the array of symbols is
-- out of bounds.
unfoldable pub so_globals : List Symbol → List ℕ → Option (List (List ℕ × ℕ))
so_globals symbols [] = some []
so_globals symbols (g ∷ globals) = do
  ensure (ltb g symbol_max_count)
  rest ← so_globals symbols globals
  some (((symbol_at symbols g).image, (symbol_at symbols g).pos) ∷ rest)

-- Names longer than the array are left without a NUL, which is out of bounds for the readers.
unfoldable pub exe_link_so : SharedObject → List ℕ → ExeState → Option ExeState
exe_link_so so name state = do
  ensure (ltb (length state.sos + 1) dynamic_max_count)
  ensure (ltb (length name) file_name_max_len)
  globals ← so_globals so.symbols so.globals
  some (record state { sos = state.sos ++ (record { name = name; globals = globals } ∷ []) })

-- `NOP; JMP _start`
unfoldable pub boilerplate : Obj
boilerplate = record {
  code_size = 4;
  code = λ i. if i == 1 then opcode Instruction.jmp else 0;
  relocs = [];
  globals = [];
  externs = 0 ∷ [];
  symbols =
      record {
        image = 95 ∷ 115 ∷ 116 ∷ 97 ∷ 114 ∷ 116 ∷ [];
        pos = no_pos;
        relocs = 2 ∷ [];
        relrelocs = [];
      }
      ∷ [];
}

unfoldable pub exe_link_boilerplate : Bool → ExeState → Option ExeState
exe_link_boilerplate debug_info state = do
  ensure (state.exe.code_size == 0)
  ensure (length state.exe.symbols == 0)
  exe_link_obj boilerplate debug_info state
