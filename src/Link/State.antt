-- ===== src/Link/State.antt =====
-- The linker's state and its searches. A failed assertion, an `eprintf`, which ends the program, and
-- an access out of bounds are `none`.
use jaris.Base.{ℕ, zero, suc, ◌+◌, Bool, true, List, [], ◌∷◌, ◌++◌, map, length, ltb}
use jaris.Base.{Option, none, some, if◌then◌else◌, ◌==◌, u16, ◌>>=◌, ◌>>◌, ensure}
use jaris.Files.Types.{Symbol, Exe, str_eq, no_pos, symbol_max_count, intern_reloc_max_count}

-- A shared object that is linked: its name, and the names and positions of its globals.
pub record SharedTable : Type 0 where
  pub name : List ℕ
  pub globals : List (List ℕ × ℕ)

pub record ExeState : Type 0 where
  pub exe : Exe
  pub globals : List ℕ
  pub externs : List ℕ
  pub sos : List SharedTable
  pub obj_count : ℕ

-- The element of the array of symbols; those behind the count are zero.
abbrev pub unused_symbol : Symbol
unused_symbol = record { image = []; pos = 0; relocs = []; relrelocs = [] }

unfoldable pub symbol_at : List Symbol → ℕ → Symbol
symbol_at [] i = unused_symbol
symbol_at (s ∷ symbols) zero = s
symbol_at (s ∷ symbols) (suc i) = symbol_at symbols i

-- The index of the first symbol of that name; -1 is `none`.
unfoldable pub find_symbol : List Symbol → List ℕ → Option ℕ
find_symbol [] name = none
find_symbol (s ∷ symbols) name =
    if str_eq s.image name then some 0 else (find_symbol symbols name >>= λ i. some (suc i))

unfoldable pub exe_find_symbol : Exe → List ℕ → Option ℕ
exe_find_symbol exe name = find_symbol exe.symbols name

unfoldable pub find_global : List Symbol → List ℕ → List ℕ → ℕ
find_global symbols [] name = no_pos
find_global symbols (g ∷ globals) name =
    if str_eq (symbol_at symbols g).image name
    then (symbol_at symbols g).pos
    else find_global symbols globals name

-- The position of the first global of that name, or 0xFFFF.
unfoldable pub exe_state_find_global : ExeState → List ℕ → ℕ
exe_state_find_global state name = find_global state.exe.symbols state.globals name

unfoldable pub exe_state_find_so_global : List (List ℕ × ℕ) → List ℕ → ℕ
exe_state_find_so_global [] name = no_pos
exe_state_find_so_global ((image, pos) ∷ globals) name =
    if str_eq image name then pos else exe_state_find_so_global globals name

abbrev pub moved : ℕ → List ℕ → List ℕ
moved offset l = map (λ r. u16 (r + offset)) l

-- A copy of the symbol, moved by the offset. A position of 0xFFFF stays.
unfoldable pub offset_symbol : Symbol → ℕ → Symbol
offset_symbol s offset = record {
  image = s.image;
  pos = if s.pos == no_pos then s.pos else u16 (s.pos + offset);
  relocs = moved offset s.relocs;
  relrelocs = moved offset s.relrelocs;
}

unfoldable pub exe_add_symbol_offset : Exe → Symbol → ℕ → Option Exe
exe_add_symbol_offset exe s offset = do
  ensure (ltb (length exe.symbols + 1) symbol_max_count)
  some (record exe { symbols = exe.symbols ++ (offset_symbol s offset ∷ []) })

-- The uses of `from` go to the symbol `s` of the executable.
unfoldable pub add_uses : Bool → ℕ → Symbol → Symbol → Option Symbol
add_uses debug_info offset from s = do
  ensure (ltb (length s.relocs + length from.relocs) intern_reloc_max_count)
  ensure (
      if debug_info
      then ltb (length s.relrelocs + length from.relrelocs) intern_reloc_max_count
      else true)
  some (record s {
    relocs = s.relocs ++ moved offset from.relocs;
    relrelocs = if debug_info then s.relrelocs ++ moved offset from.relrelocs else s.relrelocs;
  })
