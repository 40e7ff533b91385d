-- ===== src/Assemble/Check.antt =====
-- src/assemble.c `obj_check`: the uses of the labels are filled in, and the symbols that no other
-- object needs are dropped.
use jaris.Base.{
  ℕ, zero, suc, ◌+◌, ◌-◌, ◌%◌, ◌^◌, Bool, not, List, [], ◌∷◌, ◌++◌, map, length, ltb, ◌==◌, u16,
}
use jaris.Base.{if◌then◌else◌, Option, some, ◌>>=◌, ◌>>◌, ensure}
use jaris.Files.Types.{Symbol, Obj, no_pos, reloc_max_count}
use jaris.Link.State.{symbol_at}
use jaris.Link.Objects.{mem}
use jaris.Link.Check.{write_word}

-- A word at `place`; one at the last byte is out of bounds.
unfoldable pub fill : ℕ → ℕ → Obj → Option Obj
fill place what obj = do
  ensure (ltb (place + 1) (2 ^ 16))
  some (record obj { code = write_word place what obj.code })

-- The uses of an extern hold 0xFFFF.
unfoldable pub fill_extern : List ℕ → Obj → Option Obj
fill_extern [] obj = some obj
fill_extern (r ∷ uses) obj = do ensure (r % 2 == 0); obj ← fill r 0xffff obj; fill_extern uses obj

unfoldable pub check_externs : List ℕ → Obj → Option Obj
check_externs [] obj = some obj
check_externs (e ∷ externs) obj = do
  let s = symbol_at obj.symbols e
  ensure (s.pos == no_pos)
  ensure (length s.relrelocs == 0)
  obj ← fill_extern s.relocs obj
  check_externs externs obj

-- A relative use holds the distance to the label from the use itself.
unfoldable pub fill_relative : ℕ → List ℕ → Obj → Option Obj
fill_relative pos [] obj = some obj
fill_relative pos (r ∷ uses) obj = do
  obj ← fill r (u16 (pos + 2 ^ 16 - r)) obj
  fill_relative pos uses obj

-- A use holds the position and becomes a relocation.
unfoldable pub fill_absolute : ℕ → List ℕ → Obj → Option Obj
fill_absolute pos [] obj = some obj
fill_absolute pos (r ∷ uses) obj = do
  ensure (ltb (length obj.relocs + 1) reloc_max_count)
  ensure (r % 2 == 0)
  obj ← fill r pos (record obj { relocs = obj.relocs ++ (record { place = r; what = pos } ∷ []) })
  fill_absolute pos uses obj

-- The symbol with the index `i`. A label without a position is an error.
unfoldable pub check_symbol : ℕ → Symbol → Obj → Option Obj
check_symbol i s obj = do
  obj ← fill_relative s.pos s.relrelocs obj
  (if mem i obj.externs
      then some obj
      else (ensure (not (s.pos == no_pos)) >> fill_absolute s.pos s.relocs obj))

unfoldable pub check_symbols : List Symbol → ℕ → Obj → Option Obj
check_symbols [] i obj = some obj
check_symbols (s ∷ symbols) i obj = check_symbol i s obj >>= check_symbols symbols (suc i)

-- `n` indices from `i` on.
unfoldable pub indices : ℕ → ℕ → List ℕ
indices i zero = []
indices i (suc n) = i ∷ indices (suc i) n

abbrev pub without_relrelocs : Symbol → Symbol
without_relrelocs s = record s { relrelocs = [] }

-- The new object of the last part: its symbols are the globals, without their relative uses, and
-- then the externs. The code from `code_size` on is zero.
unfoldable pub strip : Obj → Obj
strip obj = record {
  code_size = obj.code_size;
  code = λ i. if ltb i obj.code_size then obj.code i else 0;
  relocs = obj.relocs;
  globals = indices 0 (length obj.globals);
  externs = indices (length obj.globals) (length obj.externs);
  symbols =
      map (λ g. without_relrelocs (symbol_at obj.symbols g)) obj.globals
      ++ map (symbol_at obj.symbols) obj.externs;
}

unfoldable pub obj_check : Bool → Obj → Option Obj
obj_check debug_info obj = do
  filled ← check_externs obj.externs obj
  checked ← check_symbols filled.symbols 0 filled
  some (if debug_info then checked else strip checked)
