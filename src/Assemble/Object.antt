-- ===== src/Assemble/Object.antt =====
-- src/assemble.c: bytes and symbols added to an object. A failed assertion and an `eprintf`, which
-- ends the program, are `none`. The code size is a word, so it wraps at 65536.
use jaris.Base.{ℕ, ◌+◌, List, [], ◌∷◌, ◌++◌, length, set, ltb, ◌==◌, u8, u16, low_bits, ◌>>>◌}
use jaris.Base.{Option, none, some, ◌>>=◌, ◌>>◌, ensure}
use jaris.Cpu.State.{update}
use jaris.Files.Types.{Obj, no_pos, symbol_max_count, intern_reloc_max_count}
use jaris.Link.State.{symbol_at, find_symbol}

-- `(obj_t){0}`
abbrev pub no_obj : Obj
no_obj = record {
  code_size = 0;
  code = λ i. 0;
  relocs = [];
  globals = [];
  externs = [];
  symbols = [];
}

-- `obj->code[obj->code_size++] = v`
unfoldable pub emit : ℕ → Obj → Obj
emit v obj = record obj {
  code = update obj.code obj.code_size (u8 v);
  code_size = u16 (obj.code_size + 1);
}

-- `obj->code_size += n`
unfoldable pub skip : ℕ → Obj → Obj
skip n obj = record obj { code_size = u16 (obj.code_size + n) }

unfoldable pub obj_add_hex2 : ℕ → Obj → Obj
obj_add_hex2 num obj = emit (low_bits (num >>> 8) 8) (emit (low_bits num 8) obj)

-- The index of the symbol of that name.
unfoldable pub obj_find_symbol : Obj → List ℕ → Option ℕ
obj_find_symbol obj name = find_symbol obj.symbols name

-- A symbol that is there gets the position, if it has none yet.
unfoldable pub place_symbol : ℕ → ℕ → Obj → Option (ℕ × Obj)
place_symbol index pos obj = do
  let s = symbol_at obj.symbols index
  ensure (s.pos == no_pos)
  some (index, record obj { symbols = set obj.symbols index (record s { pos = pos }) })

unfoldable pub new_symbol : List ℕ → ℕ → Obj → Option (ℕ × Obj)
new_symbol name pos obj = do
  ensure (ltb (length obj.symbols + 1) symbol_max_count)
  some (
    length obj.symbols,
    record obj {
      symbols =
          obj.symbols ++ (record { image = name; pos = pos; relocs = []; relrelocs = [] } ∷ []);
    },
  )

unfoldable pub obj_add_symbol : List ℕ → ℕ → Obj → Option (ℕ × Obj)
obj_add_symbol name pos obj = elim (find_symbol obj.symbols name) [
  | none ↦ new_symbol name pos obj
  | some index ↦ place_symbol index pos obj
]

-- The symbol of that name, which is added if it is not there.
unfoldable pub find_or_add : List ℕ → Obj → Option (ℕ × Obj)
find_or_add name obj = elim (obj_find_symbol obj name) [
  | none ↦ obj_add_symbol name no_pos obj
  | some index ↦ some (index, obj)
]

-- `place` is one more use of the symbol at `index`.
unfoldable pub add_reloc : ℕ → ℕ × Obj → Option Obj
add_reloc place (index, obj) = do
  let s = symbol_at obj.symbols index
  ensure (ltb (length s.relocs + 1) intern_reloc_max_count)
  some (record obj {
    symbols = set obj.symbols index (record s { relocs = s.relocs ++ (place ∷ []) });
  })

unfoldable pub add_relreloc : ℕ → ℕ × Obj → Option Obj
add_relreloc place (index, obj) = do
  let s = symbol_at obj.symbols index
  ensure (ltb (length s.relrelocs + 1) intern_reloc_max_count)
  some (record obj {
    symbols = set obj.symbols index (record s { relrelocs = s.relrelocs ++ (place ∷ []) });
  })

unfoldable pub obj_add_symbol_reloc : List ℕ → ℕ → Obj → Option Obj
obj_add_symbol_reloc name place obj = find_or_add name obj >>= add_reloc place

unfoldable pub obj_add_symbol_relreloc : List ℕ → ℕ → Obj → Option Obj
obj_add_symbol_relreloc name place obj = find_or_add name obj >>= add_relreloc place
