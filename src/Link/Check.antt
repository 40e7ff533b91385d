-- ===== src/Link/Check.antt =====
-- src/link.c `exe_state_check_exe` and `so_from_exe_state`.
use jaris.Base.{
  ℕ, ◌+◌, ◌^◌, Bool, true, false, not, ◌||◌, ◌&&◌, List, [], ◌∷◌, ◌++◌, map, length, set, ltb,
}
use jaris.Base.{Option, none, some, if◌then◌else◌, ◌==◌, ◌>>=◌, ◌>>◌, ensure, low_bits, ◌>>>◌}
use jaris.Cpu.State.{update}
use jaris.Files.Types.{
  Symbol, SharedObject, RelocEntry, DynamicEntry, no_pos, reloc_max_count, intern_reloc_max_count,
}
use jaris.Link.State.{
  SharedTable, ExeState, symbol_at, exe_state_find_global, exe_state_find_so_global,
}

-- Each use of a symbol becomes a relocation, within a table of `bound` entries.
unfoldable pub add_relocs : ℕ → ℕ → List ℕ → List RelocEntry → Option (List RelocEntry)
add_relocs bound pos [] relocs = some relocs
add_relocs bound pos (r ∷ rest) relocs = do
  ensure (ltb (length relocs + 1) bound)
  add_relocs bound pos rest (relocs ++ (record { place = r; what = pos } ∷ []))

-- The inner loop for one shared object: the externs with their `done`, and the relocations of its
-- dynamic entry, once it has one.
unfoldable pub use_so :
    List Symbol
    → SharedTable
    → List (ℕ × Bool)
    → Option (List RelocEntry)
    → Option (List (ℕ × Bool) × Option (List RelocEntry))
use_so symbols so [] de = some ([], de)
use_so symbols so ((e, done) ∷ externs) de =
    let s = symbol_at symbols e in
    let pos = exe_state_find_so_global so.globals s.image in
    if (done || not (s.pos == no_pos)) || (pos == no_pos)
    then (do (rest, de) ← use_so symbols so externs de; some ((e, done) ∷ rest, de))
    else (do
      relocs ← add_relocs intern_reloc_max_count pos s.relocs (elim de [ none ↦ [] | some l ↦ l ])
      (rest, de) ← use_so symbols so externs (some relocs)
      some ((e, true) ∷ rest, de))

-- The outer loop. A shared object that serves no symbol gets no dynamic entry.
unfoldable pub use_sos :
    List Symbol
    → List SharedTable
    → List (ℕ × Bool)
    → List DynamicEntry
    → Option (List (ℕ × Bool) × List DynamicEntry)
use_sos symbols [] externs dynamics = some (externs, dynamics)
use_sos symbols (so ∷ sos) externs dynamics = do
  (externs, de) ← use_so symbols so externs none
  use_sos symbols sos externs (elim de [
    | none ↦ dynamics
    | some l ↦ dynamics ++ (record { file_name = so.name; relocs = l } ∷ [])
  ])

-- The symbol `e` gets the position `pos`.
abbrev pub set_pos : List Symbol → ℕ → ℕ → List Symbol
set_pos symbols e pos = set symbols e (record (symbol_at symbols e) { pos = pos })

-- The externs that no shared object serves take the position of the global of their name, or else
-- the link ends with an error.
unfoldable pub resolve : List (ℕ × Bool) → ExeState → Option ExeState
resolve [] state = some state
resolve ((e, done) ∷ externs) state = if done then resolve externs state else (do
  let pos = exe_state_find_global state (symbol_at state.exe.symbols e).image
  ensure (not (pos == no_pos))
  resolve externs
      (record state { exe = record state.exe { symbols = set_pos state.exe.symbols e pos } }))

-- The uses of the externs that have a position become relocations.
unfoldable pub reloc_externs : List Symbol → List ℕ → List RelocEntry → Option (List RelocEntry)
reloc_externs symbols [] relocs = some relocs
reloc_externs symbols (e ∷ externs) relocs = do
  let s = symbol_at symbols e
  relocs ← if s.pos == no_pos then some relocs else add_relocs reloc_max_count s.pos s.relocs relocs
  reloc_externs symbols externs relocs

-- A word of the code.
abbrev pub write_word : ℕ → ℕ → (ℕ → ℕ) → ℕ → ℕ
write_word at what code =
    update (update code at (low_bits what 8)) (at + 1) (low_bits (what >>> 8) 8)

-- Every relocation is written to the code. One at the last byte is out of bounds.
unfoldable pub apply_relocs : List RelocEntry → (ℕ → ℕ) → Option (ℕ → ℕ)
apply_relocs [] code = some code
apply_relocs (r ∷ relocs) code = do
  ensure (ltb (r.place + 1) (2 ^ 16))
  apply_relocs relocs (write_word r.place r.what code)

-- The four loops of the check.
unfoldable pub serve_externs : ExeState → Option (List (ℕ × Bool) × ExeState)
serve_externs state = do
  let exe = state.exe
  (externs, dynamics) ←
      use_sos exe.symbols state.sos (map (λ e. (e, false)) state.externs) exe.dynamics
  some (externs, record state { exe = record exe { dynamics = dynamics } })

unfoldable pub relocate : ExeState → Option ExeState
relocate state = do
  relocs ← reloc_externs state.exe.symbols state.externs state.exe.relocs
  some (record state { exe = record state.exe { relocs = relocs } })

unfoldable pub patch : ExeState → Option ExeState
patch state = do
  code ← apply_relocs state.exe.relocs state.exe.code
  some (record state { exe = record state.exe { code = code } })

unfoldable pub resolve_externs : List (ℕ × Bool) × ExeState → Option ExeState
resolve_externs (externs, state) = resolve externs state

unfoldable pub exe_state_check_exe : ExeState → Option ExeState
exe_state_check_exe state = serve_externs state >>= resolve_externs >>= relocate >>= patch

-- An executable with dynamic relocations, or linked to a shared object, makes no shared object.
unfoldable pub so_from_exe_state : ExeState → Option SharedObject
so_from_exe_state state = do
  let exe = state.exe
  ensure ((length exe.dynamics == 0) && (length state.sos == 0))
  some (record {
    code_size = exe.code_size;
    code = λ i. if ltb i exe.code_size then exe.code i else 0;
    relocs = exe.relocs;
    globals = state.globals;
    symbols = exe.symbols;
  })
