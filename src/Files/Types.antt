-- ===== src/Files/Types.antt =====
-- The records of src/files.h. A C string is the bytes before its NUL, an array with a count is the
-- list of its counted elements, and the code, of 65536 bytes, is a function from its index.
use jaris.Base.{ℕ, ◌^◌, ◌<◌, ◌≤◌, ◌≡◌, Bool, true, false, ◌&&◌, List, [], ◌∷◌, length, All}
use jaris.Base.{if◌then◌else◌, ◌==◌, Option, none, some}
use Prim.Native.Char.{code}
use Prim.Native.String.{String}

abbrev pub label_max_len : ℕ
label_max_len = 128

abbrev pub file_name_max_len : ℕ
file_name_max_len = 64

abbrev pub symbol_max_count : ℕ
symbol_max_count = 128

abbrev pub reloc_max_count : ℕ
reloc_max_count = 128

abbrev pub intern_reloc_max_count : ℕ
intern_reloc_max_count = 128

abbrev pub global_max_count : ℕ
global_max_count = 64

abbrev pub extern_max_count : ℕ
extern_max_count = 32

abbrev pub dynamic_max_count : ℕ
dynamic_max_count = 2

-- The position of a symbol that has none yet.
abbrev pub no_pos : ℕ
no_pos = 0xffff

-- The word at `place` of the code is to be `what`, moved with the code.
pub record RelocEntry : Type 0 where
  pub place : ℕ
  pub what : ℕ

pub record DynamicEntry : Type 0 where
  pub file_name : List ℕ
  pub relocs : List RelocEntry

pub record Symbol : Type 0 where
  pub image : List ℕ
  pub pos : ℕ
  pub relocs : List ℕ
  pub relrelocs : List ℕ

pub record Obj : Type 0 where
  pub code_size : ℕ
  pub code : ℕ → ℕ
  pub relocs : List RelocEntry
  pub globals : List ℕ
  pub externs : List ℕ
  pub symbols : List Symbol

pub record SharedObject : Type 0 where
  pub code_size : ℕ
  pub code : ℕ → ℕ
  pub relocs : List RelocEntry
  pub globals : List ℕ
  pub symbols : List Symbol

pub record Exe : Type 0 where
  pub code_size : ℕ
  pub code : ℕ → ℕ
  pub relocs : List RelocEntry
  pub dynamics : List DynamicEntry
  pub symbols : List Symbol

-- `strcmp(a, b) == 0`
unfoldable pub str_eq : List ℕ → List ℕ → Bool
str_eq [] [] = true
str_eq [] (y ∷ ys) = false
str_eq (x ∷ xs) [] = false
str_eq (x ∷ xs) (y ∷ ys) = (x == y) && str_eq xs ys

-- The code points of a literal.
abbrev pub codes : String → List ℕ
codes String.[] = []
codes (String.◌∷◌ c s) = code c ∷ codes s

-- The C string in an array.
unfoldable pub c_string : List ℕ → List ℕ
c_string [] = []
c_string (b ∷ bytes) = if b == 0 then [] else b ∷ c_string bytes

unfoldable pub symbols_list_find : List Symbol → List ℕ → Option Symbol
symbols_list_find [] image = none
symbols_list_find (s ∷ symbols) image =
    if str_eq s.image image then some s else symbols_list_find symbols image

pub record IsReloc (r : RelocEntry) : Type 0 where
  pub place_lt : r.place < 2 ^ 16
  pub what_lt : r.what < 2 ^ 16

-- A string that an array of `bound` bytes holds, not empty.
pub record IsName (bound : ℕ) (name : List ℕ) : Type 0 where
  pub nonempty : 0 < length name
  pub fits : length name < bound
  pub whole : c_string name ≡ name

pub record IsSymbol (s : Symbol) : Type 0 where
  pub image_IsName : IsName label_max_len s.image
  pub pos_lt : s.pos < 2 ^ 16
  pub relocs_le : length s.relocs ≤ intern_reloc_max_count
  pub relocs_words : All (λ r. r < 2 ^ 16) s.relocs
  pub relrelocs_le : length s.relrelocs ≤ intern_reloc_max_count
  pub relrelocs_words : All (λ r. r < 2 ^ 16) s.relrelocs

pub record IsDynamic (d : DynamicEntry) : Type 0 where
  pub name_IsName : IsName file_name_max_len d.file_name
  pub relocs_le : length d.relocs ≤ intern_reloc_max_count
  pub relocs_IsReloc : All IsReloc d.relocs

-- What obj, so and exe share: the code is zero from `code_size` on, and the tables fit.
pub record IsUnit (code_size : ℕ) (code : ℕ → ℕ) (relocs : List RelocEntry) (symbols : List Symbol)
    : Type 0 where
  pub size_lt : code_size < 2 ^ 16
  pub code_zero : (i : ℕ) → code_size ≤ i → code i ≡ 0
  pub relocs_le : length relocs ≤ reloc_max_count
  pub relocs_IsReloc : All IsReloc relocs
  pub symbols_lt : length symbols < symbol_max_count
  pub symbols_IsSymbol : All IsSymbol symbols

pub record IsObj (o : Obj) : Type 0 where
  pub unit : IsUnit o.code_size o.code o.relocs o.symbols
  pub globals_le : length o.globals ≤ global_max_count
  pub globals_words : All (λ g. g < 2 ^ 16) o.globals
  pub externs_le : length o.externs ≤ extern_max_count
  pub externs_words : All (λ e. e < 2 ^ 16) o.externs

pub record IsSharedObject (s : SharedObject) : Type 0 where
  pub unit : IsUnit s.code_size s.code s.relocs s.symbols
  pub globals_le : length s.globals ≤ global_max_count
  pub globals_words : All (λ g. g < 2 ^ 16) s.globals

pub record IsExe (e : Exe) : Type 0 where
  pub unit : IsUnit e.code_size e.code e.relocs e.symbols
  pub dynamics_le : length e.dynamics ≤ dynamic_max_count
  pub dynamics_IsDynamic : All IsDynamic e.dynamics
