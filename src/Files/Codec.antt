-- ===== src/Files/Codec.antt =====
-- The encoders and decoders of src/files.c.
use jaris.Base.{ℕ, zero, suc, ◌+◌, not, List, [], ◌∷◌, ◌++◌, length, ltb, leb, Option, none, some}
use jaris.Base.{if◌then◌else◌, ◌==◌}
use jaris.Files.Stream.{
  Decoder, pure, ◌>>=◌, ◌>>◌, guard, fread_u8, fread_u16, fread_list, fwrite_u8, fwrite_u16,
  fwrite_list,
}
use jaris.Files.Types.{RelocEntry, DynamicEntry, Symbol, Obj, SharedObject, Exe, str_eq, c_string}
use jaris.Files.Types.{
  label_max_len, file_name_max_len, symbol_max_count, reloc_max_count, intern_reloc_max_count,
}
use jaris.Files.Types.{global_max_count, extern_max_count, dynamic_max_count}

-- The array that starts with the bytes, zero behind them.
unfoldable pub array_of : List ℕ → ℕ → ℕ
array_of [] i = 0
array_of (b ∷ bytes) zero = b
array_of (b ∷ bytes) (suc i) = array_of bytes i

-- The first `n` bytes of an array.
unfoldable pub bytes_of : ℕ → (ℕ → ℕ) → List ℕ
bytes_of zero array = []
bytes_of (suc n) array = array 0 ∷ bytes_of n (λ i. array (suc i))

-- A string behind its length, read into an array of `bound` bytes. A string that leaves no room for
-- the NUL is `none`.
unfoldable pub string_decode : ℕ → Decoder (List ℕ)
string_decode bound = do
  len ← fread_u8
  guard (not (len == 0))
  guard (ltb len bound)
  bytes ← fread_list len fread_u8
  pure (c_string bytes)

unfoldable pub string_encode : List ℕ → List ℕ
string_encode s = fwrite_u8 (length s) ++ fwrite_list fwrite_u8 s

-- Words behind their number of one byte, read into an array of `bound` words.
unfoldable pub words_decode : ℕ → Decoder (List ℕ)
words_decode bound = do count ← fread_u8; guard (leb count bound); fread_list count fread_u16

unfoldable pub words_encode : List ℕ → List ℕ
words_encode l = fwrite_u8 (length l) ++ fwrite_list fwrite_u16 l

abbrev pub symbol_decode : Decoder Symbol
symbol_decode = do
  image ← string_decode label_max_len
  pos ← fread_u16
  relocs ← words_decode intern_reloc_max_count
  relrelocs ← words_decode intern_reloc_max_count
  pure (record { image = image; pos = pos; relocs = relocs; relrelocs = relrelocs })

abbrev pub symbol_encode : Symbol → List ℕ
symbol_encode s =
    string_encode s.image
    ++ (fwrite_u16 s.pos ++ (words_encode s.relocs ++ words_encode s.relrelocs))

-- The decoded symbols go behind those already there.
unfoldable pub symbols_list_decode : List Symbol → Decoder (List Symbol)
symbols_list_decode symbols = do
  n ← fread_u16
  guard (ltb (length symbols + n) symbol_max_count)
  new ← fread_list n symbol_decode
  pure (symbols ++ new)

unfoldable pub symbols_list_encode : List Symbol → List ℕ
symbols_list_encode symbols = fwrite_u16 (length symbols) ++ fwrite_list symbol_encode symbols

-- The magic number at the head of a file; another is an error.
unfoldable pub magic_decode : List ℕ → Decoder (Unit {0})
magic_decode magic = do
  found ← fread_list (length magic) fread_u8
  guard (str_eq (c_string found) magic)

abbrev pub obj_magic : List ℕ
obj_magic = 79 ∷ 66 ∷ 74 ∷ []

abbrev pub exe_magic : List ℕ
exe_magic = 69 ∷ 88 ∷ 69 ∷ []

abbrev pub so_magic : List ℕ
so_magic = 83 ∷ 79 ∷ []

-- The code behind its size.
unfoldable pub code_decode : Decoder (ℕ × (ℕ → ℕ))
code_decode = do size ← fread_u16; bytes ← fread_list size fread_u8; pure (size, array_of bytes)

unfoldable pub code_encode : ℕ → (ℕ → ℕ) → List ℕ
code_encode size code = fwrite_u16 size ++ fwrite_list fwrite_u8 (bytes_of size code)

abbrev pub reloc_decode : Decoder RelocEntry
reloc_decode = do place ← fread_u16; what ← fread_u16; pure (record { place = place; what = what })

abbrev pub reloc_encode : RelocEntry → List ℕ
reloc_encode r = fwrite_u16 r.place ++ fwrite_u16 r.what

-- The table of relocations behind its count of two bytes.
unfoldable pub relocs_decode : Decoder (List RelocEntry)
relocs_decode = do
  count ← fread_u16
  guard (leb count reloc_max_count)
  fread_list count reloc_decode

unfoldable pub relocs_encode : List RelocEntry → List ℕ
relocs_encode l = fwrite_u16 (length l) ++ fwrite_list reloc_encode l

unfoldable pub obj_decode : Decoder Obj
obj_decode = do
  magic_decode obj_magic
  code ← code_decode
  relocs ← relocs_decode
  globals ← words_decode global_max_count
  externs ← words_decode extern_max_count
  symbols ← symbols_list_decode []
  pure (record {
    code_size = code.0;
    code = code.1;
    relocs = relocs;
    globals = globals;
    externs = externs;
    symbols = symbols;
  })

unfoldable pub obj_encode_file : Obj → List ℕ
obj_encode_file o =
    obj_magic
    ++ (code_encode o.code_size o.code
        ++ (relocs_encode o.relocs
            ++ (words_encode o.globals
                ++ (words_encode o.externs ++ symbols_list_encode o.symbols))))

unfoldable pub so_decode : Decoder SharedObject
so_decode = do
  magic_decode so_magic
  code ← code_decode
  relocs ← relocs_decode
  globals ← words_decode global_max_count
  symbols ← symbols_list_decode []
  pure (record {
    code_size = code.0;
    code = code.1;
    relocs = relocs;
    globals = globals;
    symbols = symbols;
  })

unfoldable pub so_encode_file : SharedObject → List ℕ
so_encode_file s =
    so_magic
    ++ (code_encode s.code_size s.code
        ++ (relocs_encode s.relocs ++ (words_encode s.globals ++ symbols_list_encode s.symbols)))

-- A library's name and its relocations, which have a count of one byte.
unfoldable pub dynamic_decode : Decoder DynamicEntry
dynamic_decode = do
  name ← string_decode file_name_max_len
  count ← fread_u8
  guard (leb count intern_reloc_max_count)
  relocs ← fread_list count reloc_decode
  pure (record { file_name = name; relocs = relocs })

unfoldable pub dynamic_encode : DynamicEntry → List ℕ
dynamic_encode d =
    string_encode d.file_name ++ (fwrite_u8 (length d.relocs) ++ fwrite_list reloc_encode d.relocs)

unfoldable pub dynamics_decode : Decoder (List DynamicEntry)
dynamics_decode = do
  count ← fread_u16
  guard (leb count dynamic_max_count)
  fread_list count dynamic_decode

unfoldable pub dynamics_encode : List DynamicEntry → List ℕ
dynamics_encode l = fwrite_u16 (length l) ++ fwrite_list dynamic_encode l

unfoldable pub exe_decode : Decoder Exe
exe_decode = do
  magic_decode exe_magic
  code ← code_decode
  relocs ← relocs_decode
  dynamics ← dynamics_decode
  symbols ← symbols_list_decode []
  pure (record {
    code_size = code.0;
    code = code.1;
    relocs = relocs;
    dynamics = dynamics;
    symbols = symbols;
  })

unfoldable pub exe_encode_file : Exe → List ℕ
exe_encode_file e =
    exe_magic
    ++ (code_encode e.code_size e.code
        ++ (relocs_encode e.relocs
            ++ (dynamics_encode e.dynamics ++ symbols_list_encode e.symbols)))

-- Plain code. A file with relocations is refused.
unfoldable pub bin_encode_file : Exe → Option (List ℕ)
bin_encode_file e =
    if length e.relocs == 0
    then some (fwrite_list fwrite_u8 (bytes_of e.code_size e.code))
    else none
