-- ===== src/Files/Tests.antt =====
-- Small files, written and read back.
use jaris.Base.{ℕ, ◌≡◌, refl, arith, [], ◌∷◌, some, none, if◌then◌else◌, ◌==◌}
use jaris.Files.Stream.{Decodes, fwrite_list}
use jaris.Files.Types.{
  Symbol, Obj, SharedObject, Exe, IsObj, IsSharedObject, IsExe, IsUnit, IsSymbol, IsReloc,
  IsDynamic, c_string,
}
use jaris.Files.Types.{RelocEntry, DynamicEntry, str_eq, symbols_list_find}
use jaris.Files.Codec.{
  obj_decode, obj_encode_file, so_decode, so_encode_file, exe_decode, exe_encode_file,
  bin_encode_file,
}
use jaris.Files.Codec.{
  bytes_of, words_encode, symbols_list_encode, relocs_encode, code_encode, string_encode,
}
use jaris.Files.RoundTrip.{
  obj_decode-obj_encode_file, so_decode-so_encode_file, exe_decode-exe_encode_file,
}

-- The label `f` at 2, used at 1.
abbrev label : Symbol
label = record { image = 102 ∷ []; pos = 2; relocs = 1 ∷ []; relrelocs = [] }

abbrev small_code : ℕ → ℕ
small_code i = if i == 0 then 25 else if i == 1 then 2 else 0

abbrev move : RelocEntry
move = record { place = 1; what = 2 }

abbrev small_obj : Obj
small_obj = record {
  code_size = 4;
  code = small_code;
  relocs = move ∷ [];
  globals = 0 ∷ [];
  externs = [];
  symbols = label ∷ [];
}

abbrev small_so : SharedObject
small_so = record {
  code_size = 4;
  code = small_code;
  relocs = move ∷ [];
  globals = 0 ∷ [];
  symbols = label ∷ [];
}

abbrev library : DynamicEntry
library = record { file_name = 1 ∷ []; relocs = move ∷ [] }

abbrev small_exe : Exe
small_exe = record {
  code_size = 4;
  code = small_code;
  relocs = move ∷ [];
  dynamics = library ∷ [];
  symbols = label ∷ [];
}

label-IsSymbol : IsSymbol label
unfolding c_string
label-IsSymbol = record {
  image_IsName = record { nonempty = omega arith; fits = omega arith; whole = refl };
  pos_lt = omega arith;
  relocs_le = omega arith;
  relocs_words = (omega arith, tt);
  relrelocs_le = omega arith;
  relrelocs_words = tt;
}

move-IsReloc : IsReloc move
move-IsReloc = record { place_lt = omega arith; what_lt = omega arith }

library-IsDynamic : IsDynamic library
unfolding c_string
library-IsDynamic = record {
  name_IsName = record { nonempty = omega arith; fits = omega arith; whole = refl };
  relocs_le = omega arith;
  relocs_IsReloc = (move-IsReloc, tt);
}

small-IsUnit : IsUnit 4 small_code (move ∷ []) (label ∷ [])
small-IsUnit = record {
  size_lt = omega arith;
  code_zero = λ i h. ground arith;
  relocs_le = omega arith;
  relocs_IsReloc = (move-IsReloc, tt);
  symbols_lt = omega arith;
  symbols_IsSymbol = (label-IsSymbol, tt);
}

small_obj-IsObj : IsObj small_obj
small_obj-IsObj = record {
  unit = small-IsUnit;
  globals_le = omega arith;
  globals_words = (omega arith, tt);
  externs_le = omega arith;
  externs_words = tt;
}

small_so-IsSharedObject : IsSharedObject small_so
small_so-IsSharedObject = record {
  unit = small-IsUnit;
  globals_le = omega arith;
  globals_words = (omega arith, tt);
}

small_exe-IsExe : IsExe small_exe
small_exe-IsExe = record {
  unit = small-IsUnit;
  dynamics_le = omega arith;
  dynamics_IsDynamic = (library-IsDynamic, tt);
}

obj_decode-obj_encode_file_example : Decodes obj_decode (obj_encode_file small_obj) small_obj
obj_decode-obj_encode_file_example = obj_decode-obj_encode_file small_obj small_obj-IsObj

so_decode-so_encode_file_example : Decodes so_decode (so_encode_file small_so) small_so
so_decode-so_encode_file_example = so_decode-so_encode_file small_so small_so-IsSharedObject

exe_decode-exe_encode_file_example : Decodes exe_decode (exe_encode_file small_exe) small_exe
exe_decode-exe_encode_file_example = exe_decode-exe_encode_file small_exe small_exe-IsExe

-- The bytes of a shared object.
so_bytes :
    so_encode_file small_so
    ≡ 83 ∷ 79 ∷ 4 ∷ 0 ∷ 25 ∷ 2 ∷ 0 ∷ 0 ∷ 1 ∷ 0 ∷ 1 ∷ 0 ∷ 2 ∷ 0 ∷ 1 ∷ 0 ∷ 0 ∷ 1 ∷ 0 ∷ 1 ∷ 102 ∷ 2 ∷ 0
      ∷ 1 ∷ 1 ∷ 0 ∷ 0 ∷ []
unfolding so_encode_file fwrite_list bytes_of words_encode symbols_list_encode relocs_encode
    code_encode string_encode
so_bytes = refl

-- A plain binary with relocations is refused.
bin_refused : bin_encode_file small_exe ≡ none
unfolding bin_encode_file
bin_refused = refl

found : symbols_list_find (label ∷ []) (102 ∷ []) ≡ some label
unfolding symbols_list_find str_eq
found = refl
