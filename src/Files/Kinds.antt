-- ===== src/Files/Kinds.antt =====
-- src/files.c `file_kind_to_string`, `parse_argument_file_kind` and `file_deduce_kind`. What `fopen`
-- finds at a name is the parameter `files`; a name that is shorter than an extension is read before
-- its start, and is `none`.
use jaris.Base.{
  ℕ, ◌-◌, ◌≤◌, ◌≡◌, ◌≢◌, refl, arith, Bool, true, false, List, ◌∷◌, ◌++◌, length, length-append,
  drop, take, leb, Option, none, some, ◌>>=◌, ◌>>◌, ensure, if◌then◌else◌,
}
use jaris.Assemble.Lex.{codes}
use jaris.Files.Types.{str_eq, Obj, SharedObject, Exe}
use jaris.Files.Codec.{
  obj_encode_file, so_encode_file, exe_encode_file, code_encode, relocs_encode, words_encode,
  symbols_list_encode, bytes_of,
}
use jaris.Files.Stream.{fwrite_list, fwrite_u8}

pub data FileKind : Type 0 where
  f_none f_asm f_obj f_exe f_so f_mem f_bin f_font : FileKind

unfoldable pub file_kind_to_string : FileKind → List ℕ
file_kind_to_string f_none = codes "none"
file_kind_to_string f_asm = codes "asm"
file_kind_to_string f_obj = codes "obj"
file_kind_to_string f_exe = codes "exe"
file_kind_to_string f_so = codes "so"
file_kind_to_string f_mem = codes "mem"
file_kind_to_string f_bin = codes "bin"
file_kind_to_string f_font = codes "font"

unfoldable pub parse_argument_file_kind : List ℕ → FileKind
parse_argument_file_kind arg =
    if str_eq (codes "--asm") arg
    then f_asm
    else if str_eq (codes "--obj") arg
    then f_obj
    else if str_eq (codes "--exe") arg
    then f_exe
    else if str_eq (codes "--so") arg
    then f_so
    else if str_eq (codes "--mem") arg
    then f_mem
    else if str_eq (codes "--bin") arg
    then f_bin
    else if str_eq (codes "--font") arg
    then f_font
    else f_none

-- `strcmp(filename + len - n, extension) == 0`
unfoldable pub has_extension : List ℕ → List ℕ → Option Bool
has_extension filename extension =
    ensure (leb (length extension) (length filename))
    >> some (str_eq (drop (length filename - length extension) filename) extension)

-- The kind when the test holds, or else what follows.
abbrev pub kind_if : FileKind → Option FileKind → Bool → Option FileKind
kind_if kind later b = if b then some kind else later

unfoldable pub magic_is : List ℕ → List ℕ → Bool
magic_is magic bytes = str_eq (take (length magic) bytes) magic

unfoldable pub magic_kind : List ℕ → Option FileKind
magic_kind bytes =
    if magic_is (codes "EXE") bytes
    then some f_exe
    else if magic_is (codes "OBJ") bytes
    then some f_obj
    else if magic_is (codes "SO") bytes
    then some f_so
    else if magic_is (codes "FONT") bytes
    then some f_font
    else none

-- The first five bytes of a file tell its kind.
unfoldable pub content_kind : (List ℕ → Option (List ℕ)) → List ℕ → Option FileKind
content_kind files filename = do
  bytes ← files filename
  ensure (leb 5 (length bytes))
  magic_kind (take 5 bytes)

unfoldable pub file_deduce_kind : (List ℕ → Option (List ℕ)) → List ℕ → Option FileKind
file_deduce_kind files name =
    let content = content_kind files name in
    let font = has_extension name (codes ".font") >>= kind_if f_font content in
    let so = has_extension name (codes ".so") >>= kind_if f_so font in
    let exe = has_extension name (codes ".exe") >>= kind_if f_exe so in
    let obj = has_extension name (codes ".o") >>= kind_if f_obj exe in
    let asm = has_extension name (codes ".asm") >>= kind_if f_asm obj in
    if str_eq name (codes "-") then none else asm

-- The option of a kind, `--` and its name, is parsed as that kind.
pub parse_argument_file_kind-file_kind_to_string :
    (kind : FileKind)
    → kind ≢ f_none
    → parse_argument_file_kind (b'-' ∷ b'-' ∷ file_kind_to_string kind) ≡ kind
unfolding parse_argument_file_kind file_kind_to_string str_eq
parse_argument_file_kind-file_kind_to_string f_none h = absurd (h refl)
parse_argument_file_kind-file_kind_to_string _ h = refl

-- A file that one of the encoders writes, its bytes and its kind.
pub data Encodable : Type 0 where
  obj_file : Obj → Encodable
  so_file : SharedObject → Encodable
  exe_file : Exe → Encodable

unfoldable pub encoded : Encodable → List ℕ
encoded (obj_file o) = obj_encode_file o
encoded (so_file s) = so_encode_file s
encoded (exe_file e) = exe_encode_file e

unfoldable pub encoded_kind : Encodable → FileKind
encoded_kind (obj_file o) = f_obj
encoded_kind (so_file s) = f_so
encoded_kind (exe_file e) = f_exe

-- A name of five characters or more that ends in no extension of a kind.
pub record IsPlain (name : List ℕ) : Type 0 where
  pub not_stdin : str_eq name (codes "-") ≡ false
  pub no_asm : has_extension name (codes ".asm") ≡ some false
  pub no_o : has_extension name (codes ".o") ≡ some false
  pub no_exe : has_extension name (codes ".exe") ≡ some false
  pub no_so : has_extension name (codes ".so") ≡ some false
  pub no_font : has_extension name (codes ".font") ≡ some false

leb-true : (a b : ℕ) → a ≤ b → leb a b ≡ true
leb-true a b h = ground arith

-- The first bytes of what the encoders write.
first_bytes :
    (f : Encodable)
    → (leb 5 (length (encoded f)) ≡ true)
      × (magic_kind (take 5 (encoded f)) ≡ some (encoded_kind f))
unfolding encoded encoded_kind obj_encode_file so_encode_file exe_encode_file code_encode
    relocs_encode magic_kind magic_is str_eq
first_bytes (obj_file o) = (ground arith, refl)
first_bytes (so_file s) =
    let tail =
      relocs_encode s.relocs ++ (words_encode s.globals ++ symbols_list_encode s.symbols) in
    let code = fwrite_list fwrite_u8 (bytes_of s.code_size s.code) in
    let some_left : 1 ≤ length tail = omega arith in
    (
      leb-true 5 (length (encoded (so_file s))) (omega (arith, length-append code tail, some_left)),
      refl,
    )
first_bytes (exe_file e) = (ground arith, refl)

content_kind-encoded :
    (files : List ℕ → Option (List ℕ)) (name : List ℕ) (f : Encodable)
    → files name ≡ some (encoded f)
    → content_kind files name ≡ some (encoded_kind f)
unfolding content_kind
content_kind-encoded files name f e = rw e (rw (first_bytes f).0 (first_bytes f).1)

-- A file that was written by an encoder, under a name of at least five characters that ends in no
-- extension of a kind and is not "-", is deduced to be of the kind that it was written as.
pub file_deduce_kind-encoded :
    (files : List ℕ → Option (List ℕ)) (name : List ℕ) (f : Encodable)
    → IsPlain name
    → files name ≡ some (encoded f)
    → file_deduce_kind files name ≡ some (encoded_kind f)
unfolding file_deduce_kind
file_deduce_kind-encoded files name f p e = rw p.not_stdin (
    rw p.no_asm
      (rw p.no_o (rw p.no_exe (rw p.no_so (rw p.no_font (content_kind-encoded files name f e))))))
