-- ===== src/Files/RoundTrip.antt =====
-- What the encoders of src/files.c write, the decoders read back.
use jaris.Base.{
  ℕ, zero, suc, ◌+◌, ◌^◌, ◌<◌, ◌≤◌, ◌≡◌, refl, arith, sym, ap, subst, true, not, List, [], ◌∷◌,
}
use jaris.Base.{length, All, ltb, leb, ◌==◌}
use jaris.Files.Stream.{
  Decodes, Decodes-bind, Decodes-last, Decodes-guard, Decodes-check, Decodes-u8, Decodes-u16,
  Decodes-list,
}
use jaris.Files.Stream.{
  pure, ◌>>=◌, fread_u8, fread_u16, fread_list, fwrite_u8, fwrite_u16, fwrite_list,
}
use jaris.Files.Types.{RelocEntry, DynamicEntry, Symbol, Obj, SharedObject, Exe, str_eq, c_string}
use jaris.Files.Types.{IsReloc, IsName, IsSymbol, IsDynamic, IsObj, IsSharedObject, IsExe}
use jaris.Files.Types.{
  label_max_len, file_name_max_len, symbol_max_count, reloc_max_count, intern_reloc_max_count,
}
use jaris.Files.Types.{global_max_count, extern_max_count, dynamic_max_count}
use jaris.Files.Codec.{array_of, bytes_of, string_decode, string_encode, words_decode, words_encode}
use jaris.Files.Codec.{
  symbol_decode, symbol_encode, symbols_list_decode, symbols_list_encode, magic_decode,
}
use jaris.Files.Codec.{
  obj_magic, exe_magic, so_magic, code_decode, code_encode, reloc_decode, reloc_encode,
}
use jaris.Files.Codec.{
  relocs_decode, relocs_encode, obj_decode, obj_encode_file, so_decode, so_encode_file,
}
use jaris.Files.Codec.{
  dynamic_decode, dynamic_encode, dynamics_decode, dynamics_encode, exe_decode, exe_encode_file,
}

All-map {ℓ κ μ} :
    {A : Type ℓ} (P : A → Type κ) (Q : A → Type μ) (l : List A)
    → ((a : A) → P a → Q a)
    → All P l
    → All Q l
All-map P Q [] f h = tt
All-map P Q (x ∷ xs) f h = (f x h.0, All-map P Q xs f h.1)

bytes_lem : (l : List ℕ) → Decodes (fread_list (length l) fread_u8) (fwrite_list fwrite_u8 l) l
bytes_lem l = Decodes-list fread_u8 fwrite_u8 l (all l)
  where
    all : (l : List ℕ) → All (λ x. Decodes fread_u8 (fwrite_u8 x) x) l
    all [] = tt
    all (x ∷ xs) = (Decodes-u8 x, all xs)

words_lem :
    (l : List ℕ)
    → All (λ w. w < 2 ^ 16) l
    → Decodes (fread_list (length l) fread_u16) (fwrite_list fwrite_u16 l) l
words_lem l h = Decodes-list fread_u16 fwrite_u16 l (All-map (λ w. w < 2 ^ 16) _ l Decodes-u16 h)

string_lem :
    (bound : ℕ) (s : List ℕ) → IsName bound s → Decodes (string_decode bound) (string_encode s) s
unfolding string_decode string_encode
string_lem bound s h =
    Decodes-bind fread_u8 _ (fwrite_u8 (length s)) (fwrite_list fwrite_u8 s) (length s) s
      (Decodes-u8 (length s))
      (Decodes-guard (not (length s == 0)) _ _ s (ground (arith, h.nonempty)) (
        Decodes-guard (ltb (length s) bound) _ _ s (ground (arith, h.fits)) (
          subst
            (λ t.
              Decodes (fread_list (length s) fread_u8 >>= λ bytes. pure (c_string bytes))
                (fwrite_list fwrite_u8 s) t)
            h.whole (Decodes-last _ c_string (fwrite_list fwrite_u8 s) s (bytes_lem s)))))

array_lem :
    (bound : ℕ) (l : List ℕ)
    → length l ≤ bound
    → All (λ w. w < 2 ^ 16) l
    → Decodes (words_decode bound) (words_encode l) l
unfolding words_decode words_encode
array_lem bound l h k =
    Decodes-bind fread_u8 _ (fwrite_u8 (length l)) (fwrite_list fwrite_u16 l) (length l) l
      (Decodes-u8 (length l))
      (Decodes-guard (leb (length l) bound) _ _ l (ground arith) (words_lem l k))

symbol_lem : (s : Symbol) → IsSymbol s → Decodes symbol_decode (symbol_encode s) s
symbol_lem s h =
    Decodes-bind (string_decode label_max_len) _ (string_encode s.image) _ s.image s
      (string_lem label_max_len s.image h.image_IsName)
      (Decodes-bind fread_u16 _ (fwrite_u16 s.pos) _ s.pos s (Decodes-u16 s.pos h.pos_lt) (
        Decodes-bind (words_decode intern_reloc_max_count) _ (words_encode s.relocs) _ s.relocs s
          (array_lem intern_reloc_max_count s.relocs h.relocs_le h.relocs_words)
          (Decodes-last (words_decode intern_reloc_max_count)
            (λ r. record { image = s.image; pos = s.pos; relocs = s.relocs; relrelocs = r }) _
            s.relrelocs
            (array_lem intern_reloc_max_count s.relrelocs h.relrelocs_le h.relrelocs_words))))

symbols_lem :
    (l : List Symbol)
    → length l < symbol_max_count
    → All IsSymbol l
    → Decodes (symbols_list_decode []) (symbols_list_encode l) l
unfolding symbols_list_decode symbols_list_encode
symbols_lem l h k =
    Decodes-bind fread_u16 _ (fwrite_u16 (length l)) _ (length l) l
      (Decodes-u16 (length l) (omega arith))
      (Decodes-guard (ltb (0 + length l) symbol_max_count) _ _ l (ground arith) (
        Decodes-last _ (λ (new : List Symbol). new) _ l
          (Decodes-list symbol_decode symbol_encode l (All-map IsSymbol _ l symbol_lem k))))

reloc_lem : (r : RelocEntry) → IsReloc r → Decodes reloc_decode (reloc_encode r) r
reloc_lem r h =
    Decodes-bind fread_u16 _ (fwrite_u16 r.place) _ r.place r (Decodes-u16 r.place h.place_lt) (
      Decodes-last fread_u16 (λ w. record { place = r.place; what = w }) _ r.what
        (Decodes-u16 r.what h.what_lt))

reloc_list_lem :
    (l : List RelocEntry)
    → All IsReloc l
    → Decodes (fread_list (length l) reloc_decode) (fwrite_list reloc_encode l) l
reloc_list_lem l h = Decodes-list reloc_decode reloc_encode l (All-map IsReloc _ l reloc_lem h)

relocs_lem :
    (l : List RelocEntry)
    → length l ≤ reloc_max_count
    → All IsReloc l
    → Decodes relocs_decode (relocs_encode l) l
unfolding relocs_decode relocs_encode
relocs_lem l h k =
    Decodes-bind fread_u16 _ (fwrite_u16 (length l)) _ (length l) l
      (Decodes-u16 (length l) (omega arith))
      (Decodes-guard (leb (length l) reloc_max_count) _ _ l (ground arith) (reloc_list_lem l k))

length-bytes_of : (n : ℕ) (array : ℕ → ℕ) → length (bytes_of n array) ≡ n
unfolding bytes_of
length-bytes_of zero array = refl
length-bytes_of (suc n) array = ap suc (length-bytes_of n (λ i. array (suc i)))

array_of-bytes_of :
    (n : ℕ) (array : ℕ → ℕ)
    → ((i : ℕ) → n ≤ i → array i ≡ 0)
    → (i : ℕ) → array_of (bytes_of n array) i ≡ array i
unfolding array_of bytes_of
array_of-bytes_of zero array h i = sym (h i (omega arith))
array_of-bytes_of (suc n) array h zero = refl
array_of-bytes_of (suc n) array h (suc i) =
    array_of-bytes_of n (λ j. array (suc j)) (λ j k. h (suc j) (omega arith)) i

code_lem :
    (size : ℕ) (code : ℕ → ℕ)
    → size < 2 ^ 16
    → ((i : ℕ) → size ≤ i → code i ≡ 0)
    → Decodes code_decode (code_encode size code) (size, code)
unfolding code_decode code_encode
code_lem size code h zeros =
    let l = bytes_of size code in
    let read : Decodes (fread_list size fread_u8) (fwrite_list fwrite_u8 l) l =
      subst (λ n. Decodes (fread_list n fread_u8) (fwrite_list fwrite_u8 l) l)
        (length-bytes_of size code) (bytes_lem l) in
    let back : array_of l ≡ code = λ j i. array_of-bytes_of size code zeros i j in
    Decodes-bind fread_u16 _ (fwrite_u16 size) _ size (size, code) (Decodes-u16 size h)
      (subst
        (λ (c : ℕ → ℕ).
          Decodes {A = ℕ × (ℕ → ℕ)} (fread_list size fread_u8 >>= λ b. pure (size, array_of b))
            (fwrite_list fwrite_u8 l) (size, c))
        back (Decodes-last _ (λ b. (size, array_of b)) _ l read))

magic_lem :
    (magic : List ℕ)
    → str_eq (c_string magic) magic ≡ true
    → fwrite_list fwrite_u8 magic ≡ magic
    → Decodes (magic_decode magic) magic tt
unfolding magic_decode
magic_lem magic e same =
    Decodes-check (fread_list (length magic) fread_u8) (λ found. str_eq (c_string found) magic)
      magic magic e
      (subst (λ bytes. Decodes (fread_list (length magic) fread_u8) bytes magic) same
        (bytes_lem magic))

obj_magic_lem : Decodes (magic_decode obj_magic) obj_magic tt
unfolding str_eq c_string fwrite_list
obj_magic_lem = magic_lem obj_magic refl refl

so_magic_lem : Decodes (magic_decode so_magic) so_magic tt
unfolding str_eq c_string fwrite_list
so_magic_lem = magic_lem so_magic refl refl

exe_magic_lem : Decodes (magic_decode exe_magic) exe_magic tt
unfolding str_eq c_string fwrite_list
exe_magic_lem = magic_lem exe_magic refl refl

dynamic_lem : (d : DynamicEntry) → IsDynamic d → Decodes dynamic_decode (dynamic_encode d) d
unfolding dynamic_decode dynamic_encode
dynamic_lem d h =
    Decodes-bind (string_decode file_name_max_len) _ (string_encode d.file_name) _ d.file_name d
      (string_lem file_name_max_len d.file_name h.name_IsName)
      (Decodes-bind fread_u8 _ (fwrite_u8 (length d.relocs)) _ (length d.relocs) d
        (Decodes-u8 (length d.relocs))
        (Decodes-guard (leb (length d.relocs) intern_reloc_max_count) _ _ d
          (ground (arith, h.relocs_le))
          (Decodes-last _ (λ l. record { file_name = d.file_name; relocs = l }) _ d.relocs
            (reloc_list_lem d.relocs h.relocs_IsReloc))))

dynamics_lem :
    (l : List DynamicEntry)
    → length l ≤ dynamic_max_count
    → All IsDynamic l
    → Decodes dynamics_decode (dynamics_encode l) l
unfolding dynamics_decode dynamics_encode
dynamics_lem l h k =
    Decodes-bind fread_u16 _ (fwrite_u16 (length l)) _ (length l) l
      (Decodes-u16 (length l) (omega arith))
      (Decodes-guard (leb (length l) dynamic_max_count) _ _ l (ground arith)
        (Decodes-list dynamic_decode dynamic_encode l (All-map IsDynamic _ l dynamic_lem k)))

-- An object that fits the tables is read back from its file whole, whatever follows in the file.
pub obj_decode-obj_encode_file : (o : Obj) → IsObj o → Decodes obj_decode (obj_encode_file o) o
unfolding obj_decode obj_encode_file
obj_decode-obj_encode_file o h =
    Decodes-bind (magic_decode obj_magic) _ obj_magic _ tt o obj_magic_lem (
      Decodes-bind code_decode _ (code_encode o.code_size o.code) _ (o.code_size, o.code) o
        (code_lem o.code_size o.code h.unit.size_lt h.unit.code_zero)
        (Decodes-bind relocs_decode _ (relocs_encode o.relocs) _ o.relocs o
          (relocs_lem o.relocs h.unit.relocs_le h.unit.relocs_IsReloc)
          (Decodes-bind (words_decode global_max_count) _ (words_encode o.globals) _ o.globals o
            (array_lem global_max_count o.globals h.globals_le h.globals_words)
            (Decodes-bind (words_decode extern_max_count) _ (words_encode o.externs) _ o.externs o
              (array_lem extern_max_count o.externs h.externs_le h.externs_words)
              (Decodes-last (symbols_list_decode [])
                (λ l. record {
                  code_size = o.code_size;
                  code = o.code;
                  relocs = o.relocs;
                  globals = o.globals;
                  externs = o.externs;
                  symbols = l;
                })
                _ o.symbols (symbols_lem o.symbols h.unit.symbols_lt h.unit.symbols_IsSymbol))))))

-- The same for a shared object.
pub so_decode-so_encode_file :
    (s : SharedObject) → IsSharedObject s → Decodes so_decode (so_encode_file s) s
unfolding so_decode so_encode_file
so_decode-so_encode_file s h = Decodes-bind (magic_decode so_magic) _ so_magic _ tt s so_magic_lem (
    Decodes-bind code_decode _ (code_encode s.code_size s.code) _ (s.code_size, s.code) s
      (code_lem s.code_size s.code h.unit.size_lt h.unit.code_zero)
      (Decodes-bind relocs_decode _ (relocs_encode s.relocs) _ s.relocs s
        (relocs_lem s.relocs h.unit.relocs_le h.unit.relocs_IsReloc)
        (Decodes-bind (words_decode global_max_count) _ (words_encode s.globals) _ s.globals s
          (array_lem global_max_count s.globals h.globals_le h.globals_words)
          (Decodes-last (symbols_list_decode [])
            (λ l. record {
              code_size = s.code_size;
              code = s.code;
              relocs = s.relocs;
              globals = s.globals;
              symbols = l;
            })
            _ s.symbols (symbols_lem s.symbols h.unit.symbols_lt h.unit.symbols_IsSymbol)))))

-- The same for an executable with its dynamic entries.
pub exe_decode-exe_encode_file : (e : Exe) → IsExe e → Decodes exe_decode (exe_encode_file e) e
unfolding exe_decode exe_encode_file
exe_decode-exe_encode_file e h =
    Decodes-bind (magic_decode exe_magic) _ exe_magic _ tt e exe_magic_lem (
      Decodes-bind code_decode _ (code_encode e.code_size e.code) _ (e.code_size, e.code) e
        (code_lem e.code_size e.code h.unit.size_lt h.unit.code_zero)
        (Decodes-bind relocs_decode _ (relocs_encode e.relocs) _ e.relocs e
          (relocs_lem e.relocs h.unit.relocs_le h.unit.relocs_IsReloc)
          (Decodes-bind dynamics_decode _ (dynamics_encode e.dynamics) _ e.dynamics e
            (dynamics_lem e.dynamics h.dynamics_le h.dynamics_IsDynamic)
            (Decodes-last (symbols_list_decode [])
              (λ l. record {
                code_size = e.code_size;
                code = e.code;
                relocs = e.relocs;
                dynamics = e.dynamics;
                symbols = l;
              })
              _ e.symbols (symbols_lem e.symbols h.unit.symbols_lt h.unit.symbols_IsSymbol)))))
