-- ===== src/Files/KindTests.antt =====
-- The kinds of files at a name without an extension.
use jaris.Base.{ℕ, ◌≡◌, refl, List, Option, none, some}
use jaris.Assemble.Lex.{codes}
use jaris.Assemble.Object.{no_obj}
use jaris.Files.Types.{str_eq}
use jaris.Files.Kinds.{
  f_so, f_obj, file_kind_to_string, parse_argument_file_kind,
  parse_argument_file_kind-file_kind_to_string,
}
use jaris.Files.Kinds.{
  has_extension, file_deduce_kind, obj_file, encoded, encoded_kind, IsPlain,
  file_deduce_kind-encoded,
}

parse_argument_file_kind-file_kind_to_string_example :
    parse_argument_file_kind (codes "--so") ≡ f_so
unfolding file_kind_to_string
parse_argument_file_kind-file_kind_to_string_example =
    parse_argument_file_kind-file_kind_to_string f_so (λ e. cc)

abbrev files : List ℕ → Option (List ℕ)
files name = some (encoded (obj_file no_obj))

out_name-IsPlain : IsPlain (codes "a.out")
unfolding has_extension str_eq
out_name-IsPlain = record {
  not_stdin = refl;
  no_asm = refl;
  no_o = refl;
  no_exe = refl;
  no_so = refl;
  no_font = refl;
}

file_deduce_kind-encoded_example : file_deduce_kind files (codes "a.out") ≡ some f_obj
unfolding encoded_kind
file_deduce_kind-encoded_example =
    file_deduce_kind-encoded files (codes "a.out") (obj_file no_obj) out_name-IsPlain refl

-- A name of an object of three characters is read before its start.
short_name : file_deduce_kind files (codes "a.o") ≡ none
unfolding file_deduce_kind has_extension str_eq
short_name = refl
