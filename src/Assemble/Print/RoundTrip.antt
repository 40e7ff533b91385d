-- ===== src/Assemble/Print/RoundTrip.antt =====
-- src/instructions.c `bytecode_to_asm` against src/assemble.c `asm_parse_bytecode`: a printed line
-- is read back as the bytecode that it was printed from.
use jaris.Base.{
  ℕ, ◌%◌, ◌<◌, ◌≡◌, refl, ap, ◌∙◌, true, false, not, ◌&&◌, List, [], ◌∷◌, ◌++◌, append_assoc,
  length, ltb, ◌==◌, All,
}
use jaris.Base.Outcome.{ok}
use jaris.Instructions.{
  Instruction, InstructionStat, instruction_stat, instruction_to_string, sv_to_instruction,
}
use jaris.Instructions.InstructionStat.{no_args, arg_8bits, arg_16bits, label_arg, rellabel_arg}
use jaris.Assemble.Bytecode.{Bytecode}
use jaris.Assemble.Bytecode.Bytecode.{
  binst, binsthex, binsthex2, binstlabel, binstrellabel, bhex, bhex2, bstring, bsetlabel, bglobal,
  bextern, balign, bdb,
}
use jaris.Files.Types.{str_eq}
use jaris.Assemble.Token.{TokenKind}
use jaris.Assemble.Token.TokenKind.{
  asmt_rel, asmt_colon, asmt_global, asmt_extern, asmt_align, asmt_db, asmt_int,
}
use jaris.Assemble.Lex.{word, lex, word_token, head_is, in_name, plain, codes, keyword}
use jaris.Assemble.Tokenizer.{asm_tokenizer_init}
use jaris.Assemble.Parse.{
  is_relative, bytecode_with_sv, parse_inst, parse_arg8, parse_arg16, arg8, but_last, unquoted,
  parse_token, asm_parse_bytecode,
}
use jaris.Assemble.Print.{is_name, all_are, mnemonic, hex2, hex4, decimal, IsLabel}
use jaris.Assemble.Print.Reads.{
  asm_token_next-token, asm_token_next-word, asm_token_next-space, lex-hex2, lex-hex4, lex-string,
}
use jaris.Assemble.Print.Decimals.{lex-decimal}
use jaris.Assemble.Print.Lines.{
  asm_token_expect-kind, asm_token_expect-space, asm_parse_bytecode-token,
  asm_parse_bytecode-mnemonic, asm_token_next-label, lex-is_name, bytecode_with_sv-label,
  parse_name-label, parse_name-space,
}

-- A text is read as a bytecode up to the newline.
abbrev pub ReadsAs : Bytecode → List ℕ → Type 0
ReadsAs bc line =
    (rest : List ℕ) (flags : ℕ)
    → asm_parse_bytecode (asm_tokenizer_init (line ++ (10 ∷ rest)) flags)
      ≡ ok (bc, asm_tokenizer_init (10 ∷ rest) flags)

head_is-++ :
    (arg rest : List ℕ) → head_is in_name arg ≡ false → head_is in_name (arg ++ (10 ∷ rest)) ≡ false
head_is-++ [] rest h = refl
head_is-++ (c ∷ arg) rest h = h

-- An instruction with an argument.
inst_reads :
    (bc : Bytecode) (i : Instruction) (stat : InstructionStat) (arg : List ℕ)
    → instruction_stat i ≡ stat
    → head_is in_name arg ≡ false
    → ((rest : List ℕ) (flags : ℕ)
        → parse_inst stat i (asm_tokenizer_init (arg ++ (10 ∷ rest)) flags)
          ≡ ok (bc, asm_tokenizer_init (10 ∷ rest) flags))
    → ReadsAs bc (mnemonic i ++ arg)
inst_reads bc i stat arg s h k rest flags = rw (append_assoc (mnemonic i) arg (10 ∷ rest)) (
    asm_parse_bytecode-mnemonic i (arg ++ (10 ∷ rest)) flags (head_is-++ arg rest h)
    ∙ rw s (k rest flags))

pub binst-reads : (i : Instruction) → instruction_stat i ≡ no_args → ReadsAs (binst i) (mnemonic i)
unfolding parse_inst
binst-reads i s rest flags = asm_parse_bytecode-mnemonic i (10 ∷ rest) flags refl ∙ rw s refl

pub binsthex-reads :
    (i : Instruction) (num : ℕ)
    → instruction_stat i ≡ arg_8bits
    → num < 256
    → (is_relative i && not (num % 2 == 0)) ≡ false
    → ReadsAs (binsthex i num) (mnemonic i ++ (32 ∷ 48 ∷ 120 ∷ hex2 num))
unfolding parse_inst parse_arg8 arg8
binsthex-reads i num s h even = inst_reads (binsthex i num) i arg_8bits _ s refl λ rest flags.
    rw
      (asm_token_next-space (48 ∷ 120 ∷ hex2 num ++ (10 ∷ rest)) flags
        ∙ asm_token_next-token _ _ _ flags (lex-hex2 num rest h))
      (rw even refl)

pub binsthex2-reads :
    (i : Instruction) (num : ℕ)
    → instruction_stat i ≡ arg_16bits
    → num < 65536
    → ReadsAs (binsthex2 i num) (mnemonic i ++ (32 ∷ 48 ∷ 120 ∷ hex4 num))
unfolding parse_inst parse_arg16
binsthex2-reads i num s h = inst_reads (binsthex2 i num) i arg_16bits _ s refl λ rest flags.
    rw
      (asm_token_next-space (48 ∷ 120 ∷ hex4 num ++ (10 ∷ rest)) flags
        ∙ asm_token_next-token _ _ _ flags (lex-hex4 num rest h))
      refl

pub label_arg-reads :
    (i : Instruction) (name : List ℕ)
    → instruction_stat i ≡ label_arg
    → IsLabel name
    → ReadsAs (binstlabel i name) (mnemonic i ++ (32 ∷ name))
unfolding parse_inst
label_arg-reads i name s l = inst_reads (binstlabel i name) i label_arg _ s refl λ rest flags.
    parse_name-space (binstlabel i) (name ++ (10 ∷ rest)) flags
    ∙ parse_name-label (binstlabel i) name (10 ∷ rest) flags l refl

pub word_arg-reads :
    (i : Instruction) (name : List ℕ)
    → instruction_stat i ≡ arg_16bits
    → IsLabel name
    → ReadsAs (binstlabel i name) (mnemonic i ++ (32 ∷ name))
unfolding parse_inst parse_arg16
word_arg-reads i name s l = inst_reads (binstlabel i name) i arg_16bits _ s refl λ rest flags.
    rw
      (asm_token_next-space (name ++ (10 ∷ rest)) flags
        ∙ asm_token_next-label name (10 ∷ rest) flags l refl)
      (rw l.not_reserved (rw (bytecode_with_sv-label (binstlabel i) name l) refl))

pub rellabel-reads :
    (i : Instruction) (name : List ℕ)
    → instruction_stat i ≡ rellabel_arg
    → IsLabel name
    → ReadsAs (binstrellabel i name) (mnemonic i ++ (32 ∷ b'$' ∷ name))
unfolding parse_inst lex
rellabel-reads i name s l = inst_reads (binstrellabel i name) i rellabel_arg _ s refl λ rest flags.
    rw
      (asm_token_expect-space asmt_rel (b'$' ∷ name ++ (10 ∷ rest)) flags
        ∙ asm_token_expect-kind asmt_rel _ _ _
            (asm_token_next-token _ (name ++ (10 ∷ rest)) (plain asmt_rel (b'$' ∷ [])) flags refl)
            refl)
      (parse_name-label (binstrellabel i) name (10 ∷ rest) flags l refl)

pub bhex-reads : (num : ℕ) → num < 256 → ReadsAs (bhex num) (48 ∷ 120 ∷ hex2 num)
unfolding parse_token
bhex-reads num h rest flags =
    asm_parse_bytecode-token _ _ _ (asm_token_next-token _ _ _ flags (lex-hex2 num rest h))

pub bhex2-reads : (num : ℕ) → num < 65536 → ReadsAs (bhex2 num) (48 ∷ 120 ∷ hex4 num)
unfolding parse_token
bhex2-reads num h rest flags =
    asm_parse_bytecode-token _ _ _ (asm_token_next-token _ _ _ flags (lex-hex4 num rest h))

but_last-++ : (string : List ℕ) (q : ℕ) → but_last (string ++ (q ∷ [])) ≡ string
unfolding but_last
but_last-++ [] q = refl
but_last-++ (c ∷ []) q = refl
but_last-++ (c ∷ d ∷ l) q = ap (λ l. c ∷ l) (but_last-++ (d ∷ l) q)

pub bstring-reads :
    (string : List ℕ)
    → All (λ c. not (c == b'"') ≡ true) string
    → ltb (length string) 128 ≡ true
    → ReadsAs (bstring string) (b'"' ∷ string ++ (b'"' ∷ []))
unfolding parse_token unquoted bytecode_with_sv
bstring-reads string h fits rest flags = rw (append_assoc string (b'"' ∷ []) (10 ∷ rest)) (
    asm_parse_bytecode-token _ _ _ (asm_token_next-token _ _ _ flags (lex-string string rest h))
    ∙ rw (but_last-++ string b'"') (rw fits refl))

pub bsetlabel-reads :
    (name : List ℕ) → IsLabel name → ReadsAs (bsetlabel name) (name ++ (b':' ∷ []))
unfolding parse_token lex
bsetlabel-reads name l rest flags =
    let colon =
      asm_token_expect-kind asmt_colon (asm_tokenizer_init (b':' ∷ 10 ∷ rest) flags)
        (asm_tokenizer_init (10 ∷ rest) flags) _
        (asm_token_next-token _ (10 ∷ rest) (plain asmt_colon (b':' ∷ [])) flags refl) refl in
    rw (append_assoc name (b':' ∷ []) (10 ∷ rest)) (
      asm_parse_bytecode-token _ _ _ (asm_token_next-label name (b':' ∷ 10 ∷ rest) flags l refl)
      ∙ rw l.not_reserved (rw colon (rw (bytecode_with_sv-label bsetlabel name l) refl)))

-- The keywords.
keyword-reads :
    (bc : Bytecode) (image arg rest : List ℕ) (kind : TokenKind) (flags : ℕ)
    → lex (image ++ (arg ++ (10 ∷ rest))) ≡ word image (arg ++ (10 ∷ rest))
    → word_token image ≡ plain kind image
    → parse_token kind (plain kind image) (asm_tokenizer_init (arg ++ (10 ∷ rest)) flags)
      ≡ ok (bc, asm_tokenizer_init (10 ∷ rest) flags)
    → asm_parse_bytecode (asm_tokenizer_init (image ++ (arg ++ (10 ∷ rest))) flags)
      ≡ ok (bc, asm_tokenizer_init (10 ∷ rest) flags)
keyword-reads bc image arg rest kind flags l w p =
    asm_parse_bytecode-token _ _ (plain kind image) (
      asm_token_next-word _ image (arg ++ (10 ∷ rest)) flags l
      ∙ ap (λ t. ok (t, asm_tokenizer_init (arg ++ (10 ∷ rest)) flags)) w)
    ∙ p

pub bglobal-reads :
    (name : List ℕ) → IsLabel name → ReadsAs (bglobal name) (codes "GLOBAL " ++ name)
unfolding parse_token word_token sv_to_instruction keyword str_eq instruction_to_string is_name
    all_are
bglobal-reads name l rest flags =
    keyword-reads (bglobal name) (codes "GLOBAL") (32 ∷ name) rest asmt_global flags
      (lex-is_name (codes "GLOBAL") _ refl refl) refl
      (parse_name-space bglobal (name ++ (10 ∷ rest)) flags
        ∙ parse_name-label bglobal name (10 ∷ rest) flags l refl)

pub bextern-reads :
    (name : List ℕ) → IsLabel name → ReadsAs (bextern name) (codes "EXTERN " ++ name)
unfolding parse_token word_token sv_to_instruction keyword str_eq instruction_to_string is_name
    all_are
bextern-reads name l rest flags =
    keyword-reads (bextern name) (codes "EXTERN") (32 ∷ name) rest asmt_extern flags
      (lex-is_name (codes "EXTERN") _ refl refl) refl
      (parse_name-space bextern (name ++ (10 ∷ rest)) flags
        ∙ parse_name-label bextern name (10 ∷ rest) flags l refl)

pub balign-reads : ReadsAs balign (codes "ALIGN")
unfolding parse_token word_token sv_to_instruction keyword str_eq instruction_to_string is_name
    all_are
balign-reads rest flags =
    keyword-reads balign (codes "ALIGN") [] rest asmt_align flags
      (lex-is_name (codes "ALIGN") _ refl refl) refl refl

pub bdb-reads : (num : ℕ) → num < 65535 → ReadsAs (bdb num) (codes "db " ++ decimal num)
unfolding parse_token word_token sv_to_instruction keyword str_eq instruction_to_string is_name
    all_are
bdb-reads num h rest flags =
    let int =
      asm_token_expect-kind asmt_int _ _ _
        (asm_token_next-token _ _ _ flags (lex-decimal num rest h)) refl in
    keyword-reads (bdb num) (codes "db") (32 ∷ decimal num) rest asmt_db flags
      (lex-is_name (codes "db") _ refl refl) refl
      (rw (asm_token_expect-space asmt_int (decimal num ++ (10 ∷ rest)) flags ∙ int) refl)
