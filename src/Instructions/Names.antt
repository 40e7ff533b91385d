-- ===== src/Instructions/Names.antt =====
-- Mnemonics are read back as the instructions that they name, and nothing else is.
use jaris.Files.Types.{str_eq, codes}
use jaris.Files.Strings.{str_eq_iff}
use jaris.Base.{ℕ, ◌≡◌, ◌↔◌, refl, some, none, Option, arith, List, [], ◌∷◌, map, if◌then◌else◌}
use jaris.Instructions.{Instruction, instruction_to_string, sv_to_instruction}
use jaris.Instructions.Instruction.{
  nop, inca, deca, incb, ram_al, ram_bl, ram_a, ram_b, incsp, decsp, pusha, popa,
}
use jaris.Instructions.Instruction.{
  peeka, peekar, pushar, pushb, popb, peekb, sum, sub, shr, shl, and, cmpa,
}
use jaris.Instructions.Instruction.{
  cmpb, jmp, jmpr, jmprz, jmprn, jmprc, jmprnz, jmprnn, jmprnc, jmpa, jmpar, a_b,
}
use jaris.Instructions.Instruction.{
  b_a, b_ah, al_rb, a_rb, rb_al, rb_a, a_sp, sp_a, a_sec, sec_a, ram_ndx, incndx,
}
use jaris.Instructions.Instruction.{
  ndx_a, a_ndx, mem_a, mem_ah, a_mem, call, callr, ret, key_a, drw, ram_drw, hlt,
}

-- Every mnemonic is read back as its own instruction.
pub sv_to_instruction-instruction_to_string :
    (i : Instruction) → sv_to_instruction (codes (instruction_to_string i)) ≡ some i
unfolding sv_to_instruction instruction_to_string str_eq
sv_to_instruction-instruction_to_string Instruction.nop = refl
sv_to_instruction-instruction_to_string _ = refl

-- The chain of comparisons, as a search of a table.
abbrev search_table : List ℕ → List (List ℕ × Instruction) → Option Instruction
search_table sv [] = none
search_table sv ((m, i) ∷ rest) = if str_eq sv m then some i else search_table sv rest

abbrev row : Instruction → List ℕ × Instruction
row i = (codes (instruction_to_string i), i)

abbrev pub all_instructions : List Instruction
all_instructions =
    nop ∷ inca ∷ deca ∷ incb ∷ ram_al ∷ ram_bl ∷ ram_a ∷ ram_b ∷ incsp ∷ decsp ∷ pusha ∷ popa
    ∷ peeka ∷ peekar ∷ pushar ∷ pushb ∷ popb ∷ peekb ∷ sum ∷ sub ∷ shr ∷ shl ∷ and ∷ cmpa ∷ cmpb
    ∷ jmp ∷ jmpr ∷ jmprz ∷ jmprn ∷ jmprc ∷ jmprnz ∷ jmprnn ∷ jmprnc ∷ jmpa ∷ jmpar ∷ a_b ∷ b_a
    ∷ b_ah ∷ al_rb ∷ a_rb ∷ rb_al ∷ rb_a ∷ a_sp ∷ sp_a ∷ a_sec ∷ sec_a ∷ ram_ndx ∷ incndx ∷ ndx_a
    ∷ a_ndx ∷ mem_a ∷ mem_ah ∷ a_mem ∷ call ∷ callr ∷ ret ∷ key_a ∷ drw ∷ ram_drw ∷ hlt ∷ []

sv_to_instruction-search_table :
    (sv : List ℕ) → sv_to_instruction sv ≡ search_table sv (map row all_instructions)
unfolding sv_to_instruction instruction_to_string
sv_to_instruction-search_table sv = refl

search_table-map-row :
    (sv : List ℕ) (l : List Instruction) (i : Instruction)
    → search_table sv (map row l) ≡ some i
    → codes (instruction_to_string i) ≡ sv
search_table-map-row sv [] i e = cc
search_table-map-row sv (j ∷ l) i e =
    ground (arith, str_eq_iff sv (codes (instruction_to_string j)), search_table-map-row sv l i)

-- A text is read as an instruction exactly when it is the instruction's mnemonic; every other text
-- is refused.
pub sv_to_instruction_iff :
    (sv : List ℕ) (i : Instruction)
    → (sv_to_instruction sv ≡ some i) ↔ (codes (instruction_to_string i) ≡ sv)
sv_to_instruction_iff sv i = (
  λ e. search_table-map-row sv all_instructions i (rw (← sv_to_instruction-search_table sv) e),
  λ e. rw (← e) (sv_to_instruction-instruction_to_string i),
)
