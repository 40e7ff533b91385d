-- ===== src/Rom/Program/Control.antt =====
-- src/runtime.c `set_control_rom`: jumps, conditional jumps and register moves.
use jaris.Base.{List, [], ◌∷◌, true, false}
use jaris.Instructions.Instruction.{
  a_b, a_rb, a_sp, al_rb, b_a, b_ah, jmp, jmpa, jmpar, jmpr, jmprc, jmprn,
}
use jaris.Instructions.Instruction.{jmprnc, jmprnn, jmprnz, jmprz, rb_a, rb_al, sp_a}
use jaris.Microcode.MicrocodeFlag.{ahi, ai, aluo, ao, bi, bo, ipi, ipo, ipp, mari, ram, ram16}
use jaris.Microcode.MicrocodeFlag.{ramo, scr, spi, spo, xi, yi}
use jaris.Microcode.{micro, ◌<|>◌}
use jaris.Rom.Calls.{RomCall, allflag, someflag}

unfoldable pub jump_calls : List RomCall
unfolding micro
jump_calls =
    allflag jmp 2 (micro ipo <|> micro mari)
    ∷ allflag jmp 3 (micro ram <|> micro ramo <|> micro ram16 <|> micro ipi)
    ∷ allflag jmp 4 (micro scr)
    ∷ allflag jmpr 2 (micro ipo <|> micro mari <|> micro yi)
    ∷ allflag jmpr 3 (micro ram <|> micro ramo <|> micro ram16 <|> micro xi)
    ∷ allflag jmpr 4 (micro aluo <|> micro ipi)
    ∷ allflag jmpr 5 (micro scr)
    ∷ []

unfoldable pub branch_calls : List RomCall
unfolding micro
branch_calls =
    allflag jmprz 2 (micro ipp)
    ∷ allflag jmprz 3 (micro ipp)
    ∷ allflag jmprz 4 (micro scr)
    ∷ someflag jmprz 2 0b001 false (micro ipo <|> micro mari <|> micro yi)
    ∷ someflag jmprz 3 0b001 false (micro ram <|> micro ramo <|> micro ram16 <|> micro xi)
    ∷ someflag jmprz 4 0b001 false (micro aluo <|> micro ipi)
    ∷ someflag jmprz 5 0b001 false (micro scr)
    ∷ allflag jmprn 2 (micro ipp)
    ∷ allflag jmprn 3 (micro ipp)
    ∷ allflag jmprn 4 (micro scr)
    ∷ someflag jmprn 2 0b010 false (micro ipo <|> micro mari <|> micro yi)
    ∷ someflag jmprn 3 0b010 false (micro ram <|> micro ramo <|> micro ram16 <|> micro xi)
    ∷ someflag jmprn 4 0b010 false (micro aluo <|> micro ipi)
    ∷ someflag jmprn 5 0b010 false (micro scr)
    ∷ allflag jmprc 2 (micro ipp)
    ∷ allflag jmprc 3 (micro ipp)
    ∷ allflag jmprc 4 (micro scr)
    ∷ someflag jmprc 2 0b100 false (micro ipo <|> micro mari <|> micro yi)
    ∷ someflag jmprc 3 0b100 false (micro ram <|> micro ramo <|> micro ram16 <|> micro xi)
    ∷ someflag jmprc 4 0b100 false (micro aluo <|> micro ipi)
    ∷ someflag jmprc 5 0b100 false (micro scr)
    ∷ allflag jmprnz 2 (micro ipp)
    ∷ allflag jmprnz 3 (micro ipp)
    ∷ allflag jmprnz 4 (micro scr)
    ∷ someflag jmprnz 2 0b001 true (micro ipo <|> micro mari <|> micro yi)
    ∷ someflag jmprnz 3 0b001 true (micro ram <|> micro ramo <|> micro ram16 <|> micro xi)
    ∷ someflag jmprnz 4 0b001 true (micro aluo <|> micro ipi)
    ∷ someflag jmprnz 5 0b001 true (micro scr)
    ∷ allflag jmprnn 2 (micro ipp)
    ∷ allflag jmprnn 3 (micro ipp)
    ∷ allflag jmprnn 4 (micro scr)
    ∷ someflag jmprnn 2 0b010 true (micro ipo <|> micro mari <|> micro yi)
    ∷ someflag jmprnn 3 0b010 true (micro ram <|> micro ramo <|> micro ram16 <|> micro xi)
    ∷ someflag jmprnn 4 0b010 true (micro aluo <|> micro ipi)
    ∷ someflag jmprnn 5 0b010 true (micro scr)
    ∷ allflag jmprnc 2 (micro ipp)
    ∷ allflag jmprnc 3 (micro ipp)
    ∷ allflag jmprnc 4 (micro scr)
    ∷ someflag jmprnc 2 0b100 true (micro ipo <|> micro mari <|> micro yi)
    ∷ someflag jmprnc 3 0b100 true (micro ram <|> micro ramo <|> micro ram16 <|> micro xi)
    ∷ someflag jmprnc 4 0b100 true (micro aluo <|> micro ipi)
    ∷ someflag jmprnc 5 0b100 true (micro scr)
    ∷ []

unfoldable pub move_calls : List RomCall
unfolding micro
move_calls =
    allflag jmpa 2 (micro ao <|> micro ipi)
    ∷ allflag jmpa 3 (micro scr)
    ∷ allflag jmpar 2 (micro ipo <|> micro mari <|> micro yi)
    ∷ allflag jmpar 3 (micro ao <|> micro xi)
    ∷ allflag jmpar 4 (micro aluo <|> micro ipi)
    ∷ allflag jmpar 5 (micro scr)
    ∷ allflag a_b 2 (micro ao <|> micro bi)
    ∷ allflag a_b 3 (micro scr)
    ∷ allflag b_a 2 (micro bo <|> micro ai)
    ∷ allflag b_a 3 (micro scr)
    ∷ allflag b_ah 2 (micro bo <|> micro ahi)
    ∷ allflag b_ah 3 (micro scr)
    ∷ allflag al_rb 2 (micro bo <|> micro mari)
    ∷ allflag al_rb 3 (micro ao <|> micro ram)
    ∷ allflag al_rb 4 (micro scr)
    ∷ allflag a_rb 2 (micro bo <|> micro mari)
    ∷ allflag a_rb 3 (micro ao <|> micro ram <|> micro ram16)
    ∷ allflag a_rb 4 (micro scr)
    ∷ allflag rb_al 2 (micro bo <|> micro mari)
    ∷ allflag rb_al 3 (micro ram <|> micro ramo <|> micro ai)
    ∷ allflag rb_al 4 (micro scr)
    ∷ allflag rb_a 2 (micro bo <|> micro mari)
    ∷ allflag rb_a 3 (micro ram <|> micro ramo <|> micro ram16 <|> micro ai)
    ∷ allflag rb_a 4 (micro scr)
    ∷ allflag a_sp 2 (micro ao <|> micro spi)
    ∷ allflag a_sp 3 (micro scr)
    ∷ allflag sp_a 2 (micro spo <|> micro ai)
    ∷ allflag sp_a 3 (micro scr)
    ∷ []
