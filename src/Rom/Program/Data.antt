-- ===== src/Rom/Program/Data.antt =====
-- src/runtime.c `set_control_rom`: increments, immediate loads, the stack and the ALU.
use jaris.Base.{List, [], ◌∷◌}
use jaris.Instructions.Instruction.{
  and, cmpa, cmpb, deca, decsp, inca, incb, incsp, nop, peeka, peekar, peekb,
}
use jaris.Instructions.Instruction.{
  popa, popb, pusha, pushar, pushb, ram_a, ram_al, ram_b, ram_bl, shl, shr, sub,
}
use jaris.Instructions.Instruction.{sum}
use jaris.Microcode.MicrocodeFlag.{
  ai, alu_and, alu_shr, alu_sub, aluo, ao, bi, bo, ci, ipo, ipp, mari,
}
use jaris.Microcode.MicrocodeFlag.{ram, ram16, ramo, scr, spm, spo, spu, xi, yi}
use jaris.Microcode.{micro, ◌<|>◌}
use jaris.Rom.Calls.{RomCall, allflag}

unfoldable pub basic_calls : List RomCall
unfolding micro
basic_calls =
    allflag nop 2 (micro scr)
    ∷ allflag inca 2 (micro ao <|> micro yi)
    ∷ allflag inca 3 (micro xi)
    ∷ allflag inca 4 (micro ci <|> micro aluo <|> micro ai)
    ∷ allflag inca 5 (micro scr)
    ∷ allflag deca 2 (micro ao <|> micro yi)
    ∷ allflag deca 3 (micro xi)
    ∷ allflag deca 4 (micro alu_sub <|> micro aluo <|> micro ai)
    ∷ allflag deca 5 (micro scr)
    ∷ allflag incb 2 (micro bo <|> micro yi)
    ∷ allflag incb 3 (micro xi)
    ∷ allflag incb 4 (micro ci <|> micro aluo <|> micro bi)
    ∷ allflag incb 5 (micro scr)
    ∷ allflag ram_al 2 (micro ipo <|> micro mari)
    ∷ allflag ram_al 3 (micro ram <|> micro ramo <|> micro ai <|> micro ipp)
    ∷ allflag ram_al 4 (micro scr)
    ∷ allflag ram_bl 2 (micro ipo <|> micro mari)
    ∷ allflag ram_bl 3 (micro ram <|> micro ramo <|> micro bi <|> micro ipp)
    ∷ allflag ram_bl 4 (micro scr)
    ∷ allflag ram_a 2 (micro ipo <|> micro mari)
    ∷ allflag ram_a 3 (micro ram <|> micro ramo <|> micro ram16 <|> micro ai <|> micro ipp)
    ∷ allflag ram_a 4 (micro ipp)
    ∷ allflag ram_a 5 (micro scr)
    ∷ allflag ram_b 2 (micro ipo <|> micro mari)
    ∷ allflag ram_b 3 (micro ram <|> micro ramo <|> micro ram16 <|> micro bi <|> micro ipp)
    ∷ allflag ram_b 4 (micro ipp)
    ∷ allflag ram_b 5 (micro scr)
    ∷ []

unfoldable pub stack_calls : List RomCall
unfolding micro
stack_calls =
    allflag incsp 2 (micro spu)
    ∷ allflag incsp 3 (micro scr)
    ∷ allflag decsp 2 (micro spu <|> micro spm)
    ∷ allflag decsp 3 (micro scr)
    ∷ allflag pusha 2 (micro spo <|> micro mari)
    ∷ allflag pusha 3 (micro ao <|> micro ram <|> micro ram16 <|> micro spu <|> micro spm)
    ∷ allflag pusha 4 (micro scr)
    ∷ allflag popa 2 (micro spu)
    ∷ allflag popa 3 (micro spo <|> micro mari)
    ∷ allflag popa 4 (micro ram <|> micro ram16 <|> micro ramo <|> micro ai)
    ∷ allflag popa 5 (micro scr)
    ∷ allflag peeka 2 (micro spu)
    ∷ allflag peeka 3 (micro spo <|> micro mari)
    ∷ allflag peeka 4
        (micro ram <|> micro ramo <|> micro ram16 <|> micro ai <|> micro spu <|> micro spm)
    ∷ allflag peeka 5 (micro scr)
    ∷ allflag peekar 2 (micro ipo <|> micro mari)
    ∷ allflag peekar 3 (micro ram <|> micro ramo <|> micro yi <|> micro ipp)
    ∷ allflag peekar 4 (micro spo <|> micro xi)
    ∷ allflag peekar 5 (micro aluo <|> micro mari)
    ∷ allflag peekar 6 (micro ram <|> micro ramo <|> micro ram16 <|> micro ai)
    ∷ allflag peekar 7 (micro scr)
    ∷ allflag pushar 2 (micro ipo <|> micro mari)
    ∷ allflag pushar 3 (micro ram <|> micro ramo <|> micro yi <|> micro ipp)
    ∷ allflag pushar 4 (micro spo <|> micro xi)
    ∷ allflag pushar 5 (micro aluo <|> micro mari)
    ∷ allflag pushar 6 (micro ao <|> micro ram <|> micro ram16)
    ∷ allflag pushar 7 (micro scr)
    ∷ allflag pushb 2 (micro spo <|> micro mari)
    ∷ allflag pushb 3 (micro bo <|> micro ram <|> micro ram16 <|> micro spu <|> micro spm)
    ∷ allflag pushb 4 (micro scr)
    ∷ allflag popb 2 (micro spu)
    ∷ allflag popb 3 (micro spo <|> micro mari)
    ∷ allflag popb 4 (micro ram <|> micro ram16 <|> micro ramo <|> micro bi)
    ∷ allflag popb 5 (micro scr)
    ∷ allflag peekb 2 (micro spu)
    ∷ allflag peekb 3 (micro spo <|> micro mari)
    ∷ allflag peekb 4
        (micro ram <|> micro ramo <|> micro ram16 <|> micro bi <|> micro spu <|> micro spm)
    ∷ allflag peekb 5 (micro scr)
    ∷ []

unfoldable pub alu_calls : List RomCall
unfolding micro
alu_calls =
    allflag sum 2 (micro ao <|> micro xi)
    ∷ allflag sum 3 (micro bo <|> micro yi)
    ∷ allflag sum 4 (micro aluo <|> micro ai)
    ∷ allflag sum 5 (micro scr)
    ∷ allflag sub 2 (micro ao <|> micro xi)
    ∷ allflag sub 3 (micro bo <|> micro yi)
    ∷ allflag sub 4 (micro aluo <|> micro ci <|> micro alu_sub <|> micro ai)
    ∷ allflag sub 5 (micro scr)
    ∷ allflag shl 2 (micro ao <|> micro xi)
    ∷ allflag shl 3 (micro ao <|> micro yi)
    ∷ allflag shl 4 (micro aluo <|> micro ai)
    ∷ allflag shl 5 (micro scr)
    ∷ allflag shr 2 (micro ao <|> micro xi)
    ∷ allflag shr 3 (micro aluo <|> micro alu_shr <|> micro ai)
    ∷ allflag shr 4 (micro scr)
    ∷ allflag and 2 (micro ao <|> micro xi)
    ∷ allflag and 3 (micro bo <|> micro yi)
    ∷ allflag and 4 (micro aluo <|> micro alu_and <|> micro ai)
    ∷ allflag and 5 (micro scr)
    ∷ allflag cmpa 2 (micro ao <|> micro xi)
    ∷ allflag cmpa 3 (micro yi)
    ∷ allflag cmpa 4 (micro aluo)
    ∷ allflag cmpa 5 (micro scr)
    ∷ allflag cmpb 2 (micro bo <|> micro xi)
    ∷ allflag cmpb 3 (micro yi)
    ∷ allflag cmpb 4 (micro aluo)
    ∷ allflag cmpb 5 (micro scr)
    ∷ []
