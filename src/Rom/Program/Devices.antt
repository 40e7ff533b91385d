-- ===== src/Rom/Program/Devices.antt =====
-- src/runtime.c `set_control_rom`: the mass memory, calls, the keyboard and the screen.
use jaris.Base.{List, [], ◌∷◌}
use jaris.Instructions.Instruction.{
  a_mem, a_ndx, a_sec, call, callr, drw, hlt, incndx, key_a, mem_a, mem_ah, ndx_a,
}
use jaris.Instructions.Instruction.{ram_drw, ram_ndx, ret, sec_a}
use jaris.Microcode.MicrocodeFlag.{ahi, ai, aluo, ao, bo, ci, gpuai, gpui, halt, ipi, ipo, ipp}
use jaris.Microcode.MicrocodeFlag.{
  keyo, mari, memi, memo, ndxi, ndxo, ram, ram16, ramo, scr, seci, seco,
}
use jaris.Microcode.MicrocodeFlag.{spm, spo, spu, xi, yi}
use jaris.Microcode.{micro, ◌<|>◌}
use jaris.Rom.Calls.{RomCall, allflag}

unfoldable pub memory_calls : List RomCall
unfolding micro
memory_calls =
    allflag a_sec 2 (micro ao <|> micro seci)
    ∷ allflag a_sec 3 (micro scr)
    ∷ allflag sec_a 2 (micro seco <|> micro ai)
    ∷ allflag sec_a 3 (micro scr)
    ∷ allflag ram_ndx 2 (micro ipo <|> micro mari)
    ∷ allflag ram_ndx 3 (micro ram <|> micro ramo <|> micro ndxi <|> micro ipp)
    ∷ allflag ram_ndx 4 (micro scr)
    ∷ allflag incndx 2 (micro ndxo <|> micro yi)
    ∷ allflag incndx 3 (micro xi)
    ∷ allflag incndx 4 (micro ci <|> micro aluo <|> micro ndxi)
    ∷ allflag incndx 5 (micro scr)
    ∷ allflag ndx_a 2 (micro ndxo <|> micro ai)
    ∷ allflag ndx_a 3 (micro scr)
    ∷ allflag a_ndx 2 (micro ao <|> micro ndxi)
    ∷ allflag a_ndx 3 (micro scr)
    ∷ allflag mem_a 2 (micro memo <|> micro ai)
    ∷ allflag mem_a 3 (micro scr)
    ∷ allflag mem_ah 2 (micro memo <|> micro ahi)
    ∷ allflag mem_ah 3 (micro scr)
    ∷ allflag a_mem 2 (micro ao <|> micro memi)
    ∷ allflag a_mem 3 (micro scr)
    ∷ []

unfoldable pub call_calls : List RomCall
unfolding micro
call_calls =
    allflag call 2 (micro spo <|> micro mari)
    ∷ allflag call 3 (micro ipo <|> micro ram <|> micro ram16 <|> micro spu <|> micro spm)
    ∷ allflag call 4 (micro ipo <|> micro mari)
    ∷ allflag call 5 (micro ram <|> micro ramo <|> micro ram16 <|> micro ipi)
    ∷ allflag call 6 (micro scr)
    ∷ allflag callr 2 (micro spo <|> micro mari)
    ∷ allflag callr 3 (micro ipo <|> micro ram <|> micro ram16 <|> micro spu <|> micro spm)
    ∷ allflag callr 4 (micro ipo <|> micro mari <|> micro yi)
    ∷ allflag callr 5 (micro ram <|> micro ramo <|> micro ram16 <|> micro xi)
    ∷ allflag callr 6 (micro aluo <|> micro ipi)
    ∷ allflag callr 7 (micro scr)
    ∷ allflag ret 2 (micro spu)
    ∷ allflag ret 3 (micro spo <|> micro mari)
    ∷ allflag ret 4 (micro ram <|> micro ramo <|> micro ram16 <|> micro ipi)
    ∷ allflag ret 5 (micro ipp)
    ∷ allflag ret 6 (micro ipp)
    ∷ allflag ret 7 (micro scr)
    ∷ allflag key_a 2 (micro keyo <|> micro ai)
    ∷ allflag key_a 3 (micro scr)
    ∷ allflag drw 2 (micro bo <|> micro gpuai)
    ∷ allflag drw 3 (micro ao <|> micro gpui)
    ∷ allflag drw 4 (micro scr)
    ∷ allflag ram_drw 2 (micro bo <|> micro gpuai)
    ∷ allflag ram_drw 3 (micro ipo <|> micro mari)
    ∷ allflag ram_drw 4 (micro ram <|> micro ramo <|> micro gpui <|> micro ipp)
    ∷ allflag ram_drw 5 (micro scr)
    ∷ allflag hlt 2 (micro halt)
    ∷ []
