-- ===== src/Microcode.antt =====
-- src/runtime.h: the microcode flags, and src/runtime.c `check_microcode`.
-- A microcode word is a `uint64_t` with one bit for each flag.
use jaris.Base.{ℕ, Bool, ◌==◌, bit_or, ◌>>>◌, ◌<<<◌, low_bits}

-- `microcode_flag_t`. `_HLT`, `_SUB`, `_SHR` and `_AND` are `halt`, `alu_sub`, `alu_shr`, `alu_and`.
pub data MicrocodeFlag : Type 0 where
  halt ipi ipo ipp ai ahi ao mari bi bo ram ramo ram16 xi yi aluo alu_sub : MicrocodeFlag
  alu_shr alu_and ci spi spo spu spm iri scr seci seco ndxi ndxo memi memo keyo : MicrocodeFlag
  gpuai gpui : MicrocodeFlag

-- The value of each enumerator: the position of its bit.
pub flag_index : MicrocodeFlag → ℕ
flag_index halt = 0
flag_index ipi = 1
flag_index ipo = 2
flag_index ipp = 3
flag_index ai = 4
flag_index ahi = 5
flag_index ao = 6
flag_index mari = 7
flag_index bi = 8
flag_index bo = 9
flag_index ram = 10
flag_index ramo = 11
flag_index ram16 = 12
flag_index xi = 13
flag_index yi = 14
flag_index aluo = 15
flag_index alu_sub = 16
flag_index alu_shr = 17
flag_index alu_and = 18
flag_index ci = 19
flag_index spi = 20
flag_index spo = 21
flag_index spu = 22
flag_index spm = 23
flag_index iri = 24
flag_index scr = 25
flag_index seci = 26
flag_index seco = 27
flag_index ndxi = 28
flag_index ndxo = 29
flag_index memi = 30
flag_index memo = 31
flag_index keyo = 32
flag_index gpuai = 33
flag_index gpui = 34

-- The macro `micro`.
unfoldable pub micro : MicrocodeFlag → ℕ
unfolding flag_index
micro flag = 1 <<< flag_index flag

infixl 64 ◌<|>◌
abbrev pub ◌<|>◌ : ℕ → ℕ → ℕ
m <|> n = bit_or m n

unfoldable pub check_microcode : ℕ → MicrocodeFlag → Bool
unfolding flag_index
check_microcode mc flag = low_bits (mc >>> flag_index flag) 1 == 1
