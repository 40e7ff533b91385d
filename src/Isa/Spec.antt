-- ===== src/Isa/Spec.antt =====
-- What each instruction does, once its opcode has been fetched: `ip` points to its operand.
use jaris.Base.{ℕ, ◌+◌, ◌-◌, ◌*◌, ◌/◌, ◌%◌, ◌^◌, Bool, true, not, ◌==◌, ltb, bit_and}
use jaris.Base.{if◌then◌else◌, Option, some, none, ℤ, pos, negsuc, dec}
use jaris.Instructions.{Instruction}
use jaris.Instructions.Instruction.{
  nop, inca, deca, incb, ram_al, ram_bl, ram_a, ram_b, incsp, decsp, pusha, popa,
}
use jaris.Instructions.Instruction.{
  peeka, peekar, pushar, pushb, popb, peekb, sum, sub, shr, shl, and, cmpa,
}
use jaris.Instructions.Instruction.{
  cmpb, jmp, jmpr, jmprz, jmprn, jmprc, jmprnz, jmprnn, jmprnc, jmpa, jmpar, a_b,
}
use jaris.Instructions.Instruction.{
  b_a, b_ah, al_rb, a_rb, rb_al, rb_a, a_sp, sp_a, a_sec, sec_a, ram_ndx, incndx,
}
use jaris.Instructions.Instruction.{
  ndx_a, a_ndx, mem_a, mem_ah, a_mem, call, callr, ret, key_a, drw, ram_drw, hlt,
}
use jaris.Isa.State.{Machine, plus, word_at, with_word, with_byte, sum_flags, flags_of, draw}

-- The condition of a conditional jump; the others are always taken.
unfoldable pub taken : Instruction → ℕ → Bool
taken jmprz f = f % 2 == 1
taken jmprn f = f / 2 % 2 == 1
taken jmprc f = f / 4 % 2 == 1
taken jmprnz f = not (f % 2 == 1)
taken jmprnn f = not (f / 2 % 2 == 1)
taken jmprnc f = not (f / 4 % 2 == 1)
taken _ f = true

-- A jump by the word at `ip`, counted from `ip` itself; the addition sets the flags.
abbrev pub jump_by : ℕ → Machine → Machine
jump_by offset m = record m { ip = plus offset m.ip; flags = sum_flags (offset + m.ip) }

abbrev pub branch : Bool → Machine → Machine
branch test m =
    if test then jump_by (word_at m.ram m.ip) m else record m { ip = plus (plus m.ip 1) 1 }

-- The next key; the queue moves down. A count that has run out is a fault.
abbrev next_key : ℤ → Machine → Option Machine
next_key (negsuc n) m = none
next_key (pos n) m =
    if ltb n 1024
    then some (record m {
      a = m.key_fifo 0;
      key_fifo = λ j. if ltb j n then m.key_fifo (j + 1) else m.key_fifo j;
      key_fifo_i = dec (pos n);
    })
    else none

-- SP moves down by a word.
abbrev below : ℕ → ℕ
below sp = (sp + (2 ^ 16 - 2)) % 2 ^ 16

abbrev pub push_word : ℕ → Machine → Machine
push_word v m = record m { ram = with_word m.ram m.sp v; sp = below m.sp }

unfoldable pub isa_plain : Instruction → Machine → Machine
unfolding taken
isa_plain nop m = m
isa_plain inca m = record m { a = plus 1 m.a; flags = sum_flags (1 + m.a) }
isa_plain incb m = record m { b = plus 1 m.b; flags = sum_flags (1 + m.b) }
isa_plain deca m = record m { a = plus (2 ^ 16 - 1) m.a; flags = sum_flags (2 ^ 16 - 1 + m.a) }
isa_plain ram_al m = record m { a = m.ram m.ip; ip = plus m.ip 1 }
isa_plain ram_bl m = record m { b = m.ram m.ip; ip = plus m.ip 1 }
isa_plain ram_a m = record m { a = word_at m.ram m.ip; ip = plus (plus m.ip 1) 1 }
isa_plain ram_b m = record m { b = word_at m.ram m.ip; ip = plus (plus m.ip 1) 1 }
isa_plain incsp m = record m { sp = plus m.sp 2 }
isa_plain decsp m = record m { sp = below m.sp }
isa_plain pusha m = push_word m.a m
isa_plain pushb m = push_word m.b m
isa_plain popa m = record m { sp = plus m.sp 2; a = word_at m.ram (plus m.sp 2) }
isa_plain popb m = record m { sp = plus m.sp 2; b = word_at m.ram (plus m.sp 2) }
isa_plain peeka m = record m { a = word_at m.ram (plus m.sp 2) }
isa_plain peekb m = record m { b = word_at m.ram (plus m.sp 2) }
isa_plain peekar m = record m {
  a = word_at m.ram (plus m.sp (m.ram m.ip));
  ip = plus m.ip 1;
  flags = sum_flags (m.sp + m.ram m.ip);
}
isa_plain pushar m = record m {
  ram = with_word m.ram (plus m.sp (m.ram m.ip)) m.a;
  ip = plus m.ip 1;
  flags = sum_flags (m.sp + m.ram m.ip);
}
isa_plain sum m = record m { a = plus m.a m.b; flags = sum_flags (m.a + m.b) }
isa_plain sub m = record m {
  a = plus ((2 ^ 16 - m.a) % 2 ^ 16) m.b;
  flags = sum_flags ((2 ^ 16 - m.a) % 2 ^ 16 + m.b);
}
isa_plain shl m = record m { a = plus m.a m.a; flags = sum_flags (m.a + m.a) }
isa_plain shr m = record m { a = m.a / 2; flags = flags_of (m.a / 2) (m.a % 2) }
isa_plain and m = record m { a = bit_and m.a m.b; flags = flags_of (bit_and m.a m.b) 0 }
isa_plain cmpa m = record m { flags = flags_of m.a 0 }
isa_plain cmpb m = record m { flags = flags_of m.b 0 }
isa_plain jmp m = record m { ip = word_at m.ram m.ip }
isa_plain jmpr m = jump_by (word_at m.ram m.ip) m
isa_plain jmprz m = branch (taken jmprz m.flags) m
isa_plain jmprn m = branch (taken jmprn m.flags) m
isa_plain jmprc m = branch (taken jmprc m.flags) m
isa_plain jmprnz m = branch (taken jmprnz m.flags) m
isa_plain jmprnn m = branch (taken jmprnn m.flags) m
isa_plain jmprnc m = branch (taken jmprnc m.flags) m
isa_plain jmpa m = record m { ip = m.a }
isa_plain jmpar m = jump_by m.a m
isa_plain a_b m = record m { b = m.a }
isa_plain b_a m = record m { a = m.b }
isa_plain b_ah m = record m { a = m.b % 256 * 256 + m.a % 256 }
isa_plain al_rb m = record m { ram = with_byte m.ram m.b m.a }
isa_plain a_rb m = record m { ram = with_word m.ram m.b m.a }
isa_plain rb_al m = record m { a = m.ram m.b }
isa_plain rb_a m = record m { a = word_at m.ram m.b }
isa_plain a_sp m = record m { sp = m.a }
isa_plain sp_a m = record m { a = m.sp }
isa_plain a_sec m = record m { sec = m.a % 4096 }
isa_plain sec_a m = record m { a = m.sec }
isa_plain ram_ndx m = record m { ndx = m.ram m.ip; ip = plus m.ip 1 }
isa_plain incndx m = record m { ndx = (1 + m.ndx) % 256; flags = sum_flags (1 + m.ndx) }
isa_plain ndx_a m = record m { a = m.ndx }
isa_plain a_ndx m = record m { ndx = m.a % 256 }
isa_plain mem_a m = record m { a = m.mem (m.sec * 256 + m.ndx) }
isa_plain mem_ah m = record m { a = m.mem (m.sec * 256 + m.ndx) * 256 + m.a % 256 }
isa_plain a_mem m = record m { mem = with_byte m.mem (m.sec * 256 + m.ndx) m.a }
isa_plain call m = record (push_word m.ip m) { ip = word_at (push_word m.ip m).ram m.ip }
isa_plain callr m = jump_by (word_at (push_word m.ip m).ram m.ip) (push_word m.ip m)
isa_plain ret m = record m { sp = plus m.sp 2; ip = plus (plus (word_at m.ram (plus m.sp 2)) 1) 1 }
isa_plain key_a m = m
isa_plain drw m = draw m.b m.a m
isa_plain ram_drw m = record (draw m.b (m.ram m.ip) m) { ip = plus m.ip 1 }
isa_plain hlt m = m

-- Every instruction but `KEY_A` succeeds.
unfoldable pub isa : Instruction → Machine → Option Machine
unfolding isa_plain
isa key_a m = next_key m.key_fifo_i m
isa i m = some (isa_plain i m)
