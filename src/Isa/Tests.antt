-- ===== src/Isa/Tests.antt =====
-- Programs on the simulated CPU.
use jaris.Base.{
  ℕ, ◌+◌, ◌/◌, ◌^◌, ◌<◌, ◌≡◌, ◌≢◌, ◌≤◌, refl, arith, true, false, some, if◌then◌else◌, ◌==◌, pos,
}
use jaris.Instructions.{opcode}
use jaris.Instructions.Instruction.{inca, pusha, popa, a_b, hlt, sub, call, ret}
use jaris.Rom.Program.{control_rom}
use jaris.Cpu.State.{Cpu}
use jaris.Cpu.Valid.{IsValid, AllBytes}
use jaris.Cpu.Run.{run}
use jaris.Isa.Halts.{run-halts}
use jaris.Isa.State.{Machine, machine, plus, word_at, with_word}
use jaris.Isa.Spec.{isa, isa_plain}
use jaris.Isa.Run.{observe}
use jaris.Isa.Correct.{cycles, expected, after_fetch, run-expected, run-hlt, cycles-le}
use jaris.Isa.Program.{Reaches, isa_run, isa_step, decode, run-isa_run, not_hlt}
use jaris.Isa.Stack.{stack_round_trip, call_round_trip, sub_run}

-- A program at 0, with 7 in A and 9 in B.
abbrev start : (ℕ → ℕ) → Cpu
start ram = record {
  a = 7;
  b = 9;
  sp = 0xfffe;
  ip = 0;
  x = 0;
  y = 0;
  mar = 0;
  sec = 0;
  ndx = 0;
  fr = 0;
  sc = 0;
  ir = 0;
  ram = ram;
  mem = λ i. 0;
  key_fifo = λ i. 0;
  key_fifo_i = pos 0;
  gpua = 0;
  attribute_ram = λ i. 0;
  pattern_ram = λ i. 0;
  ticks = 0;
}

-- `INCA`, `A_B`
abbrev counting : ℕ → ℕ
counting i = if i == 0 then 1 else if i == 1 then 35 else 0

-- `PUSHA`, `POPA`
abbrev stacking : ℕ → ℕ
stacking i = if i == 0 then 10 else if i == 1 then 11 else 0

-- `CALL 8` at 1, and `RET` at 8
abbrev calling : ℕ → ℕ
calling i = if i == 1 then 53 else if i == 2 then 8 else if i == 8 then 55 else 0

-- `SUB`
abbrev subtracting : ℕ → ℕ
subtracting i = if i == 0 then 19 else 0

-- `HLT`
abbrev halting : ℕ → ℕ
halting i = if i == 0 then 63 else 0

zero-byte : 0 < 256
zero-byte = omega arith

start-IsValid : (ram : ℕ → ℕ) → AllBytes ram → IsValid (start ram)
unfolding AllBytes
start-IsValid ram h = record {
  a_lt = omega arith;
  b_lt = omega arith;
  sp_lt = omega arith;
  ip_lt = omega arith;
  x_lt = omega arith;
  y_lt = omega arith;
  mar_lt = omega arith;
  sec_lt = omega arith;
  ndx_lt = omega arith;
  fr_lt = omega arith;
  sc_lt = omega arith;
  ir_lt = omega arith;
  gpua_lt = omega arith;
  ram_bytes = h;
  mem_bytes = λ i. zero-byte;
  key_bytes = λ i. zero-byte;
  attribute_bytes = λ i. zero-byte;
  pattern_bytes = λ i. zero-byte;
}

counting-IsValid : IsValid (start counting)
unfolding AllBytes
counting-IsValid = start-IsValid counting (λ i. ground arith)

stacking-IsValid : IsValid (start stacking)
unfolding AllBytes
stacking-IsValid = start-IsValid stacking (λ i. ground arith)

abbrev calling_start : Cpu
calling_start = record (start calling) { ip = 1 }

calling-IsValid : IsValid calling_start
unfolding AllBytes
calling-IsValid =
    let h = start-IsValid calling (λ i. ground arith) in
    let ip : 1 < 2 ^ 16 = omega arith in assumption (h, ip)

subtracting-IsValid : IsValid (start subtracting)
unfolding AllBytes
subtracting-IsValid = start-IsValid subtracting (λ i. ground arith)

halting-IsValid : IsValid (start halting)
unfolding AllBytes
halting-IsValid = start-IsValid halting (λ i. ground arith)

counted : Machine
unfolding isa_plain
counted =
    isa_plain a_b
      (record (isa_plain inca (record (machine (start counting)) { ip = 1 })) { ip = 2 })

counting-isa_run : isa_run 2 (machine (start counting)) ≡ some counted
unfolding isa_run isa_step decode isa isa_plain opcode counted
counting-isa_run = refl

run-isa_run_example : Reaches (start counting) 32 counted
run-isa_run_example = run-isa_run 2 (start counting) counted counting-IsValid refl counting-isa_run

inca-≢-hlt : inca ≢ hlt
unfolding opcode
inca-≢-hlt = not_hlt inca refl

counting-starts : counting 0 ≡ opcode inca
unfolding opcode
counting-starts = refl

run-expected_example :
    observe (run control_rom (2 + cycles inca (after_fetch (start counting))) (start counting) true)
    ≡ expected inca (record (machine (start counting)) { ip = plus 0 1 }) true
run-expected_example =
    run-expected inca (start counting) true counting-IsValid refl counting-starts inca-≢-hlt

halting-starts : halting 0 ≡ opcode hlt
unfolding opcode
halting-starts = refl

run-hlt_example :
    observe (run control_rom 3 (start halting) true)
    ≡ some (record (machine (start halting)) { ip = 1 }, 1, false)
run-hlt_example = run-hlt (start halting) true halting-IsValid refl halting-starts

cycles-le_example : 2 + cycles inca (start counting) ≤ 16
cycles-le_example = cycles-le inca (start counting)

stacking-code : stacking 0 ≡ opcode pusha
unfolding opcode
stacking-code = refl

stacking-next : with_word stacking 0xfffe 7 (plus 0 1) ≡ opcode popa
unfolding opcode with_word
stacking-next = refl

stack_round_trip_example :
    (m : Machine) × Reaches (start stacking) 32 m
    × (m.a ≡ 7)
    × (m.b ≡ 9)
    × (m.sp ≡ 0xfffe)
    × (m.ip ≡ plus (plus 0 1) 1)
stack_round_trip_example =
    stack_round_trip (start stacking) stacking-IsValid refl stacking-code stacking-next

calling-code : calling 1 ≡ opcode call
unfolding opcode
calling-code = refl

calling-operand : word_at (with_word calling 0xfffe (plus 1 1)) (plus 1 1) ≡ 8
unfolding word_at with_word
calling-operand = refl

calling-next : with_word calling 0xfffe (plus 1 1) 8 ≡ opcode ret
unfolding opcode with_word
calling-next = refl

call_round_trip_example :
    (m : Machine) × Reaches calling_start 32 m
    × (m.ip ≡ plus (plus 1 1) 2)
    × (m.sp ≡ 0xfffe)
    × (m.a ≡ 7)
    × (m.b ≡ 9)
call_round_trip_example =
    call_round_trip calling_start 8 calling-IsValid refl calling-code calling-operand calling-next

subtracting-code : subtracting 0 ≡ opcode sub
unfolding opcode
subtracting-code = refl

sub_run_example :
    (m : Machine) × Reaches (start subtracting) 16 m
    × (plus m.a 7 ≡ 9)
    × (m.b ≡ 9)
    × (m.flags / 4 ≡ 1)
sub_run_example = sub_run (start subtracting) subtracting-IsValid refl subtracting-code

-- `INCA`, `HLT`
abbrev ending : ℕ → ℕ
ending i = if i == 0 then 1 else 63

ending-IsValid : IsValid (start ending)
unfolding AllBytes
ending-IsValid = start-IsValid ending (λ i. ground arith)

at_end : Machine
unfolding isa_plain
at_end = isa_plain inca (record (machine (start ending)) { ip = 1 })

ending-isa_run : isa_run 1 (machine (start ending)) ≡ some at_end
unfolding isa_run isa_step decode isa isa_plain opcode at_end
ending-isa_run = refl

at_end-hlt : at_end.ram at_end.ip ≡ opcode hlt
unfolding at_end isa_plain opcode
at_end-hlt = refl

run-halts_example :
    (k : ℕ) × (k ≤ 19)
    × (observe (run control_rom k (start ending) true)
        ≡ some (record at_end { ip = plus at_end.ip 1 }, 1, false))
run-halts_example = run-halts 1 (start ending) at_end ending-IsValid refl ending-isa_run at_end-hlt
