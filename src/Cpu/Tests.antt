-- ===== src/Cpu/Tests.antt =====
-- Clock cycles of one concrete state.
use jaris.Base.{ℕ, ◌%◌, ◌^◌}
use jaris.Cpu.Boot.{cpu_init, Started, cpu_init-Started}
use jaris.Base.{
  ◌≡◌, ◌↔◌, ◌<◌, arith, true, none, ◌==◌, if◌then◌else◌, negsuc, pos, refl, [], ◌∷◌, some,
}
use jaris.Microcode.{check_microcode}
use jaris.Microcode.MicrocodeFlag.{keyo}
use jaris.Rom.Program.{control_rom}
use jaris.Cpu.State.{Cpu}
use jaris.Cpu.Valid.{IsValid, AllBytes}
use jaris.Cpu.Tick.{tick}
use jaris.Cpu.Keeps.{IsTicked}
use jaris.Cpu.Run.{word, tick-IsTicked}
use jaris.Cpu.Keyboard.{
  store_bytes, load_input_string, char_bytes, char_to_scancode, scancode_bytes, push_keys,
  push_from,
}
use jaris.Cpu.Queue.{Grown, load_input_string-Grown}
use jaris.Cpu.Faults.{Exhausted, tick-none_iff}

-- `KEY_A` at its step 2, with a queue that has run out.
abbrev reading : Cpu
reading = record {
  a = 1;
  b = 2;
  sp = 0xfffe;
  ip = 1;
  x = 0;
  y = 0;
  mar = 0;
  sec = 0;
  ndx = 0;
  fr = 0;
  sc = 2;
  ir = 56;
  ram = λ i. if i == 0 then 56 else 0;
  mem = λ i. 0;
  key_fifo = λ i. 0;
  key_fifo_i = negsuc 0;
  gpua = 0;
  attribute_ram = λ i. 0;
  pattern_ram = λ i. 0;
  ticks = 2;
}

zero-byte : 0 < 256
zero-byte = omega arith

reading-IsValid : IsValid reading
unfolding AllBytes
reading-IsValid = record {
  a_lt = omega arith;
  b_lt = omega arith;
  sp_lt = omega arith;
  ip_lt = omega arith;
  x_lt = omega arith;
  y_lt = omega arith;
  mar_lt = omega arith;
  sec_lt = omega arith;
  ndx_lt = omega arith;
  fr_lt = omega arith;
  sc_lt = omega arith;
  ir_lt = omega arith;
  gpua_lt = omega arith;
  ram_bytes = λ i. ground arith;
  mem_bytes = λ i. zero-byte;
  key_bytes = λ i. zero-byte;
  attribute_bytes = λ i. zero-byte;
  pattern_bytes = λ i. zero-byte;
}

tick-IsTicked_example : IsTicked (tick control_rom reading true)
tick-IsTicked_example = tick-IsTicked reading true reading-IsValid

tick-none_iff_example :
    (tick control_rom reading true ≡ none)
    ↔ ((check_microcode (word reading) keyo ≡ true) × Exhausted (negsuc 0))
tick-none_iff_example = tick-none_iff reading true reading-IsValid

-- The same state with an empty queue.
abbrev waiting : Cpu
waiting = record reading { key_fifo_i = pos 0 }

-- `q` and then `Q`
abbrev typed : Cpu
typed = record waiting {
  key_fifo =
      store_bytes (0x2a ∷ 0x10 ∷ 0x90 ∷ 0xaa ∷ []) 2
        (store_bytes (0x10 ∷ 0x90 ∷ []) 0 waiting.key_fifo);
  key_fifo_i = pos 6;
}

typing : load_input_string (113 ∷ 81 ∷ []) waiting ≡ some typed
unfolding load_input_string char_bytes char_to_scancode scancode_bytes push_keys push_from
typing = refl

waiting-IsValid : IsValid waiting
waiting-IsValid = let h = reading-IsValid in assumption h

load_input_string-Grown_example : Grown 0 waiting typed
load_input_string-Grown_example =
    load_input_string-Grown (113 ∷ 81 ∷ []) 0 waiting typed waiting-IsValid refl (omega arith)
      typing

-- A disk of 2^19 bytes.
abbrev disk : ℕ → ℕ
disk i = i % 256

disk-AllBytes : AllBytes disk
unfolding AllBytes
disk-AllBytes = λ i. omega arith

cpu_init-Started_example : (cpu : Cpu) × (cpu_init (2 ^ 19) disk ≡ some cpu) × Started disk cpu
cpu_init-Started_example = cpu_init-Started (2 ^ 19) disk (omega arith) disk-AllBytes
