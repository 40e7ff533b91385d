-- ===== src/Rom/Tests.antt =====
-- One entry of the control ROM: `JMPRZ` at its step 4 with the zero flag.
use jaris.Base.{◌≡◌, arith}
use jaris.Rom.Calls.{rom_index}
use jaris.Rom.Program.{control_calls, control_rom}
use jaris.Rom.Lookup.{entry, fetch_entry, control_rom-entry}

control_rom-entry_example :
    control_rom (rom_index 27 4 1) ≡ entry control_calls 27 4 1 (fetch_entry 4)
control_rom-entry_example = control_rom-entry 27 4 1 (omega arith) (omega arith) (omega arith)
