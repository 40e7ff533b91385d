-- ===== src/Rom/Program.antt =====
-- src/runtime.c `set_control_rom`: its calls, in the order of the source.
mod Data
mod Control
mod Devices
use Data.{basic_calls, stack_calls, alu_calls}
use Control.{jump_calls, branch_calls, move_calls}
use Devices.{memory_calls, call_calls}
use jaris.Base.{List, ◌++◌}
use jaris.Rom.Calls.{Rom, RomCall, call_all, fetch_loop}

unfoldable pub control_calls : List RomCall
unfolding basic_calls stack_calls alu_calls jump_calls branch_calls move_calls memory_calls
    call_calls
control_calls =
    basic_calls
    ++ (stack_calls
        ++ (alu_calls
            ++ (jump_calls ++ (branch_calls ++ (move_calls ++ (memory_calls ++ call_calls))))))

unfoldable pub set_control_rom : Rom → Rom
set_control_rom rom = call_all control_calls (fetch_loop 64 0 rom)

-- The array once `set_control_rom` has run; it starts as zeros.
unfoldable pub control_rom : Rom
control_rom = set_control_rom (λ _. 0)
