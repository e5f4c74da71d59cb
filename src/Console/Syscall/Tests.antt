-- ===== src/Console/Syscall/Tests.antt =====
-- A write of five bytes of which the last two are on a page that is not mapped.
use ki_os.Base.{ℕ, Option, none, some, ltb, if◌then◌else◌, replicate, arith, refl, []}
use ki_os.Console.Vga.{Screen}
use ki_os.Console.Syscall.{syscall_handler}
use ki_os.Console.Syscall.Handler.{Written, syscall_write_lem}

abbrev screen : Screen
screen = record { cells = replicate 2000 0; cursor_x = 0; cursor_y = 0; color = 0x0F; ports = [] }

abbrev memory : ℕ → Option ℕ
memory a = if ltb a 0x401000 then some b'h' else none

syscall_write_lem_example :
    Written memory 0x400FFD 5 5 0 screen (syscall_handler memory 1 1 0x400FFD 5 screen)
syscall_write_lem_example =
    syscall_write_lem memory 0x400FFD 5 screen
      (record { size = refl; column = omega arith; row = omega arith })
