-- ===== src/Interrupts/Exceptions/Tests.antt =====
-- A page fault on a blank screen.
use ki_os.Base.{◌≡◌, some, List, [], arith, replicate, refl}
use ki_os.Console.Output.{Call, perform_all}
use ki_os.Console.Vga.{Screen}
use ki_os.Console.Vga.Cursor.{IsValid}
use ki_os.Interrupts.Exceptions.{isr_handler}
use ki_os.Interrupts.Exceptions.Halt.{isr_handler_lem}
use ki_os.Sched.Task.{Registers}

abbrev page_fault : Registers
page_fault = record {
  gs = 0;
  fs = 0;
  es = 0;
  ds = 0;
  r15 = 0;
  r14 = 0;
  r13 = 0;
  r12 = 0;
  r11 = 0;
  r10 = 0;
  r9 = 0;
  r8 = 0;
  rbp = 0;
  rdi = 0;
  rsi = 0;
  rdx = 0;
  rcx = 0;
  rbx = 0;
  rax = 0x4000000000;
  int_no = 14;
  err_code = 2;
  rip = 0x101234;
  cs = 8;
  rflags = 0x202;
  rsp = 0x9000;
  ss = 16;
}

abbrev blank : Screen
blank = record { cells = replicate 2000 0; cursor_x = 0; cursor_y = 0; color = 15; ports = [] }

isr_handler_lem_example :
    (cs : List Call) × (t : Screen) × (isr_handler page_fault ≡ some cs)
    × (perform_all cs blank ≡ some t)
    × IsValid t
isr_handler_lem_example =
    isr_handler_lem page_fault blank (omega arith)
      (record { size = refl; column = omega arith; row = omega arith })
