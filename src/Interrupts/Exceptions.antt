-- ===== src/Interrupts/Exceptions.antt =====
-- kernel/isr.c: the handler of the processor's exceptions, which prints the frame and halts.
pub mod Halt
mod Tests
use ki_os.Base.{
  ℕ, ◌+◌, ◌-◌, ◌^◌, Option, some, none, List, [], ◌∷◌, ◌++◌, ltb, if◌then◌else◌, get_elem?, ◌>>=◌,
}
use ki_os.Base.Bytes.{bytes}
use ki_os.Console.Output.{
  Call, println, dec, hex, set_color, text, line, newline, vga_black, vga_light_gray, vga_red,
  vga_white,
}
use ki_os.Sched.Task.{Registers}

-- `exception_messages`
abbrev pub exception_messages : List (List ℕ)
exception_messages =
    bytes "Division By Zero"
    ∷ bytes "Debug"
    ∷ bytes "Non Maskable Interrupt"
    ∷ bytes "Breakpoint"
    ∷ bytes "Overflow"
    ∷ bytes "Bound Range Exceeded"
    ∷ bytes "Invalid Opcode"
    ∷ bytes "Device Not Available"
    ∷ bytes "Double Fault"
    ∷ bytes "Coprocessor Segment Overrun"
    ∷ bytes "Invalid TSS"
    ∷ bytes "Segment Not Present"
    ∷ bytes "Stack Fault"
    ∷ bytes "General Protection Fault"
    ∷ bytes "Page Fault"
    ∷ bytes "Reserved"
    ∷ bytes "x87 FPU Error"
    ∷ bytes "Alignment Check"
    ∷ bytes "Machine Check"
    ∷ bytes "SIMD Floating-Point Exception"
    ∷ bytes "Reserved"
    ∷ bytes "Reserved"
    ∷ bytes "Reserved"
    ∷ bytes "Reserved"
    ∷ bytes "Reserved"
    ∷ bytes "Reserved"
    ∷ bytes "Reserved"
    ∷ bytes "Reserved"
    ∷ bytes "Reserved"
    ∷ bytes "Reserved"
    ∷ bytes "Security Exception"
    ∷ bytes "Reserved"
    ∷ []

-- The name of the exception; `none` is a read outside the table.
abbrev pub exception_name : ℕ → Option (List Call)
exception_name int_no =
    if ltb int_no 32
    then (do name ← get_elem? exception_messages int_no; some (println name ∷ []))
    else some (text "Unknown Exception #" ∷ dec int_no ∷ newline ∷ [])

abbrev heading : List Call
heading =
    set_color vga_white vga_red
    ∷ newline
    ∷ line "==========================================="
    ∷ text "  EXCEPTION: "
    ∷ []

-- The lines on the registers.
pub register_lines : Registers → List Call
register_lines r =
    line "==========================================="
    ∷ set_color vga_light_gray vga_black
    ∷ text "  INT#:    "
    ∷ dec r.int_no
    ∷ newline
    ∷ text "  ERRCODE: 0x"
    ∷ hex r.err_code
    ∷ newline
    ∷ text "  RIP:     0x"
    ∷ hex r.rip
    ∷ newline
    ∷ text "  CS:      0x"
    ∷ hex r.cs
    ∷ newline
    ∷ text "  RFLAGS:  0x"
    ∷ hex r.rflags
    ∷ newline
    ∷ text "  RSP:     0x"
    ∷ hex r.rsp
    ∷ newline
    ∷ text "  SS:      0x"
    ∷ hex r.ss
    ∷ newline
    ∷ newline
    ∷ text "  RAX: 0x"
    ∷ hex r.rax
    ∷ text "  RBX: 0x"
    ∷ hex r.rbx
    ∷ newline
    ∷ text "  RCX: 0x"
    ∷ hex r.rcx
    ∷ text "  RDX: 0x"
    ∷ hex r.rdx
    ∷ newline
    ∷ line "==========================================="
    ∷ set_color vga_white vga_black
    ∷ newline
    ∷ line "System halted."
    ∷ []

-- `isr_handler`: what it prints before it halts for good.
pub isr_handler : Registers → Option (List Call)
isr_handler r = do name ← exception_name r.int_no; some (heading ++ (name ++ register_lines r))
