-- ===== src/Commands/Report.antt =====
-- kernel/commands/{meminfo,mmap,tasks,uptime}.c: the commands that report the kernel's state.
pub mod Meminfo
use ki_os.Base.{
  ℕ, zero, suc, ◌+◌, ◌-◌, ◌*◌, ◌/◌, ◌%◌, ◌^◌, Option, some, none, List, [], ◌∷◌, ◌++◌, ◌==◌,
  if◌then◌else◌, add64, sub64, u64, u32,
}
use ki_os.Base.Bytes.{bytes}
use ki_os.Console.Output.{
  Call, print, println, dec, hex, text, line, tinted, newline, vga_light_cyan,
}
use ki_os.Console.Shell.{c_string}
use ki_os.Interrupts.Irq.{Kernel, uptime}
use ki_os.Mm.Heap.{Heap, heap_current_size}
use ki_os.Mm.Pmm.{MapEntry}
use ki_os.Sched.Task.{
  TaskState, ready, running, blocked, sleeping, zombie, Tasks, task_count, task_get_by_index,
}

-- `cmd_uptime`
pub cmd_uptime : Kernel → List Call
cmd_uptime k =
    let (hours, minutes, seconds) = uptime k in
    text "System uptime: "
    ∷ dec hours
    ∷ text "h "
    ∷ dec minutes
    ∷ text "m "
    ∷ dec seconds
    ∷ line "s"
    ∷ []

abbrev pub state_str : TaskState → List ℕ
state_str ready = bytes "READY    "
state_str running = bytes "RUNNING  "
state_str blocked = bytes "BLOCKED  "
state_str sleeping = bytes "SLEEPING "
state_str zombie = bytes "ZOMBIE   "

-- The row of one task; a NULL entry has none.
abbrev pub task_row : ℕ → Tasks → List Call
task_row i s =
    let task = task_get_by_index i s in
    if task == 0
    then []
    else dec (s.tcb task).pid
      ∷ text "    "
      ∷ print (state_str (s.tcb task).state)
      ∷ text " "
      ∷ println (c_string (s.tcb task).name)
      ∷ []

pub task_rows : (left i : ℕ) → Tasks → List Call
task_rows zero i s = []
task_rows (suc left) i s = task_row i s ++ task_rows left (i + 1) s

-- `cmd_tasks`
pub cmd_tasks : Tasks → List Call
unfolding task_rows
cmd_tasks s =
    if task_count s == 0
    then line "No tasks running." ∷ []
    else line "PID  State      Name"
      ∷ line "---  ---------  --------"
      ∷ task_rows (task_count s) 0 s

-- The loop of `cmd_mmap` from entry `i`.
pub map_rows : ℕ → List MapEntry → List Call
map_rows i [] = []
map_rows i (entry ∷ entries) =
    text "  Entry "
    ∷ dec i
    ∷ text ": base="
    ∷ hex entry.base
    ∷ text ", length="
    ∷ hex entry.length
    ∷ text ", type="
    ∷ dec entry.kind
    ∷ newline
    ∷ map_rows (i + 1) entries

-- `cmd_mmap` of the boot loader's memory map.
pub cmd_mmap : List MapEntry → List Call
unfolding map_rows
cmd_mmap entries = line "Detected Memory Map:" ∷ (map_rows 0 entries ++ (newline ∷ []))

-- `(used_pages * 100) / total_pages`; `none` is the division by 0.
abbrev pub usage_percent : (used total : ℕ) → Option ℕ
usage_percent used total = if total == 0 then none else some (u64 (used * 100) / total)

-- The lines of `cmd_meminfo` before the percentage.
pub page_lines : (used total : ℕ) → List Call
page_lines used_pages total_pages =
    let free_pages = sub64 total_pages used_pages in
    newline
    ∷ line "=== Memory Information ==="
    ∷ newline
    ∷ tinted "Physical Memory Manager (PMM):" vga_light_cyan
    ∷ newline
    ∷ text "  Total Pages:  "
    ∷ dec total_pages
    ∷ text " ("
    ∷ dec (u64 (total_pages * 4))
    ∷ line " KB)"
    ∷ text "  Used Pages:   "
    ∷ dec used_pages
    ∷ text " ("
    ∷ dec (u64 (used_pages * 4))
    ∷ line " KB)"
    ∷ text "  Free Pages:   "
    ∷ dec free_pages
    ∷ text " ("
    ∷ dec (u64 (free_pages * 4))
    ∷ line " KB)"
    ∷ []

-- The lines from the percentage on.
pub usage_lines : (percent : ℕ) → Heap → List Call
usage_lines percent h =
    let heap_size = heap_current_size h in
    text "  Usage:        "
    ∷ dec percent
    ∷ line "%"
    ∷ newline
    ∷ tinted "Virtual Memory Manager (VMM):" vga_light_cyan
    ∷ newline
    ∷ text "  PML4 Address: "
    ∷ hex h.machine.pml4
    ∷ newline
    ∷ text "  Page Size:    "
    ∷ line "4 KB"
    ∷ text "  Levels:       "
    ∷ line "4 (PML4 -> PDPT -> PD -> PT)"
    ∷ newline
    ∷ tinted "Kernel Heap:" vga_light_cyan
    ∷ newline
    ∷ text "  Base Address: "
    ∷ hex 0xFFFF800000000000
    ∷ newline
    ∷ text "  Allocated:    "
    ∷ dec h.total_alloc
    ∷ line " bytes"
    ∷ text "  Current Size: "
    ∷ dec heap_size
    ∷ line " bytes"
    ∷ text "  Pages Mapped: "
    ∷ dec (add64 heap_size 4095 / 4096)
    ∷ newline
    ∷ newline
    ∷ line "========================="
    ∷ newline
    ∷ []

-- What follows the division.
abbrev pub goes_on : Heap → Option ℕ → Option (List Call)
goes_on h none = none
goes_on h (some percent) = some (usage_lines percent h)

-- `cmd_meminfo`: what it prints, and whether it goes on after the division.
pub cmd_meminfo : Heap → List Call × Option (List Call)
cmd_meminfo h = (
  page_lines h.machine.pmm.used_pages h.machine.pmm.total_pages,
  goes_on h (usage_percent h.machine.pmm.used_pages h.machine.pmm.total_pages),
)
