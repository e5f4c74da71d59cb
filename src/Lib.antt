-- ===== src/Lib.antt =====
-- KiOS, a small 64-bit kernel: memory, tasks, interrupts, keyboard and console.
--
-- The parts and their files. The memory map that the boot loader leaves at 0x10000 is the input of
-- the page allocator; the virtual memory takes its tables from the allocator; the heap takes its pages
-- from both; the tasks take their control blocks and stacks from the heap. The timer interrupt drives
-- the scheduler through the dispatcher, the keyboard interrupt fills the ring buffer, and the shell
-- reads keys and prints on the console.
--
-- Base: lists as C arrays, words that wrap, the bits of a word, counting.
--
-- Mm/Pmm (kernel/mm/pmm.c, kernel/mm/memory_map.h): `Pmm` holds the static variables, with the bitmap
-- as a list of bytes; `init`, `alloc_page` and `free_page` are pmm_init, pmm_alloc_page and
-- pmm_free_page; `none` is an access outside the bitmap. Pmm/View reads the bitmap as a set of pages,
-- Pmm/Range follows the loops, which
-- reach the whole pages of the usable entries where these begin at a page, Pmm/Init and Pmm/Alloc the operations, and Pmm/Trace any history of
-- them by clients that free only what they hold.
--
-- Mm/Vmm (kernel/mm/vmm.c, kernel/mm/vmm.h): physical memory is a function from addresses to words of
-- 64 bits, read at the physical address; `descend` is one level of vmm_get_pte_flags, which repeats
-- the same code three times; `none` is a fault. The
-- boot loader maps only the first GiB at its own addresses: that the tables lie there is assumed.
-- Vmm/Hardware is the processor's own
-- translation, Vmm/Lookup the walk of an address, Vmm/Mapping the
-- change of an entry. Vmm/Tree has the invariant, that the tables under the entries of the root from
-- `first` on form a tree of pages that the allocator keeps as used and that hold no other data; the
-- entries below `first` are left out because the boot loader maps the low half with large pages, which
-- the code cannot tell from tables. Vmm/Keeps, Vmm/Link and Vmm/Grow follow one step of the walk that
-- creates a table, Vmm/Walk the three of them, Vmm/Leaf the change of an entry, and Vmm/Mapped the
-- operations. Vmm/Access is memory behind a virtual address, Vmm/Data the pages of data beside the
-- tables. Fences and invlpg do nothing to the model.
--
-- Mm/Heap (kernel/mm/heap.c): `kmalloc` over that memory; its page loop runs as often as there are
-- pages between the block's ends. Heap/Blocks has the blocks that it hands out, Heap/Pages that loop
-- on a tree of tables, and Heap/Backing the memory behind a block. The line that vmm_map_page prints
-- when it fails is left out.
--
-- Sched/Task (kernel/task.c, kernel/task.h): a `task_t *` is an address, 0 for NULL, and the control
-- blocks and frames are functions from addresses; `task_switch` takes the tick count as an argument.
-- Task/Choice says which task runs next, Task/Running has the invariant, Task/Frames the saved frames,
-- Task/Fair the rounds of several switches, with one of them in Task/Turns,
-- Task/Create task_create and task_init, with kmalloc as a parameter, Create/Outcome what task_create
-- makes of the blocks that it gets. `padded` is what strncpy leaves
-- in the name field itself; Text/Copies is about what it writes past the field.
--
-- Interrupts/Irq (kernel/isr.c, kernel/pit.c, kernel/commands/uptime.c): the state behind the handlers
-- is one record, and a handler is one of the two that the kernel installs. Irq/Dispatch is
-- irq_handler, Irq/Timer the tick count and preemption. Interrupts/Exceptions is isr_handler, and
-- Exceptions/Halt is about its way to the halt. Interrupts/Pic (kernel/pic.c) has the
-- hardware behind the ports as a parameter; Pic/Chip says what is asked of it, the initialization words
-- and the mask of the 8259A, and Pic/Masks follows the masks. Interrupts/Idt (kernel/idt.c, kernel/gdt.c, kernel/tss.c)
-- has the contents of the tables; the addresses of stubs and objects are parameters.
--
-- Input/Ring (kernel/keyboard_irq.c): the buffer as a queue, and in Ring/Interleave the handler and a
-- reader whose accesses are separate steps. Input/Keyboard (kernel/keyboard.h): the tables and the
-- modifier keys, and in Keyboard/Poll the polling of a controller that is a parameter.
--
-- Console/Vga (kernel/vga.h, kernel/vga.c): the frame buffer, the cursor and the printing of numbers.
-- Console/Shell (kernel/shell.c): the line editor over the characters that kb_getchar gives, the
-- history, the choice of a command; strcpy into the history is the assignment of a string. Shell/Run
-- has the prompt and shell_run, for the lines that are typed, with the commands as a parameter, and
-- Run/Served what it makes of those lines; Shell/Words says what the words of a line are.
-- Console/Syscall (kernel/syscall.c): the system calls, over a caller's memory whose bytes may be
-- missing. Console/Output: what a function prints is a
-- list of calls of the console, and Output/Screens runs them.
--
-- Commands/Table (kernel/commands.c): the shell's commands; Table/Names the choice among them.
-- Commands/Simple, Commands/Report, Commands/Memtest, Commands/Vmtest and Commands/Usertest
-- (kernel/commands/): a command gives the calls of the console that it makes, and how it ends where it
-- halts or resets the machine. Report/Meminfo is about the figures of meminfo, Memtest/Runs
-- and Vmtest/Runs about the two memory tests, with the loops of memtest in Memtest/Pages,
-- Memtest/Mapping and Memtest/Words.
--
-- Boot (kernel/main.c): `kernel_main` over the states of all parts, `System`, and what the machine
-- gives, `Setting`: the memory map, the addresses of objects and stubs, the first cr3. Boot/Lines
-- follows the interrupt controllers, Boot/Memory the allocations of the first tasks, and Boot/Start
-- the whole.
--
-- Text (kernel/string.h): comparisons on strings as lists without the terminator, copies on memory as
-- a function from addresses to bytes. Clock (kernel/commands/time.c): the decoding of the CMOS bytes; Clock/Command is cmd_time
-- over a clock that is a parameter, with fuel for the wait until an update ends.
--
-- Bounds. Loops with a counter recurse on the rounds that are left. `dec_digits` has 20 rounds, enough
-- for a value below 2 ^ 63. `kb_getchar` and `kb_getchar_irq`, which wait for ever, recurse on fuel and
-- say `none` where it ends; the line editor recurses on the keys. Words wrap where the source's do,
-- but for `int` counters, which stay far below their bound, and addresses in Text.
--
-- Not modelled: the boot loader and the assembly stubs, which this language does not cover, the
-- instructions that load the processor's tables, and the user program of usertest, which is data.
-- The Tests modules apply the results to concrete data.
pub mod Base
pub mod Boot
pub mod Clock
pub mod Commands
pub mod Console
pub mod Input
pub mod Interrupts
pub mod Mm
pub mod Sched
pub mod Text
