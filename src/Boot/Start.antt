-- ===== src/Boot/Start.antt =====
-- kernel_main as a whole.
use ki_os.Base.{ℕ, ◌<◌, ◌≡◌, ◌⊎◌, true, false, some, none, ◌∷◌, leb, replicate}
use ki_os.Console.Vga.Cursor
use ki_os.Input.Ring
use ki_os.Interrupts.Irq.{pit_irq_handler, keyboard_irq_handler}
use ki_os.Interrupts.Pic.Masks.{masked}
use ki_os.Interrupts.Pic.Chip.{IsPics, IsRemapped}
use ki_os.Mm.Heap.{Heap, heap_init}
use ki_os.Mm.Heap.Blocks
use ki_os.Mm.Pmm
use ki_os.Sched.Task.{task_size}
use ki_os.Sched.Task.Running
use ki_os.Boot.{Setting, System, malloc}

-- The heap that kernel_main sets up before the first block.
abbrev pub first_heap : {D : Type 0} → Setting → System D → Pmm.Pmm → Heap
first_heap c s pmm =
    heap_init (record s.heap { machine = record s.heap.machine { pmm = pmm; pml4 = c.cr3 } })

module _ {D : Type 0} (inb : ℕ → D → ℕ × D) (outb : ℕ → ℕ → D → D) (pics : IsPics inb outb) where
  -- The kernel once it runs; `memory` is the heap before the first block.
  pub record Started (memory : Heap) (s : System D) : Type 0 where
    pub remapped : IsRemapped pics s.pic
    pub lines : (m : ℕ) → m < 16 → masked inb outb m s.pic ≡ leb 2 m
    pub handlers :
        s.kernel.irq_handlers ≡ some pit_irq_handler ∷ some keyboard_irq_handler ∷ replicate 14 none
    pub preemptive : s.kernel.scheduler_enabled ≡ true
    pub no_input : Ring.has_scancode s.kernel.keyboard ≡ false
    pub screen : Cursor.IsValid s.screen
    pub heap : Blocks.IsValid s.heap
    pub tasks : ((malloc task_size (some memory)).0 ≡ 0) ⊎ Running.IsValid s.kernel.tasks
