-- ===== src/Commands/Usertest.antt =====
-- kernel/commands/usertest.c: a small program is mapped for user mode and entered.
use ki_os.Base.{ℕ, ◌+◌, ◌-◌, ◌||◌, Option, some, List, [], ◌∷◌, ◌==◌, if◌then◌else◌, ◌>>=◌, add64}
use ki_os.Console.Syscall.{CpuData, syscall_set_kernel_stack}
use ki_os.Interrupts.Idt.{Tss, tss_set_kernel_stack}
use ki_os.Mm.Pmm.{page_size, alloc_page}
use ki_os.Mm.Vmm.{Machine, map_page}
use ki_os.Mm.Vmm.Access.{store8}

-- `user_code`
abbrev pub user_code : List ℕ
user_code =
    72 ∷ 141 ∷ 53 ∷ 34 ∷ 0 ∷ 0 ∷ 0 ∷ 72 ∷ 199 ∷ 192 ∷ 1 ∷ 0 ∷ 0 ∷ 0 ∷ 72 ∷ 199 ∷ 199 ∷ 1 ∷ 0 ∷ 0 ∷ 0
    ∷ 72 ∷ 199 ∷ 194 ∷ 14 ∷ 0 ∷ 0 ∷ 0 ∷ 15 ∷ 5 ∷ 72 ∷ 199 ∷ 192 ∷ 0 ∷ 0 ∷ 0 ∷ 0 ∷ 15 ∷ 5 ∷ 235 ∷ 254
    ∷ 72 ∷ 101 ∷ 108 ∷ 108 ∷ 111 ∷ 32 ∷ 82 ∷ 105 ∷ 110 ∷ 103 ∷ 32 ∷ 51 ∷ 33 ∷ 10 ∷ 0 ∷ []

abbrev pub user_code_vaddr : ℕ
user_code_vaddr = 0x400000

abbrev pub user_stack_vaddr : ℕ
user_stack_vaddr = 0x800000

-- The state that the command changes.
pub record System : Type 0 where
  pub machine : Machine
  pub tss : Tss
  pub cpu : CpuData

-- The command prints its error line, or enters user mode with a stack pointer and an entry.
pub data Entered : Type 0 where
  failed : Entered
  user_mode : (user_stack_top entry : ℕ) → Entered

-- `memcpy` through the page tables.
pub copy_code : (dest : ℕ) → List ℕ → Machine → Option Machine
copy_code dest [] m = some m
copy_code dest (b ∷ bs) m = do m' ← store8 dest b m; copy_code (dest + 1) bs m'

-- The steps after the allocations; `k_stack` is the address of `secure_kernel_stack`.
pub prepare : (k_stack code_phys stack_phys : ℕ) → System → Option (Entered × System)
unfolding copy_code
prepare k_stack code_phys stack_phys s = do
  (printed, m₁) ← map_page user_code_vaddr code_phys 7 s.machine
  (printed', m₂) ← map_page user_stack_vaddr stack_phys 7 m₁
  m₃ ← copy_code user_code_vaddr user_code m₂
  let k_stack_top = add64 k_stack 8192
  some (
    user_mode (user_stack_vaddr + page_size - 16) user_code_vaddr,
    record {
      machine = m₃;
      tss = tss_set_kernel_stack k_stack_top s.tss;
      cpu = syscall_set_kernel_stack k_stack_top s.cpu;
    },
  )

-- `cmd_usertest`
pub cmd_usertest : (k_stack : ℕ) → System → Option (Entered × System)
unfolding prepare
cmd_usertest k_stack s = do
  (code_phys, p₁) ← alloc_page s.machine.pmm
  (stack_phys, p₂) ← alloc_page p₁
  let s' : System = record s { machine = record s.machine { pmm = p₂ } }
  if (code_phys == 0) || (stack_phys == 0)
      then some (failed, s')
      else prepare k_stack code_phys stack_phys s'
