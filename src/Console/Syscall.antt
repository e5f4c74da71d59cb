-- ===== src/Console/Syscall.antt =====
-- kernel/syscall.c: the system calls, and the registers that enable them. `mem` is the memory that a
-- caller's buffer is read from: `none` where reading it is a page fault.
pub mod Handler
mod Tests
use ki_os.Base.{
  ℕ, zero, suc, ◌+◌, ◌-◌, ◌*◌, ◌^◌, bit_or, Option, none, some, add64, Bool, true, false, List, [],
  ◌∷◌, ◌==◌, if◌then◌else◌,
}
use ki_os.Console.Vga.{Screen, putchar}

-- `cpu_data_t`
pub record CpuData : Type 0 where
  pub kernel_stack : ℕ
  pub user_stack : ℕ
  pub current_task : ℕ

-- The machine registers that `syscall_init` writes, in order, and the per-processor data; `efer` is
-- what rdmsr reads, `entry` the address of `syscall_entry` and `cpu_data` that of the data.
pub syscall_init : (efer entry cpu_data : ℕ) → List (ℕ × ℕ) × CpuData
syscall_init efer entry cpu_data = (
  (0xC0000080, bit_or efer 1)
      ∷ (0xC0000081, bit_or (bit_or 0 (0x08 * 2 ^ 32)) (0x10 * 2 ^ 48))
      ∷ (0xC0000082, entry)
      ∷ (0xC0000084, bit_or (bit_or (2 ^ 9) (2 ^ 8)) (2 ^ 10))
      ∷ (0xC0000101, 0)
      ∷ (0xC0000102, cpu_data)
      ∷ [],
  record { kernel_stack = 0; user_stack = 0; current_task = 0 },
)

-- `syscall_set_kernel_stack`
pub syscall_set_kernel_stack : ℕ → CpuData → CpuData
syscall_set_kernel_stack stack_top c = record c { kernel_stack = stack_top }

-- What `syscall_handler` does: it returns a value, halts for good, or reading an address is a page
-- fault.
pub data Outcome : Type 0 where
  returns : ℕ → Screen → Outcome
  halts : Screen → Outcome
  faults : (address : ℕ) → Screen → Outcome

-- The loop of SYS_WRITE from byte `i` of `n`, with `left` bytes to go.
pub put_bytes : (mem : ℕ → Option ℕ) (buf n left i : ℕ) → Screen → Outcome
put_bytes mem buf n zero i s = returns n s
put_bytes mem buf n (suc left) i s = elim (mem (add64 buf i)) [
  | none ↦ faults (add64 buf i) s
  | some c ↦ put_bytes mem buf n left (i + 1) (putchar c s)
]

-- `syscall_handler`; 2 ^ 64 - 1 is -1.
pub syscall_handler : (mem : ℕ → Option ℕ) (syscall_num arg1 arg2 arg3 : ℕ) → Screen → Outcome
unfolding put_bytes
syscall_handler mem syscall_num arg1 arg2 arg3 s =
    if syscall_num == 0
    then halts s
    else if syscall_num == 1
    then (if arg1 == 1 then put_bytes mem arg2 arg3 arg3 0 s else returns (2 ^ 64 - 1) s)
    else if syscall_num == 2
    then returns (2 ^ 64 - 1) s
    else if syscall_num == 3
    then returns 0 s
    else returns (2 ^ 64 - 1) s
