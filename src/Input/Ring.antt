-- ===== src/Input/Ring.antt =====
-- kernel/keyboard_irq.c: the ring buffer between the interrupt handler and its readers.
pub mod Queue
pub mod Interleave
mod Tests
use ki_os.Base.{
  ℕ, zero, suc, ◌+◌, ◌%◌, Bool, not, Option, none, some, List, [], ◌∷◌, ◌==◌, if◌then◌else◌, get_or,
  set,
}
use ki_os.Input.Keyboard.{Modifiers, scancode_to_ascii}

-- `kb_buffer`, `kb_buffer_read` and `kb_buffer_write`
pub record Ring : Type 0 where
  pub buffer : List ℕ
  pub read : ℕ
  pub write : ℕ

abbrev pub buffer_size : ℕ
buffer_size = 256

-- `keyboard_irq_handler`, with the byte that it reads from the data port.
unfoldable pub irq_handler : ℕ → Ring → Ring
irq_handler scancode r =
    let next_write = (r.write + 1) % buffer_size in
    if not (next_write == r.read)
    then record r { buffer = set r.buffer r.write scancode; write = next_write }
    else r

unfoldable pub has_scancode : Ring → Bool
has_scancode r = not (r.read == r.write)

-- `kb_irq_get_scancode`: 0 if the buffer is empty.
unfoldable pub get_scancode : Ring → ℕ × Ring
get_scancode r =
    if r.read == r.write
    then (0, r)
    else (get_or r.buffer r.read 0, record r { read = (r.read + 1) % buffer_size })

-- The reset of `keyboard_irq_init`.
unfoldable pub init : Ring → Ring
init r = record r { read = 0; write = 0 }

-- `kb_try_getchar_irq`
pub try_getchar : Modifiers × Ring → ℕ × Modifiers × Ring
unfolding has_scancode get_scancode
try_getchar (m, r) =
    if not (has_scancode r)
    then (0, m, r)
    else let (scancode, r') = get_scancode r in
      let (c, m') = scancode_to_ascii scancode m in (c, m', r')

-- `kb_getchar_irq`, while no interrupt comes: `none` where it would wait for one.
pub getchar : ℕ → Modifiers × Ring → Option (ℕ × Modifiers × Ring)
unfolding has_scancode get_scancode
getchar zero s = none
getchar (suc fuel) (m, r) =
    let (scancode, r') = get_scancode r in
    let (c, m') = scancode_to_ascii scancode m in
    let rest = getchar fuel (m', r') in
    if not (has_scancode r) then none else if not (c == 0) then some (c, m', r') else rest
