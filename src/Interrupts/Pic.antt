-- ===== src/Interrupts/Pic.antt =====
-- kernel/pic.c: the two interrupt controllers. The hardware behind the ports is a parameter: its
-- state, and what `inb` and `outb` do to it.
pub mod Chip
pub mod Masks
use ki_os.Base.{ℕ, ◌+◌, ◌-◌, ◌^◌, bit_and, bit_or, ltb, leb, if◌then◌else◌, u8}

abbrev pub pic1_command : ℕ
pic1_command = 0x20

abbrev pub pic1_data : ℕ
pic1_data = 0x21

abbrev pub pic2_command : ℕ
pic2_command = 0xA0

abbrev pub pic2_data : ℕ
pic2_data = 0xA1

abbrev pub pic_eoi : ℕ
pic_eoi = 0x20

-- `ICW1_INIT | ICW1_ICW4`
abbrev pub icw1 : ℕ
icw1 = bit_or 0x10 0x01

abbrev pub icw4_8086 : ℕ
icw4_8086 = 0x01

-- The port and the bit of an IRQ line.
abbrev pub port_of : ℕ → ℕ
port_of irq_line = if ltb irq_line 8 then pic1_data else pic2_data

abbrev pub bit_of : ℕ → ℕ
bit_of irq_line = if ltb irq_line 8 then irq_line else irq_line - 8

module _ {D : Type 0} (inb : ℕ → D → ℕ × D) (outb : ℕ → ℕ → D → D) where
  -- `io_wait` writes to the unused port 0x80.
  abbrev pub io_wait : D → D
  io_wait d = outb 0x80 0 d

  -- One write of the initialization, and its wait.
  abbrev pub send : ℕ → ℕ → D → D
  send port value d = io_wait (outb port value d)

  -- `pic_remap`
  pub pic_remap : (offset1 offset2 : ℕ) → D → D
  pic_remap offset1 offset2 d =
      let (a1, d₁) = inb pic1_data d in
      let (a2, d₂) = inb pic2_data d₁ in
      let d₃ = send pic2_command icw1 (send pic1_command icw1 d₂) in
      let d₄ = send pic2_data (u8 offset2) (send pic1_data (u8 offset1) d₃) in
      let d₅ = send pic2_data 0x02 (send pic1_data 0x04 d₄) in
      let d₆ = send pic2_data icw4_8086 (send pic1_data icw4_8086 d₅) in
      outb pic2_data a2 (outb pic1_data a1 d₆)

  -- `pic_disable`
  pub pic_disable : D → D
  pic_disable d = outb pic2_data 0xFF (outb pic1_data 0xFF d)

  -- `pic_send_eoi`
  pub pic_send_eoi : ℕ → D → D
  pic_send_eoi irq d =
      outb pic1_command pic_eoi (if leb 8 irq then outb pic2_command pic_eoi d else d)

  -- `pic_set_mask`
  pub pic_set_mask : ℕ → D → D
  pic_set_mask irq_line d =
      let (mask, d') = inb (port_of irq_line) d in
      outb (port_of irq_line) (u8 (bit_or mask (2 ^ bit_of irq_line))) d'

  -- `pic_clear_mask`; the complement is of an `int`, and the byte `value` keeps its low bits.
  pub pic_clear_mask : ℕ → D → D
  pic_clear_mask irq_line d =
      let (mask, d') = inb (port_of irq_line) d in
      outb (port_of irq_line) (u8 (bit_and mask (2 ^ 32 - 1 - 2 ^ bit_of irq_line))) d'
