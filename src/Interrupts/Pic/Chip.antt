-- ===== src/Interrupts/Pic/Chip.antt =====
-- The interrupt controllers behind the ports of kernel/pic.c: what the data sheet of the 8259A says of
-- its initialization words and its mask.
use ki_os.Base.{
  ℕ, ◌*◌, ◌/◌, ◌%◌, ◌≡◌, refl, ap, ◌∙◌, Bool, true, false, not, List, [], ◌∷◌, ◌==◌, if◌then◌else◌,
}
use ki_os.Base.Bits.{has_bit}
use ki_os.Interrupts.Pic.{pic_remap}

-- Which word a controller takes next at its data port.
pub data Stage : Type 0 where
  ready expects_icw2 expects_icw3 expects_icw4 : Stage

pub record Chip : Type 0 where
  pub stage : Stage
  pub cascaded : Bool
  pub with_icw4 : Bool
  pub vectors : ℕ
  pub mask : ℕ

-- ICW1, with bit 4 set, starts the initialization and clears the mask.
abbrev on_command : ℕ → Chip → Chip
on_command value c =
    if has_bit value 4
    then record {
      stage = expects_icw2;
      cascaded = not (has_bit value 1);
      with_icw4 = has_bit value 0;
      vectors = c.vectors;
      mask = 0;
    }
    else c

abbrev last_word : Chip → Stage
last_word c = if c.with_icw4 then expects_icw4 else ready

-- ICW2 has the first vector; once initialized, the data port is the mask.
abbrev at_stage : Stage → ℕ → Chip → Chip
at_stage ready value c = record c { mask = value % 256 }
at_stage expects_icw2 value c = record c {
  vectors = value % 256 / 8 * 8;
  stage = if c.cascaded then expects_icw3 else last_word c;
}
at_stage expects_icw3 value c = record c { stage = last_word c }
at_stage expects_icw4 value c = record c { stage = ready }

-- The ports of the two controllers; `true` is the second.
abbrev pub command_port : Bool → ℕ
command_port second = if second then 0xA0 else 0x20

abbrev pub data_port : Bool → ℕ
data_port second = if second then 0xA1 else 0x21

-- What a write to a port does to a controller.
abbrev pub on_write : Bool → (port value : ℕ) → Chip → Chip
on_write second port value c =
    if port == command_port second
    then on_command value c
    else if port == data_port second
    then at_stage c.stage value c
    else c

-- The ports have the two controllers behind them: a read of a data port gives the mask and changes
-- nothing.
pub record IsPics {D : Type 0} (inb : ℕ → D → ℕ × D) (outb : ℕ → ℕ → D → D) : Type 0 where
  pub chip : Bool → D → Chip
  pub write :
      (second : Bool) (port value : ℕ) (d : D)
      → chip second (outb port value d) ≡ on_write second port value (chip second d)
  pub read : (second : Bool) (d : D) → (inb (data_port second) d).0 ≡ (chip second d).mask % 256
  pub read_same : (second : Bool) (d : D) → (inb (data_port second) d).1 ≡ d

module _ {D : Type 0} {inb : ℕ → D → ℕ × D} {outb : ℕ → ℕ → D → D} (pics : IsPics inb outb) where
  -- Both controllers are initialized, with the vectors of the lines from 32 on.
  pub record IsRemapped (d : D) : Type 0 where
    pub initialized : (second : Bool) → (pics.chip second d).stage ≡ ready
    pub first_vectors : (pics.chip false d).vectors ≡ 32
    pub second_vectors : (pics.chip true d).vectors ≡ 40

  -- Some writes, one after the other.
  writes : List (ℕ × ℕ) → D → D
  writes [] d = d
  writes ((port, value) ∷ ps) d = writes ps (outb port value d)

  on_writes : Bool → List (ℕ × ℕ) → Chip → Chip
  on_writes second [] c = c
  on_writes second ((port, value) ∷ ps) c = on_writes second ps (on_write second port value c)

  chip-writes :
      (second : Bool) (ps : List (ℕ × ℕ)) (d : D)
      → pics.chip second (writes ps d) ≡ on_writes second ps (pics.chip second d)
  unfolding writes on_writes
  chip-writes second [] d = refl
  chip-writes second ((port, value) ∷ ps) d =
      chip-writes second ps (outb port value d)
      ∙ ap (on_writes second ps) (pics.write second port value d)

  -- The writes of pic_remap, given the two masks.
  abbrev remap_writes : ℕ → ℕ → List (ℕ × ℕ)
  remap_writes a1 a2 =
      (0x20, 0x11)
      ∷ (0x80, 0)
      ∷ (0xA0, 0x11)
      ∷ (0x80, 0)
      ∷ (0x21, 32)
      ∷ (0x80, 0)
      ∷ (0xA1, 40)
      ∷ (0x80, 0)
      ∷ (0x21, 4)
      ∷ (0x80, 0)
      ∷ (0xA1, 2)
      ∷ (0x80, 0)
      ∷ (0x21, 1)
      ∷ (0x80, 0)
      ∷ (0xA1, 1)
      ∷ (0x80, 0)
      ∷ (0x21, a1)
      ∷ (0xA1, a2)
      ∷ []

  pub pic_remap-IsRemapped : (d : D) → IsRemapped (pic_remap inb outb 32 40 d)
  unfolding pic_remap writes on_writes
  pic_remap-IsRemapped d =
      let (a1, d₁) = inb 0x21 d in
      let (a2, d₂) = inb 0xA1 d₁ in
      record {
        initialized = λ second. chosen second a1 a2 d₂;
        first_vectors = ap (λ (c : Chip). c.vectors) (chip-writes false (remap_writes a1 a2) d₂);
        second_vectors = ap (λ (c : Chip). c.vectors) (chip-writes true (remap_writes a1 a2) d₂);
      }
    where
      chosen :
          (second : Bool) (a1 a2 : ℕ) (d : D)
          → (pics.chip second (writes (remap_writes a1 a2) d)).stage ≡ ready
      chosen false a1 a2 d = ap (λ (c : Chip). c.stage) (chip-writes false (remap_writes a1 a2) d)
      chosen true a1 a2 d = ap (λ (c : Chip). c.stage) (chip-writes true (remap_writes a1 a2) d)
