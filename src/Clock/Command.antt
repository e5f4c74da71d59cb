-- ===== src/Clock/Command.antt =====
-- kernel/commands/time.c: cmd_time as a whole. The clock behind the ports is a parameter.
use ki_os.Base.{
  ℕ, zero, suc, Option, some, none, List, [], ◌∷◌, ◌++◌, bit_and, ltb, ◌==◌, if◌then◌else◌, ◌>>=◌,
}
use ki_os.Clock.{DateTime, displayed}
use ki_os.Console.Output.{Call, text, dec, putchar, newline}

abbrev pub cmos_addr_port : ℕ
cmos_addr_port = 0x70

abbrev pub cmos_data_port : ℕ
cmos_data_port = 0x71

-- `if (value < 10) vga_putchar('0'); vga_print_dec(value);`
abbrev pub two_digits : ℕ → List Call
two_digits value = (if ltb value 10 then putchar b'0' ∷ [] else []) ++ (dec value ∷ [])

-- The lines of `cmd_time`.
pub time_lines : DateTime → List Call
time_lines t =
    newline
    ∷ text "  Current time (UTC): "
    ∷ text "20"
    ∷ (two_digits t.year
        ++ (putchar b'-'
            ∷ (two_digits t.month
                ++ (putchar b'-'
                    ∷ (two_digits t.day
                        ++ (putchar b' '
                            ∷ (two_digits t.hour
                                ++ (putchar b':'
                                    ∷ (two_digits t.minute
                                        ++ (putchar b':'
                                            ∷ (two_digits t.second
                                                ++ (newline ∷ newline ∷ []))))))))))))

module _ {D : Type 0} (inb : ℕ → D → ℕ × D) (outb : ℕ → ℕ → D → D) where
  -- `cmos_read`
  abbrev pub cmos_read : (reg : ℕ) → D → ℕ × D
  cmos_read reg d = inb cmos_data_port (outb cmos_addr_port reg d)

  -- The loop that waits for the end of an update, for at most `fuel` reads.
  pub wait_update : (fuel : ℕ) → D → Option D
  wait_update zero d = none
  wait_update (suc fuel) d =
      let (status, d') = cmos_read 0x0A d in
      let rest = wait_update fuel d' in if bit_and status 0x80 == 0 then some d' else rest

  -- The six registers in the order of the code, and register B.
  pub read_clock : D → DateTime × ℕ × D
  read_clock d =
      let (second, d₁) = cmos_read 0x00 d in
      let (minute, d₂) = cmos_read 0x02 d₁ in
      let (hour, d₃) = cmos_read 0x04 d₂ in
      let (day, d₄) = cmos_read 0x07 d₃ in
      let (month, d₅) = cmos_read 0x08 d₄ in
      let (year, d₆) = cmos_read 0x09 d₅ in
      let (reg_b, d₇) = cmos_read 0x0B d₆ in
      (
        record {
          second = second;
          minute = minute;
          hour = hour;
          day = day;
          month = month;
          year = year;
        },
        reg_b,
        d₇,
      )

  -- `cmd_time`
  pub cmd_time : (fuel : ℕ) → D → Option (List Call × D)
  unfolding wait_update read_clock time_lines
  cmd_time fuel d = do
    d' ← wait_update fuel d
    let (t, reg_b, d'') = read_clock d' in some (time_lines (displayed reg_b t), d'')
