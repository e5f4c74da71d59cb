-- ===== src/Clock.antt =====
-- kernel/commands/time.c: the date and time of the CMOS clock. The bytes of its registers are
-- parameters.
pub mod Command
mod Tests
use ki_os.Base.{
  ℕ, ◌+◌, ◌-◌, ◌*◌, ◌/◌, ◌%◌, ◌^◌, ◌≤◌, ◌<◌, ◌≡◌, ◌≢◌, ◌⊎◌, inl, inr, refl, ap, sym, ◌∙◌, bit_and,
  bit_or, Bool, true, false, not, ◌&&◌, ◌==◌, if◌then◌else◌, arith, u8, leb, ltb, Bool-cases, ==_ne,
  ==_iff,
}
use ki_os.Base.Bits.{all_below, all_below_sound}

-- The six registers of a date and time.
pub record DateTime : Type 0 where
  pub second : ℕ
  pub minute : ℕ
  pub hour : ℕ
  pub day : ℕ
  pub month : ℕ
  pub year : ℕ

-- `bcd_to_bin`
abbrev pub bcd_to_bin : ℕ → ℕ
bcd_to_bin bcd = u8 (bcd / 2 ^ 4 * 10 + bit_and bcd 0x0F)

-- The bytes that `cmd_time` prints, from what it reads; `reg_b` is the clock's status register B.
unfoldable pub displayed : (reg_b : ℕ) → DateTime → DateTime
displayed reg_b t =
    let decoded : DateTime =
      if bit_and reg_b 0x04 == 0
      then (record {
        second = bcd_to_bin t.second;
        minute = bcd_to_bin t.minute;
        hour = bit_or (bcd_to_bin (bit_and t.hour 0x7F)) (bit_and t.hour 0x80);
        day = bcd_to_bin t.day;
        month = bcd_to_bin t.month;
        year = bcd_to_bin t.year;
      })
      else t in
    if (bit_and reg_b 0x02 == 0) && not (bit_and decoded.hour 0x80 == 0)
    then record decoded { hour = u8 ((bit_and decoded.hour 0x7F + 12) % 24) }
    else decoded

-- A number below 100 as two decimal digits.
abbrev pub to_bcd : ℕ → ℕ
to_bcd n = n / 10 * 16 + n % 10

bcd_row : ℕ → Bool
bcd_row n = bcd_to_bin (to_bcd n) == n

bcd_table : all_below 100 bcd_row ≡ true
unfolding all_below bcd_row
bcd_table = refl

-- `bcd_to_bin` reads back every number below 100.
pub bcd_to_bin-to_bcd : (n : ℕ) → n < 100 → bcd_to_bin (to_bcd n) ≡ n
unfolding bcd_row
bcd_to_bin-to_bcd n h = ground (arith, all_below_sound 100 bcd_row n bcd_table h)

-- What the registers hold for a date and time in BCD, with 24 hours.
abbrev pub bcd_registers : DateTime → DateTime
bcd_registers t = record {
  second = to_bcd t.second;
  minute = to_bcd t.minute;
  hour = to_bcd t.hour;
  day = to_bcd t.day;
  month = to_bcd t.month;
  year = to_bcd t.year;
}

-- The numbers of a date and time are in their ranges.
pub record InRange (t : DateTime) : Type 0 where
  pub second : t.second < 60
  pub minute : t.minute < 60
  pub hour : t.hour < 24
  pub day : t.day < 32
  pub month : t.month < 13
  pub year : t.year < 100

-- The decoding of the hour register.
abbrev decoded_hour : ℕ → ℕ
decoded_hour r = bit_or (bcd_to_bin (bit_and r 0x7F)) (bit_and r 0x80)

hour_row : ℕ → Bool
hour_row h = decoded_hour (to_bcd h) == h

hour_table : all_below 24 hour_row ≡ true
unfolding all_below hour_row
hour_table = refl

hour_24 : (h : ℕ) → h < 24 → decoded_hour (to_bcd h) ≡ h
unfolding hour_row
hour_24 h lt = ground (arith, all_below_sound 24 hour_row h hour_table lt)

-- From a clock in BCD with 24 hours, cmd_time displays the date and time that the registers hold.
pub displayed-bcd :
    (reg_b : ℕ) (t : DateTime)
    → bit_and reg_b 0x04 ≡ 0
    → bit_and reg_b 0x02 ≢ 0
    → InRange t
    → displayed reg_b (bcd_registers t) ≡ t
unfolding displayed
displayed-bcd reg_b t bcd full_day ok =
    rw (bcd, ==_ne (bit_and reg_b 0x02) 0 full_day)
      (rw
        (
          bcd_to_bin-to_bcd t.second (omega (arith, ok.second)),
          bcd_to_bin-to_bcd t.minute (omega (arith, ok.minute)),
          bcd_to_bin-to_bcd t.day (omega (arith, ok.day)),
          bcd_to_bin-to_bcd t.month (omega (arith, ok.month)),
          bcd_to_bin-to_bcd t.year (omega (arith, ok.year)),
          hour_24 t.hour ok.hour,
        )
        refl)

-- The hour byte of a clock with 12 hours: 12 at midnight and at noon, and the top bit from noon on.
abbrev pub twelve_hours : ℕ → ℕ
twelve_hours h = to_bcd (if h % 12 == 0 then 12 else h % 12) + (if leb 12 h then 0x80 else 0)

abbrev shown_hour : ℕ → ℕ
shown_hour d = if not (bit_and d 0x80 == 0) then u8 ((bit_and d 0x7F + 12) % 24) else d

twelve_row : ℕ → Bool
twelve_row h =
    shown_hour (decoded_hour (twelve_hours h)) == (if h % 12 == 0 then (h + 12) % 24 else h)

twelve_table : all_below 24 twelve_row ≡ true
unfolding all_below twelve_row
twelve_table = refl

shown_twelve :
    (h : ℕ)
    → h < 24
    → shown_hour (decoded_hour (twelve_hours h)) ≡ (if h % 12 == 0 then (h + 12) % 24 else h)
unfolding twelve_row
shown_twelve h lt = (==_iff _ _).0 (all_below_sound 24 twelve_row h twelve_table lt)

displayed_hour :
    (reg_b : ℕ) (t : DateTime)
    → bit_and reg_b 0x04 ≡ 0
    → bit_and reg_b 0x02 ≡ 0
    → (displayed reg_b t).hour ≡ shown_hour (decoded_hour t.hour)
unfolding displayed
displayed_hour reg_b t bcd half_day =
    rw (bcd, half_day)
      (elim (Bool-cases (not (bit_and (decoded_hour t.hour) 0x80 == 0))) [
        | inl afternoon ↦ rw afternoon refl
        | inr morning ↦ rw morning refl
      ])

-- From a clock in BCD with 12 hours, for an hour of the day, cmd_time displays the right hour, but
-- for midnight, which it displays as 12, and noon, which it displays as 0.
pub displayed-twelve :
    (reg_b h : ℕ) (t : DateTime)
    → bit_and reg_b 0x04 ≡ 0
    → bit_and reg_b 0x02 ≡ 0
    → h < 24
    → t.hour ≡ twelve_hours h
    → (displayed reg_b t).hour ≡ (if h % 12 == 0 then (h + 12) % 24 else h)
displayed-twelve reg_b h t bcd half_day lt reads =
    displayed_hour reg_b t bcd half_day
    ∙ ap (λ r. shown_hour (decoded_hour r)) reads
    ∙ shown_twelve h lt
