-- ===== src/Input/Keyboard/Poll.antt =====
-- kernel/keyboard.h: polling the keyboard controller. The controller is a parameter: its state, and
-- what a port read gives.
use ki_os.Base.{
  ℕ, zero, suc, ◌<◌, ◌≡◌, inl, inr, Bool, true, false, not, Option, none, some, arith, ◌==◌,
  if◌then◌else◌, bit_and, Bool-cases,
}
use ki_os.Input.Keyboard.{Modifiers, scancode_to_ascii}

abbrev pub data_port : ℕ
data_port = 0x60

abbrev pub status_port : ℕ
status_port = 0x64

module _ {D : Type 0} (inb : ℕ → D → ℕ × D) where
  -- `inb(KB_STATUS_PORT) & KB_STATUS_OUTPUT_FULL`
  abbrev pub output_full : D → Bool
  output_full d = not (bit_and (inb status_port d).0 1 == 0)

  -- The loop of `kb_wait_output`, with `timeout` rounds to go.
  pub wait : ℕ → D → Bool × D
  wait zero d = (false, d)
  wait (suc timeout) d =
      let (found, d') = wait timeout (inb status_port d).1 in
      if output_full d then (true, (inb status_port d).1) else (found, d')

  -- `kb_wait_output`
  pub wait_output : D → Bool × D
  wait_output d = wait 100000 d

  -- `kb_read_scancode`
  pub read_scancode : D → ℕ × D
  read_scancode d = let (ready, d') = wait_output d in if ready then inb data_port d' else (0, d')

  -- `kb_try_read_scancode`
  pub try_read_scancode : D → ℕ × D
  try_read_scancode d =
      let d' = (inb status_port d).1 in if output_full d then inb data_port d' else (0, d')

  -- `kb_getchar`, for at most `fuel` scancodes.
  pub getchar : ℕ → Modifiers × D → Option (ℕ × Modifiers × D)
  getchar zero s = none
  getchar (suc fuel) (m, d) =
      let (scancode, d') = read_scancode d in
      let (c, m') = scancode_to_ascii scancode m in
      let rest = getchar fuel (m', d') in if not (c == 0) then some (c, m', d') else rest

  -- `kb_try_getchar`
  pub try_getchar : Modifiers × D → ℕ × Modifiers × D
  try_getchar (m, d) =
      let (scancode, d') = try_read_scancode d in
      if scancode == 0
      then (0, m, d')
      else (let (c, m') = scancode_to_ascii scancode m in (c, m', d'))

  -- The controller after `i` reads of the status port.
  pub polled : ℕ → D → D
  polled zero d = d
  polled (suc i) d = polled i (inb status_port d).1

  -- The first round whose status has the output bit, or none of them.
  pub data Waited (n : ℕ) (d : D) : Bool × D → Type 0 where
    ready :
        (i : ℕ)
        → i < n
        → output_full (polled i d) ≡ true
        → ((j : ℕ) → j < i → output_full (polled j d) ≡ false)
        → Waited n d (true, polled (suc i) d)
    timed_out :
        ((j : ℕ) → j < n → output_full (polled j d) ≡ false) → Waited n d (false, polled n d)

  earlier :
      (d : D) (i : ℕ)
      → output_full d ≡ false
      → ((j : ℕ) → j < i → output_full (polled j (inb status_port d).1) ≡ false)
      → (j : ℕ) → j < suc i
      → output_full (polled j d) ≡ false
  unfolding polled
  earlier d i unset rest zero lt = unset
  earlier d i unset rest (suc j) lt = rest j (omega arith)

  later :
      (n : ℕ) (d : D) {r : Bool × D}
      → output_full d ≡ false
      → Waited n (inb status_port d).1 r
      → Waited (suc n) d r
  unfolding polled
  later n d unset (ready i lt here before) =
      ready (suc i) (omega arith) here (earlier d i unset before)
  later n d unset (timed_out never) = timed_out (earlier d n unset never)

  -- kb_wait_output reads the status port until the output bit is set or the rounds are used up, and
  -- tells which; the controller is read no more often than that.
  pub wait_lem : (n : ℕ) (d : D) → Waited n d (wait n d)
  unfolding wait polled
  wait_lem zero d = timed_out (λ j lt. absurd (omega arith))
  wait_lem (suc n) d = elim (Bool-cases (output_full d)) [
    | inl full ↦ rw full (ready 0 (omega arith) full (λ j lt. absurd (omega arith)))
    | inr unset ↦ rw unset (later n d unset (wait_lem n (inb status_port d).1))
  ]
