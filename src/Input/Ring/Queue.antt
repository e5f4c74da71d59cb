-- ===== src/Input/Ring/Queue.antt =====
-- The ring buffer as a queue of at most 255 scancodes.
use ki_os.Base.{
  ℕ, zero, suc, ◌+◌, ◌-◌, ◌%◌, ◌≤◌, ◌<◌, ◌≡◌, ◌≢◌, refl, ap, ap₂, sym, ◌∙◌, not, List, [], ◌∷◌,
  ◌++◌, arith, ltb, ◌==◌, if◌then◌else◌, length, get_or, set, length-set, get_or-set_self,
  get_or-set_ne, Bool-cases, inl, inr,
}
use ki_os.Input.Ring.{Ring, irq_handler, get_scancode, has_scancode, init}

pub record IsValid (r : Ring) : Type 0 where
  pub storage : length r.buffer ≡ 256
  pub read_in : r.read < 256
  pub write_in : r.write < 256

-- How many scancodes wait.
abbrev pub waiting : Ring → ℕ
waiting r = (r.write + 256 - r.read) % 256

-- The `n` bytes from index `i` on, round the buffer.
pub collect : List ℕ → ℕ → ℕ → List ℕ
collect buf i zero = []
collect buf i (suc n) = get_or buf i 0 ∷ collect buf ((i + 1) % 256) n

-- The scancodes that wait, oldest first.
pub contents : Ring → List ℕ
contents r = collect r.buffer r.read (waiting r)

length-collect : (buf : List ℕ) (i n : ℕ) → length (collect buf i n) ≡ n
unfolding collect
length-collect buf i zero = refl
length-collect buf i (suc n) = ap suc (length-collect buf ((i + 1) % 256) n)

-- One more byte stands at the end.
collect-last :
    (buf : List ℕ) (i n : ℕ)
    → i < 256
    → collect buf i (suc n) ≡ collect buf i n ++ (get_or buf ((i + n) % 256) 0 ∷ [])
unfolding collect
collect-last buf i zero h = ap (λ j. get_or buf j 0 ∷ []) (omega arith)
collect-last buf i (suc n) h =
    ap (λ l. get_or buf i 0 ∷ l)
      (collect-last buf ((i + 1) % 256) n (omega arith)
        ∙ ap (λ j. collect buf ((i + 1) % 256) n ++ (get_or buf j 0 ∷ [])) (omega arith))

-- A write past the bytes collected does not show.
collect-set :
    (buf : List ℕ) (v i n m : ℕ)
    → i < 256
    → n ≤ m
    → m < 256
    → collect (set buf ((i + m) % 256) v) i n ≡ collect buf i n
unfolding collect
collect-set buf v i zero m hi le lt = refl
collect-set buf v i (suc n) m hi le lt =
    ap₂ ◌∷◌ (get_or-set_ne buf ((i + m) % 256) i v 0 (λ e. absurd (omega arith))) (
      ap (λ j. collect (set buf j v) ((i + 1) % 256) n) (omega arith)
      ∙ collect-set buf v ((i + 1) % 256) n (m - 1) (omega arith) (omega arith) (omega arith))

-- A queue of at most 255 scancodes that drops what does not fit.
unfoldable pub push : List ℕ → ℕ → List ℕ
push q c = if ltb (length q) 255 then q ++ (c ∷ []) else q

-- Taking from an empty queue gives 0.
unfoldable pub pop : List ℕ → ℕ × List ℕ
pop [] = (0, [])
pop (c ∷ q) = (c, q)

pub init-IsValid : (r : Ring) → length r.buffer ≡ 256 → IsValid (init r) × (contents (init r) ≡ [])
unfolding init contents collect
init-IsValid r h = (record { storage = h; read_in = omega arith; write_in = omega arith }, refl)

module _ {r : Ring} (valid : IsValid r) where
  pub length-contents : length (contents r) ≡ waiting r
  unfolding contents
  length-contents = length-collect r.buffer r.read (waiting r)

  end_of : (r.read + waiting r) % 256 ≡ r.write
  end_of = omega (arith, valid.read_in, valid.write_in)

  -- The state after a scancode was stored.
  stored : ℕ → Ring
  stored c = record r { buffer = set r.buffer r.write c; write = (r.write + 1) % 256 }

  contents-stored : (c : ℕ) → waiting r < 255 → contents (stored c) ≡ contents r ++ (c ∷ [])
  unfolding contents stored
  contents-stored c room =
      ap (collect (set r.buffer r.write c) r.read) one_more
      ∙ collect-last (set r.buffer r.write c) r.read (waiting r) valid.read_in
      ∙ ap₂ (λ l x. l ++ (x ∷ [])) old new
    where
      one_more : (((r.write + 1) % 256) + 256 - r.read) % 256 ≡ suc (waiting r)
      one_more = omega (arith, valid.read_in, valid.write_in)

      old :
          collect (set r.buffer r.write c) r.read (waiting r) ≡ collect r.buffer r.read (waiting r)
      old =
          ap (λ j. collect (set r.buffer j c) r.read (waiting r)) (sym end_of)
          ∙ collect-set r.buffer c r.read (waiting r) (waiting r) valid.read_in (omega arith)
              (omega arith)

      new : get_or (set r.buffer r.write c) ((r.read + waiting r) % 256) 0 ≡ c
      new =
          ap (λ j. get_or (set r.buffer r.write c) j 0) end_of
          ∙ get_or-set_self r.buffer r.write c 0 (omega (arith, valid.storage, valid.write_in))

  stored-IsValid : (c : ℕ) → IsValid (stored c)
  unfolding stored
  stored-IsValid c = record {
    storage = length-set r.buffer r.write c ∙ valid.storage;
    read_in = valid.read_in;
    write_in = omega arith;
  }

  -- The interrupt handler keeps the invariant and pushes the scancode: it is appended if fewer than
  -- 255 wait, and dropped otherwise.
  pub irq_handler_lem :
      (c : ℕ) → IsValid (irq_handler c r) × (contents (irq_handler c r) ≡ push (contents r) c)
  unfolding irq_handler push
  irq_handler_lem c = elim (Bool-cases ((r.write + 1) % 256 == r.read)) [
    | inl full ↦ rw full (valid, ground (arith, length-contents, valid.read_in, valid.write_in))
    | inr room ↦ rw room (
      unfold stored in stored-IsValid c,
      unfold stored in
          contents-stored c (ground (arith, valid.read_in, valid.write_in))
          ∙ ground (arith, length-contents, valid.read_in, valid.write_in),
    )
  ]

  pub contents_empty : r.read ≡ r.write → contents r ≡ []
  unfolding contents collect
  contents_empty e = ap (collect r.buffer r.read) {y = 0} (omega (arith, valid.read_in))

  -- The oldest scancode stands at the read index; advancing the index drops it.
  pub contents_cons :
      r.read ≢ r.write
      → contents r ≡ get_or r.buffer r.read 0 ∷ contents (record r { read = (r.read + 1) % 256 })
  unfolding contents collect
  contents_cons ne =
      ap (collect r.buffer r.read) {y = suc ((r.write + 256 - (r.read + 1) % 256) % 256)}
        (omega (arith, valid.read_in, valid.write_in))

  pub advanced-IsValid : IsValid (record r { read = (r.read + 1) % 256 })
  advanced-IsValid = record {
    storage = valid.storage;
    read_in = omega arith;
    write_in = valid.write_in;
  }

  -- A reader keeps the invariant and pops the oldest scancode, or gets 0 if none waits.
  pub get_scancode_lem :
      IsValid (get_scancode r).1
      × (((get_scancode r).0, contents (get_scancode r).1) ≡ pop (contents r))
  unfolding get_scancode pop
  get_scancode_lem = elim (Bool-cases (r.read == r.write)) [
    | inl e ↦ rw e (valid, rw (contents_empty (ground arith)))
    | inr e ↦ rw e (advanced-IsValid, rw (contents_cons (ground arith)))
  ]

  -- `kb_irq_has_scancode` tells whether a scancode waits.
  pub has_scancode_lem : has_scancode r ≡ not (length (contents r) == 0)
  unfolding has_scancode
  has_scancode_lem = ground (arith, length-contents, valid.read_in, valid.write_in)
