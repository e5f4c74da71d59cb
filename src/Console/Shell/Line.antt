-- ===== src/Console/Shell/Line.antt =====
-- The line editor of shell_readline.
use ki_os.Base.{
  Bool, true, false, ℕ, zero, suc, ◌+◌, ◌-◌, ◌≤◌, ◌<◌, ◌≡◌, ◌≢◌, inl, inr, refl, ap, sym, ◌∙◌, ◌&&◌,
  some, List, [], ◌∷◌, ◌++◌, All, arith, ltb, ◌==◌, if◌then◌else◌, length, get_or, set, take,
  length-set, get_or-set_self, Bool-cases, ==_ne,
}
use mathlib.Core.Path.{subst}
use ki_os.Text.Compare.{IsChar}
use ki_os.Console.Vga.{Screen, is_printable}
use ki_os.Console.Shell.{Shell, c_string, press, clear_line, finish, read_keys, readline}

-- The line without its last character.
pub drop_last : List ℕ → List ℕ
drop_last [] = []
drop_last (x ∷ []) = []
drop_last (x ∷ y ∷ xs) = x ∷ drop_last (y ∷ xs)

-- What a key does to a line of at most 255 characters.
unfoldable pub edit : ℕ → List ℕ → List ℕ
edit c line =
    if c == 8
    then drop_last line
    else if c == 27
    then []
    else if is_printable c && ltb (length line) 255
    then line ++ (c ∷ [])
    else line

pub edit_all : List ℕ → List ℕ → List ℕ
edit_all [] line = line
edit_all (c ∷ cs) line = edit_all cs (edit c line)

-- The buffer's first characters, up to the position.
abbrev pub line_of : Shell → List ℕ
line_of s = take s.buffer_pos s.buffer

abbrev NonZero : ℕ → Type 0
NonZero c = c ≢ 0

pub record IsEditing (s : Shell) : Type 0 where
  pub size : length s.buffer ≡ 256
  pub position : s.buffer_pos ≤ 255
  pub terminated : get_or s.buffer s.buffer_pos 0 ≡ 0
  pub characters : All NonZero (line_of s)

take-set : (xs : List ℕ) (n i v : ℕ) → n ≤ i → take n (set xs i v) ≡ take n xs
take-set xs zero i v h = refl
take-set [] (suc n) i v h = refl
take-set (x ∷ xs) (suc n) zero v h = absurd (omega arith)
take-set (x ∷ xs) (suc n) (suc i) v h = ap (λ l. x ∷ l) (take-set xs n i v (omega arith))

take-set_last :
    (xs : List ℕ) (n v : ℕ) → n < length xs → take (suc n) (set xs n v) ≡ take n xs ++ (v ∷ [])
take-set_last [] n v h = absurd (omega arith)
take-set_last (x ∷ xs) zero v h = refl
take-set_last (x ∷ xs) (suc n) v h = ap (λ l. x ∷ l) (take-set_last xs n v (omega arith))

drop_last-take : (xs : List ℕ) (n : ℕ) → suc n ≤ length xs → drop_last (take (suc n) xs) ≡ take n xs
unfolding drop_last
drop_last-take [] n h = absurd (omega arith)
drop_last-take (x ∷ xs) zero h = refl
drop_last-take (x ∷ []) (suc n) h = absurd (omega arith)
drop_last-take (x ∷ y ∷ xs) (suc n) h = ap (λ l. x ∷ l) (drop_last-take (y ∷ xs) n (omega arith))

length-line : (xs : List ℕ) (n : ℕ) → n ≤ length xs → length (take n xs) ≡ n
length-line xs zero h = refl
length-line [] (suc n) h = absurd (omega arith)
length-line (x ∷ xs) (suc n) h = ap suc (length-line xs n (omega arith))

All-take : (xs : List ℕ) (n : ℕ) → All NonZero (take (suc n) xs) → All NonZero (take n xs)
All-take xs zero h = tt
All-take [] (suc n) h = tt
All-take (x ∷ xs) (suc n) h = (h.0, All-take xs n h.1)

All-snoc : (xs : List ℕ) (v : ℕ) → NonZero v → All NonZero xs → All NonZero (xs ++ (v ∷ []))
All-snoc [] v hv h = (hv, tt)
All-snoc (x ∷ xs) v hv h = (h.0, All-snoc xs v hv h.1)

-- The string of a buffer ends at its first 0.
c_string-take :
    (xs : List ℕ) (n : ℕ)
    → n < length xs
    → get_or xs n 0 ≡ 0
    → All NonZero (take n xs)
    → c_string xs ≡ take n xs
unfolding c_string
c_string-take [] n h e nz = absurd (omega arith)
c_string-take (x ∷ xs) zero h e nz = rw e refl
c_string-take (x ∷ xs) (suc n) h e nz =
    rw (==_ne x 0 nz.0) (ap (λ l. x ∷ l) (c_string-take xs n (omega arith) e nz.1))

edited :
    (s : Shell) (buf : List ℕ) (pos : ℕ) (line : List ℕ)
    → length buf ≡ 256
    → pos ≤ 255
    → get_or buf pos 0 ≡ 0
    → take pos buf ≡ line
    → All NonZero line
    → IsEditing (record s { buffer = buf; buffer_pos = pos }) × (take pos buf ≡ line)
edited s buf pos line size position terminated same nz = (
  record {
    size = size;
    position = position;
    terminated = terminated;
    characters = subst (All NonZero) (sym same) nz;
  },
  same,
)

start_line : (buf : List ℕ) (pos : ℕ) → pos ≡ 0 → take pos buf ≡ drop_last (take pos buf)
unfolding drop_last
start_line buf pos e = subst (λ n. take n buf ≡ drop_last (take n buf)) (sym e) refl

backspace :
    (s : Shell)
    → IsEditing s
    → 0 < s.buffer_pos
    → IsEditing
        (record s { buffer = set s.buffer (s.buffer_pos - 1) 0; buffer_pos = s.buffer_pos - 1 })
      × (take (s.buffer_pos - 1) (set s.buffer (s.buffer_pos - 1) 0) ≡ drop_last (line_of s))
backspace s ok some_char =
    let p = s.buffer_pos - 1 in
    let e : suc p ≡ s.buffer_pos = omega arith in
    let shorter : drop_last (line_of s) ≡ take p s.buffer =
      sym (ap (λ n. drop_last (take n s.buffer)) e)
      ∙ drop_last-take s.buffer p (omega (arith, ok.size, ok.position)) in
    edited s (set s.buffer p 0) p (drop_last (line_of s)) (length-set s.buffer p 0 ∙ ok.size)
      (omega (arith, ok.position))
      (get_or-set_self s.buffer p 0 0 (omega (arith, ok.size, ok.position)))
      (take-set s.buffer p p 0 (omega arith) ∙ sym shorter)
      (subst (All NonZero) (sym shorter)
        (All-take s.buffer p (subst (λ n. All NonZero (take n s.buffer)) (sym e) ok.characters)))

append :
    (s : Shell) (c : ℕ)
    → IsEditing s
    → c ≢ 0
    → s.buffer_pos < 255
    → IsEditing (record s {
      buffer = set (set s.buffer s.buffer_pos c) (s.buffer_pos + 1) 0;
      buffer_pos = s.buffer_pos + 1;
    })
      × (take (s.buffer_pos + 1) (set (set s.buffer s.buffer_pos c) (s.buffer_pos + 1) 0)
          ≡ line_of s ++ (c ∷ []))
append s c ok nz room =
    let p = s.buffer_pos in
    edited s (set (set s.buffer p c) (p + 1) 0) (p + 1) (line_of s ++ (c ∷ []))
      (length-set _ (p + 1) 0 ∙ length-set s.buffer p c ∙ ok.size) (omega (arith, room))
      (get_or-set_self (set s.buffer p c) (p + 1) 0 0
        (omega (arith, length-set s.buffer p c, ok.size, room)))
      (take-set (set s.buffer p c) (p + 1) (p + 1) 0 (omega arith)
        ∙ ap (λ n. take n (set s.buffer p c)) {y = suc p} (omega arith)
        ∙ take-set_last s.buffer p c (omega (arith, ok.size, room)))
      (All-snoc (line_of s) c nz ok.characters)

-- One key keeps the editor's invariant and edits the line.
press_lem :
    (c : ℕ) (s : Shell) (screen : Screen)
    → IsEditing s
    → IsEditing (press c (s, screen)).0 × (line_of (press c (s, screen)).0 ≡ edit c (line_of s))
unfolding press edit clear_line
press_lem c s screen ok = elim (Bool-cases (c == 8)) [
  | inl back ↦ rw back (elim (Bool-cases (ltb 0 s.buffer_pos)) [
    | inl some_char ↦ rw some_char (backspace s ok (ground arith))
    | inr at_start ↦ rw at_start (ok, start_line s.buffer s.buffer_pos (ground arith))
  ])
  | inr e₁ ↦ elim (Bool-cases (c == 27)) [
    | inl escape ↦
        rw (e₁, escape)
          (edited s (set s.buffer 0 0) 0 [] (length-set s.buffer 0 0 ∙ ok.size) (omega arith)
            (get_or-set_self s.buffer 0 0 0 (omega (arith, ok.size))) refl tt)
    | inr e₂ ↦ elim (Bool-cases (is_printable c && ltb s.buffer_pos 255)) [
      | inl shown ↦
          rw
            (e₁, e₂, length-line s.buffer s.buffer_pos (omega (arith, ok.size, ok.position)), shown)
            (append s c ok (ground arith) (ground arith))
      | inr other ↦
          rw
            (e₁, e₂, length-line s.buffer s.buffer_pos (omega (arith, ok.size, ok.position)), other)
            (ok, refl)
    ]
  ]
]

-- The result of the loop on `typed` keys and a newline.
read_keys_lem :
    (typed rest : List ℕ) (s : Shell) (screen : Screen)
    → All (λ c. c ≢ b'\n') typed
    → IsEditing s
    → (s' : Shell) × (screen' : Screen) × (read_keys (typed ++ (b'\n' ∷ rest)) (s, screen)
        ≡ some (edit_all typed (line_of s), s', screen'))
unfolding read_keys edit_all finish
read_keys_lem [] rest s screen keys ok = (
  (finish (s, screen)).1,
  (finish (s, screen)).2,
  ap (λ l. some (l, (finish (s, screen)).1, (finish (s, screen)).2))
      (c_string-take (set s.buffer s.buffer_pos 0) s.buffer_pos
          (omega (arith, length-set s.buffer s.buffer_pos 0, ok.size, ok.position))
          (get_or-set_self s.buffer s.buffer_pos 0 0 (omega (arith, ok.size, ok.position)))
          (subst (All NonZero) (sym (take-set s.buffer s.buffer_pos s.buffer_pos 0 (omega arith)))
            ok.characters)
        ∙ take-set s.buffer s.buffer_pos s.buffer_pos 0 (omega arith)),
)
read_keys_lem (c ∷ typed) rest s screen keys ok =
    let (ok', same) = press_lem c s screen ok in
    let (s', screen', run) =
      read_keys_lem typed rest (press c (s, screen)).0 (press c (s, screen)).1 keys.1 ok' in
    (
      s',
      screen',
      rw (==_ne c b'\n' keys.0) (run ∙ ap (λ l. some (edit_all typed l, s', screen')) same),
    )

-- With a buffer of 256 bytes, shell_readline returns at the first newline, and its result is the
-- empty line edited by the keys before: printable characters are appended up to 255, backspace
-- drops the last one, escape clears the line, and other keys do nothing.
pub readline_lem :
    (typed rest : List ℕ) (s : Shell) (screen : Screen)
    → length s.buffer ≡ 256
    → All (λ c. c ≢ b'\n') typed
    → (s' : Shell) × (screen' : Screen) × (readline (typed ++ (b'\n' ∷ rest)) (s, screen)
        ≡ some (edit_all typed [], s', screen'))
unfolding readline
readline_lem typed rest s screen size keys =
    read_keys_lem typed rest _ screen keys
      (edited (record s { history_index = s.history_count }) (set s.buffer 0 0) 0 []
        (length-set s.buffer 0 0 ∙ size) (omega arith)
        (get_or-set_self s.buffer 0 0 0 (omega (arith, size))) refl tt).0

-- An edited line has characters only.
edit-IsChar : (c : ℕ) (line : List ℕ) → All IsChar line → All IsChar (edit c line)
unfolding edit drop_last
edit-IsChar c line h = branch (All IsChar) (c == 8) (dropped line h) (
    branch (All IsChar) (c == 27) tt (elim (Bool-cases (is_printable c && ltb (length line) 255)) [
      | inl kept ↦ rw kept (snoc line h (ground arith, ground arith))
      | inr ignored ↦ rw ignored h
    ]))
  where
    branch : (P : List ℕ → Type 0) (b : Bool) {x y : List ℕ} → P x → P y → P (if b then x else y)
    branch P true p q = p
    branch P false p q = q

    dropped : (l : List ℕ) → All IsChar l → All IsChar (drop_last l)
    dropped [] k = tt
    dropped (x ∷ []) k = tt
    dropped (x ∷ y ∷ l) k = (k.0, dropped (y ∷ l) k.1)

    snoc : (l : List ℕ) → All IsChar l → IsChar c → All IsChar (l ++ (c ∷ []))
    snoc [] k x = (x, tt)
    snoc (y ∷ l) k x = (k.0, snoc l k.1 x)

pub edit_all-IsChar : (cs line : List ℕ) → All IsChar line → All IsChar (edit_all cs line)
unfolding edit_all
edit_all-IsChar [] line h = h
edit_all-IsChar (c ∷ cs) line h = edit_all-IsChar cs (edit c line) (edit-IsChar c line h)
