-- ===== src/Console/Shell/Words.antt =====
-- The words of a line: what shell_execute skips and what it takes.
use ki_os.Base.{
  ℕ, zero, suc, ◌≡◌, ◌≢◌, ◌⊎◌, inl, inr, refl, ap, sym, ◌∙◌, List, [], ◌∷◌, ◌++◌, All, arith, ◌==◌,
  length, take, drop, Bool-cases, ==_iff, ==_ne,
}
use mathlib.Core.Path.{subst}
use native.Mathlib.Decide.{ℕ_discrete}
use ki_os.Console.Shell.{skip_spaces, word_length}

abbrev pub IsBlank : ℕ → Type 0
IsBlank c = c ≡ b' '

abbrev pub IsSolid : ℕ → Type 0
IsSolid c = c ≢ b' '

-- A text that does not begin with a blank, and one that does not begin with another character.
abbrev pub Trimmed : List ℕ → Type 0
Trimmed [] = Unit {0}
Trimmed (c ∷ cs) = IsSolid c

abbrev pub Stops : List ℕ → Type 0
Stops [] = Unit {0}
Stops (c ∷ cs) = IsBlank c

-- A line of blanks, a word, further blanks, and the arguments: without blanks after the word there
-- are no arguments.
pub record Splits (line word args : List ℕ) : Type 0 where
  pub before : List ℕ
  pub after : List ℕ
  pub parts : line ≡ before ++ (word ++ (after ++ args))
  pub blank_before : All IsBlank before
  pub blank_after : All IsBlank after
  pub solid : All IsSolid word
  pub filled : word ≢ []
  pub trimmed : Trimmed args
  pub parted : (after ≢ []) ⊎ (args ≡ [])

-- Skipping the blanks.
skipped : (s : List ℕ) → (bs : List ℕ) × (s ≡ bs ++ skip_spaces s) × All IsBlank bs
unfolding skip_spaces
skipped [] = ([], refl, tt)
skipped (c ∷ cs) = elim (Bool-cases (c == b' ')) [
  | inl blank ↦
      rw blank
        (let (bs, e, h) = skipped cs in (c ∷ bs, ap (λ t. c ∷ t) e, ((==_iff c _).0 blank, h)))
  | inr solid ↦ rw solid ([], refl, tt)
]

skip_spaces-Trimmed : (s : List ℕ) → Trimmed (skip_spaces s)
unfolding skip_spaces
skip_spaces-Trimmed [] = tt
skip_spaces-Trimmed (c ∷ cs) = elim (Bool-cases (c == b' ')) [
  | inl blank ↦ rw blank (skip_spaces-Trimmed cs)
  | inr solid ↦ rw solid (λ e. ground (arith, e, solid))
]

skip_spaces_none : (s : List ℕ) → Trimmed s → skip_spaces s ≡ s
unfolding skip_spaces
skip_spaces_none [] h = refl
skip_spaces_none (c ∷ cs) h = rw (==_ne c b' ' h) refl

skip_spaces_blanks : (bs s : List ℕ) → All IsBlank bs → skip_spaces (bs ++ s) ≡ skip_spaces s
unfolding skip_spaces
skip_spaces_blanks [] s h = refl
skip_spaces_blanks (b ∷ bs) s h = rw ((==_iff b b' ').1 h.0) (skip_spaces_blanks bs s h.1)

pub skip_spaces_all : (s : List ℕ) → skip_spaces s ≡ [] → All IsBlank s
unfolding skip_spaces
skip_spaces_all [] e = tt
skip_spaces_all (c ∷ cs) e = elim (Bool-cases (c == b' ')) [
  | inl blank ↦ ((==_iff c _).0 blank, skip_spaces_all cs (rw blank at e))
  | inr solid ↦ cc (rw solid at e)
]

-- Taking the word.
take-drop : (n : ℕ) (s : List ℕ) → s ≡ take n s ++ drop n s
take-drop zero s = refl
take-drop (suc n) [] = refl
take-drop (suc n) (c ∷ cs) = ap (λ t. c ∷ t) (take-drop n cs)

word_length_nil : word_length [] ≡ 0
unfolding word_length
word_length_nil = refl

word_length_solid : (c : ℕ) (cs : List ℕ) → IsSolid c → word_length (c ∷ cs) ≡ suc (word_length cs)
unfolding word_length
word_length_solid c cs h = rw (==_ne c b' ' h) (omega arith)

word_length_blank : (c : ℕ) (cs : List ℕ) → IsBlank c → word_length (c ∷ cs) ≡ 0
unfolding word_length
word_length_blank c cs h = rw ((==_iff c b' ').1 h) refl

take_word : (s : List ℕ) → All IsSolid (take (word_length s) s) × Stops (drop (word_length s) s)
take_word [] = rw word_length_nil (tt, tt)
take_word (c ∷ cs) = elim (ℕ_discrete c b' ') [
  | yes blank ↦ rw (word_length_blank c cs blank) (tt, blank)
  | no solid ↦ rw (word_length_solid c cs solid) ((solid, (take_word cs).0), (take_word cs).1)
]

word_length-append : (w s : List ℕ) → All IsSolid w → Stops s → word_length (w ++ s) ≡ length w
unfolding word_length
word_length-append [] [] h k = refl
word_length-append [] (c ∷ cs) h k = rw ((==_iff c b' ').1 k) refl
word_length-append (c ∷ w) s h k =
    rw (==_ne c b' ' h.0) (omega (arith, word_length-append w s h.1 k))

take_append : (w s : List ℕ) → take (length w) (w ++ s) ≡ w
take_append [] s = refl
take_append (c ∷ w) s = ap (λ t. c ∷ t) (take_append w s)

drop_append : (w s : List ℕ) → drop (length w) (w ++ s) ≡ s
drop_append [] s = refl
drop_append (c ∷ w) s = drop_append w s

-- The first word of a line, and what follows it and the spaces after it, as `shell_execute` finds
-- them.
abbrev pub word : List ℕ → List ℕ
word line = take (word_length (skip_spaces line)) (skip_spaces line)

abbrev pub arguments : List ℕ → List ℕ
arguments line = skip_spaces (drop (word_length (skip_spaces line)) (skip_spaces line))

-- They split the line.
pub word-Splits : (line : List ℕ) → skip_spaces line ≢ [] → Splits line (word line) (arguments line)
unfolding skip_spaces
word-Splits line some_word =
    let (before, e, blank) = skipped line in
    let cmd = skip_spaces line in
    let (after, e', blank') = skipped (drop (word_length cmd) cmd) in
    record {
      before = before;
      after = after;
      parts =
          e
          ∙ ap (λ t. before ++ t)
              (take-drop (word_length cmd) cmd ∙ ap (λ t. take (word_length cmd) cmd ++ t) e');
      blank_before = blank;
      blank_after = blank';
      solid = (take_word cmd).0;
      filled = begins cmd some_word (skip_spaces-Trimmed line);
      trimmed = skip_spaces-Trimmed (drop (word_length cmd) cmd);
      parted = apart after (drop (word_length cmd) cmd) e' (take_word cmd).1;
    }
  where
    begins : (s : List ℕ) → s ≢ [] → Trimmed s → take (word_length s) s ≢ []
    begins [] ne h = absurd (ne refl)
    begins (c ∷ cs) ne h = rw (word_length_solid c cs h) (λ e. absurd (omega (arith, ap length e)))

    apart : (bs s : List ℕ) → s ≡ bs ++ skip_spaces s → Stops s → (bs ≢ []) ⊎ (skip_spaces s ≡ [])
    apart (b ∷ bs) s e h = inl (λ e. cc e)
    apart [] [] e h = inr refl
    apart [] (c ∷ cs) e h = absurd (subst Trimmed (sym e) (skip_spaces-Trimmed (c ∷ cs)) h)

-- No other way of splitting the line does.
pub Splits-word :
    {line w args : List ℕ} → Splits line w args → (word line ≡ w) × (arguments line ≡ args)
Splits-word {line} {w} {args} h =
    rw (cmd, size, take_append w (h.after ++ args), drop_append w (h.after ++ args))
      (refl, skip_spaces_blanks h.after args h.blank_after ∙ skip_spaces_none args h.trimmed)
  where
    front : (v : List ℕ) → v ≢ [] → All IsSolid v → Trimmed (v ++ (h.after ++ args))
    front [] ne solid = absurd (ne refl)
    front (c ∷ v) ne solid = solid.0

    stops : (bs : List ℕ) → All IsBlank bs → (bs ≢ []) ⊎ (args ≡ []) → Stops (bs ++ args)
    stops [] blank (inl ne) = absurd (ne refl)
    stops [] blank (inr none) = rw none tt
    stops (b ∷ bs) blank p = blank.0

    cmd : skip_spaces line ≡ w ++ (h.after ++ args)
    cmd =
        ap skip_spaces h.parts
        ∙ skip_spaces_blanks h.before (w ++ (h.after ++ args)) h.blank_before
        ∙ skip_spaces_none (w ++ (h.after ++ args)) (front w h.filled h.solid)

    size : word_length (w ++ (h.after ++ args)) ≡ length w
    size = word_length-append w (h.after ++ args) h.solid (stops h.after h.blank_after h.parted)

pub Splits-nonempty : {line w args : List ℕ} → Splits line w args → skip_spaces line ≢ []
Splits-nonempty h e = h.filled (
    sym (Splits-word h).0
    ∙ ap (λ s. take (word_length s) s) e
    ∙ ap (λ n. take n []) word_length_nil)
