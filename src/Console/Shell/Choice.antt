-- ===== src/Console/Shell/Choice.antt =====
-- The choice of a command by the line's first word.
use ki_os.Base.{
  ℕ, zero, suc, ◌+◌, ◌≤◌, ◌<◌, ◌≡◌, ◌≢◌, ◌⊎◌, inl, inr, refl, ap, sym, ◌∙◌, Bool, true, ◌&&◌, List,
  [], ◌∷◌, All, arith, ◌==◌, length, get_or, take, Bool-cases, ==_iff, ==_self,
}
use mathlib.Core.Bool.{false≢true}
use mathlib.Core.Path.{subst}
use ki_os.Text.{strlen, strncmp}
use ki_os.Text.Compare.{IsChar, strlen-length, strncmp_iff, take_all}
use ki_os.Console.Shell.Words.{IsBlank, Splits, word, arguments, skip_spaces_all, word-Splits}
use ki_os.Console.Shell.{
  Execution, nothing, runs, unknown, find_command, skip_spaces, word_length, execute,
}

-- The outcome of a line for a table of names, counted from `i`.
pub data Chosen (word args : List ℕ) (i : ℕ) (names : List (List ℕ)) : Execution → Type 0 where
  first :
      (k : ℕ)
      → k < length names
      → get_or names k [] ≡ word
      → ((j : ℕ) → j < k → get_or names j [] ≢ word)
      → Chosen word args i names (runs (i + k) args)
  missing :
      ((j : ℕ) → j < length names → get_or names j [] ≢ word)
      → Chosen word args i names (unknown word)

length-take : (n : ℕ) (s : List ℕ) → n ≤ length s → length (take n s) ≡ n
length-take zero s h = refl
length-take (suc n) [] h = absurd (omega arith)
length-take (suc n) (x ∷ s) h = ap suc (length-take n s (omega arith))

word_length-le : (s : List ℕ) → word_length s ≤ length s
unfolding word_length
word_length-le [] = omega arith
word_length-le (c ∷ cs) = ground (arith, word_length-le cs)

All-skip_spaces : (s : List ℕ) → All IsChar s → All IsChar (skip_spaces s)
unfolding skip_spaces
All-skip_spaces [] h = h
All-skip_spaces (c ∷ cs) h = elim (Bool-cases (c == b' ')) [
  | inl space ↦ rw space (All-skip_spaces cs h.1)
  | inr other ↦ rw other h
]

-- The test of `shell_execute` for one name.
abbrev matches : (cmd : List ℕ) (n : ℕ) (name : List ℕ) → Bool
matches cmd n name = (strncmp cmd name n == 0) && (strlen name == n)

and_parts : (a b : Bool) → (a && b) ≡ true → (a ≡ true) × (b ≡ true)
and_parts a b h = (ground arith, ground arith)

module _ (cmd : List ℕ) (n : ℕ) (chars : All IsChar cmd) (fits : n ≤ length cmd) where
  matches_sound : (name : List ℕ) → All IsChar name → matches cmd n name ≡ true → name ≡ take n cmd
  matches_sound name h m =
      let (same, size) = and_parts (strncmp cmd name n == 0) (strlen name == n) m in
      let len : length name ≡ n = sym (strlen-length name) ∙ (==_iff _ n).0 size in
      sym (take_all n name (omega (arith, len)))
      ∙ sym ((strncmp_iff cmd name n chars h).0 ((==_iff _ 0).0 same))

  matches_complete :
      (name : List ℕ) → All IsChar name → name ≡ take n cmd → matches cmd n name ≡ true
  matches_complete name h e =
      let len : length name ≡ n = ap length e ∙ length-take n cmd fits in
      let same : strncmp cmd name n ≡ 0 =
        (strncmp_iff cmd name n chars h).1 (sym e ∙ sym (take_all n name (omega (arith, len)))) in
      rw (same, strlen-length name, len, ==_self n) refl

  find_command-Chosen :
      (i : ℕ) (args : List ℕ) (names : List (List ℕ))
      → All (All IsChar) names
      → Chosen (take n cmd) args i names (find_command cmd n i args names)
  unfolding find_command
  find_command-Chosen i args [] h = missing (λ j lt. absurd (omega arith))
  find_command-Chosen i args (name ∷ names) h = elim (Bool-cases (matches cmd n name)) [
    | inl here ↦ rw here (
        subst (λ k. Chosen (take n cmd) args i (name ∷ names) (runs k args)) (omega arith)
          (first 0 (omega arith) (matches_sound name h.0 here) (λ j lt. absurd (omega arith))))
    | inr not_here ↦ rw not_here (
        later (λ e. false≢true (sym not_here ∙ matches_complete name h.0 e))
          (find_command-Chosen (i + 1) args names h.1))
  ]
    where
      before :
          (k : ℕ)
          → name ≢ take n cmd
          → ((j : ℕ) → j < k → get_or names j [] ≢ take n cmd)
          → (j : ℕ) → j < suc k
          → get_or (name ∷ names) j [] ≢ take n cmd
      before k ne rest zero lt = ne
      before k ne rest (suc j) lt = rest j (omega arith)

      later :
          {x : Execution}
          → name ≢ take n cmd
          → Chosen (take n cmd) args (i + 1) names x
          → Chosen (take n cmd) args i (name ∷ names) x
      later ne (first k lt e un) =
          subst (λ m. Chosen (take n cmd) args i (name ∷ names) (runs m args)) (omega arith)
            (first (suc k) (omega arith) e (before k ne un))
      later ne (missing un) = missing (before (length names) ne un)

pub execute-Chosen :
    (names : List (List ℕ)) (line : List ℕ)
    → All (All IsChar) names
    → All IsChar line
    → ((skip_spaces line ≡ []) × (execute names line ≡ nothing))
      ⊎ ((skip_spaces line ≢ []) × Chosen (word line) (arguments line) 0 names (execute names line))
unfolding execute
execute-Chosen names line names_ok line_ok = elim (Bool-cases (strlen (skip_spaces line) == 0)) [
  | inl empty ↦ inl (
    nil (skip_spaces line) (sym (strlen-length (skip_spaces line)) ∙ (==_iff _ 0).0 empty),
    rw empty refl,
  )
  | inr some_word ↦ inr (
    (λ e. false≢true (sym some_word ∙ rw (strlen-length (skip_spaces line), e) refl)),
    rw some_word (
        find_command-Chosen (skip_spaces line) (word_length (skip_spaces line))
          (All-skip_spaces line line_ok) (word_length-le (skip_spaces line)) 0 (arguments line)
          names names_ok),
  )
]
  where
    nil : (s : List ℕ) → length s ≡ 0 → s ≡ []
    nil [] e = refl
    nil (x ∷ s) e = absurd (omega arith)

-- The outcome of a line: nothing if it is blank, and the choice by its first word if it has one.
pub data Answers (names : List (List ℕ)) (line : List ℕ) (x : Execution) : Type 0 where
  blank : All IsBlank line → x ≡ nothing → Answers names line x
  chosen :
      (word args : List ℕ)
      → Splits line word args
      → Chosen word args 0 names x
      → Answers names line x

-- On a line of characters and a table of names, shell_execute does nothing if the line has only
-- blanks; otherwise the line is blanks, a word, and, after further blanks, arguments, and it runs the
-- first command whose name is the word, with these arguments, or reports the word if no command has
-- this name.
pub execute_lem :
    (names : List (List ℕ)) (line : List ℕ)
    → All (All IsChar) names
    → All IsChar line
    → Answers names line (execute names line)
execute_lem names line names_ok line_ok = elim (execute-Chosen names line names_ok line_ok) [
  | inl (empty, none) ↦ blank (skip_spaces_all line empty) none
  | inr (some_word, c) ↦ chosen (word line) (arguments line) (word-Splits line some_word) c
]
