-- ===== src/Console/Shell/History.antt =====
-- The history as a list of commands of which the array keeps the last ten.
use ki_os.Base.{
  ℕ, zero, suc, ◌+◌, ◌-◌, ◌%◌, ◌<◌, ◌≡◌, ◌≢◌, ◌⊎◌, inl, inr, refl, ap, sym, ◌∙◌, true, ◌&&◌, List,
  [], ◌∷◌, All, arith, ltb, ◌==◌, length, get_or, set, length-set, get_or-set_self, get_or-set_ne,
  Bool-cases, ==_iff, All-get_or,
}
use ki_os.Text.{strlen, strcmp}
use ki_os.Text.Compare.{IsChar, strlen-length, strcmp_iff}
use ki_os.Console.Shell.{Shell, add_to_history}

-- `log`, the newest first, is the history: the array holds its first ten entries.
pub record Remembers (s : Shell) (log : List (List ℕ)) : Type 0 where
  pub slots : length s.history ≡ 10
  pub count : s.history_count ≡ length log
  pub recent :
      (i : ℕ)
      → i < 10
      → i < length log
      → get_or s.history ((s.history_count - 1 - i) % 10) [] ≡ get_or log i []
  pub strings : All (All IsChar) log

empty_iff : (cmd : List ℕ) → (strlen cmd == 0) ≡ true → cmd ≡ []
empty_iff cmd e = nil cmd (sym (strlen-length cmd) ∙ (==_iff _ 0).0 e)
  where
    nil : (s : List ℕ) → length s ≡ 0 → s ≡ []
    nil [] e = refl
    nil (x ∷ s) e = absurd (omega arith)

remembered :
    (cmd : List ℕ) (s : Shell) (log : List (List ℕ))
    → Remembers s log
    → All IsChar cmd
    → Remembers
        (record s {
          history = set s.history (s.history_count % 10) cmd;
          history_count = s.history_count + 1;
          history_index = s.history_count + 1;
        })
        (cmd ∷ log)
remembered cmd s log h ok = record {
  slots = length-set s.history (s.history_count % 10) cmd ∙ h.slots;
  count = omega (arith, h.count);
  recent = recent;
  strings = (ok, h.strings);
}
  where
    recent :
        (i : ℕ)
        → i < 10
        → i < suc (length log)
        → get_or (set s.history (s.history_count % 10) cmd) ((s.history_count + 1 - 1 - i) % 10) []
          ≡ get_or (cmd ∷ log) i []
    recent zero a b =
        ap (λ k. get_or (set s.history (s.history_count % 10) cmd) k []) {y = s.history_count % 10}
          (omega arith)
        ∙ get_or-set_self s.history (s.history_count % 10) cmd [] (omega (arith, h.slots))
    recent (suc i) a b =
        ap (λ k. get_or (set s.history (s.history_count % 10) cmd) k [])
          {y = (s.history_count - 1 - i) % 10} (omega arith)
        ∙ get_or-set_ne s.history (s.history_count % 10) ((s.history_count - 1 - i) % 10) cmd []
            (λ e. absurd (omega (arith, h.count)))
        ∙ h.recent i (omega arith) (omega arith)

-- shell_add_to_history on a history of strings either ignores a command, and then it is empty or the
-- last one over again, or puts it before the others; the array keeps the last ten.
pub add_to_history_lem :
    (cmd : List ℕ) (s : Shell) (log : List (List ℕ))
    → Remembers s log
    → All IsChar cmd
    → (((cmd ≡ []) ⊎ ((0 < length log) × (get_or log 0 [] ≡ cmd))) × (add_to_history cmd s ≡ s))
      ⊎ ((cmd ≢ [])
          × ((0 < length log) → get_or log 0 [] ≢ cmd)
          × Remembers (add_to_history cmd s) (cmd ∷ log))
unfolding add_to_history
add_to_history_lem cmd s log h ok = elim (Bool-cases (strlen cmd == 0)) [
  | inl empty ↦ inl (inl (empty_iff cmd empty), rw empty refl)
  | inr some_char ↦
      elim (Bool-cases (
        ltb 0 s.history_count
        && (strcmp cmd (get_or s.history ((s.history_count - 1) % 10) []) == 0))) [
          | inl again ↦
              inl (inr (ground (arith, h.count), sym (same again)), rw (some_char, again) refl)
          | inr new ↦ inr (
            (λ e. absurd (ground (arith, some_char, strlen-length cmd, ap length e))),
            (λ some_entry e. absurd (ground (arith, new, h.count, differ some_entry e))),
            rw (some_char, new) (remembered cmd s log h ok),
          )
        ]
]
  where
    last : 0 < length log → get_or s.history ((s.history_count - 1) % 10) [] ≡ get_or log 0 []
    last some_entry =
        ap (λ k. get_or s.history (k % 10) []) {y = s.history_count - 1 - 0} (omega arith)
        ∙ h.recent 0 (omega arith) some_entry

    newest_ok : All IsChar (get_or log 0 [])
    newest_ok = All-get_or (All IsChar) log 0 [] tt h.strings

    differ :
        0 < length log
        → get_or log 0 [] ≡ cmd
        → strcmp cmd (get_or s.history ((s.history_count - 1) % 10) []) ≡ 0
    differ some_entry e =
        ap (strcmp cmd) (last some_entry)
        ∙ (strcmp_iff cmd (get_or log 0 []) ok newest_ok).1 (sym e)

    same :
        (ltb 0 s.history_count
            && (strcmp cmd (get_or s.history ((s.history_count - 1) % 10) []) == 0))
          ≡ true
        → cmd ≡ get_or log 0 []
    same again =
        let some_entry : 0 < length log = ground (arith, again, h.count) in
        let equal : strcmp cmd (get_or s.history ((s.history_count - 1) % 10) []) ≡ 0 =
          ground (arith, again) in
        (strcmp_iff cmd (get_or log 0 []) ok newest_ok).0
          (ap (strcmp cmd) (sym (last some_entry)) ∙ equal)
