-- ===== src/Console/Output/Screens.antt =====
-- What a sequence of console calls does to the screen.
use native.Mathlib.Decide.{ℕ_discrete}
use ki_os.Base.{
  none, inl, inr, ◌⊎◌, Bool, true, false, ◌^◌, ◌≡◌, ◌≢◌, refl, some, Option, List, [], ◌∷◌, ◌++◌,
}
use ki_os.Console.Vga.{Screen, print_dec}
use ki_os.Console.Vga.Cursor.{IsValid, putchar-IsValid, print-IsValid}
use ki_os.Console.Vga.Printing.{
  println-IsValid, print_colored-IsValid, print_dec-IsValid, print_hex-IsValid, set_color-IsValid,
  clear-IsValid,
}
use ki_os.Console.Output.{
  Call, print, println, colored, dec, hex, set_color, putchar, clear, perform, perform_all,
}

-- The one call that C leaves undefined is printing the least `int64_t`.
abbrev pub IsDefined : Call → Type 0
IsDefined (dec value) = value ≢ 2 ^ 63
IsDefined c = Unit {0}

abbrev pub AllDefined : List Call → Type 0
AllDefined [] = Unit {0}
AllDefined (c ∷ cs) = IsDefined c × AllDefined cs

-- Calls that print no numbers.
abbrev pub plain : List Call → Bool
plain [] = true
plain (dec value ∷ cs) = false
plain (_ ∷ cs) = plain cs

pub AllDefined-plain : (cs : List Call) → plain cs ≡ true → AllDefined cs
AllDefined-plain [] e = tt
AllDefined-plain (print cs ∷ ds) e = (tt, AllDefined-plain ds e)
AllDefined-plain (println cs ∷ ds) e = (tt, AllDefined-plain ds e)
AllDefined-plain (colored cs fg ∷ ds) e = (tt, AllDefined-plain ds e)
AllDefined-plain (dec value ∷ ds) e = cc
AllDefined-plain (hex value ∷ ds) e = (tt, AllDefined-plain ds e)
AllDefined-plain (set_color fg bg ∷ ds) e = (tt, AllDefined-plain ds e)
AllDefined-plain (putchar c ∷ ds) e = (tt, AllDefined-plain ds e)
AllDefined-plain (clear ∷ ds) e = (tt, AllDefined-plain ds e)

pub AllDefined-append : (cs ds : List Call) → AllDefined cs → AllDefined ds → AllDefined (cs ++ ds)
AllDefined-append [] ds a b = b
AllDefined-append (c ∷ cs) ds a b = (a.0, AllDefined-append cs ds a.1 b)

abbrev pub Shown : Option Screen → Type 0
Shown r = (t : Screen) × (r ≡ some t) × IsValid t

pub perform-IsValid : (c : Call) (s : Screen) → IsValid s → IsDefined c → Shown (perform c s)
perform-IsValid (print cs) s v d = (_, refl, print-IsValid cs s v)
perform-IsValid (println cs) s v d = (_, refl, println-IsValid cs s v)
perform-IsValid (colored cs fg) s v d = (_, refl, print_colored-IsValid cs fg 0 s v)
perform-IsValid (dec value) s v d = print_dec-IsValid value s v d
perform-IsValid (hex value) s v d = (_, refl, print_hex-IsValid value s v)
perform-IsValid (set_color fg bg) s v d = (_, refl, set_color-IsValid fg bg s v)
perform-IsValid (putchar c) s v d = (_, refl, (putchar-IsValid c s v).0)
perform-IsValid clear s v d = (_, refl, clear-IsValid s v)

-- A list of calls whose numbers can all be printed runs to its end and keeps a valid screen valid.
pub perform_all-IsValid :
    (cs : List Call) (s : Screen) → IsValid s → AllDefined cs → Shown (perform_all cs s)
unfolding perform_all
perform_all-IsValid [] s v d = (s, refl, v)
perform_all-IsValid (c ∷ cs) s v d =
    let (t, run, w) = perform-IsValid c s v d.0 in rw run (perform_all-IsValid cs t w d.1)

IsDefined-cases : (c : Call) → IsDefined c ⊎ (¬ IsDefined c)
IsDefined-cases (print cs) = inl tt
IsDefined-cases (println cs) = inl tt
IsDefined-cases (colored cs fg) = inl tt
IsDefined-cases (dec value) = elim (ℕ_discrete value (2 ^ 63)) [
  | yes e ↦ inr (λ ne. ne e)
  | no ne ↦ inl ne
]
IsDefined-cases (hex value) = inl tt
IsDefined-cases (set_color fg bg) = inl tt
IsDefined-cases (putchar c) = inl tt
IsDefined-cases clear = inl tt

perform-none : (c : Call) (s : Screen) → ¬ IsDefined c → perform c s ≡ none
unfolding print_dec
perform-none (print cs) s ne = absurd (ne tt)
perform-none (println cs) s ne = absurd (ne tt)
perform-none (colored cs fg) s ne = absurd (ne tt)
perform-none (dec value) s ne = elim (ℕ_discrete value (2 ^ 63)) [
  | yes e ↦ rw e refl
  | no apart ↦ absurd (ne apart)
]
perform-none (hex value) s ne = absurd (ne tt)
perform-none (set_color fg bg) s ne = absurd (ne tt)
perform-none (putchar c) s ne = absurd (ne tt)
perform-none clear s ne = absurd (ne tt)

-- A list of calls either runs to its end, or has a number that cannot be printed and has no end.
pub perform_all-cases :
    (cs : List Call) (s : Screen)
    → IsValid s
    → (AllDefined cs × Shown (perform_all cs s)) ⊎ ((¬ AllDefined cs) × (perform_all cs s ≡ none))
unfolding perform_all
perform_all-cases [] s v = inl (tt, (s, refl, v))
perform_all-cases (c ∷ cs) s v = elim (IsDefined-cases c) [
  | inr ne ↦ inr ((λ d. ne d.0), rw (perform-none c s ne) refl)
  | inl d ↦
      let (t, run, w) = perform-IsValid c s v d in
      rw run (elim (perform_all-cases cs t w) [
        | inl (ds, shown) ↦ inl ((d, ds), shown)
        | inr (ne, lost) ↦ inr ((λ e. ne e.1), lost)
      ])
]
