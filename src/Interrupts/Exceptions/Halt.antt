-- ===== src/Interrupts/Exceptions/Halt.antt =====
-- kernel/isr.c: the way of the exception handler to its halt.
use ki_os.Base.{
  ℕ, ◌^◌, ◌≡◌, ◌≢◌, drop, refl, some, List, [], ◌∷◌, ◌++◌, arith, ltb, inl, inr, Bool-cases, get_or,
  get_elem?-eq-get_or,
}
use ki_os.Console.Output.{Call, println, dec, text, newline, perform_all}
use ki_os.Console.Output.Screens.{
  AllDefined, AllDefined-append, AllDefined-plain, perform_all-IsValid,
}
use ki_os.Console.Vga.{Screen}
use ki_os.Console.Vga.Cursor.{IsValid}
use ki_os.Interrupts.Exceptions.{
  exception_messages, exception_name, heading, register_lines, isr_handler,
}
use ki_os.Sched.Task.{Registers}

register_lines-Defined : (r : Registers) → r.int_no ≢ 2 ^ 63 → AllDefined (register_lines r)
unfolding register_lines
register_lines-Defined r ne =
    (tt, (tt, (tt, (ne, AllDefined-plain (drop 4 (register_lines r)) refl))))

name-Defined :
    (n : ℕ) → n ≢ 2 ^ 63 → (cs : List Call) × (exception_name n ≡ some cs) × AllDefined cs
name-Defined n ne = elim (Bool-cases (ltb n 32)) [
  | inl small ↦ (
    println (get_or exception_messages n []) ∷ [],
    rw (small, get_elem?-eq-get_or exception_messages n [] (ground (arith, small))) refl,
    (tt, tt),
  )
  | inr other ↦
      (text "Unknown Exception #" ∷ dec n ∷ newline ∷ [], rw other refl, (tt, (ne, (tt, tt))))
]

-- For every frame whose vector is not 2 ^ 63, which `vga_print_dec` cannot negate, `isr_handler`
-- reads no name outside its table, and on a valid screen each of its calls of the console is
-- defined and leaves the screen valid, up to its halt.
pub isr_handler_lem :
    (r : Registers) (s : Screen)
    → r.int_no ≢ 2 ^ 63
    → IsValid s
    → (cs : List Call) × (t : Screen) × (isr_handler r ≡ some cs)
      × (perform_all cs s ≡ some t)
      × IsValid t
unfolding isr_handler
isr_handler_lem r s ne v =
    let (name, found, ok) = name-Defined r.int_no ne in
    let cs = heading ++ (name ++ register_lines r) in
    let (t, run, w) = perform_all-IsValid cs s v (
      AllDefined-append heading (name ++ register_lines r) (AllDefined-plain heading refl)
        (AllDefined-append name (register_lines r) ok (register_lines-Defined r ne))) in
    (cs, t, rw found refl, run, w)
