-- ===== src/Console/Syscall/Handler.antt =====
-- What SYS_WRITE prints of the caller's buffer.
use ki_os.Base.{
  ℕ, zero, suc, ◌+◌, ◌≡◌, ◌<◌, refl, ap, ◌∙◌, Option, none, some, List, [], ◌∷◌, length, arith,
  add64,
}
use mathlib.Core.Path.{subst}
use ki_os.Console.Vga.{Screen, print, putchar}
use ki_os.Console.Vga.Cursor.{IsValid, print-IsValid}
use ki_os.Console.Syscall.{Outcome, returns, faults, put_bytes, syscall_handler}

-- The bytes that lie in memory from `buf + i` on, at addresses of 64 bits.
pub Reads : (mem : ℕ → Option ℕ) (buf i : ℕ) → List ℕ → Type 0
Reads mem buf i [] = Unit
Reads mem buf i (c ∷ cs) = (mem (add64 buf i) ≡ some c) × Reads mem buf (i + 1) cs

-- The end of a write of `left` bytes of `n` from byte `i` on: all are printed, or those before the
-- first that cannot be read.
pub data Written (mem : ℕ → Option ℕ) (buf n left i : ℕ) (s : Screen) : Outcome → Type 0 where
  whole :
      (bytes : List ℕ)
      → length bytes ≡ left
      → Reads mem buf i bytes
      → IsValid (print bytes s)
      → Written mem buf n left i s (returns n (print bytes s))
  cut :
      (bytes : List ℕ)
      → length bytes < left
      → Reads mem buf i bytes
      → mem (add64 buf (i + length bytes)) ≡ none
      → IsValid (print bytes s)
      → Written mem buf n left i s (faults (add64 buf (i + length bytes)) (print bytes s))

put_bytes-Written :
    (mem : ℕ → Option ℕ) (buf n left i : ℕ) (s : Screen)
    → IsValid s
    → Written mem buf n left i s (put_bytes mem buf n left i s)
unfolding put_bytes Reads print
put_bytes-Written mem buf n zero i s v = whole [] refl tt v
put_bytes-Written mem buf n (suc left) i s v =
    go (mem (add64 buf i)) refl
      (λ c. put_bytes-Written mem buf n left (i + 1) (putchar c s) (print-IsValid (c ∷ []) s v))
  where
    further :
        (c : ℕ) {o : Outcome}
        → mem (add64 buf i) ≡ some c
        → Written mem buf n left (i + 1) (putchar c s) o
        → Written mem buf n (suc left) i s o
    further c here (Written.whole bytes size reads valid) =
        whole (c ∷ bytes) (omega (arith, size)) (here, reads) valid
    further c here (Written.cut bytes size reads gone valid) =
        subst
          (λ k. Written mem buf n (suc left) i s (faults (add64 buf k) (print bytes (putchar c s))))
          (omega arith)
          (cut (c ∷ bytes) (omega (arith, size)) (here, reads)
            (ap (λ k. mem (add64 buf k)) {x = i + length (c ∷ bytes)} {y = i + 1 + length bytes}
                (omega arith)
              ∙ gone)
            valid)

    go :
        (x : Option ℕ)
        → mem (add64 buf i) ≡ x
        → ((c : ℕ)
            → Written mem buf n left
                (i + 1)
                (putchar c s)
                (put_bytes mem buf n left (i + 1) (putchar c s)))
        → Written mem buf n (suc left) i s (put_bytes mem buf n (suc left) i s)
    go none gone later =
        rw (gone, put_bytes)
          (subst (λ k. Written mem buf n (suc left) i s (faults (add64 buf k) s)) (omega arith)
            (cut [] (omega arith) tt
              (ap (λ k. mem (add64 buf k)) {x = i + 0} {y = i} (omega arith) ∙ gone) v))
    go (some c) here later = rw (here, put_bytes) (further c here (later c))

-- On a valid screen, SYS_WRITE to descriptor 1 either prints the caller's `n` bytes in their order and
-- returns `n`, or, where one of them cannot be read, prints those before the first such byte and ends
-- in a page fault at its address. The screen stays valid.
pub syscall_write_lem :
    (mem : ℕ → Option ℕ) (buf n : ℕ) (s : Screen)
    → IsValid s
    → Written mem buf n n 0 s (syscall_handler mem 1 1 buf n s)
unfolding syscall_handler
syscall_write_lem mem buf n s v = put_bytes-Written mem buf n n 0 s v
