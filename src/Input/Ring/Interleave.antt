-- ===== src/Input/Ring/Interleave.antt =====
-- The interrupt handler and one reader, interleaved at each access to the shared buffer.
-- The reader's kb_irq_get_scancode is three steps: the test of the indices, the load of the byte,
-- and the store of the read index. The handler runs with interrupts off, as one step.
use ki_os.Base.{
  ℕ, ◌+◌, ◌%◌, ◌≡◌, ◌≢◌, refl, ap, sym, ◌∙◌, List, [], ◌∷◌, ◌++◌, ltb, if◌then◌else◌, length,
  get_or, Bool-cases, inl, inr,
}
use mathlib.Core.Path.{subst}
use mathlib.Core.List.{append_assoc}
use ki_os.Input.Ring.{Ring, irq_handler}
use ki_os.Input.Ring.Queue.{
  IsValid, contents, push, irq_handler_lem, contents_empty, contents_cons, advanced-IsValid,
}

-- Where the reader stands, with its local variable.
pub data Pc : Type 0 where
  idle : Pc
  tested : Pc
  loaded : ℕ → Pc

-- The buffer and the reader, with two histories: the scancodes that the handler took in, and those
-- that the reader returned.
pub record System : Type 0 where
  pub ring : Ring
  pub pc : Pc
  pub accepted : List ℕ
  pub delivered : List ℕ

-- What the handler takes in: nothing when 255 scancodes wait.
abbrev pub take_in : Ring → List ℕ → ℕ → List ℕ
take_in r acc c = if ltb (length (contents r)) 255 then acc ++ (c ∷ []) else acc

pub data Step (s : System) : System → Type 0 where
  irq :
      (c : ℕ)
      → Step s (record s { ring = irq_handler c s.ring; accepted = take_in s.ring s.accepted c })
  test_empty : s.pc ≡ idle → s.ring.read ≡ s.ring.write → Step s s
  test : s.pc ≡ idle → s.ring.read ≢ s.ring.write → Step s (record s { pc = tested })
  load : s.pc ≡ tested → Step s (record s { pc = loaded (get_or s.ring.buffer s.ring.read 0) })
  advance :
      {c : ℕ}
      → s.pc ≡ loaded c
      → Step s (record s {
        ring = record (s.ring) { read = (s.ring.read + 1) % 256 };
        pc = idle;
        delivered = s.delivered ++ (c ∷ []);
      })

pub data Reach (r : Ring) : System → Type 0 where
  start : Reach r (record { ring = r; pc = idle; accepted = contents r; delivered = [] })
  next : {s t : System} → Reach r s → Step s t → Reach r t

-- What the reader knows: the queue has the byte that it is about to return at its head.
abbrev Knows : Pc → List ℕ → Type 0
Knows idle q = Unit {0}
Knows tested q = (c : ℕ) × (rest : List ℕ) × (q ≡ c ∷ rest)
Knows (loaded c) q = (rest : List ℕ) × (q ≡ c ∷ rest)

record Inv (s : System) : Type 0 where
  valid : IsValid s.ring
  knows : Knows s.pc (contents s.ring)
  order : s.delivered ++ contents s.ring ≡ s.accepted

-- Pushing keeps the head of a queue.
push-cons : (d : ℕ) (rest : List ℕ) (c : ℕ) → (new : List ℕ) × (push (d ∷ rest) c ≡ d ∷ new)
unfolding push
push-cons d rest c = elim (Bool-cases (ltb (length (d ∷ rest)) 255)) [
  | inl room ↦ (rest ++ (c ∷ []), rw room)
  | inr full ↦ (rest, rw full)
]

-- An interrupt does not disturb what the reader knows.
Knows-push : (pc : Pc) (q : List ℕ) (c : ℕ) → Knows pc q → Knows pc (push q c)
Knows-push idle q c k = tt
Knows-push tested q c (d, rest, e) =
    let (new, p) = push-cons d rest c in (d, new, ap (λ l. push l c) e ∙ p)
Knows-push (loaded d) q c (rest, e) =
    let (new, p) = push-cons d rest c in (new, ap (λ l. push l c) e ∙ p)

order-push :
    (r : Ring) (out acc : List ℕ) (c : ℕ)
    → out ++ contents r ≡ acc
    → out ++ push (contents r) c ≡ take_in r acc c
unfolding push
order-push r out acc c e = elim (Bool-cases (ltb (length (contents r)) 255)) [
  | inl room ↦ rw room (sym (append_assoc out (contents r) (c ∷ [])) ∙ ap (λ l. l ++ (c ∷ [])) e)
  | inr full ↦ rw full e
]

module _ {r : Ring} (valid : IsValid r) {c : ℕ} {rest : List ℕ} (e : contents r ≡ c ∷ rest) where
  -- Where a scancode waits, it is the one at the read index, and the rest is what an advance leaves.
  waiting_head :
      (get_or r.buffer r.read 0 ≡ c) × (contents (record r { read = (r.read + 1) % 256 }) ≡ rest)
  waiting_head = (cc (e, whole), cc (e, whole))
    where
      nonempty : r.read ≢ r.write
      nonempty h = cc (e, contents_empty valid h)

      whole :
          contents r ≡ get_or r.buffer r.read 0 ∷ contents (record r { read = (r.read + 1) % 256 })
      whole = contents_cons valid nonempty

Step-Inv : {s t : System} → Step s t → Inv s → Inv t
Step-Inv {s} (irq c) inv = record {
  valid = (irq_handler_lem inv.valid c).0;
  knows = rw ((irq_handler_lem inv.valid c).1) (Knows-push s.pc (contents s.ring) c inv.knows);
  order =
      rw ((irq_handler_lem inv.valid c).1) (order-push s.ring s.delivered s.accepted c inv.order);
}
Step-Inv (test_empty p e) inv = inv
Step-Inv {s} (test p ne) inv = record {
  valid = inv.valid;
  knows = (_, _, contents_cons inv.valid ne);
  order = inv.order;
}
Step-Inv {s} (load p) inv =
    let (c, rest, e) = subst (λ x. Knows x (contents s.ring)) p inv.knows in
    record {
      valid = inv.valid;
      knows = (rest, e ∙ ap (λ d. d ∷ rest) (sym (waiting_head inv.valid e).0));
      order = inv.order;
    }
Step-Inv {s} (advance {c} p) inv =
    let (rest, e) = subst (λ x. Knows x (contents s.ring)) p inv.knows in
    record {
      valid = advanced-IsValid inv.valid;
      knows = tt;
      order =
          append_assoc s.delivered (c ∷ []) _
          ∙ ap (λ l. s.delivered ++ l) (ap (λ l. c ∷ l) (waiting_head inv.valid e).1 ∙ sym e)
          ∙ inv.order;
    }

Reach-Inv : {r : Ring} {s : System} → IsValid r → Reach r s → Inv s
Reach-Inv valid start = record { valid = valid; knows = tt; order = refl }
Reach-Inv valid (next reach st) = Step-Inv st (Reach-Inv valid reach)

-- From a valid ring, however interrupts fall between the steps of the reader, the scancodes that
-- it has returned, followed by those that wait, are the ones that waited at the start or that the
-- handler took in, in their order, and the indices stay inside the buffer.
pub first_in_first_out :
    {r : Ring} {s : System}
    → IsValid r
    → Reach r s
    → (s.delivered ++ contents s.ring ≡ s.accepted) × IsValid s.ring
first_in_first_out valid reach = let inv = Reach-Inv valid reach in (inv.order, inv.valid)
