-- ===== src/Interrupts/Idt/Gates.antt =====
-- The gates of the interrupt table after idt_init.
use ki_os.Base.{
  ℕ, zero, suc, ◌+◌, ◌*◌, ◌/◌, ◌^◌, ◌≤◌, ◌<◌, ◌≡◌, ◌≢◌, ◌⊎◌, inl, inr, refl, sym, Bool-cases, ==_ne,
  ==_iff, ◌∙◌, List, arith, ltb, ◌==◌, if◌then◌else◌, length, get_or, replicate, length-set,
  length-replicate, get_or-set_self, get_or-set_ne,
}
use mathlib.Core.Path.{subst}
use native.Mathlib.Decide.{ℕ_discrete}
use ki_os.Base.Bits.{bit_and_low_mask}
use ki_os.Interrupts.Idt.{
  IdtEntry, null_entry, type_interrupt, set_gate, set_gate_ist, set_gates, idt_init,
}

-- The address that the processor reads from a gate.
abbrev pub handler_of : IdtEntry → ℕ
handler_of e = e.offset_low + e.offset_mid * 2 ^ 16 + e.offset_high * 2 ^ 32

-- A present interrupt gate of the kernel's code segment with this handler and stack.
pub record Gate (handler ist : ℕ) (e : IdtEntry) : Type 0 where
  pub target : handler_of e ≡ handler
  pub segment : e.selector ≡ 0x08
  pub kind : e.type_attr ≡ 0x8E
  pub stack : e.ist ≡ ist

set_gate_ist-Gate :
    (num handler ist : ℕ) (idt : List IdtEntry)
    → num < length idt
    → handler < 2 ^ 64
    → Gate handler ist
        (get_or (set_gate_ist num handler 0x08 type_interrupt ist idt) num null_entry)
unfolding set_gate_ist
set_gate_ist-Gate num handler ist idt inside fits =
    rw (get_or-set_self idt num _ null_entry inside) (record {
      target = omega (
        arith,
        bit_and_low_mask 16 handler,
        bit_and_low_mask 16 (handler / 2 ^ 16),
        bit_and_low_mask 32 (handler / 2 ^ 32),
      );
      segment = refl;
      kind = refl;
      stack = refl;
    })

set_gate_ist-other :
    (num j handler ist : ℕ) (idt : List IdtEntry)
    → num ≢ j
    → get_or (set_gate_ist num handler 0x08 type_interrupt ist idt) j null_entry
      ≡ get_or idt j null_entry
unfolding set_gate_ist
set_gate_ist-other num j handler ist idt ne = get_or-set_ne idt num j _ null_entry ne

length-set_gate_ist :
    (num h ist : ℕ) (idt : List IdtEntry)
    → length (set_gate_ist num h 0x08 type_interrupt ist idt) ≡ length idt
unfolding set_gate_ist
length-set_gate_ist num h ist idt = length-set idt num _

module _ (stub : ℕ → ℕ) where
  length-set_gates :
      (n num : ℕ) (idt : List IdtEntry) → length (set_gates stub n num idt) ≡ length idt
  unfolding set_gates set_gate
  length-set_gates zero num idt = refl
  length-set_gates (suc n) num idt =
      length-set_gates n (num + 1) _ ∙ length-set_gate_ist num (stub num) 0 idt

  set_gates-other :
      (n num j : ℕ) (idt : List IdtEntry)
      → (j < num) ⊎ (num + n ≤ j)
      → get_or (set_gates stub n num idt) j null_entry ≡ get_or idt j null_entry
  unfolding set_gates set_gate
  set_gates-other zero num j idt out = refl
  set_gates-other (suc n) num j idt out =
      set_gates-other n (num + 1) j _ (ground arith)
      ∙ set_gate_ist-other num j (stub num) 0 idt (λ e. absurd (ground arith))

  set_gates-Gate :
      (n num j : ℕ) (idt : List IdtEntry)
      → num + n ≤ length idt
      → num ≤ j
      → j < num + n
      → stub j < 2 ^ 64
      → Gate (stub j) 0 (get_or (set_gates stub n num idt) j null_entry)
  unfolding set_gates set_gate
  set_gates-Gate zero num j idt room lo hi fits = absurd (omega arith)
  set_gates-Gate (suc n) num j idt room lo hi fits = elim (ℕ_discrete num j) [
    | yes here ↦ rw (set_gates-other n (num + 1) j _ (inl (omega arith))) (
        subst
          (λ k.
            Gate (stub k) 0
              (get_or (set_gate_ist num (stub num) 0x08 type_interrupt 0 idt) k null_entry))
          here
          (set_gate_ist-Gate num (stub num) 0 idt (omega arith)
            (subst (λ k. stub k < 2 ^ 64) (sym here) fits)))
    | no later ↦
        set_gates-Gate n (num + 1) j _ (omega (arith, length-set_gate_ist num (stub num) 0 idt))
          (omega arith) (omega arith) fits
  ]

get_or-replicate_all : (n j : ℕ) → get_or (replicate n null_entry) j null_entry ≡ null_entry
get_or-replicate_all zero j = refl
get_or-replicate_all (suc n) zero = refl
get_or-replicate_all (suc n) (suc j) = get_or-replicate_all n j

-- The table after each run of idt_init.
abbrev first_gates : (ℕ → ℕ) → List IdtEntry
first_gates stub = set_gates stub 8 0 (replicate 256 null_entry)

abbrev fault_gate : (ℕ → ℕ) → List IdtEntry
fault_gate stub = set_gate_ist 8 (stub 8) 0x08 type_interrupt 1 (first_gates stub)

length-first_gates : (stub : ℕ → ℕ) → length (first_gates stub) ≡ 256
length-first_gates stub =
    length-set_gates stub 8 0 (replicate 256 null_entry) ∙ length-replicate 256 null_entry

length-fault_gate : (stub : ℕ → ℕ) → length (fault_gate stub) ≡ 256
length-fault_gate stub =
    length-set_gate_ist 8 (stub 8) 1 (first_gates stub) ∙ length-first_gates stub

-- After idt_init, each of the vectors 0 to 47 whose stub has a 64-bit address has a present
-- interrupt gate of the kernel's code segment to its own stub, on the stack IST1 for the double
-- fault and on no other stack for the rest; the vectors from 48 on have no gate.
pub idt_init_lem :
    (stub : ℕ → ℕ) (j : ℕ)
    → stub j < 2 ^ 64
    → ((j < 48) × Gate (stub j) (if j == 8 then 1 else 0) (get_or (idt_init stub) j null_entry))
      ⊎ ((48 ≤ j) × (get_or (idt_init stub) j null_entry ≡ null_entry))
unfolding idt_init
idt_init_lem stub j fits = elim (Bool-cases (ltb j 8)) [
  | inl low ↦ inl (
    ground arith,
    rw
        (
          set_gates-other stub 39 9 j (fault_gate stub) (inl (ground arith)),
          set_gate_ist-other 8 j (stub 8) 1 (first_gates stub) (λ e. absurd (ground arith)),
          ==_ne j 8 (λ e. absurd (ground arith)),
        )
        (set_gates-Gate stub 8 0 j (replicate 256 null_entry)
          (omega (arith, length-replicate 256 null_entry)) (omega arith) (ground arith) fits),
  )
  | inr from_8 ↦ elim (Bool-cases (j == 8)) [
    | inl is_8 ↦ inl (
      ground arith,
      rw (set_gates-other stub 39 9 j (fault_gate stub) (inl (ground arith)), is_8)
          (subst (λ k. Gate (stub k) 1 (get_or (fault_gate stub) k null_entry))
            (sym ((==_iff j 8).0 is_8))
            (set_gate_ist-Gate 8 (stub 8) 1 (first_gates stub)
              (omega (arith, length-first_gates stub))
              (subst (λ k. stub k < 2 ^ 64) ((==_iff j 8).0 is_8) fits))),
    )
    | inr not_8 ↦ elim (Bool-cases (ltb j 48)) [
      | inl high ↦ inl (
        ground arith,
        rw not_8 (
            set_gates-Gate stub 39 9 j (fault_gate stub) (omega (arith, length-fault_gate stub))
              (ground arith) (ground arith) fits),
      )
      | inr above ↦ inr (
        ground arith,
        set_gates-other stub 39 9 j (fault_gate stub) (inr (ground arith))
            ∙ set_gate_ist-other 8 j (stub 8) 1 (first_gates stub) (λ e. absurd (ground arith))
            ∙ set_gates-other stub 8 0 j (replicate 256 null_entry) (inr (ground arith))
            ∙ get_or-replicate_all 256 j,
      )
    ]
  ]
]
