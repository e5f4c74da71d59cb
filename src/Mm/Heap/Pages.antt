-- ===== src/Mm/Heap/Pages.antt =====
-- The pages of a block: kmalloc on a tree of page tables.
use mathlib.Core.Path.{subst}
use ki_os.Base.{
  ℕ, zero, suc, ◌+◌, ◌-◌, ◌*◌, ◌/◌, ◌%◌, ◌^◌, ◌<◌, ◌≡◌, ◌≢◌, ◌⊎◌, inl, inr, refl, ap, ◌∙◌, sym,
  Bool, true, false, Option, some, arith, if◌then◌else◌, add64, Bool-cases, ==_ne,
}
use ki_os.Mm.Pmm.{Pmm, alloc_page}
use ki_os.Mm.Pmm.View.{page_used}
use ki_os.Mm.Pmm.Alloc.{Found, Outcome, alloc_page_lem}
use ki_os.Mm.Vmm.{Machine, virt_to_phys}
use ki_os.Mm.Vmm.Tree.{IsTree, value, Area, Covers}
use ki_os.Mm.Vmm.Data.{alloc-IsTree}
use ki_os.Mm.Vmm.Leaf.{OtherPage, virt_to_phys_value}
use ki_os.Mm.Vmm.Mapped.{Mapped, map_page-Mapped}
use ki_os.Mm.Heap.{ensure_page, ensure_pages}
use native.Mathlib.Decide.{ℕ_discrete}

-- No page is left free.
abbrev pub Exhausted : Pmm → Type 0
Exhausted s = (q : ℕ) → q < s.total_pages → page_used s q ≡ true

-- A page has a physical page behind it.
abbrev pub Backed : Machine → ℕ → Type 0
Backed m v = (f : ℕ) × (virt_to_phys v m ≡ some f) × (f ≢ 0)

-- The loop over the pages `page`, `page + 4096`, … has run, `count` of them.
pub record Ensured (a : Area) (m : Machine) (page count : ℕ) (ok : Bool) (m' : Machine)
    : Type 0 where
  pub level' : ℕ → ℕ
  pub tree : IsTree a level' m'
  pub total : m'.pmm.total_pages ≡ m.pmm.total_pages
  pub spends : (q : ℕ) → page_used m.pmm q ≡ true → page_used m'.pmm q ≡ true
  pub failed : ok ≡ false → Exhausted m'.pmm
  pub backed : ok ≡ true → (i : ℕ) → i < count → Exhausted m'.pmm ⊎ Backed m' (page + 4096 * i)
  pub others :
      (v : ℕ)
      → Covers a v
      → ((i : ℕ) → i < count → OtherPage v (page + 4096 * i))
      → virt_to_phys v m' ≡ virt_to_phys v m

module _ {a : Area} {level : ℕ → ℕ} {m : Machine} (tree : IsTree a level m) (page : ℕ)
    (covers : Covers a page) where
  abbrev PageRan : Option (Bool × Machine) → Type 0
  PageRan r = (ok : Bool) × (m' : Machine) × (r ≡ some (ok, m')) × Ensured a m page 1 ok m'

  ensure_taken :
      {p : ℕ} {s : Pmm} (done : Bool) (n : Machine)
      → Found 0 p m.pmm s (alloc_page m.pmm)
      → Mapped a level (record m { pmm = s }) page (p * 4096) done n
      → Ensured a m page 1 true n
  ensure_taken {p} {s} done n f w = record {
    level' = w.level';
    tree = w.tree;
    total = w.total ∙ f.marks.total;
    spends = λ q u. w.spends q (ground (arith, f.marks.view q));
    failed = λ e. cc;
    backed = λ e i lt. elim (Bool-cases done) [
      | inl mapped ↦ inr (
        p * 4096 / 4096 * 4096 + page % 4096,
        ap (λ v. virt_to_phys v n) {x = page + 4096 * i} {y = page} (omega arith) ∙ w.maps mapped,
        λ z. cc (f.was_free, tree.low, page_zero z),
      )
      | inr full ↦ inl (w.full full)
    ];
    others = λ v hv apart.
        w.others v hv (inr (λ e. apart 0 (omega arith) (omega (arith, e))))
        ∙ virt_to_phys_value v (record m { pmm = s })
        ∙ sym (virt_to_phys_value v m);
  }
    where
      page_zero : p * 4096 / 4096 * 4096 + page % 4096 ≡ 0 → page_used m.pmm p ≡ page_used m.pmm 0
      page_zero z = ap (page_used m.pmm) {x = p} {y = 0} (omega arith)

  unmapped :
      virt_to_phys page m ≡ some 0
      → Outcome 0 m.pmm (alloc_page m.pmm)
      → PageRan (ensure_page page m)
  unfolding ensure_page
  unmapped missing (inl (p, s, f)) =
      let (done, n, run, w) =
        map_page-Mapped (alloc-IsTree tree f.marks) page covers (p * 4096) 3
          (omega (arith, f.managed, tree.valid.small)) (omega arith) in
      (
        true,
        n,
        rw
            (
              missing,
              f.result,
              ==_ne (p * 4096) 0 (λ z. cc (f.was_free, tree.low, page_zero z)),
              run,
            )
            refl,
        ensure_taken done n f w,
      )
    where
      page_zero : p * 4096 ≡ 0 → page_used m.pmm p ≡ page_used m.pmm 0
      page_zero z = ap (page_used m.pmm) {x = p} {y = 0} (omega arith)
  unmapped missing (inr f) = (
    false,
    m,
    rw (missing, f.result) refl,
    record {
      level' = level;
      tree = tree;
      total = refl;
      spends = λ q u. u;
      failed = λ e q lt. f.all q (omega arith) lt;
      backed = λ e. cc;
      others = λ v hv apart. refl;
    },
  )

  -- One round never faults, and gives the page a physical page unless memory is exhausted.
  ensure_page-Ensured : PageRan (ensure_page page m)
  unfolding ensure_page
  ensure_page-Ensured =
      let f = value m.mem page 4 m.pml4 in
      elim (ℕ_discrete f 0) [
        | yes z ↦ unmapped (virt_to_phys_value page m ∙ ap some z) (alloc_page_lem m.pmm tree.valid)
        | no mapped ↦ (
          true,
          m,
          rw (virt_to_phys_value page m, ==_ne f 0 mapped) refl,
          record {
            level' = level;
            tree = tree;
            total = refl;
            spends = λ q u. u;
            failed = λ e. cc;
            backed = λ e i lt. inr (
              f,
              ap (λ v. virt_to_phys v m) {x = page + 4096 * i} {y = page} (omega arith)
                  ∙ virt_to_phys_value page m,
              mapped,
            );
            others = λ v hv apart. refl;
          },
        )
      ]

-- One round, then the rest of the loop.
Ensured-suc :
    {a : Area} {m n o : Machine} {ok : Bool} (page count : ℕ)
    → Covers a page
    → count < 2 ^ 36 - 1
    → Ensured a m page 1 true n
    → Ensured a n (page + 4096) count ok o
    → Ensured a m page (suc count) ok o
Ensured-suc {a = a} {m = m} {n = n} {o = o} {ok = ok} page count covers few f g = record {
  level' = g.level';
  tree = g.tree;
  total = g.total ∙ f.total;
  spends = λ q u. g.spends q (f.spends q u);
  failed = g.failed;
  backed = every;
  others = λ v hv apart.
      g.others v hv (λ i lt e. apart (suc i) (omega arith) (omega (arith, e)))
      ∙ f.others v hv (λ i lt. apart i (omega arith));
}
  where
    at_start : Covers a (page + 4096 * 0)
    at_start = subst (Covers a) (omega arith) covers

    first :
        ok ≡ true
        → Exhausted n.pmm ⊎ Backed n (page + 4096 * 0)
        → Exhausted o.pmm ⊎ Backed o (page + 4096 * 0)
    first e (inl full) = inl (λ q lt. g.spends q (full q (omega (arith, g.total))))
    first e (inr (phys, run, ne)) =
        inr
          (phys, g.others (page + 4096 * 0) (at_start) (λ i lt same. omega (arith, same)) ∙ run, ne)

    every : ok ≡ true → (i : ℕ) → i < suc count → Exhausted o.pmm ⊎ Backed o (page + 4096 * i)
    every e zero lt = first e (f.backed refl 0 (omega arith))
    every e (suc i) lt = elim (g.backed e i (omega arith)) [
      | inl full ↦ inl full
      | inr (phys, run, ne) ↦ inr (
        phys,
        ap (λ v. virt_to_phys v o) {x = page + 4096 * suc i} {y = page + 4096 + 4096 * i}
              (omega arith)
            ∙ run,
        ne,
      )
    ]

abbrev LoopRan : Area → (count page : ℕ) → Machine → Option (Bool × Machine) → Type 0
LoopRan a count page m r =
    (ok : Bool) × (m' : Machine) × (r ≡ some (ok, m')) × Ensured a m page count ok m'

-- The loop stops at the first round that fails.
joined :
    {a : Area} {m n : Machine} (page count : ℕ) (ok : Bool)
    → Covers a page
    → count < 2 ^ 36 - 1
    → Ensured a m page 1 ok n
    → (r : Option (Bool × Machine)) → LoopRan a count (page + 4096) n r
    → LoopRan a (suc count) page m (if ok then r else some (false, n))
joined {n = n} page count false covers few f r g = (
  false,
  n,
  refl,
  record {
    level' = f.level';
    tree = f.tree;
    total = f.total;
    spends = f.spends;
    failed = f.failed;
    backed = λ e. cc;
    others = λ v hv apart. f.others v hv (λ i lt. apart i (omega arith));
  },
)
joined page count true covers few f r (ok, o, run, g) =
    (ok, o, run, Ensured-suc page count covers few f g)

-- The loop never faults.
pub ensure_pages-Ensured :
    (count page : ℕ) (m : Machine) {a : Area} {level : ℕ → ℕ}
    → IsTree a level m
    → ((i : ℕ) → i < count → Covers a (page + 4096 * i))
    → count < 2 ^ 36
    → page + 4096 * count < 2 ^ 64
    → LoopRan a count page m (ensure_pages count page m)
unfolding ensure_pages
ensure_pages-Ensured zero page m {a} {level} tree covers few room = (
  true,
  m,
  refl,
  record {
    level' = level;
    tree = tree;
    total = refl;
    spends = λ q u. u;
    failed = λ e. cc;
    backed = λ e i lt. absurd (omega arith);
    others = λ v hv apart. refl;
  },
)
ensure_pages-Ensured (suc count) page m {a} {level} tree covers few room =
    let (ok, n, run, f) = ensure_page-Ensured tree page (at_first (covers 0 (omega arith))) in
    let next : add64 page 0x1000 ≡ page + 4096 = omega arith in
    rw (run, next)
      (joined page count ok (at_first (covers 0 (omega arith))) (omega arith) f _
        (ensure_pages-Ensured count (page + 4096) n f.tree later (omega arith) (omega arith)))
  where
    at_first : Covers a (page + 4096 * 0) → Covers a page
    at_first = subst (Covers a) (omega arith)

    later : (i : ℕ) → i < count → Covers a (page + 4096 + 4096 * i)
    later i lt = subst (Covers a) (omega arith) (covers (suc i) (omega arith))
