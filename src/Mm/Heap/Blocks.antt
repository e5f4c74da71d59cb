-- ===== src/Mm/Heap/Blocks.antt =====
-- What kmalloc hands out: aligned blocks inside the heap, apart from each other.
use mathlib.Core.Path.{subst}
use ki_os.Base.{
  ℕ, ◌+◌, ◌-◌, ◌*◌, ◌/◌, ◌%◌, ◌^◌, ◌≤◌, ◌<◌, ◌≡◌, ◌≢◌, inl, inr, refl, ap₂, bit_and, Bool, true,
  false, Option, none, some, List, [], ◌∷◌, arith, leb, ◌==◌, ◌>>=◌, add64, Bool-cases,
}
use ki_os.Base.Bits.{bit_and_align_mask, bit_and_page_mask}
use ki_os.Mm.Vmm.{Machine}
use ki_os.Mm.Heap.{
  Heap, heap_start, heap_limit, align_size, ensure_pages, page_rounds, bump, kmalloc, heap_init,
  kfree,
}

-- The heap's pointer is inside the heap and aligned, and the count is the pointer's distance.
pub record IsValid (h : Heap) : Type 0 where
  pub above : heap_start ≤ h.current_ptr
  pub below : h.current_ptr < heap_limit
  pub aligned : h.current_ptr % 16 ≡ 0
  pub counted : heap_start + h.total_alloc ≡ h.current_ptr

-- What one call does: a block between the old pointer and the new, or nothing but page tables.
pub data Outcome (n : ℕ) (h : Heap) : ℕ → Heap → Type 0 where
  block :
      {h' : Heap}
      → 0 < n
      → h.current_ptr + n ≤ h'.current_ptr
      → h'.current_ptr < h.current_ptr + n + 16
      → IsValid h'
      → Outcome n h h.current_ptr h'
  failed : (m : Machine) → Outcome n h 0 (record h { machine = m })

pub align_size_lem : (n : ℕ) → n < 2 ^ 46 → align_size n ≡ (n + 15) / 16 * 16
align_size_lem n h = omega (arith, bit_and_align_mask (add64 n 15) (omega arith))

bump-Outcome :
    (n : ℕ) (h : Heap)
    → IsValid h
    → n ≢ 0
    → n < 2 ^ 46
    → leb heap_limit (add64 h.current_ptr (align_size n)) ≡ false
    → (r : Bool × Machine) → Outcome n h (bump (align_size n) h r).0 (bump (align_size n) h r).1
bump-Outcome n h valid some_bytes small fits (false, m) = failed m
bump-Outcome n h valid some_bytes small fits (true, m) =
    let room : h.current_ptr + align_size n < heap_limit =
      ground (arith, align_size_lem n small, valid.below) in
    block (omega arith) (omega (arith, align_size_lem n small, valid.below))
      (omega (arith, align_size_lem n small, valid.below))
      (record {
        above = omega (arith, valid.above, valid.below, room);
        below = omega (arith, room);
        aligned = omega (arith, align_size_lem n small, valid.aligned, valid.below, room);
        counted = omega (arith, align_size_lem n small, valid.counted, valid.below, room);
      })

Sound : (n : ℕ) → Heap → Option (ℕ × Heap) → Type 0
Sound n h none = Unit
Sound n h (some (a, h')) = Outcome n h a h'

mapped-Sound :
    (n : ℕ) (h : Heap)
    → IsValid h
    → n ≢ 0
    → n < 2 ^ 46
    → leb heap_limit (add64 h.current_ptr (align_size n)) ≡ false
    → (o : Option (Bool × Machine)) → Sound n h (o >>= λ r. some (bump (align_size n) h r))
unfolding Sound
mapped-Sound n h valid some_bytes small fits none = tt
mapped-Sound n h valid some_bytes small fits (some r) =
    bump-Outcome n h valid some_bytes small fits r

kmalloc-Sound : (n : ℕ) (h : Heap) → IsValid h → n < 2 ^ 46 → Sound n h (kmalloc n h)
unfolding kmalloc Sound
kmalloc-Sound n h valid small = elim (Bool-cases (n == 0)) [
  | inl none_asked ↦ rw none_asked (failed h.machine)
  | inr some_bytes ↦ elim (Bool-cases (leb heap_limit (add64 h.current_ptr (align_size n)))) [
    | inl full ↦ rw (some_bytes, full) (failed h.machine)
    | inr fits ↦
        rw (some_bytes, fits)
          (mapped-Sound n h valid (ground arith) small fits (
            ensure_pages (page_rounds h.current_ptr (add64 h.current_ptr (align_size n)))
              (bit_and h.current_ptr (2 ^ 64 - 4096)) h.machine))
  ]
]

-- For a request below 2 ^ 46 bytes, on a valid heap, every result of kmalloc is either 0, with the
-- heap's pointer and count unchanged, or the old pointer, with at least the requested bytes and
-- less than 16 more before the new pointer, and the heap is valid again.
pub kmalloc_lem :
    (n : ℕ) (h : Heap)
    → IsValid h
    → n < 2 ^ 46
    → {a : ℕ} {h' : Heap} → kmalloc n h ≡ some (a, h')
    → Outcome n h a h'
unfolding Sound
kmalloc_lem n h valid small run = subst (Sound n h) run (kmalloc-Sound n h valid small)

-- On a valid heap a request of 2 ^ 47 bytes, far more than the heap has, succeeds: the sum wraps,
-- no page is mapped, and the heap's pointer leaves the heap for the low addresses.
pub kmalloc-huge :
    (h : Heap)
    → IsValid h
    → kmalloc (2 ^ 47) h
      ≡ some (
        h.current_ptr,
        record h { current_ptr = h.current_ptr - heap_start; total_alloc = h.total_alloc + 2 ^ 47 },
      )
unfolding kmalloc ensure_pages
kmalloc-huge h valid =
    rw (sum, rounds, low)
      (ap₂ (λ c t. some (h.current_ptr, record h { current_ptr = c; total_alloc = t })) sum
        (omega (arith, valid.counted, valid.below)))
  where
    sum : add64 h.current_ptr 140737488355328 ≡ h.current_ptr - heap_start
    sum = omega (arith, valid.above, valid.below)

    low : leb heap_limit (h.current_ptr - heap_start) ≡ false
    low = ground (arith, valid.above, valid.below)

    rounds : page_rounds h.current_ptr (h.current_ptr - heap_start) ≡ 0
    rounds = omega (
      arith,
      valid.above,
      valid.below,
      bit_and_page_mask h.current_ptr (omega (arith, valid.below)),
      bit_and_page_mask (add64 (h.current_ptr - heap_start) 0xFFF) (omega arith),
    )

-- A heap with the blocks that were handed out, the newest first.
pub record System : Type 0 where
  pub heap : Heap
  pub blocks : List (ℕ × ℕ)

-- One event: a request that succeeds, one that fails, or a kfree, which changes nothing.
pub data Step : System → System → Type 0 where
  allocates :
      {s : System} (n : ℕ) {a : ℕ} {h' : Heap}
      → n < 2 ^ 46
      → kmalloc n s.heap ≡ some (a, h')
      → a ≢ 0
      → Step s (record { heap = h'; blocks = (a, n) ∷ s.blocks })
  fails :
      {s : System} (n : ℕ) {h' : Heap}
      → n < 2 ^ 46
      → kmalloc n s.heap ≡ some (0, h')
      → Step s (record s { heap = h' })
  frees : {s : System} (ptr : ℕ) → Step s (record s { heap = kfree ptr s.heap })

-- The histories that begin with heap_init.
pub data Reach (m : Machine) : System → Type 0 where
  start : (h : Heap) → h.machine ≡ m → Reach m (record { heap = heap_init h; blocks = [] })
  next : {s t : System} → Reach m s → Step s t → Reach m t

-- Each block ends before the address where the next begins.
pub Stacked : ℕ → List (ℕ × ℕ) → Type 0
Stacked top [] = Unit
Stacked top ((a, n) ∷ bs) = (heap_start ≤ a) × (a % 16 ≡ 0) × (a + n ≤ top) × Stacked a bs

Stacked-le : (top top' : ℕ) (bs : List (ℕ × ℕ)) → top ≤ top' → Stacked top bs → Stacked top' bs
unfolding Stacked
Stacked-le top top' [] le h = tt
Stacked-le top top' ((a, n) ∷ bs) le h = (h.0, h.1, omega (arith, h.2), h.3)

grown :
    {n a : ℕ} {h h' : Heap} (bs : List (ℕ × ℕ))
    → IsValid h
    → Outcome n h a h'
    → a ≢ 0
    → Stacked h.current_ptr bs
    → IsValid h' × Stacked h'.current_ptr ((a, n) ∷ bs)
unfolding Stacked
grown bs v (block p q r w) ne st = (w, (v.above, v.aligned, q, st))
grown bs v (failed m) ne st = absurd (ne refl)

kept :
    {n a : ℕ} {h h' : Heap} (bs : List (ℕ × ℕ))
    → IsValid h
    → Outcome n h a h'
    → a ≡ 0
    → Stacked h.current_ptr bs
    → IsValid h' × Stacked h'.current_ptr bs
kept bs v (block p q r w) z st = absurd (omega (arith, v.above))
kept bs v (failed m) z st =
    (record { above = v.above; below = v.below; aligned = v.aligned; counted = v.counted }, st)

Step-Stacked :
    {s t : System}
    → Step s t
    → IsValid s.heap × Stacked s.heap.current_ptr s.blocks
    → IsValid t.heap × Stacked t.heap.current_ptr t.blocks
unfolding kfree
Step-Stacked {s} (allocates n small run ne) inv =
    grown s.blocks inv.0 (kmalloc_lem n s.heap inv.0 small run) ne inv.1
Step-Stacked {s} (fails n small run) inv =
    kept s.blocks inv.0 (kmalloc_lem n s.heap inv.0 small run) refl inv.1
Step-Stacked (frees ptr) inv = inv

-- After heap_init and any history of requests below 2 ^ 46 bytes and of frees, the heap is valid,
-- and the blocks handed out lie one after the other from the heap's start to its pointer, each
-- aligned to 16 bytes.
pub blocks-Stacked :
    {m : Machine} {s : System} → Reach m s → IsValid s.heap × Stacked s.heap.current_ptr s.blocks
unfolding heap_init Stacked
blocks-Stacked (start h e) = (
  record { above = omega arith; below = omega arith; aligned = omega arith; counted = omega arith },
  tt,
)
blocks-Stacked (next r st) = Step-Stacked st (blocks-Stacked r)
