-- ===== src/Mm/Pmm/View.antt =====
-- What one update of the bitmap does to the set of used pages and to the invariant.
use ki_os.Base.{
  ℕ, ◌*◌, ◌/◌, ◌%◌, ◌^◌, ◌≤◌, ◌<◌, ◌≡◌, inl, inr, refl, Bool, true, false, some, List, arith,
  length, get_elem?, get_or, set, All, ◌==◌, if◌then◌else◌, bit_or, bit_and, ◌-◌, Bool-cases, ap,
  ◌∙◌, add64, sub64, ◌>>=◌, get_elem?-eq-get_or, length-set, get_or-set_self, get_or-set_ne,
  All-set, All-get_or,
}
use ki_os.Base.Bits.{has_bit, has_bit-bit_or, has_bit-bit_and, bit_or_byte, bit_and_byte}
use ki_os.Base.Tally.{tally, tally_gain, tally-le}
use ki_os.Mm.Pmm.{Pmm, reserve_page, release_page}
use native.Mathlib.Decide.{ℕ_discrete}

-- The bit of page `p`.
abbrev pub bit_at : List ℕ → ℕ → Bool
bit_at bm p = has_bit (get_or bm (p / 8) 0) (p % 8)

-- The set of used pages that a state stands for.
abbrev pub page_used : Pmm → ℕ → Bool
page_used s p = bit_at s.bitmap p

pub record IsValid (s : Pmm) : Type 0 where
  pub bytes : All (λ b. b < 256) s.bitmap
  pub covers : s.total_pages ≤ length s.bitmap * 8
  pub small : s.total_pages ≤ 2 ^ 52
  pub counted : s.used_pages ≡ tally (page_used s) s.total_pages

-- `t` is `s` with page `p` used, or free, as `v` says.
pub record Marks (v : Bool) (p : ℕ) (s t : Pmm) : Type 0 where
  pub valid : IsValid t
  pub view : (j : ℕ) → page_used t j ≡ (if p == j then v else page_used s j)
  pub total : t.total_pages ≡ s.total_pages

-- A new byte that differs from the old one in bit `p % 8` alone changes page `p` alone.
bit_at-set :
    (v : Bool) (bm : List ℕ) (p b j : ℕ)
    → p < length bm * 8
    → ((k : ℕ) → k < 8 → has_bit b k ≡ (if p % 8 == k then v else has_bit (get_or bm (p / 8) 0) k))
    → bit_at (set bm (p / 8) b) j ≡ (if p == j then v else bit_at bm j)
bit_at-set v bm p b j within new = elim (ℕ_discrete (p / 8) (j / 8)) [
  | yes e ↦
      rw (← e, get_or-set_self bm (p / 8) b 0 (omega arith))
        (new (j % 8) (omega arith) ∙ same_byte e)
  | no ne ↦ rw (get_or-set_ne bm (p / 8) (j / 8) b 0 ne) (ground arith)
]
  where
    same_byte :
        p / 8 ≡ j / 8
        → (if p % 8 == j % 8 then v else has_bit (get_or bm (p / 8) 0) (j % 8))
          ≡ (if p == j then v else has_bit (get_or bm (p / 8) 0) (j % 8))
    same_byte e = ground arith

byte_small : (bm : List ℕ) (i : ℕ) → All (λ b. b < 256) bm → get_or bm i 0 < 256
byte_small bm i bytes = All-get_or (λ b. b < 256) bm i 0 (omega arith) bytes

module _ {s : Pmm} (valid : IsValid s) (p : ℕ) (within : p < s.total_pages) where
  abbrev pub old : ℕ
  old = get_or s.bitmap (p / 8) 0

  old_small : old < 256
  old_small = byte_small s.bitmap (p / 8) valid.bytes

  pub loaded : get_elem? s.bitmap (p / 8) ≡ some old
  loaded = get_elem?-eq-get_or s.bitmap (p / 8) 0 (omega (arith, valid.covers))

  Marks-same : (v : Bool) → page_used s p ≡ v → Marks v p s s
  Marks-same v e = record {
    valid = valid;
    view = λ j. ground (arith, ap (page_used s) {x = p} {y = j});
    total = refl;
  }

  -- Storing byte `b`, with the counter at `used`.
  unfoldable pub stored : ℕ → ℕ → Pmm
  stored b used = record s { bitmap = set s.bitmap (p / 8) b; used_pages = used }

  stored_view :
      (v : Bool) (b used j : ℕ)
      → ((k : ℕ) → k < 8 → has_bit b k ≡ (if p % 8 == k then v else has_bit old k))
      → page_used (stored b used) j ≡ (if p == j then v else page_used s j)
  unfolding stored
  stored_view v b used j new = bit_at-set v s.bitmap p b j (omega (arith, valid.covers)) new

  stored-Marks :
      (v : Bool) (b used : ℕ)
      → ((k : ℕ) → k < 8 → has_bit b k ≡ (if p % 8 == k then v else has_bit old k))
      → b < 256
      → used ≡ tally (page_used (stored b used)) s.total_pages
      → Marks v p s (stored b used)
  unfolding stored
  stored-Marks v b used new small counted = record {
    valid = record {
      bytes = All-set (λ c. c < 256) s.bitmap (p / 8) small valid.bytes;
      covers = omega (arith, valid.covers, length-set s.bitmap (p / 8) b);
      small = valid.small;
      counted = counted;
    };
    view = λ j. stored_view v b used j new;
    total = refl;
  }

  unfoldable pub reserved : Pmm
  reserved = stored (bit_or old (2 ^ (p % 8))) (add64 s.used_pages 1)

  released : Pmm
  released = stored (bit_and old (255 - 2 ^ (p % 8))) (sub64 s.used_pages 1)

  or_bits :
      (k : ℕ)
      → k < 8
      → has_bit (bit_or old (2 ^ (p % 8))) k ≡ (if p % 8 == k then true else has_bit old k)
  or_bits k h = has_bit-bit_or old (p % 8) k old_small (omega arith) h

  and_bits :
      (k : ℕ)
      → k < 8
      → has_bit (bit_and old (255 - 2 ^ (p % 8))) k ≡ (if p % 8 == k then false else has_bit old k)
  and_bits k h = has_bit-bit_and old (p % 8) k old_small (omega arith) h

  pub reserved-Marks : page_used s p ≡ false → Marks true p s reserved
  unfolding reserved
  reserved-Marks e =
      stored-Marks true _ _ or_bits
        (bit_or_byte old (p % 8) 0 old_small (omega arith) (omega arith))
        (omega (
          arith,
          valid.counted,
          valid.small,
          tally-le (page_used s) s.total_pages,
          tally_gain (page_used s) (page_used reserved) p s.total_pages within e
              (λ j. stored_view true _ _ j or_bits),
        ))

  released-Marks : page_used s p ≡ true → Marks false p s released
  unfolding released
  released-Marks e =
      stored-Marks false _ _ and_bits
        (bit_and_byte old (p % 8) 0 old_small (omega arith) (omega arith))
        (omega (
          arith,
          valid.counted,
          valid.small,
          tally-le (page_used s) s.total_pages,
          tally_gain (page_used released) (page_used s) p s.total_pages within cleared put_back,
        ))
    where
      cleared : page_used released p ≡ false
      cleared = ground (
        arith,
        stored_view false (bit_and old (255 - 2 ^ (p % 8))) (sub64 s.used_pages 1) p and_bits,
      )

      put_back : (j : ℕ) → page_used s j ≡ (if p == j then true else page_used released j)
      put_back j = ground (
        arith,
        stored_view false (bit_and old (255 - 2 ^ (p % 8))) (sub64 s.used_pages 1) j and_bits,
        ap (page_used s) {x = p} {y = j},
      )

  -- `reserve_page` and `release_page` succeed below `total_pages`, and change page `p` alone.
  pub reserve_page-Marks : (t : Pmm) × (reserve_page p s ≡ some t) × Marks true p s t
  unfolding reserve_page reserved stored
  reserve_page-Marks = elim (Bool-cases (page_used s p)) [
    | inl e ↦ (s, rw (loaded, ◌>>=◌, e), Marks-same true e)
    | inr e ↦ (reserved, rw (loaded, ◌>>=◌, e), reserved-Marks e)
  ]

  pub release_page-Marks : (t : Pmm) × (release_page p s ≡ some t) × Marks false p s t
  unfolding release_page released stored
  release_page-Marks = elim (Bool-cases (page_used s p)) [
    | inl e ↦ (released, rw (loaded, ◌>>=◌, e), released-Marks e)
    | inr e ↦ (s, rw (loaded, ◌>>=◌, e), Marks-same false e)
  ]
