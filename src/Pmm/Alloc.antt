-- ===== src/Pmm/Alloc.antt =====
-- kernel/mm/pmm.c: what `pmm_alloc_page` and `pmm_free_page` promise their callers.
use Prim.Native.Nat.{ℕ, zero, suc}
use emyx.Base.{
  ◌+◌, ◌*◌, ◌-◌, ◌/◌, ◌^◌, ◌≤◌, ◌<◌, ◌≡◌, ◌≢◌, refl, ap, ◌∙◌, Bool, true, false, not, ◌&&◌, ◌==◌,
  ltb, if◌then◌else◌, arith, Bool-cases, inl, inr, ◌↔◌, add32, shr,
}
use native.Mathlib.Decide.{ℕ_discrete}
use emyx.Pmm.{
  Pmm, page_shift, alloc_from, pmm_alloc_page, pmm_free_page, page_size, bitmap_test, bitmap_clear,
}
use emyx.Pmm.Bitmap.{
  used, used-test, clear_count, clear_count-le, clear_count-differ, clear_count-all_used,
  used_of_no_clear, used-bitmap_clear, bitmap_clear-Bytes, length-bitmap_clear,
  bitmap_clear-bitmap_set,
}
use emyx.Pmm.Invariant.{IsValid, taking, used-taking, taking-IsCounted, taking-free_pages}

-- What a call of the allocator on `s` may return: no page, and then none from page 1 on is free and
-- nothing has changed; or the lowest free page from page 1 on, now taken.
pub data Allocates (s : Pmm) (first : ℕ) (r : ℕ × Pmm) : Type 0 where
  exhausted :
      r ≡ (0, s)
      → ((q : ℕ) → first ≤ q → q < s.max_page → used s.bitmap q ≡ true)
      → Allocates s first r
  page :
      (p : ℕ)
      → r ≡ (p * page_size, taking s p)
      → first ≤ p
      → p < s.max_page
      → used s.bitmap p ≡ false
      → ((q : ℕ) → first ≤ q → q < p → used s.bitmap q ≡ true)
      → Allocates s first r

alloc_from-Allocates :
    (n i : ℕ) (s : Pmm)
    → s.max_page ≤ 2 ^ 20
    → i + n ≡ s.max_page
    → Allocates s i (alloc_from n i s)
unfolding alloc_from
alloc_from-Allocates zero i s h e = exhausted refl (λ q lo hi. absurd (omega arith))
alloc_from-Allocates (suc n) i s h e = elim (Bool-cases (bitmap_test s.bitmap i == 0)) [
  | inl off ↦
      page i (rw off (ground arith)) (omega arith) (omega arith)
        (ground (arith, used-test s.bitmap i)) (λ q lo hi. absurd (omega arith))
  | inr on ↦ rw on (
      widen (alloc_from-Allocates n (i + 1) s h (omega arith))
        (ground (arith, used-test s.bitmap i)))
]
  where
    below :
        (q : ℕ)
        → used s.bitmap i ≡ true
        → i ≤ q
        → (i + 1 ≤ q → used s.bitmap q ≡ true)
        → used s.bitmap q ≡ true
    below q on lo above = ground arith

    widen : {r : ℕ × Pmm} → Allocates s (i + 1) r → used s.bitmap i ≡ true → Allocates s i r
    widen (exhausted e all) on = exhausted e (λ q lo hi. below q on lo (λ above. all q above hi))
    widen (page p e lo hi off all) on =
        page p e (omega arith) hi off (λ q lo' hi'. below q on lo' (λ above. all q above hi'))

-- On a valid allocator `pmm_alloc_page` returns the address of the lowest free page and takes it,
-- or, if every page is taken, returns 0 and changes nothing.
pub pmm_alloc_page_lem : (s : Pmm) → IsValid s → Allocates s 1 (pmm_alloc_page s)
unfolding pmm_alloc_page
pmm_alloc_page_lem s v = alloc_from-Allocates (s.max_page - 1) 1 s (omega arith) (omega arith)

pub taking-IsValid :
    (s : Pmm) (p : ℕ) → IsValid s → p < s.max_page → used s.bitmap p ≡ false → IsValid (taking s p)
taking-IsValid s p v lt off = record {
  counts = taking-IsCounted s p v.counts lt off;
  zero_taken = ground (arith, used-taking s p v.counts lt 0);
  some_pages = v.some_pages;
}

-- `pmm_alloc_page` keeps the allocator valid, its free count exact included.
pub pmm_alloc_page-IsValid : (s : Pmm) → IsValid s → IsValid (pmm_alloc_page s).1
pmm_alloc_page-IsValid s v = elim (pmm_alloc_page_lem s v) [
  | exhausted e all ↦ rw e v
  | page p e lo hi off all ↦ rw e (taking-IsValid s p v hi off)
]

-- `pmm_alloc_page` fails exactly when the free count is 0.
pub alloc-eq-zero_iff : (s : Pmm) → IsValid s → ((pmm_alloc_page s).0 ≡ 0) ↔ (s.free_pages ≡ 0)
alloc-eq-zero_iff s v = elim (pmm_alloc_page_lem s v) [
  | exhausted e all ↦ (
    λ _.
        v.counts.counted
        ∙ clear_count-all_used s.bitmap s.max_page (λ q lt. elim (ℕ_discrete q 0) [
          | yes z ↦ rw z v.zero_taken
          | no nz ↦ all q (omega arith) lt
        ]),
    λ _. ap (λ (r : ℕ × Pmm). r.0) e,
  )
  | page p e lo hi off all ↦
      (λ z. ground arith, λ none_free. ground (arith, used_of_no_clear s.bitmap s.max_page p))
]

-- The state after giving a page back, as `pmm_free_page` writes it.
abbrev pub giving : Pmm → ℕ → Pmm
giving s p = record s { bitmap = bitmap_clear s.bitmap p; free_pages = add32 s.free_pages 1 }

module _ (s : Pmm) (p : ℕ) (v : IsValid s) (lt : p < s.max_page) where
  pub used-giving :
      (q : ℕ) → used (giving s p).bitmap q ≡ (if p == q then false else used s.bitmap q)
  used-giving q = used-bitmap_clear s.bitmap p q (omega arith) v.counts.bytes

  giving-count :
      used s.bitmap p ≡ true
      → clear_count (bitmap_clear s.bitmap p) s.max_page ≡ clear_count s.bitmap s.max_page + 1
  giving-count on =
      clear_count-differ (bitmap_clear s.bitmap p) s.bitmap p s.max_page lt
        (ground (arith, used-giving p)) (λ q. ground (arith, used-giving q))

  giving-IsValid : p ≢ 0 → used s.bitmap p ≡ true → IsValid (giving s p)
  giving-IsValid nz on = record {
    counts = record {
      bytes = bitmap_clear-Bytes s.bitmap p v.counts.bytes;
      size = length-bitmap_clear s.bitmap p ∙ v.counts.size;
      covers = v.counts.covers;
      limit = v.counts.limit;
      counted = ground (arith, giving-count on, clear_count-le s.bitmap s.max_page);
    };
    zero_taken = ground (arith, used-giving 0);
    some_pages = v.some_pages;
  }

-- The test by which `pmm_free_page` accepts an address.
abbrev pub frees : Pmm → ℕ → Bool
frees s addr =
    not (shr addr page_shift == 0)
    && (ltb (shr addr page_shift) s.max_page && used s.bitmap (shr addr page_shift))

pmm_free_page-eq :
    (s : Pmm) (addr : ℕ)
    → pmm_free_page s addr ≡ (if frees s addr then giving s (shr addr page_shift) else s)
unfolding pmm_free_page
pmm_free_page-eq s addr = ground (arith, used-test s.bitmap (shr addr page_shift))

-- `pmm_free_page` keeps the allocator valid whatever address it is given, and clears the bit of no
-- page but the one that holds the address, which it never does for page 0 or past the last page.
pub pmm_free_page_lem :
    (s : Pmm) (addr q : ℕ)
    → IsValid s
    → IsValid (pmm_free_page s addr)
      × (used (pmm_free_page s addr).bitmap q ≡ (
          if (addr / page_size == q) && (ltb 0 q && ltb q s.max_page)
          then false
          else used s.bitmap q))
pmm_free_page_lem s addr q v = elim (Bool-cases (frees s addr)) [
  | inl go ↦
      rw (pmm_free_page-eq s addr, go)
        (
          giving-IsValid s (shr addr page_shift) v (ground arith) (ground arith) (ground arith),
          used-giving s (shr addr page_shift) v (ground arith) q ∙ ground arith,
        )
  | inr stay ↦ rw (pmm_free_page-eq s addr, stay) (v, ground arith)
]

-- Freeing a page just allocated restores the allocator, and its free count with it.
pub free-alloc :
    (s : Pmm)
    → IsValid s
    → (pmm_alloc_page s).0 ≢ 0
    → pmm_free_page (pmm_alloc_page s).1 (pmm_alloc_page s).0 ≡ s
free-alloc s v ne = elim (pmm_alloc_page_lem s v) [
  | exhausted e all ↦ absurd (ne (ap (λ (r : ℕ × Pmm). r.0) e))
  | page p e lo hi off all ↦ rw e (restored p lo hi off)
]
  where
    restored :
        (p : ℕ)
        → 1 ≤ p
        → p < s.max_page
        → used s.bitmap p ≡ false
        → pmm_free_page (taking s p) (p * page_size) ≡ s
    restored p lo hi off =
        let same : shr (p * page_size) page_shift ≡ p = omega arith in
        pmm_free_page-eq (taking s p) (p * page_size)
        ∙ rw same (
            ground (
              arith,
              used-taking s p v.counts hi p,
              taking-free_pages s p v.counts hi off,
              clear_count-le s.bitmap s.max_page,
              bitmap_clear-bitmap_set s.bitmap p (omega arith) v.counts.bytes off,
            ))

-- What giving a page back does to the free count.
pub pmm_free_page-free_pages :
    (s : Pmm) (addr : ℕ)
    → IsValid s
    → (pmm_free_page s addr).free_pages ≡ (if frees s addr then s.free_pages + 1 else s.free_pages)
pmm_free_page-free_pages s addr v =
    ground (arith, pmm_free_page-eq s addr, clear_count-le s.bitmap s.max_page)

pub pmm_free_page-max_page : (s : Pmm) (addr : ℕ) → (pmm_free_page s addr).max_page ≡ s.max_page
pmm_free_page-max_page s addr = ground (arith, pmm_free_page-eq s addr)
