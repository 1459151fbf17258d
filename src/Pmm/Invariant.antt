-- ===== src/Pmm/Invariant.antt =====
-- kernel/mm/pmm.c: the allocator's invariant, kept by every operation on a page.
use Prim.Native.Nat.{ℕ, zero, suc}
use emyx.Base.{
  ◌+◌, ◌*◌, ◌/◌, ◌^◌, ◌≤◌, ◌<◌, ◌≡◌, refl, ◌∙◌, Bool, true, false, ◌&&◌, length, ◌==◌, ltb, leb,
  if◌then◌else◌, arith, Bool-cases, inl, inr,
}
use emyx.Pmm.{
  Pmm, bitmap_set, bitmap_test, reserve_page, reserve_pages, reserve_segment, less_one, page_size,
}
use emyx.Pmm.Bitmap.{
  used, used-test, Bytes, used-bitmap_set, bitmap_set-Bytes, length-bitmap_set, clear_count,
  clear_count-differ,
}

-- The bitmap covers every page, page addresses fit 32 bits, and the free count is exact.
pub record IsCounted (s : Pmm) : Type 0 where
  pub bytes : Bytes s.bitmap
  pub size : length s.bitmap ≡ s.bitmap_bytes
  pub covers : s.max_page ≤ 8 * s.bitmap_bytes
  pub limit : s.max_page ≤ 2 ^ 20
  pub counted : s.free_pages ≡ clear_count s.bitmap s.max_page

-- After boot, page 0 is moreover taken.
pub record IsValid (s : Pmm) : Type 0 where
  pub counts : IsCounted s
  pub zero_taken : used s.bitmap 0 ≡ true
  pub some_pages : 0 < s.max_page

-- The state after taking a page, as `reserve_page` and `pmm_alloc_page` write it.
abbrev pub taking : Pmm → ℕ → Pmm
taking s p = record s { bitmap = bitmap_set s.bitmap p; free_pages = less_one s.free_pages }

module _ (s : Pmm) (p : ℕ) (v : IsCounted s) (lt : p < s.max_page) where
  in_bitmap : p / 8 < length s.bitmap
  in_bitmap = omega arith

  pub used-taking :
      (q : ℕ) → used (taking s p).bitmap q ≡ (if p == q then true else used s.bitmap q)
  used-taking q = used-bitmap_set s.bitmap p q in_bitmap v.bytes

  taking-count :
      used s.bitmap p ≡ false
      → clear_count s.bitmap s.max_page ≡ clear_count (bitmap_set s.bitmap p) s.max_page + 1
  taking-count off = clear_count-differ s.bitmap _ p s.max_page lt off used-taking

  pub taking-free_pages : used s.bitmap p ≡ false → s.free_pages ≡ (taking s p).free_pages + 1
  taking-free_pages off = ground (arith, taking-count off)

  pub taking-IsCounted : used s.bitmap p ≡ false → IsCounted (taking s p)
  taking-IsCounted off = record {
    bytes = bitmap_set-Bytes s.bitmap p v.bytes;
    size = length-bitmap_set s.bitmap p ∙ v.size;
    covers = v.covers;
    limit = v.limit;
    counted = ground (arith, taking-count off);
  }

pub reserve_page-IsCounted : (s : Pmm) (p : ℕ) → IsCounted s → IsCounted (reserve_page s p)
unfolding reserve_page
reserve_page-IsCounted s p v = elim (Bool-cases (leb s.max_page p)) [
  | inl out ↦ rw out v
  | inr within ↦ elim (Bool-cases (bitmap_test s.bitmap p == 0)) [
    | inl off ↦
        rw (within, off)
          (taking-IsCounted s p v (ground arith) (ground (arith, used-test s.bitmap p)))
    | inr on ↦ rw (within, on) v
  ]
]

pub reserve_pages-IsCounted : (n p : ℕ) (s : Pmm) → IsCounted s → IsCounted (reserve_pages n p s)
unfolding reserve_pages
reserve_pages-IsCounted zero p s v = v
reserve_pages-IsCounted (suc n) p s v =
    reserve_pages-IsCounted n (p + 1) (reserve_page s p) (reserve_page-IsCounted s p v)

pub reserve_page-max_page : (s : Pmm) (p : ℕ) → (reserve_page s p).max_page ≡ s.max_page
unfolding reserve_page
reserve_page-max_page s p = ground arith

pub reserve_pages-max_page : (n p : ℕ) (s : Pmm) → (reserve_pages n p s).max_page ≡ s.max_page
unfolding reserve_pages
reserve_pages-max_page zero p s = refl
reserve_pages-max_page (suc n) p s =
    reserve_pages-max_page n (p + 1) (reserve_page s p) ∙ reserve_page-max_page s p

-- `reserve_page` takes its page, if it is one, and leaves every other as it was.
pub used-reserve_page :
    (s : Pmm) (p q : ℕ)
    → IsCounted s
    → used (reserve_page s p).bitmap q
      ≡ (if (p == q) && ltb q s.max_page then true else used s.bitmap q)
unfolding reserve_page
used-reserve_page s p q v = elim (Bool-cases (leb s.max_page p)) [
  | inl out ↦ ground arith
  | inr within ↦
      ground (arith, used-taking s p v (ground arith) q, used-test s.bitmap p, used-test s.bitmap q)
]

abbrev pub between : ℕ → ℕ → ℕ → Bool
between start end q = leb start q && ltb q end

pub used-reserve_pages :
    (n p : ℕ) (s : Pmm) (q : ℕ)
    → IsCounted s
    → used (reserve_pages n p s).bitmap q
      ≡ (if between p (p + n) q && ltb q s.max_page then true else used s.bitmap q)
unfolding reserve_pages
used-reserve_pages zero p s q v = ground arith
used-reserve_pages (suc n) p s q v = ground (
  arith,
  used-reserve_pages n (p + 1) (reserve_page s p) q (reserve_page-IsCounted s p v),
  used-reserve_page s p q v,
  reserve_page-max_page s p,
)

-- `reserve_segment` takes exactly the pages below `max_page` that hold a byte of
-- [start_addr, end_addr), leaves every other page's bit as it was, and keeps the free count exact,
-- where the end rounded up to a page does not pass 2^32.
pub reserve_segment_lem :
    (s : Pmm) (start_addr end_addr q : ℕ)
    → IsCounted s
    → start_addr < end_addr
    → end_addr + page_size ≤ 2 ^ 32
    → IsCounted (reserve_segment s start_addr end_addr)
      × (used (reserve_segment s start_addr end_addr).bitmap q ≡ (
          if ltb start_addr ((q + 1) * page_size)
            && (ltb (q * page_size) end_addr && ltb q s.max_page)
          then true
          else used s.bitmap q))
unfolding reserve_segment
reserve_segment_lem s start_addr end_addr q v lt fits =
    (reserve_pages-IsCounted _ _ s v, used-reserve_pages _ _ s q v ∙ ground arith)

pub reserve_segment-max_page : (s : Pmm) (a b : ℕ) → (reserve_segment s a b).max_page ≡ s.max_page
unfolding reserve_segment
reserve_segment-max_page s a b = reserve_pages-max_page _ _ s
