-- ===== src/Pmm/Mmap/Usable.antt =====
-- kernel/mm/pmm.c: which bits `clear_usable_pages` clears, and that it counts them.
use Prim.Native.Nat.{ℕ, zero, suc}
use emyx.Base.{
  ◌+◌, ◌*◌, ◌-◌, ◌/◌, ◌^◌, ◌≤◌, ◌<◌, ◌≡◌, refl, ap, ◌∙◌, Bool, true, false, ◌&&◌, ◌||◌, leb, ltb,
  All, Bool-cases, inl, inr, List, [], ◌∷◌, length, ◌==◌, if◌then◌else◌, arith, u32,
}
use emyx.Pmm.{bitmap_clear}
use emyx.Pmm.Bitmap.{
  used, Bytes, used-bitmap_clear, bitmap_clear-Bytes, length-bitmap_clear, clear_count,
  clear_count-le, clear_count-differ, clear_count-all_used,
}
use emyx.Pmm.Invariant.{between}
use emyx.Pmm.Mmap.Segment.{IsLowRegion}
use emyx.Pmm.Mmap.{Entry, usable_range, clear_pages, clear_usable_from, clear_usable_pages}

clear_pages-Bytes : (n p : ℕ) (bm : List ℕ) → Bytes bm → Bytes (clear_pages n p bm)
unfolding clear_pages
clear_pages-Bytes zero p bm b = b
clear_pages-Bytes (suc n) p bm b =
    clear_pages-Bytes n (p + 1) (bitmap_clear bm p) (bitmap_clear-Bytes bm p b)

length-clear_pages : (n p : ℕ) (bm : List ℕ) → length (clear_pages n p bm) ≡ length bm
unfolding clear_pages
length-clear_pages zero p bm = refl
length-clear_pages (suc n) p bm =
    length-clear_pages n (p + 1) (bitmap_clear bm p) ∙ length-bitmap_clear bm p

used-clear_pages :
    (n p : ℕ) (bm : List ℕ) (q : ℕ)
    → Bytes bm
    → p + n ≤ 8 * length bm
    → used (clear_pages n p bm) q ≡ (if between p (p + n) q then false else used bm q)
unfolding clear_pages
used-clear_pages zero p bm q b h = ground arith
used-clear_pages (suc n) p bm q b h = ground (
  arith,
  used-clear_pages n (p + 1) (bitmap_clear bm p) q (bitmap_clear-Bytes bm p b)
      (omega (arith, length-bitmap_clear bm p)),
  used-bitmap_clear bm p q (omega arith) b,
)

count-clear_pages :
    (n p max_page : ℕ) (bm : List ℕ)
    → Bytes bm
    → p + n ≤ max_page
    → max_page ≤ 8 * length bm
    → ((q : ℕ) → between p (p + n) q ≡ true → used bm q ≡ true)
    → clear_count (clear_pages n p bm) max_page ≡ clear_count bm max_page + n
unfolding clear_pages
count-clear_pages zero p max_page bm b h fits full = omega arith
count-clear_pages (suc n) p max_page bm b h fits full = omega (
  arith,
  count-clear_pages n (p + 1) max_page (bitmap_clear bm p) (bitmap_clear-Bytes bm p b) (omega arith)
      (omega (arith, length-bitmap_clear bm p)) (λ q in_rest. ground (arith, cleared q, full q)),
  clear_count-differ (bitmap_clear bm p) bm p max_page (omega arith) (ground (arith, cleared p))
      (λ q. ground (arith, cleared q, full p)),
)
  where
    cleared : (q : ℕ) → used (bitmap_clear bm p) q ≡ (if p == q then false else used bm q)
    cleared q = used-bitmap_clear bm p q (omega arith) b

-- The pages of a region of usable memory, which has type 1: from the page of its first byte on, as many
-- as there are whole pages in its length, below `max_page`.
abbrev pub in_entry : ℕ → Entry → ℕ → Bool
in_entry max_page e q =
    (e.type == 1)
    && (leb (e.addr / 4096) q && (ltb q (e.addr / 4096 + e.len / 4096) && ltb q max_page))

abbrev pub usable : ℕ → List Entry → ℕ → Bool
usable max_page [] q = false
usable max_page (e ∷ es) q = in_entry max_page e q || usable max_page es q

-- No page is in two entries.
abbrev pub IsDisjoint : ℕ → List Entry → Type 0
IsDisjoint max_page [] = Unit {0}
IsDisjoint max_page (e ∷ es) =
    ((q : ℕ) → in_entry max_page e q ≡ true → usable max_page es q ≡ false) × IsDisjoint max_page es

-- They are those that the loop clears, where no sum wraps around.
range-in_entry :
    (max_page : ℕ) (e : Entry) (q : ℕ)
    → IsLowRegion e
    → between (usable_range max_page e).0 (usable_range max_page e).1 q ≡ in_entry max_page e q
unfolding usable_range
range-in_entry max_page e q low = elim (Bool-cases (e.type == 1)) [
  | inl one ↦
      let below : e.addr + e.len + 2 ^ 18 ≤ 2 ^ 32 = low (ground arith) in rw one (ground arith)
  | inr other ↦ rw other (ground arith)
]

range_bounds :
    (max_page : ℕ) (e : Entry)
    → ((usable_range max_page e).0 ≤ (usable_range max_page e).1)
      × ((usable_range max_page e).1 ≤ max_page)
unfolding usable_range
range_bounds max_page e = ground arith

-- What is true of the bitmap and the count that the loop leaves.
pub record IsCleared (max_page : ℕ) (es : List Entry) (bm : List ℕ) (r : List ℕ × ℕ) : Type 0 where
  pub bytes : Bytes r.0
  pub size : length r.0 ≡ length bm
  pub bits : (q : ℕ) → used r.0 q ≡ (if usable max_page es q then false else used bm q)
  pub count : clear_count r.0 max_page ≡ r.1

clear_usable_from-IsCleared :
    (max_page usable_pages : ℕ) (es : List Entry) (bm : List ℕ)
    → Bytes bm
    → max_page ≤ 8 * length bm
    → max_page ≤ 2 ^ 20
    → All IsLowRegion es
    → IsDisjoint max_page es
    → ((q : ℕ) → usable max_page es q ≡ true → used bm q ≡ true)
    → clear_count bm max_page ≡ usable_pages
    → IsCleared max_page es bm (clear_usable_from max_page usable_pages es bm)
unfolding clear_usable_from
clear_usable_from-IsCleared max_page u [] bm b fits small low apart full count = record {
  bytes = b;
  size = refl;
  bits = λ q. refl;
  count = count;
}
clear_usable_from-IsCleared max_page u (e ∷ es) bm b fits small low apart full count = extend (
    clear_usable_from-IsCleared max_page (u32 (u + n)) es (clear_pages n start bm)
      (clear_pages-Bytes n start bm b) (omega (arith, length-clear_pages n start bm)) small low.1
      apart.1 (λ q later. ground (arith, apart.0 q, full q, cleared q)) counted)
  where
    start : ℕ
    start = (usable_range max_page e).0

    n : ℕ
    n = (usable_range max_page e).1 - start

    bounds : (start + n ≡ (usable_range max_page e).1) × (start + n ≤ max_page)
    bounds = omega (arith, range_bounds max_page e)

    cleared :
        (q : ℕ)
        → used (clear_pages n start bm) q ≡ (if in_entry max_page e q then false else used bm q)
    cleared q =
        used-clear_pages n start bm q b (omega (arith, bounds))
        ∙ ap (λ end. if between start end q then false else used bm q) bounds.0
        ∙ ap (λ (b : Bool). if b then false else used bm q) (range-in_entry max_page e q low.0)

    counted : clear_count (clear_pages n start bm) max_page ≡ u32 (u + n)
    counted = omega (
      arith,
      count-clear_pages n start max_page bm b (bounds.1) fits
          (λ q inside. full q (ground (arith, bounds, range-in_entry max_page e q low.0))),
      clear_count-le (clear_pages n start bm) max_page,
    )

    extend :
        {r : List ℕ × ℕ}
        → IsCleared max_page es (clear_pages n start bm) r
        → IsCleared max_page (e ∷ es) bm r
    extend rest = record {
      bytes = rest.bytes;
      size = rest.size ∙ length-clear_pages n start bm;
      bits = λ q. ground (arith, rest.bits q, cleared q);
      count = rest.count;
    }

usable_below : (max_page : ℕ) (es : List Entry) (q : ℕ) → usable max_page es q ≡ true → q < max_page
usable_below max_page [] q h = ground arith
usable_below max_page (e ∷ es) q h = ground (arith, usable_below max_page es q)

-- Where all bits are set and no two regions share a page, `clear_usable_pages` clears the bits of
-- exactly the pages of the regions of type 1, each from the page of its first byte on and as many as
-- there are whole pages in its length, below `max_page`, and returns their number. The regions of
-- type 1 end 256 KiB or more below 4 GiB.
pub clear_usable_pages_lem :
    (max_page : ℕ) (es : List Entry) (bm : List ℕ)
    → Bytes bm
    → max_page ≤ 8 * length bm
    → max_page ≤ 2 ^ 20
    → All IsLowRegion es
    → IsDisjoint max_page es
    → ((q : ℕ) → q < max_page → used bm q ≡ true)
    → IsCleared max_page es bm (clear_usable_pages max_page es bm)
unfolding clear_usable_pages
clear_usable_pages_lem max_page es bm b fits small low apart full =
    clear_usable_from-IsCleared max_page 0 es bm b fits small low apart
      (λ q inside. full q (usable_below max_page es q inside))
      (clear_count-all_used bm max_page full)
