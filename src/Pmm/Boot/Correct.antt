-- ===== src/Pmm/Boot/Correct.antt =====
-- kernel/mm/pmm.c: what `pmm_init` leaves behind, and when it panics.
use Prim.Native.Nat.{ℕ}
use emyx.Base.{
  ◌+◌, ◌*◌, ◌-◌, ◌%◌, ◌^◌, ◌≤◌, ◌<◌, ◌≡◌, refl, ◌∙◌, Bool, true, false, not, ◌&&◌, ◌||◌, List, ltb,
  ◌==◌, if◌then◌else◌, sym, arith, Bool-cases, inl, inr, replicate, length-replicate, All,
  All-replicate, Any, add32, bit_and,
}
use emyx.Memory.{Memory}
use emyx.DirectMap.{direct_map_lem, vmm_phys_to_virt}
use emyx.Pmm.{Pmm, reserve_segment, page_size}
use emyx.Pmm.Bitmap.{used, used-replicate}
use emyx.DirectMap.{direct_map_limit}
use emyx.Pmm.Mmap.{
  flag_mmap, map_fuel, ◌>>◌, panic_if, check_kernel_location, mmap_not_present,
  mmap_outside_direct_map, entry_too_small, bitmap_does_not_fit, kernel_not_in_ram,
  bitmap_outside_direct_map,
}
use emyx.Pmm.Mmap.MaxPage.{find_max_page_lem, IsMaxPage, find_max_page-IsMaxPage}
use emyx.Pmm.Mmap.Shared.{shared_bytes, kernel_overlap-shared}
use emyx.Pmm.Invariant.{
  IsCounted, IsValid, reserve_segment_lem, reserve_page-IsCounted, used-reserve_page,
  reserve_page-max_page, reserve_segment-max_page,
}
use emyx.Pmm.Mmap.{
  Boot, ok, panic, page_fault, fault_if, Panic, Entry, MultibootInfo, Span, find_max_page,
  kernel_overlap_from, clear_usable_pages,
}
use emyx.Pmm.Mmap.Walk.{check_kernel_location-eq, check_mmap-eq, Layout, Layout-walk}
use emyx.Pmm.Mmap.Place.{IsLow}
use emyx.Pmm.Mmap.Segment.{IsSpot, found, no_spot, IsLowRegion, find_segment_lem, IsSpot-bounds}
use emyx.Pmm.Mmap.Usable.{usable, IsDisjoint, IsCleared, clear_usable_pages_lem}
use emyx.Pmm.Boot.{pmm_init, after_clearing, reserve_all, bytes_for, mbi_span, mmap_span}

-- Some byte of [a, b) is in page q.
abbrev pub touches : ℕ → ℕ → ℕ → Bool
touches a b q = ltb a ((q + 1) * page_size) && ltb (q * page_size) b

after_clearing-lem :
    (es : List Entry) (max_page : ℕ)
    → max_page ≤ 2 ^ 20
    → All IsLowRegion es
    → IsDisjoint max_page es
    → IsCounted (after_clearing max_page es)
      × ((q : ℕ)
          → q < max_page
          → used (after_clearing max_page es).bitmap q ≡ not (usable max_page es q))
unfolding after_clearing
after_clearing-lem es max_page small low apart = (
  record {
    bytes = cleared.bytes;
    size = cleared.size ∙ length-replicate {A = ℕ} (bytes_for max_page) 0xFF;
    covers = omega arith;
    limit = small;
    counted = sym cleared.count;
  },
  λ q lt. ground (arith, cleared.bits q, full q),
)
  where
    bm : List ℕ
    bm = replicate (bytes_for max_page) 0xFF

    full : (q : ℕ) → q < max_page → used bm q ≡ true
    full q lt = used-replicate (bytes_for max_page) q (omega arith)

    cleared : IsCleared max_page es bm (clear_usable_pages max_page es bm)
    cleared =
        clear_usable_pages_lem max_page es bm
          (All-replicate (λ (b : ℕ). b < 256) (bytes_for max_page) 0xFF (omega arith))
          (omega (arith, length-replicate {A = ℕ} (bytes_for max_page) 0xFF)) small low apart full

after_clearing_fields :
    (max_page : ℕ) (es : List Entry)
    → ((after_clearing max_page es).max_page ≡ max_page)
      × ((after_clearing max_page es).bitmap_bytes ≡ bytes_for max_page)
unfolding after_clearing
after_clearing_fields max_page es = (refl, refl)

-- What is taken when `pmm_init` is done: all pages but those of regions of usable memory, and the pages
-- of the bitmap, of the kernel, and page 0.
abbrev pub taken_at_boot : ℕ → ℕ → Span → List Entry → ℕ → Bool
taken_at_boot max_page base kernel es q =
    not (usable max_page es q)
    || ((q == 0)
        || (touches base (base + bytes_for max_page) q || touches kernel.start kernel.end q))

reserve_all_lem :
    (base : ℕ) (kernel : Span) (s : Pmm)
    → IsCounted s
    → 0 < s.max_page
    → 0 < s.bitmap_bytes
    → base + s.bitmap_bytes + page_size ≤ 2 ^ 32
    → kernel.start < kernel.end
    → kernel.end + page_size ≤ 2 ^ 32
    → IsValid (reserve_all base kernel s)
      × ((reserve_all base kernel s).max_page ≡ s.max_page)
      × ((q : ℕ)
          → q < s.max_page
          → used (reserve_all base kernel s).bitmap q ≡ (
              if (q == 0)
                || (touches base (base + s.bitmap_bytes) q || touches kernel.start kernel.end q)
              then true
              else used s.bitmap q))
unfolding reserve_all
reserve_all_lem base kernel s v pos some_bytes fits span kfits = (
  record {
    counts = reserve_page-IsCounted s2 0 v2;
    zero_taken = ground (arith, used-reserve_page s2 0 0 v2, same);
    some_pages = omega (arith, reserve_page-max_page s2 0, same);
  },
  reserve_page-max_page s2 0 ∙ same,
  λ q lt. ground (arith, used-reserve_page s2 0 q v2, bits2 q, bits1 q, same, same1),
)
  where
    end_fits : add32 base s.bitmap_bytes ≡ base + s.bitmap_bytes
    end_fits = omega arith

    s1 : Pmm
    s1 = reserve_segment s base (add32 base s.bitmap_bytes)

    s2 : Pmm
    s2 = reserve_segment s1 kernel.start kernel.end

    v1 : IsCounted s1
    v1 = (reserve_segment_lem s base (add32 base s.bitmap_bytes) 0 v (omega arith) (omega arith)).0

    bits1 :
        (q : ℕ)
        → used s1.bitmap q ≡ (
            if ltb base ((q + 1) * page_size)
              && (ltb (q * page_size) (add32 base s.bitmap_bytes) && ltb q s.max_page)
            then true
            else used s.bitmap q)
    bits1 q =
        (reserve_segment_lem s base (add32 base s.bitmap_bytes) q v (omega arith) (omega arith)).1

    v2 : IsCounted s2
    v2 = (reserve_segment_lem s1 kernel.start kernel.end 0 v1 span kfits).0

    bits2 :
        (q : ℕ)
        → used s2.bitmap q ≡ (
            if ltb kernel.start ((q + 1) * page_size)
              && (ltb (q * page_size) kernel.end && ltb q s1.max_page)
            then true
            else used s1.bitmap q)
    bits2 q = (reserve_segment_lem s1 kernel.start kernel.end q v1 span kfits).1

    same1 : s1.max_page ≡ s.max_page
    same1 = reserve_segment-max_page s base (add32 base s.bitmap_bytes)

    same : s2.max_page ≡ s.max_page
    same = reserve_segment-max_page s1 kernel.start kernel.end ∙ same1

-- Why `pmm_init` panics.
abbrev pub Cause : Span → MultibootInfo → List Entry → Panic → Type 0
Cause kernel mbi es mmap_not_present = bit_and mbi.flags flag_mmap ≡ 0
Cause kernel mbi es mmap_outside_direct_map = direct_map_limit ≤ mbi.mmap_addr
Cause kernel mbi es entry_too_small = ⊥
Cause kernel mbi es bitmap_does_not_fit =
    (base : ℕ)
    → Any (IsSpot (bytes_for (find_max_page es)) kernel (mbi_span mbi) (mmap_span mbi) base) es
    → ⊥
Cause kernel mbi es kernel_not_in_ram = shared_bytes kernel es % 2 ^ 64 < kernel.end - kernel.start
Cause kernel mbi es bitmap_outside_direct_map =
    (base : ℕ) × (direct_map_limit ≤ base)
    × Any (IsSpot (bytes_for (find_max_page es)) kernel (mbi_span mbi) (mmap_span mbi) base) es

-- How `pmm_init` ends: with a panic that has its cause; with a page fault, where the bitmap begins in the
-- direct map and runs past its end; or with a valid allocator whose bitmap lies in usable memory and in
-- the direct map, apart from the kernel and the boot information, with the kernel in usable memory.
pub data Booted (kernel : Span) (mbi : MultibootInfo) (es : List Entry) (r : Boot Pmm)
    : Type 0 where
  panicked : (p : Panic) → r ≡ panic p → Cause kernel mbi es p → Booted kernel mbi es r
  faulted :
      (base : ℕ)
      → r ≡ page_fault
      → base < direct_map_limit
      → direct_map_limit < base + bytes_for (find_max_page es)
      → Any (IsSpot (bytes_for (find_max_page es)) kernel (mbi_span mbi) (mmap_span mbi) base) es
      → Booted kernel mbi es r
  booted :
      (s : Pmm) (base : ℕ)
      → r ≡ ok s
      → IsValid s
      → s.max_page ≡ find_max_page es
      → IsMaxPage es s.max_page
      → base + bytes_for s.max_page ≤ direct_map_limit
      → kernel.end - kernel.start ≤ shared_bytes kernel es % 2 ^ 64
      → Any (IsSpot (bytes_for s.max_page) kernel (mbi_span mbi) (mmap_span mbi) base) es
      → ((q : ℕ) → q < s.max_page → used s.bitmap q ≡ taken_at_boot s.max_page base kernel es q)
      → Booted kernel mbi es r

module _ (mem : Memory) (kernel : Span) (mbi : MultibootInfo) (es : List Entry)
    (layout : mbi.mmap_addr < direct_map_limit
      → Layout mem
          (add32 (vmm_phys_to_virt mbi.mmap_addr) mbi.mmap_length)
          (vmm_phys_to_virt mbi.mmap_addr)
          es)
    (low : All IsLowRegion es) (apart : IsDisjoint (find_max_page es) es)
    (span : kernel.start < kernel.end) (kernel_low : IsLow kernel.end)
    (mbi_low : IsLow (mbi_span mbi).end) (mmap_low : IsLow (mmap_span mbi).end) where
  -- The part of `pmm_init` after the map is read.
  abbrev rest : ℕ → Boot Pmm
  rest base = do
    panic_if (base == 0) bitmap_does_not_fit
    check_kernel_location kernel es
    panic_if (vmm_phys_to_virt base == 0) bitmap_outside_direct_map
    fault_if (ltb direct_map_limit (base + bytes_for (find_max_page es)))
    ok (reserve_all base kernel (after_clearing (find_max_page es) es))

  bytes_low : bytes_for (find_max_page es) ≤ 2 ^ 17
  bytes_low = omega (arith, (find_max_page_lem 0 0 kernel (mbi_span mbi) (mmap_span mbi) es low).0)

  -- The bitmap has a place: what is left to check, and the state at the end.
  placed :
      (base : ℕ)
      → Any (IsSpot (bytes_for (find_max_page es)) kernel (mbi_span mbi) (mmap_span mbi) base) es
      → Booted kernel mbi es (rest base)
  placed base spot =
      elim (Bool-cases (ltb (kernel_overlap_from 0 kernel es) (kernel.end - kernel.start))) [
        | inl outside ↦
            rw (check_kernel_location-eq kernel es, some_base, outside)
              (panicked kernel_not_in_ram refl (ground (arith, sums)))
        | inr inside ↦ elim (Bool-cases (vmm_phys_to_virt base == 0)) [
          | inl far ↦
              rw (check_kernel_location-eq kernel es, some_base, inside, far)
                (panicked bitmap_outside_direct_map refl
                  (base, ground (arith, direct_map_lem base 0), spot))
          | inr near ↦
              elim (Bool-cases (ltb direct_map_limit (base + bytes_for (find_max_page es)))) [
                | inl beyond ↦
                    rw (check_kernel_location-eq kernel es, some_base, inside, near, beyond)
                      (faulted base refl (ground (arith, direct_map_lem base 0)) (ground arith)
                        spot)
                | inr fits ↦
                    rw (check_kernel_location-eq kernel es, some_base, inside, near, fits)
                      (booted (reserve_all base kernel start) base refl ready.0 max_same
                        (rw max_same (find_max_page-IsMaxPage es low)) (rw max_same (ground arith))
                        (ground (arith, sums)) (rw max_same spot) taken)
              ]
        ]
      ]
    where
      start : Pmm
      start = after_clearing (find_max_page es) es

      pages : (find_max_page es ≤ 2 ^ 20) × (0 < find_max_page es)
      pages =
          let bounds =
            find_max_page_lem (bytes_for (find_max_page es)) base kernel (mbi_span mbi)
              (mmap_span mbi) es low in
          (bounds.0, bounds.1 spot)

      bounds : (0 < base) × (base + bytes_for (find_max_page es) + 2 ^ 18 ≤ 2 ^ 32)
      bounds =
          IsSpot-bounds (bytes_for (find_max_page es)) kernel (mbi_span mbi) (mmap_span mbi) base es
            low spot

      some_base : (base == 0) ≡ false
      some_base = ground (arith, bounds)

      cleared :
          IsCounted start
          × ((q : ℕ)
              → q < find_max_page es
              → used start.bitmap q ≡ not (usable (find_max_page es) es q))
      cleared = after_clearing-lem es (find_max_page es) pages.0 low apart

      fields :
          (start.max_page ≡ find_max_page es) × (start.bitmap_bytes ≡ bytes_for (find_max_page es))
      fields = after_clearing_fields (find_max_page es) es

      ready :
          IsValid (reserve_all base kernel start)
          × ((reserve_all base kernel start).max_page ≡ start.max_page)
          × ((q : ℕ)
              → q < start.max_page
              → used (reserve_all base kernel start).bitmap q ≡ (
                  if (q == 0)
                    || (touches base (base + start.bitmap_bytes) q
                        || touches kernel.start kernel.end q)
                  then true
                  else used start.bitmap q))
      ready =
          reserve_all_lem base kernel start cleared.0 (omega (arith, fields, pages))
            (omega (arith, fields, pages)) (omega (arith, fields, bounds)) span (omega arith)

      max_same : (reserve_all base kernel start).max_page ≡ find_max_page es
      max_same = ready.1 ∙ fields.0

      sums : kernel_overlap_from 0 kernel es ≡ shared_bytes kernel es % 2 ^ 64
      sums =
          let none_before : 0 + shared_bytes kernel es ≡ shared_bytes kernel es = omega arith in
          rw (sym none_before) (kernel_overlap-shared 0 kernel es (omega arith) low)

      taken :
          (q : ℕ)
          → q < (reserve_all base kernel start).max_page
          → used (reserve_all base kernel start).bitmap q
            ≡ taken_at_boot (reserve_all base kernel start).max_page base kernel es q
      taken q lt = rw max_same (ground (arith, fields, ready.2 q, cleared.1 q, max_same))

  -- `pmm_init` ends. Either it panics, for the reason that its message gives, and never because of the
  -- map's entries; or it faults, where the bitmap begins in the direct map and runs past its end; or
  -- the allocator is valid, with a page number for all memory up to the end of the last region of type
  -- 1. Then the bitmap lies in the direct map and in such a region, apart from the kernel and the boot
  -- information, and the kernel in such regions. The taken pages are exactly those of the bitmap and
  -- of the kernel, page 0, and all that are not in a region of type 1, each of which has pages from
  -- that of its first byte on, as many as there are whole pages in its length. The memory map is laid
  -- out as the multiboot specification says with regions that share no page, and it, usable memory,
  -- the kernel and the boot information end 256 KiB or more below 4 GiB.
  pub pmm_init-Booted : Booted kernel mbi es (pmm_init mem kernel mbi)
  unfolding pmm_init
  pmm_init-Booted = elim (Bool-cases (bit_and mbi.flags flag_mmap == 0)) [
    | inl clear ↦ rw (check_mmap-eq mem mbi, clear) (panicked mmap_not_present refl (ground arith))
    | inr set ↦ elim (Bool-cases (vmm_phys_to_virt mbi.mmap_addr == 0)) [
      | inl far ↦
          rw (check_mmap-eq mem mbi, set, far)
            (panicked mmap_outside_direct_map refl (ground (arith, direct_map_lem mbi.mmap_addr 0)))
      | inr near ↦
          let walked =
            Layout-walk (map_fuel mbi) (layout (ground (arith, direct_map_lem mbi.mmap_addr 0)))
              (omega arith) in
          rw (check_mmap-eq mem mbi, set, near, walked.0, walked.1)
            (elim (find_segment_lem (bytes_for (find_max_page es)) kernel (mbi_span mbi)
              (mmap_span mbi) es bytes_low kernel_low mbi_low mmap_low low) [
                | found base e spot ↦ rw e (placed base spot)
                | no_spot e nowhere ↦ rw e (panicked bitmap_does_not_fit refl nowhere)
              ])
    ]
  ]
