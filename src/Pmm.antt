-- ===== src/Pmm.antt =====
-- kernel/mm/pmm.c: the physical page allocator. This file holds its state and the operations on
-- single pages and segments; the children prove what they do and model the boot-time set-up.
pub mod Bitmap
pub mod Invariant
pub mod Alloc
pub mod Mmap
pub mod Boot
pub mod Clients
pub mod Examples
mod Tests
use Prim.Native.Nat.{ℕ, zero, suc}
use emyx.Base.{
  ◌+◌, ◌-◌, ◌/◌, ◌%◌, ◌^◌, ◌≡◌, Bool, true, false, not, ◌&&◌, ◌||◌, List, [], ◌∷◌, length, get_or,
  set, bit_and, bit_or, ltb, leb, ◌==◌, if◌then◌else◌, u32, add32, not32, shl32, shr,
}

-- PMM_PAGE_SHIFT and PMM_PAGE_SIZE.
abbrev pub page_shift : ℕ
page_shift = 12

abbrev pub page_size : ℕ
page_size = 4096

-- The static variables of pmm.c. The bytes at `pmm_bitmap` are a list.
pub record Pmm : Type 0 where
  pub bitmap : List ℕ
  pub bitmap_bytes : ℕ
  pub max_page : ℕ
  pub total_pages : ℕ
  pub free_pages : ℕ

-- The byte that holds the bit of a page.
abbrev pub byte_of : List ℕ → ℕ → ℕ
byte_of bm page = get_or bm (page / 8) 0

-- `|=` on a `uint8_t` keeps the low byte of the `unsigned` result.
pub bitmap_set : List ℕ → ℕ → List ℕ
bitmap_set bm page = set bm (page / 8) (bit_or (byte_of bm page) (2 ^ (page % 8)) % 256)

pub bitmap_clear : List ℕ → ℕ → List ℕ
bitmap_clear bm page = set bm (page / 8) (bit_and (byte_of bm page) (not32 (2 ^ (page % 8))) % 256)

-- The result is a `uint8_t`.
pub bitmap_test : List ℕ → ℕ → ℕ
bitmap_test bm page = bit_and (byte_of bm page) (2 ^ (page % 8)) % 256

-- `if (pmm_free_pages > 0) pmm_free_pages--;`
abbrev pub less_one : ℕ → ℕ
less_one n = if ltb 0 n then n - 1 else n

pub reserve_page : Pmm → ℕ → Pmm
reserve_page s page =
    if leb s.max_page page
    then s
    else if bitmap_test s.bitmap page == 0
    then record s { bitmap = bitmap_set s.bitmap page; free_pages = less_one s.free_pages }
    else s

-- `for (page = i; page < i + n; page++) reserve_page(page);`
pub reserve_pages : ℕ → ℕ → Pmm → Pmm
reserve_pages zero page s = s
reserve_pages (suc n) page s = reserve_pages n (page + 1) (reserve_page s page)

pub reserve_segment : Pmm → ℕ → ℕ → Pmm
reserve_segment s start_addr end_addr =
    let start_page = shr start_addr page_shift in
    let end_page = shr (u32 (end_addr + page_size - 1)) page_shift in
    reserve_pages (end_page - start_page) start_page s

-- The loop of `pmm_alloc_page`, with the number of rounds left and the loop's `i`.
pub alloc_from : ℕ → ℕ → Pmm → ℕ × Pmm
alloc_from zero i s = (0, s)
alloc_from (suc n) i s =
    let rest = alloc_from n (i + 1) s in
    if bitmap_test s.bitmap i == 0
    then (
      shl32 i page_shift,
      record s { bitmap = bitmap_set s.bitmap i; free_pages = less_one s.free_pages },
    )
    else rest

pub pmm_alloc_page : Pmm → ℕ × Pmm
pmm_alloc_page s = alloc_from (s.max_page - 1) 1 s

pub pmm_free_page : Pmm → ℕ → Pmm
pmm_free_page s addr =
    let page = shr addr page_shift in
    if not (page == 0) && (ltb page s.max_page && not (bitmap_test s.bitmap page == 0))
    then record s { bitmap = bitmap_clear s.bitmap page; free_pages = add32 s.free_pages 1 }
    else s

pub pmm_get_total_pages : Pmm → ℕ
pmm_get_total_pages s = s.total_pages

pub pmm_get_free_pages : Pmm → ℕ
pmm_get_free_pages s = s.free_pages
