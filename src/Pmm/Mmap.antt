-- ===== src/Pmm/Mmap.antt =====
-- kernel/mm/pmm.c: what the boot code computes from the memory map that the boot loader hands over.
-- The loops walk the packed entries of the map alike, so the walk is written once, `walk`, and the
-- loops are recursions on the entries that it meets. Only `check_mmap`, which may panic, walks itself.
pub mod Walk
pub mod Place
pub mod Segment
pub mod MaxPage
pub mod Shared
pub mod Usable
use Prim.Native.Nat.{ℕ, zero, suc}
use emyx.Base.{
  ◌+◌, ◌-◌, ◌/◌, ◌%◌, ◌^◌, Bool, true, false, not, ◌&&◌, ◌||◌, List, [], ◌∷◌, Option, none, some,
  bit_and, ltb, leb, ◌==◌, if◌then◌else◌, u32, u64, add32, not32, shr,
}
use emyx.Memory.{Memory, load32, load64}
use emyx.DirectMap.{vmm_phys_to_virt}
use emyx.Pmm.{page_shift, page_size, bitmap_clear}

-- `multiboot_mmap_entry`.
pub record Entry : Type 0 where
  pub size : ℕ
  pub addr : ℕ
  pub len : ℕ
  pub type : ℕ

-- The packed struct at an address.
abbrev pub read_entry : Memory → ℕ → Entry
read_entry mem ptr = record {
  size = load32 mem ptr;
  addr = load64 mem (ptr + 4);
  len = load64 mem (ptr + 12);
  type = load32 mem (ptr + 20);
}

-- The fields of `multiboot_info` that the kernel reads, and the pointer to it.
pub record MultibootInfo : Type 0 where
  pub address : ℕ
  pub flags : ℕ
  pub mods_count : ℕ
  pub mods_addr : ℕ
  pub mmap_length : ℕ
  pub mmap_addr : ℕ

-- The messages with which the set-up of the allocator panics.
pub data Panic : Type 0 where
  mmap_not_present mmap_outside_direct_map entry_too_small : Panic
  bitmap_does_not_fit kernel_not_in_ram bitmap_outside_direct_map : Panic

-- The result of boot code: a value, a panic, a write outside the direct map, which is all that the
-- processor has mapped then, or a loop that outlives its fuel.
pub data Boot {ℓ} (A : Type ℓ) : Type ℓ where
  ok : A → Boot A
  panic : Panic → Boot A
  page_fault : Boot A
  unfinished : Boot A

infixl 5 ◌>>=◌ ◌>>◌
abbrev pub ◌>>=◌ {ℓ κ} : {A : Type ℓ} {B : Type κ} → Boot A → (A → Boot B) → Boot B
ok a >>= f = f a
panic p >>= f = panic p
page_fault >>= f = page_fault
unfinished >>= f = unfinished

abbrev pub ◌>>◌ {ℓ} : {B : Type ℓ} → Boot (Unit {0}) → Boot B → Boot B
m >> k = m >>= λ _. k

abbrev pub panic_if : Bool → Panic → Boot (Unit {0})
panic_if true p = panic p
panic_if false p = ok tt

abbrev pub fault_if : Bool → Boot (Unit {0})
fault_if true = page_fault
fault_if false = ok tt

-- `ptr += entry->size + sizeof(entry->size)`.
abbrev pub next_entry : Memory → ℕ → ℕ
next_entry mem ptr = add32 ptr (add32 (load32 mem ptr) 4)

-- MULTIBOOT_FLAG_MMAP.
abbrev pub flag_mmap : ℕ
flag_mmap = 2 ^ 6

pub check_entries : ℕ → Memory → ℕ → ℕ → Boot (Unit {0})
check_entries zero mem ptr end = unfinished
check_entries (suc fuel) mem ptr end =
    let rest = check_entries fuel mem (next_entry mem ptr) end in
    if ltb ptr end then (if ltb (load32 mem ptr) 20 then panic entry_too_small else rest) else ok tt

-- An entry takes 24 bytes at least, so the length of the map is fuel enough.
abbrev pub map_fuel : MultibootInfo → ℕ
map_fuel mbi = suc mbi.mmap_length

unfoldable pub check_mmap : Memory → MultibootInfo → Boot (Unit {0})
unfolding check_entries
check_mmap mem mbi = do
  panic_if (bit_and mbi.flags flag_mmap == 0) mmap_not_present
  let ptr = vmm_phys_to_virt mbi.mmap_addr
  panic_if (ptr == 0) mmap_outside_direct_map
  check_entries (map_fuel mbi) mem ptr (add32 ptr mbi.mmap_length)

-- The entries that the loops `while (ptr < end)` meet.
unfoldable pub walk : ℕ → Memory → ℕ → ℕ → Boot (List Entry)
walk zero mem ptr end = unfinished
walk (suc fuel) mem ptr end =
    let rest = walk fuel mem (next_entry mem ptr) end in
    if ltb ptr end then (rest >>= λ es. ok (read_entry mem ptr ∷ es)) else ok []

-- The loop of `find_max_page`, from a value of its `max_page`.
unfoldable pub max_page_from : ℕ → List Entry → ℕ
max_page_from max_page [] = max_page
max_page_from max_page (e ∷ es) =
    let entry_max_page = shr (u64 (e.addr + e.len)) page_shift in
    max_page_from
      (if (e.type == 1) && ltb max_page entry_max_page then entry_max_page else max_page) es

-- The return type cuts the `uint64_t` to 32 bits.
unfoldable pub find_max_page : List Entry → ℕ
unfolding max_page_from
find_max_page es = u32 (max_page_from 0 es)

-- `for (i = page; i < page + n; i++) bitmap_clear(i);`
pub clear_pages : ℕ → ℕ → List ℕ → List ℕ
clear_pages zero page bm = bm
clear_pages (suc n) page bm = clear_pages n (page + 1) (bitmap_clear bm page)

-- `start_page` and the final `end_page` of an entry; no pages for an entry that the loop skips.
unfoldable pub usable_range : ℕ → Entry → ℕ × ℕ
usable_range max_page e =
    let start_page = u32 (shr e.addr page_shift) in
    let region_pages = u32 (shr e.len page_shift) in
    let end_page = add32 start_page region_pages in
    if not (e.type == 1) || leb max_page start_page
    then (0, 0)
    else if ltb max_page end_page || ltb end_page start_page
    then (start_page, max_page)
    else (start_page, end_page)

-- The loop of `clear_usable_pages`, from a bitmap and a value of its `usable_pages`.
pub clear_usable_from : ℕ → ℕ → List Entry → List ℕ → List ℕ × ℕ
clear_usable_from max_page usable_pages [] bm = (bm, usable_pages)
clear_usable_from max_page usable_pages (e ∷ es) bm =
    let (start_page, end_page) = usable_range max_page e in
    clear_usable_from max_page (u32 (usable_pages + (end_page - start_page))) es
      (clear_pages (end_page - start_page) start_page bm)

unfoldable pub clear_usable_pages : ℕ → List Entry → List ℕ → List ℕ × ℕ
unfolding clear_usable_from
clear_usable_pages max_page es bm = clear_usable_from max_page 0 es bm

pub overlap_bytes : Entry → ℕ → ℕ → ℕ
overlap_bytes e start end =
    let eend = u64 (e.addr + e.len) in
    let max_start = if ltb start e.addr then e.addr else start in
    let min_end = if ltb eend end then eend else end in
    if not (e.type == 1) then 0 else if leb min_end max_start then 0 else min_end - max_start

pub ranges_overlap : ℕ → ℕ → ℕ → ℕ → Bool
ranges_overlap a_start a_end b_start b_end = ltb a_start b_end && ltb b_start a_end

pub align_up : ℕ → ℕ → ℕ
align_up addr size = bit_and (u32 (addr + size - 1)) (not32 (size - 1))

-- A range of physical addresses that the bitmap must keep clear of.
pub record Span : Type 0 where
  pub start : ℕ
  pub end : ℕ

-- The inner loop of `find_segment`: the place found in one region that ends at `eend`, or `none`.
-- Each round but the last moves past one of three ranges, so four rounds are enough.
pub place : ℕ → ℕ → ℕ → Span → Span → Span → ℕ → Boot (Option ℕ)
place zero bytes eend kernel mbi mmap start = unfinished
place (suc fuel) bytes eend kernel mbi mmap start =
    let past_kernel = place fuel bytes eend kernel mbi mmap (align_up kernel.end page_size) in
    let past_mbi = place fuel bytes eend kernel mbi mmap (align_up mbi.end page_size) in
    let past_mmap = place fuel bytes eend kernel mbi mmap (align_up mmap.end page_size) in
    if leb (add32 start bytes) eend
    then (if ranges_overlap start (add32 start bytes) kernel.start kernel.end
        then past_kernel
        else if ranges_overlap start (add32 start bytes) mbi.start mbi.end
        then past_mbi
        else if ranges_overlap start (add32 start bytes) mmap.start mmap.end
        then past_mmap
        else ok (some start))
    else ok none

-- `find_segment`, with the three ranges that it computes in its loop. It returns 0 where no region
-- has room.
unfoldable pub find_segment : ℕ → Span → Span → Span → List Entry → Boot ℕ
unfolding place align_up ranges_overlap
find_segment bytes kernel mbi mmap [] = ok 0
find_segment bytes kernel mbi mmap (e ∷ es) =
    let estart = if e.addr == 0 then 1 else u32 e.addr in
    let eend = u32 (u64 (e.addr + e.len)) in
    let rest = find_segment bytes kernel mbi mmap es in
    let found = place 4 bytes eend kernel mbi mmap (align_up estart page_size) in
    if not (e.type == 1)
    then rest
    else (found >>= λ p. elim p [ some start ↦ ok start | none ↦ rest ])

-- The sum of `check_kernel_location`, from a value of its `kernel_overlap`.
pub kernel_overlap_from : ℕ → Span → List Entry → ℕ
kernel_overlap_from kernel_overlap kernel [] = kernel_overlap
kernel_overlap_from kernel_overlap kernel (e ∷ es) =
    kernel_overlap_from (u64 (kernel_overlap + overlap_bytes e kernel.start kernel.end)) kernel es

unfoldable pub check_kernel_location : Span → List Entry → Boot (Unit {0})
unfolding kernel_overlap_from overlap_bytes
check_kernel_location kernel es =
    panic_if (ltb (kernel_overlap_from 0 kernel es) (kernel.end - kernel.start)) kernel_not_in_ram
