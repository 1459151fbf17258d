-- ===== src/Vmm.antt =====
-- kernel/mm/vmm.c: page directories and page tables, address spaces, and the mapping of pages.
pub mod Tree
pub mod Fresh
pub mod Space
pub mod Table
pub mod Map
pub mod Unmap
mod Tests
pub mod Entries
pub mod Spaces
use Prim.Native.Nat.{ℕ, zero, suc}
use emyx.Base.{
  ◌+◌, ◌*◌, ◌-◌, ◌/◌, ◌%◌, Bool, true, false, not, ◌&&◌, ◌||◌, Option, none, some, List, [], ◌∷◌,
  bit_and, bit_or, ltb, leb, ◌==◌, if◌then◌else◌, add32, shr,
}
use emyx.DirectMap.{vmm_phys_to_virt, kernel_virtual_base}
use emyx.Pmm.{Pmm, pmm_alloc_page, pmm_free_page, page_size}

-- `kernel_page_directory`, the page allocator, the `uint32_t` at each virtual address in the direct
-- map, and the addresses that `paging_tlb_invalidate` was called on, latest first.
pub record Vmm : Type 0 where
  pub pmm : Pmm
  pub words : ℕ → ℕ
  pub kernel_page_directory : ℕ
  pub invalidated : List ℕ

abbrev pub page_present : ℕ
page_present = 1

abbrev pub page_writable : ℕ
page_writable = 2

abbrev pub page_user : ℕ
page_user = 4

-- PAGE_TABLE_SPAN.
abbrev pub page_table_span : ℕ
page_table_span = 1024 * page_size

-- VMM_PDE_INDEX and VMM_PTE_INDEX.
pub pde_index : ℕ → ℕ
pde_index vaddr = bit_and (shr vaddr 22) 0x3ff

pub pte_index : ℕ → ℕ
pte_index vaddr = bit_and (shr vaddr 12) 0x3ff

-- KERNEL_PDE_INDEX.
abbrev pub kernel_pde_index : ℕ
kernel_pde_index = 768

-- `entry & 0xfffff000`.
pub frame_of : ℕ → ℕ
frame_of entry = bit_and entry 0xfffff000

-- `(entry & VMM_PAGE_PRESENT) != 0`.
pub is_present : ℕ → Bool
is_present entry = not (bit_and entry page_present == 0)

-- `(addr & (PMM_PAGE_SIZE - 1)) != 0`.
pub is_unaligned : ℕ → Bool
is_unaligned addr = not (bit_and addr (page_size - 1) == 0)

-- `ptr[i]` for a `uint32_t *`; a page's addresses do not wrap.
abbrev pub slot : ℕ → ℕ → ℕ
slot ptr i = ptr + 4 * i

-- `*ptr = value`.
abbrev pub store : (ℕ → ℕ) → ℕ → ℕ → ℕ → ℕ
store words ptr value p = if p == ptr then value else words p

-- `memset(ptr, 0, PMM_PAGE_SIZE)`.
abbrev pub clear_page : (ℕ → ℕ) → ℕ → ℕ → ℕ
clear_page words ptr p = if leb ptr p && ltb p (ptr + page_size) then 0 else words p

-- `none` is NULL.
pub vmm_get_page_table_in : Vmm → ℕ → ℕ → Option ℕ
vmm_get_page_table_in s address_space vaddr =
    let pd_ptr = vmm_phys_to_virt address_space in
    let pde = s.words (slot pd_ptr (pde_index vaddr)) in
    let pt_ptr = vmm_phys_to_virt (frame_of pde) in
    if address_space == 0
    then none
    else if pd_ptr == 0
    then none
    else if bit_and pde 1 == 0
    then none
    else if pt_ptr == 0
    then none
    else some pt_ptr

-- The page table that `vmm_map_page_in` writes to: the present one, or a new one. `none` is -1.
pub table_for : Vmm → ℕ → ℕ → Option ℕ × Vmm
table_for s pd_ptr pd_idx =
    let pde = s.words (slot pd_ptr pd_idx) in
    let present_table = vmm_phys_to_virt (frame_of pde) in
    let (page_table, pmm) = pmm_alloc_page s.pmm in
    let pt_ptr = vmm_phys_to_virt page_table in
    if is_present pde
    then (if present_table == 0 then (none, s) else (some present_table, s))
    else if page_table == 0
    then (none, record s { pmm = pmm })
    else if pt_ptr == 0
    then (none, record s { pmm = pmm_free_page pmm page_table })
    else (
      some pt_ptr,
      record s {
        pmm = pmm;
        words =
            store (clear_page s.words pt_ptr) (slot pd_ptr pd_idx) (bit_or page_table page_present);
      },
    )

-- The end of `vmm_map_page_in`, with the page table at hand.
pub enter_page : Vmm → ℕ → ℕ → ℕ → ℕ → ℕ → Bool × Vmm
enter_page s pd pt vaddr paddr flags =
    let pte = slot pt (pte_index vaddr) in
    let words =
      store s.words pd (bit_or (s.words pd) (bit_and flags (bit_or page_writable page_user))) in
    if is_present (s.words pte) then (false, s) else (
      true,
      record s {
        words = store words pte (bit_or paddr (bit_and flags 0xfff));
        invalidated = vaddr ∷ s.invalidated;
      },
    )

abbrev pub enter_table : Option ℕ × Vmm → ℕ → ℕ → ℕ → ℕ → Bool × Vmm
enter_table (none, s) pd vaddr paddr flags = (false, s)
enter_table (some pt, s) pd vaddr paddr flags = enter_page s pd pt vaddr paddr flags

-- The result is whether the call returns 0; otherwise it returns -1.
pub vmm_map_page_in : Vmm → ℕ → ℕ → ℕ → ℕ → Bool × Vmm
vmm_map_page_in s address_space vaddr paddr flags =
    let pd_idx = pde_index vaddr in
    let pd_ptr = vmm_phys_to_virt address_space in
    if (address_space == 0) || is_unaligned vaddr
    then (false, s)
    else if is_unaligned paddr
    then (false, s)
    else if not (address_space == s.kernel_page_directory) && leb kernel_pde_index pd_idx
    then (false, s)
    else if pd_ptr == 0
    then (false, s)
    else enter_table (table_for s pd_ptr pd_idx) (slot pd_ptr pd_idx) vaddr paddr flags

-- `if (pt_ptr != NULL) pt_ptr[VMM_PTE_INDEX(vaddr)] = 0;`
pub forget_page : Vmm → Option ℕ → ℕ → Vmm
forget_page s none vaddr = s
forget_page s (some pt_ptr) vaddr = record s {
  words = store s.words (slot pt_ptr (pte_index vaddr)) 0;
}

pub vmm_map_page : Vmm → ℕ → ℕ → ℕ → Bool × Vmm
vmm_map_page s vaddr paddr flags =
    if is_unaligned vaddr || is_unaligned paddr
    then (false, s)
    else vmm_map_page_in
        (forget_page s (vmm_get_page_table_in s s.kernel_page_directory vaddr) vaddr)
        s.kernel_page_directory vaddr paddr flags

pub leave_page : Vmm → Option ℕ → ℕ → Bool × Vmm
leave_page s none vaddr = (false, s)
leave_page s (some pt_ptr) vaddr =
    let pte = slot pt_ptr (pte_index vaddr) in
    if is_present (s.words pte)
    then (true, record s { words = store s.words pte 0; invalidated = vaddr ∷ s.invalidated })
    else (false, s)

pub vmm_unmap_page_in : Vmm → ℕ → ℕ → Bool × Vmm
vmm_unmap_page_in s address_space vaddr =
    if (address_space == 0) || is_unaligned vaddr
    then (false, s)
    else if not (address_space == s.kernel_page_directory) && leb kernel_pde_index (pde_index vaddr)
    then (false, s)
    else leave_page s (vmm_get_page_table_in s address_space vaddr) vaddr

pub vmm_unmap_page : Vmm → ℕ → Bool × Vmm
vmm_unmap_page s vaddr = vmm_unmap_page_in s s.kernel_page_directory vaddr

-- What is read of a page table: `none` is -1.
pub look_up : Vmm → Option ℕ → ℕ → Option ℕ
look_up s none vaddr = none
look_up s (some pt_ptr) vaddr =
    let pte = s.words (slot pt_ptr (pte_index vaddr)) in
    if is_present pte then some (bit_or (frame_of pte) (bit_and vaddr 0xfff)) else none

-- For a `paddr` that is not NULL: the address that is written there, or `none` for -1.
pub vmm_get_paddr_in : Vmm → ℕ → ℕ → Option ℕ
vmm_get_paddr_in s address_space vaddr =
    look_up s (vmm_get_page_table_in s address_space vaddr) vaddr

pub vmm_get_paddr : Vmm → ℕ → Option ℕ
vmm_get_paddr s vaddr = vmm_get_paddr_in s s.kernel_page_directory vaddr
