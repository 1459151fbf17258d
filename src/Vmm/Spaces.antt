-- ===== src/Vmm/Spaces.antt =====
-- kernel/mm/vmm.c: how address spaces and the kernel's own page tables are made and destroyed.
pub mod Create
use Prim.Native.Nat.{ℕ, zero, suc}
use emyx.Base.{
  ◌≡◌, arith, ◌+◌, ◌*◌, ◌-◌, ◌/◌, ◌%◌, not, ◌||◌, bit_or, ltb, ◌==◌, if◌then◌else◌, u32,
}
use emyx.DirectMap.{vmm_phys_to_virt}
use emyx.Pmm.{Pmm, pmm_alloc_page, pmm_free_page, page_size}
use emyx.Vmm.{Vmm, slot, store, clear_page, is_present, frame_of, kernel_pde_index, page_table_span}

-- `new_pd[i] = current_pd[i]` for `n` entries from `i` on.
pub copy_entries : ℕ → ℕ → ℕ → ℕ → (ℕ → ℕ) → ℕ → ℕ
copy_entries zero i to from words = words
copy_entries (suc n) i to from words =
    copy_entries n (i + 1) to from (store words (slot to i) (words (slot from i)))

pub vmm_create_address_space : Vmm → ℕ × Vmm
vmm_create_address_space s =
    let (address_space, pmm) = pmm_alloc_page s.pmm in
    let new_pd = vmm_phys_to_virt address_space in
    let current_pd = vmm_phys_to_virt s.kernel_page_directory in
    if address_space == 0
    then (0, record s { pmm = pmm })
    else if new_pd == 0
    then (0, record s { pmm = pmm_free_page pmm address_space })
    else (
      address_space,
      record s {
        pmm = pmm;
        words =
            copy_entries (1024 - kernel_pde_index) kernel_pde_index new_pd current_pd
              (clear_page s.words new_pd);
      },
    )

-- The loop over the entries below the kernel's, for `n` entries from `i` on.
pub free_tables : ℕ → ℕ → (ℕ → ℕ) → ℕ → Pmm → Pmm
free_tables zero i words pd_ptr pmm = pmm
free_tables (suc n) i words pd_ptr pmm =
    let entry = words (slot pd_ptr i) in
    free_tables n (i + 1) words pd_ptr
      (if is_present entry then pmm_free_page pmm (frame_of entry) else pmm)

pub vmm_destroy_address_space : Vmm → ℕ → Vmm
vmm_destroy_address_space s address_space =
    let pd_ptr = vmm_phys_to_virt address_space in
    if (address_space == 0) || (address_space == s.kernel_page_directory)
    then s
    else if pd_ptr == 0
    then s
    else record s {
      pmm = pmm_free_page (free_tables kernel_pde_index 0 s.words pd_ptr s.pmm) address_space;
    }

-- The messages with which `vmm_init` panics.
pub data VmmPanic : Type 0 where
  no_limit limit_not_aligned no_directory directory_outside no_table table_outside : VmmPanic

pub data Init : Type 0 where
  ready : Vmm → Init
  panic : VmmPanic → Init

-- `kernel_pt_ptr[j] = frame | 0x3` for `n` entries from `j` on.
pub fill_table : ℕ → ℕ → ℕ → ℕ → (ℕ → ℕ) → ℕ → ℕ
fill_table zero j pt i words = words
fill_table (suc n) j pt i words =
    fill_table n (j + 1) pt i
      (store words (slot pt j) (bit_or (u32 (i * page_table_span + j * page_size)) 0x3))

-- The loop of `vmm_init` over `n` page tables from `i` on.
pub fill_directory : ℕ → ℕ → ℕ → Vmm → Init
fill_directory zero i pd_ptr s = ready s
fill_directory (suc n) i pd_ptr s =
    let (table, pmm) = pmm_alloc_page s.pmm in
    let pt = vmm_phys_to_virt table in
    let rest = fill_directory n (i + 1) pd_ptr (record s {
      pmm = pmm;
      words =
          store (fill_table 1024 0 pt i (clear_page s.words pt))
            (slot pd_ptr (kernel_pde_index + i)) (bit_or table 0x3);
    }) in
    if table == 0 then panic no_table else if pt == 0 then panic table_outside else rest

-- Loading the directory and turning paging on are the processor's.
pub vmm_init : Vmm → ℕ → Init
vmm_init s limit =
    let (directory, pmm) = pmm_alloc_page s.pmm in
    let pd_ptr = vmm_phys_to_virt directory in
    if ltb limit 1
    then panic no_limit
    else if not (limit % page_table_span == 0)
    then panic limit_not_aligned
    else if directory == 0
    then panic no_directory
    else if pd_ptr == 0
    then panic directory_outside
    else fill_directory (limit / page_table_span) 0 pd_ptr (record s {
      pmm = pmm;
      words = clear_page s.words pd_ptr;
      kernel_page_directory = directory;
    })

pub destroy-directory :
    (s : Vmm) (a : ℕ)
    → (vmm_destroy_address_space s a).kernel_page_directory ≡ s.kernel_page_directory
unfolding vmm_destroy_address_space
destroy-directory s a = ground arith
