-- ===== src/Process/Load.antt =====
-- kernel/user.c: the pages of a process, and the loading of an EMXF program into them.
pub mod Edits
use Prim.Native.Nat.{ℕ, zero, suc}
use emyx.Base.{
  ◌+◌, Bool, true, false, not, ◌&&◌, ◌||◌, Option, none, some, get_or, set, bit_or, ltb, leb, ◌==◌,
  if◌then◌else◌,
}
use emyx.Memory.{Memory, read_le32, load32}
use emyx.DirectMap.{vmm_phys_to_virt}
use emyx.Strings.{memcpy, memset}
use emyx.Pmm.{Pmm, pmm_alloc_page, pmm_free_page, page_size}
use emyx.Vmm.{Vmm, vmm_map_page_in, vmm_unmap_page_in, page_present, page_writable, page_user}
use emyx.Initramfs.{initramfs_find}
use emyx.Process.{Process, Userland, process_at, put_process, with_vmm, no_page, max_pages}

-- USER_INIT_CODE_ADDR, USER_INIT_STACK_ADDR and EMXF_HEADER_SIZE.
abbrev pub code_addr : ℕ
code_addr = 0x00400000

abbrev pub stack_addr : ℕ
stack_addr = 0x007ff000

abbrev pub emxf_header_size : ℕ
emxf_header_size = 12

-- The loop of `user_process_free_pages`, for `n` pages from `i` on.
pub free_pages_from : ℕ → ℕ → ℕ → Userland → Userland
free_pages_from zero i process s = s
free_pages_from (suc n) i process s =
    let p = process_at s process in
    let page = get_or p.pages i no_page in
    let vmm = (vmm_unmap_page_in s.sched.vmm p.address_space page.vaddr).1 in
    let s1 = with_vmm s (record vmm { pmm = pmm_free_page vmm.pmm page.paddr }) in
    free_pages_from n (i + 1) process
      (put_process s1 process (record p { pages = set p.pages i no_page }))

-- For a process that is not NULL.
pub user_process_free_pages : Userland → ℕ → Userland
user_process_free_pages s process =
    let s1 = free_pages_from (process_at s process).page_count 0 process s in
    put_process s1 process (record (process_at s1 process) { page_count = 0 })

-- The words of a page whose bytes were written.
abbrev pub words_of_page : Memory → ℕ → (ℕ → ℕ) → ℕ → ℕ
words_of_page mem page words p =
    if leb page p && ltb p (page + page_size) then load32 mem p else words p

-- The page's bytes: zeroes, and `size` bytes of `src`, where that is not NULL, at its start.
pub fill_page : Memory → ℕ → Option ℕ → ℕ → Memory
fill_page mem page none size = memset mem page 0 page_size
fill_page mem page (some src) size = memcpy (memset mem page 0 page_size) page src size

-- What follows once the page is mapped, or not.
pub keep_page : Userland → ℕ → ℕ → ℕ → Bool × Vmm → Bool × Userland
keep_page s process vaddr paddr (false, vmm) =
    (false, with_vmm s (record vmm { pmm = pmm_free_page vmm.pmm paddr }))
keep_page s process vaddr paddr (true, vmm) =
    let p = process_at s process in
    (
      true,
      put_process (with_vmm s vmm) process (record p {
        pages = set p.pages p.page_count (record { vaddr = vaddr; paddr = paddr });
        page_count = p.page_count + 1;
      }),
    )

-- The result is whether the call returns 0; otherwise it returns -1. `src` is `none` for NULL.
pub map_copied_user_page : Userland → ℕ → ℕ → Option ℕ → ℕ → ℕ → Bool × Userland
map_copied_user_page s process vaddr src size flags =
    let p = process_at s process in
    let (paddr, pmm) = pmm_alloc_page s.sched.vmm.pmm in
    let page = vmm_phys_to_virt paddr in
    let mem = fill_page s.memory page src size in
    let s1 = record s { memory = mem } in
    if leb max_pages p.page_count
    then (false, s)
    else if ltb page_size size
    then (false, s)
    else if paddr == 0
    then (false, with_vmm s (record s.sched.vmm { pmm = pmm }))
    else if page == 0
    then (false, with_vmm s (record s.sched.vmm { pmm = pmm_free_page pmm paddr }))
    else keep_page s1 process vaddr paddr (
        vmm_map_page_in
          (record s.sched.vmm { pmm = pmm; words = words_of_page mem page s.sched.vmm.words })
          p.address_space vaddr paddr (bit_or (bit_or page_present page_user) flags))

-- The tests of `load_emxf`: the size of the code and the offset of its entry, or `none` for -1.
pub check_emxf : Memory → ℕ → ℕ → Option (ℕ × ℕ)
check_emxf mem image size =
    let code_size = read_le32 mem (image + 4) in
    let entry_offset = read_le32 mem (image + 8) in
    if (image == 0) || ltb size emxf_header_size
    then none
    else if not (mem image == b'E')
        || (not (mem (image + 1) == b'M')
            || (not (mem (image + 2) == b'X') || not (mem (image + 3) == b'F')))
    then none
    else if ltb page_size code_size
    then none
    else if leb code_size entry_offset
    then none
    else if ltb size (emxf_header_size + code_size)
    then none
    else some (code_size, entry_offset)

-- What follows once the code's page is mapped, or not.
pub set_entry : ℕ → ℕ → Bool × Userland → Bool × Userland
set_entry process entry_offset (false, s) = (false, s)
set_entry process entry_offset (true, s) = (
  true,
  put_process s process (record (process_at s process) { entry = code_addr + entry_offset }),
)

-- From the tests of `load_emxf` on.
pub load_code : Userland → ℕ → ℕ → Option (ℕ × ℕ) → Bool × Userland
load_code s process image none = (false, s)
load_code s process image (some (code_size, entry_offset)) =
    set_entry process entry_offset
      (map_copied_user_page s process code_addr (some (image + emxf_header_size)) code_size 0)

pub load_emxf : Userland → ℕ → ℕ → ℕ → Bool × Userland
load_emxf s process image size = load_code s process image (check_emxf s.memory image size)

-- The end of `user_prepare_exec`, from the result for the stack's page on.
pub finish_exec : ℕ → Bool × Userland → Bool × Userland
finish_exec process (false, s) = (false, user_process_free_pages s process)
finish_exec process (true, s) = (
  true,
  put_process s process
      (record (process_at s process) { stack = stack_addr; stack_size = page_size }),
)

-- From the result of `load_emxf` on.
pub map_stack : ℕ → Bool × Userland → Bool × Userland
map_stack process (false, s) = (false, user_process_free_pages s process)
map_stack process (true, s) =
    finish_exec process (map_copied_user_page s process stack_addr none 0 page_writable)

-- From the result of `initramfs_find` on.
pub load_file : Userland → ℕ → Option (ℕ × ℕ) → Bool × Userland
load_file s process none = (false, user_process_free_pages s process)
load_file s process (some (emxf, emxf_size)) =
    map_stack process (load_emxf s process emxf emxf_size)

-- For a process and a path that are not NULL.
pub user_prepare_exec : Userland → ℕ → (ℕ → ℕ) → Bool × Userland
user_prepare_exec s process path = load_file s process (initramfs_find s.memory s.archive path)
