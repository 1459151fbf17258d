-- ===== src/Heap.antt =====
-- kernel/mm/kmalloc.c: the kernel heap. The linked list of block headers is a list of blocks, each
-- with the address of its header; the `next` pointer of a block is the address of the next element.
pub mod Blocks
pub mod Coalesce
pub mod Pages
pub mod Alloc
pub mod Calls
pub mod Reuse
mod Tests
use emyx.Base.{
  ℕ, ◌+◌, ◌-◌, ◌%◌, Bool, true, false, ◌&&◌, Option, none, some, List, [], ◌∷◌, ◌++◌, bit_and, ltb,
  leb, ◌==◌, if◌then◌else◌, add32, u32, not32, sub32,
}
use emyx.DirectMap.{vmm_phys_to_virt}
use emyx.Pmm.{Pmm, pmm_alloc_page, pmm_free_page, page_size}

-- KMALLOC_ALIGN, and `sizeof(heap_block)` on i386.
abbrev pub kmalloc_align : ℕ
kmalloc_align = 8

abbrev pub header_size : ℕ
header_size = 12

-- `heap_block`, at its address.
pub record Block : Type 0 where
  pub addr : ℕ
  pub size : ℕ
  pub free : Bool

-- The heap's list and the page allocator that it takes pages from.
pub record Heap : Type 0 where
  pub pmm : Pmm
  pub blocks : List Block

-- `none` is the result -1.
pub align_size : ℕ → Option ℕ
align_size size =
    if size == 0
    then none
    else if ltb (0xFFFFFFFF - (kmalloc_align - 1)) size
    then none
    else some (bit_and (u32 (size + kmalloc_align - 1)) (not32 (kmalloc_align - 1)))

-- What a block of a whole page can hold.
abbrev pub max_payload : ℕ
max_payload = page_size - header_size

-- A block that fills a new page, or `none` for NULL.
pub new_block : Pmm → Option Block × Pmm
new_block s =
    let (paddr, s') = pmm_alloc_page s in
    let block = vmm_phys_to_virt paddr in
    if paddr == 0
    then (none, s')
    else if block == 0
    then (none, pmm_free_page s' paddr)
    else (some (record { addr = block; size = max_payload; free = true }), s')

-- `(uint8_t *)(block + 1)`.
abbrev pub payload : Block → ℕ
payload b = add32 b.addr header_size

-- The block and what follows it in the list once `size` bytes of it are in use.
pub alloc_from_block : Block → ℕ → List Block → List Block
alloc_from_block block size rest =
    let remaining = sub32 block.size size in
    let used_block = record block { size = size; free = false } in
    if leb (header_size + kmalloc_align) remaining
    then (used_block
        ∷ record {
          addr = add32 (payload block) size;
          size = sub32 remaining header_size;
          free = true;
        }
        ∷ rest)
    else used_block ∷ rest

-- The loop `while (block->next != NULL && ...)`: the block and what follows it at its end.
pub coalesce_next : Block → List Block → List Block
coalesce_next block [] = block ∷ []
coalesce_next block (next ∷ rest) =
    let merged =
      coalesce_next (record block { size = add32 block.size (add32 header_size next.size) }) rest in
    if next.free && (add32 (payload block) block.size == next.addr)
    then merged
    else block ∷ next ∷ rest

-- The loop of `kmalloc` over the list: the pointer and the list where a free block is large enough.
pub first_fit : ℕ → List Block → Option (ℕ × List Block)
first_fit asize [] = none
first_fit asize (current ∷ rest) =
    let later = first_fit asize rest in
    if current.free && leb asize current.size
    then some (payload current, alloc_from_block current asize rest)
    else elim later [ none ↦ none | some (p, rest') ↦ some (p, current ∷ rest') ]

-- `if (list == NULL) list = new_block();`
pub seed : List Block → Pmm → Heap
seed [] s =
    let (block, s') = new_block s in
    record { pmm = s'; blocks = elim block [ none ↦ [] | some b ↦ b ∷ [] ] }
seed (b ∷ bs) s = record { pmm = s; blocks = b ∷ bs }

-- The end of `kmalloc`, where no block of the list is large enough.
pub extend : Heap → ℕ → ℕ × Heap
extend h asize =
    let (current, s) = new_block h.pmm in
    elim current [
      | none ↦ (0, record h { pmm = s })
      | some b ↦ (payload b, record { pmm = s; blocks = h.blocks ++ alloc_from_block b asize [] })
    ]

abbrev is_empty : List Block → Bool
is_empty [] = true
is_empty (b ∷ bs) = false

-- `kmalloc` for a size that is rounded up and small enough.
pub kmalloc_aligned : Heap → ℕ → ℕ × Heap
kmalloc_aligned h asize =
    let h' = seed h.blocks h.pmm in
    if is_empty h'.blocks then (0, h') else elim (first_fit asize h'.blocks) [
      | some (p, blocks) ↦ (p, record h' { blocks = blocks })
      | none ↦ extend h' asize
    ]

pub kmalloc : Heap → ℕ → ℕ × Heap
kmalloc h size = elim (align_size size) [
  | none ↦ (0, h)
  | some asize ↦ if ltb max_payload asize then (0, h) else kmalloc_aligned h asize
]

-- `block->free = 1; coalesce_next(block);` at the block with this header address. An address of no
-- block is outside what the function is made for, and changes nothing here.
pub free_at : ℕ → List Block → List Block
free_at a [] = []
free_at a (b ∷ bs) =
    if b.addr == a then coalesce_next (record b { free = true }) bs else b ∷ free_at a bs

pub kfree : Heap → ℕ → Heap
kfree h ptr = if ptr == 0 then h else record h { blocks = free_at (sub32 ptr header_size) h.blocks }
