-- ===== src/Heap/Tests.antt =====
-- kernel/mm/kmalloc.c at a heap of one page.
use Prim.Native.Nat.{ℕ}
use emyx.Base.{◌+◌, ◌≡◌, ◌≢◌, ◌⊎◌, ◌<◌, ◌≤◌, inl, refl, true, false, [], ◌∷◌, arith}
use emyx.Pmm.Examples.{pages, pages-IsValid, page_two}
use emyx.Heap.{
  Block, Heap, align_size, alloc_from_block, coalesce_next, first_fit, seed, kmalloc_aligned,
  free_at, kmalloc, kfree,
}
use emyx.Heap.Pages.{Fits, IsHeap}
use emyx.Heap.Alloc.{Mallocs}
use emyx.Heap.Calls.{kmalloc_lem, kfree_lem}
use emyx.Heap.Reuse.{malloc-free}

-- Page 2 holds a block in use and what is left of the page.
abbrev in_use : Block
in_use = record { addr = 0xC0002000; size = 24; free = false }

abbrev left : Block
left = record { addr = 0xC0002024; size = 4048; free = true }

abbrev one_page : Heap
one_page = record { pmm = pages; blocks = in_use ∷ left ∷ [] }

in_page_two : (b : Block) → 0xC0002000 ≤ b.addr → b.addr + 12 + b.size ≤ 0xC0003000 → Fits pages b
in_page_two b lo hi =
    (omega arith, omega arith, λ q below above. let same : q ≡ 2 = omega arith in rw same page_two)

one_page-IsHeap : IsHeap one_page
one_page-IsHeap = record {
  valid = pages-IsValid;
  fits = (
    in_page_two in_use (omega arith) (omega arith),
    (in_page_two left (omega arith) (omega arith), tt),
  );
  apart = ((inl (omega arith), tt), (tt, tt));
}

kmalloc_lem_example :
    ((◌≡◌ {A = ℕ} 13 0) ⊎ ◌<◌ 4080 13) × (kmalloc one_page 13 ≡ (0, one_page))
    ⊎ Mallocs one_page 16 (kmalloc one_page 13)
kmalloc_lem_example = kmalloc_lem one_page 13 (omega arith) one_page-IsHeap

kmalloc_runs : kmalloc one_page 13 ≡ (
  0xC0002030,
  record one_page {
    blocks =
        in_use
        ∷ record { addr = 0xC0002024; size = 16; free = false }
        ∷ record { addr = 0xC0002040; size = 4020; free = true }
        ∷ [];
  },
)
unfolding kmalloc align_size kmalloc_aligned seed first_fit alloc_from_block
kmalloc_runs = refl

kmalloc_ne_zero : (kmalloc one_page 13).0 ≢ 0
kmalloc_ne_zero = λ e. ground (arith, kmalloc_runs)

kfree_lem_example : (kfree one_page 0 ≡ one_page) × IsHeap (kfree one_page 0xC000200C)
kfree_lem_example = let l = kfree_lem one_page 0xC000200C one_page-IsHeap in (l.0, l.1)

malloc-free_example :
    (kmalloc (kfree (kmalloc one_page 13).1 (kmalloc one_page 13).0) 13).0 ≡ (kmalloc one_page 13).0
malloc-free_example =
    malloc-free one_page 13 one_page-IsHeap (omega arith) (omega arith) kmalloc_ne_zero

free_runs :
    kfree one_page 0xC000200C
    ≡ record one_page { blocks = record { addr = 0xC0002000; size = 4084; free = true } ∷ [] }
unfolding kfree free_at coalesce_next
free_runs = refl
