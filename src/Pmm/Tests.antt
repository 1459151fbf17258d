-- ===== src/Pmm/Tests.antt =====
-- kernel/mm/pmm.c: concrete allocators and memory maps, and the properties applied to them.
use Prim.Native.Nat.{ℕ}
use emyx.Base.{◌-◌, ◌≡◌, ◌≢◌, refl, false, List, [], ◌∷◌, arith, get_or}
use emyx.Memory.{Memory}
use emyx.DirectMap.{vmm_phys_to_virt, vmm_virt_to_phys}
use emyx.Pmm.{Pmm, pmm_alloc_page, alloc_from, pmm_free_page, bitmap_test, bitmap_set, bitmap_clear}
use emyx.Pmm.Bitmap.{used, clear_count, used-replicate}
use emyx.Pmm.Invariant.{IsValid}
use emyx.Pmm.Alloc.{Allocates, pmm_alloc_page_lem, pmm_free_page_lem, free-alloc}
use emyx.Pmm.Clients.{Call, takes, gives, step, run, IsOwned, run-IsOwned, pick, others}
use emyx.Pmm.Mmap.{Entry, MultibootInfo, Span, find_segment, find_max_page, clear_usable_pages, ok}
use emyx.Pmm.Mmap.Walk.{Layout, done, entry}
use emyx.Pmm.Mmap.Segment.{Finds, find_segment_lem}
use emyx.Pmm.Mmap.Usable.{usable, IsCleared, clear_usable_pages_lem}
use emyx.Pmm.Boot.{pmm_init}
use emyx.Pmm.Boot.Correct.{Booted, pmm_init-Booted}

-- Twelve pages of which 0, 1, 3 and 8 to 11 are taken.
abbrev twelve : Pmm
twelve = record {
  bitmap = 0x0B ∷ 0x0F ∷ [];
  bitmap_bytes = 2;
  max_page = 12;
  total_pages = 12;
  free_pages = 5;
}

twelve-IsValid : IsValid twelve
unfolding used clear_count bitmap_test
twelve-IsValid = record {
  counts = record {
    bytes = omega arith;
    size = refl;
    covers = omega arith;
    limit = omega arith;
    counted = refl;
  };
  zero_taken = refl;
  some_pages = omega arith;
}

alloc_runs :
    pmm_alloc_page twelve ≡ (0x2000, record twelve { bitmap = 0x0F ∷ 0x0F ∷ []; free_pages = 4 })
unfolding pmm_alloc_page alloc_from bitmap_test bitmap_set
alloc_runs = refl

alloc_ne_zero : (pmm_alloc_page twelve).0 ≢ 0
alloc_ne_zero = λ e. ground (arith, alloc_runs)

pmm_alloc_page_lem_example : Allocates twelve 1 (pmm_alloc_page twelve)
pmm_alloc_page_lem_example = pmm_alloc_page_lem twelve twelve-IsValid

pmm_free_page_lem_example :
    IsValid (pmm_free_page twelve 0x8123) × (used (pmm_free_page twelve 0x8123).bitmap 8 ≡ false)
pmm_free_page_lem_example = pmm_free_page_lem twelve 0x8123 8 twelve-IsValid

free-alloc_example : pmm_free_page (pmm_alloc_page twelve).1 (pmm_alloc_page twelve).0 ≡ twelve
free-alloc_example = free-alloc twelve twelve-IsValid alloc_ne_zero

abbrev calls : List Call
calls = takes ∷ takes ∷ gives 1 ∷ takes ∷ gives 7 ∷ []

run_holds : (run (record { pmm = twelve; held = [] }) calls).held ≡ 0x2000 ∷ 0x4000 ∷ []
unfolding run step pick others pmm_alloc_page alloc_from bitmap_test bitmap_set pmm_free_page
    bitmap_clear
run_holds = refl

run-IsOwned_example : IsOwned 5 (run (record { pmm = twelve; held = [] }) calls)
run-IsOwned_example =
    run-IsOwned 5 (record { pmm = twelve; held = [] }) calls
      (record { valid = twelve-IsValid; owned = tt; no_leak = refl })

-- A memory map of two entries at physical address 0x9000: 7 MiB of usable memory from 1 MiB on,
-- and a reserved range.
abbrev map_bytes : List ℕ
map_bytes =
    20 ∷ 0 ∷ 0 ∷ 0 ∷ 0 ∷ 0 ∷ 0x10 ∷ 0 ∷ 0 ∷ 0 ∷ 0 ∷ 0 ∷ 0 ∷ 0 ∷ 0x70 ∷ 0 ∷ 0 ∷ 0 ∷ 0 ∷ 0 ∷ 1 ∷ 0 ∷ 0
    ∷ 0 ∷ 20 ∷ 0 ∷ 0 ∷ 0 ∷ 0 ∷ 0 ∷ 0x80 ∷ 0 ∷ 0 ∷ 0 ∷ 0 ∷ 0 ∷ 0 ∷ 0 ∷ 0x10 ∷ 0 ∷ 0 ∷ 0 ∷ 0 ∷ 0 ∷ 2
    ∷ 0 ∷ 0 ∷ 0 ∷ []

abbrev map_memory : Memory
map_memory p = get_or map_bytes (p - 0xC0009000) 0

abbrev info : MultibootInfo
info = record {
  address = 0xC0008000;
  flags = 0x40;
  mods_count = 0;
  mods_addr = 0;
  mmap_length = 48;
  mmap_addr = 0x9000;
}

abbrev kernel_image : Span
kernel_image = record { start = 0x100000; end = 0x123456 }

abbrev usable_entry : Entry
usable_entry = record { size = 20; addr = 0x100000; len = 0x700000; type = 1 }

abbrev entries : List Entry
entries = usable_entry ∷ record { size = 20; addr = 0x800000; len = 0x100000; type = 2 } ∷ []

entries-Layout : Layout map_memory 0xC0009030 0xC0009000 entries
entries-Layout =
    entry (omega arith) (omega arith) (omega arith)
      (entry (omega arith) (omega arith) (omega arith) (done (omega arith)))

-- The reserved range has no usable page.
outside :
    (q : ℕ)
    → usable 2048 (record { size = 20; addr = 0x800000; len = 0x100000; type = 2 } ∷ []) q ≡ false
outside q = ground arith

outside' :
    (q : ℕ)
    → usable 12 (record { size = 20; addr = 0x800000; len = 0x100000; type = 2 } ∷ []) q ≡ false
outside' q = ground arith

pmm_init-Booted_example : Booted kernel_image info entries (pmm_init map_memory kernel_image info)
unfolding find_max_page vmm_phys_to_virt vmm_virt_to_phys
pmm_init-Booted_example =
    pmm_init-Booted map_memory kernel_image info entries (λ h. entries-Layout) (omega arith)
      ((λ q h. outside q), ((λ q h. refl), tt)) (omega arith) (omega arith) (omega arith)
      (omega arith)

find_segment_lem_example :
    Finds 256 kernel_image
      (record { start = 0x8000; end = 0x8034 })
      (record { start = 0x9000; end = 0x9030 })
      entries
      (find_segment 256 kernel_image
        (record { start = 0x8000; end = 0x8034 })
        (record { start = 0x9000; end = 0x9030 })
        entries)
find_segment_lem_example =
    find_segment_lem 256 kernel_image (record { start = 0x8000; end = 0x8034 })
      (record { start = 0x9000; end = 0x9030 }) entries (omega arith) (omega arith) (omega arith)
      (omega arith) (omega arith)

find_segment_runs :
    find_segment 256 kernel_image
      (record { start = 0x8000; end = 0x8034 })
      (record { start = 0x9000; end = 0x9030 })
      entries
    ≡ ok 0x124000
unfolding find_segment
find_segment_runs = refl

clear_usable_pages_lem_example :
    IsCleared 12 entries (0xFF ∷ 0xFF ∷ []) (clear_usable_pages 12 entries (0xFF ∷ 0xFF ∷ []))
clear_usable_pages_lem_example =
    clear_usable_pages_lem 12 entries (0xFF ∷ 0xFF ∷ []) (omega arith) (omega arith) (omega arith)
      (omega arith) ((λ q h. outside' q), ((λ q h. refl), tt))
      (λ q lt. used-replicate 2 q (omega arith))
