-- ===== src/Pmm/Boot.antt =====
-- kernel/mm/pmm.c: `pmm_init`, which builds the page bitmap from the boot loader's memory map.
pub mod Correct
use emyx.Base.{ℕ, ◌+◌, ◌/◌, ◌%◌, ◌^◌, List, replicate, ltb, ◌==◌, u32, add32}
use emyx.Memory.{Memory}
use emyx.DirectMap.{direct_map_limit, vmm_phys_to_virt, vmm_virt_to_phys}
use emyx.Pmm.{Pmm, reserve_page, reserve_segment}
use emyx.Pmm.Mmap.{
  Boot, ok, ◌>>=◌, ◌>>◌, panic_if, fault_if, bitmap_does_not_fit, bitmap_outside_direct_map, Entry,
  MultibootInfo, Span, map_fuel, check_mmap, walk, find_max_page, find_segment,
  check_kernel_location, clear_usable_pages,
}

-- `sizeof(multiboot_info)`.
abbrev pub multiboot_info_size : ℕ
multiboot_info_size = 52

-- The ranges of the boot information that `find_segment` avoids.
abbrev pub mbi_span : MultibootInfo → Span
mbi_span mbi = record {
  start = vmm_virt_to_phys mbi.address;
  end = add32 (vmm_virt_to_phys mbi.address) multiboot_info_size;
}

abbrev pub mmap_span : MultibootInfo → Span
mmap_span mbi = record { start = mbi.mmap_addr; end = add32 mbi.mmap_addr mbi.mmap_length }

-- `pmm_bitmap_bytes`.
abbrev pub bytes_for : ℕ → ℕ
bytes_for max_page = u32 (max_page + 7) / 8

-- The state once the usable pages are cleared in a bitmap of set bits.
pub after_clearing : ℕ → List Entry → Pmm
after_clearing max_page es =
    let (bm, usable_pages) = clear_usable_pages max_page es (replicate (bytes_for max_page) 0xFF) in
    record {
      bitmap = bm;
      bitmap_bytes = bytes_for max_page;
      max_page = max_page;
      total_pages = usable_pages;
      free_pages = usable_pages;
    }

-- The last steps: the bitmap, the kernel and page 0 are reserved.
pub reserve_all : ℕ → Span → Pmm → Pmm
reserve_all bitmap_base kernel s =
    let s1 = reserve_segment s bitmap_base (add32 bitmap_base s.bitmap_bytes) in
    let s2 = reserve_segment s1 kernel.start kernel.end in reserve_page s2 0

-- `kernel` is the range of the linker's __kernel_physical_start and __kernel_physical_end. The
-- bitmap is a list of its own: `find_segment` places it apart from all that is read here. All of it
-- is written, which faults where it runs past the direct map.
pub pmm_init : Memory → Span → MultibootInfo → Boot Pmm
unfolding after_clearing reserve_all
pmm_init mem kernel mbi = do
  check_mmap mem mbi
  let ptr = vmm_phys_to_virt mbi.mmap_addr
  es ← walk (map_fuel mbi) mem ptr (add32 ptr mbi.mmap_length)
  let max_page = find_max_page es
  bitmap_base ← find_segment (bytes_for max_page) kernel (mbi_span mbi) (mmap_span mbi) es
  panic_if (bitmap_base == 0) bitmap_does_not_fit
  check_kernel_location kernel es
  panic_if (vmm_phys_to_virt bitmap_base == 0) bitmap_outside_direct_map
  fault_if (ltb direct_map_limit (bitmap_base + bytes_for max_page))
  ok (reserve_all bitmap_base kernel (after_clearing max_page es))
