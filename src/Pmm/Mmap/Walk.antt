-- ===== src/Pmm/Mmap/Walk.antt =====
-- kernel/mm/pmm.c: the walk over a memory map that is laid out as the multiboot specification says.
use Prim.Native.Nat.{ℕ, zero, suc}
use emyx.Base.{
  ◌+◌, ◌-◌, ◌^◌, ◌≤◌, ◌<◌, ◌≡◌, refl, List, [], ◌∷◌, ltb, add32, ◌==◌, if◌then◌else◌, bit_and,
  arith,
}
use emyx.Memory.{Memory, load32}
use emyx.DirectMap.{vmm_phys_to_virt}
use emyx.Pmm.Mmap.{
  ok, panic, panic_if, mmap_not_present, mmap_outside_direct_map, kernel_not_in_ram, MultibootInfo,
  Span, map_fuel, flag_mmap, check_mmap, check_kernel_location, kernel_overlap_from, Entry,
  read_entry, next_entry, check_entries, walk,
}

-- The memory from an address up to `end` holds these entries: each has a size of 20 at least, and
-- the next follows at that size and the size field's own 4 bytes, below 2^32.
pub data Layout (mem : Memory) (end : ℕ) : ℕ → List Entry → Type 0 where
  done : {ptr : ℕ} → end ≤ ptr → Layout mem end ptr []
  entry :
      {ptr : ℕ} {es : List Entry}
      → ptr < end
      → 20 ≤ load32 mem ptr
      → ptr + load32 mem ptr + 4 < 2 ^ 32
      → Layout mem end (next_entry mem ptr) es
      → Layout mem end ptr (read_entry mem ptr ∷ es)

-- On such a memory the check passes and the walk meets exactly the entries, with fuel for the bytes
-- that are left.
pub Layout-walk :
    {mem : Memory} {end : ℕ} (fuel : ℕ) {ptr : ℕ} {es : List Entry}
    → Layout mem end ptr es
    → end - ptr < fuel
    → (check_entries fuel mem ptr end ≡ ok tt) × (walk fuel mem ptr end ≡ ok es)
unfolding check_entries walk
Layout-walk zero l enough = absurd (omega arith)
Layout-walk (suc fuel) (done past) enough = (ground arith, ground arith)
Layout-walk {mem} {end} (suc fuel) (entry {ptr = ptr} below large fits l) enough =
    ground (arith, Layout-walk fuel l (omega arith))

-- The check of the kernel's place is the comparison of two sums.
pub check_kernel_location-eq :
    (kernel : Span) (es : List Entry)
    → check_kernel_location kernel es
      ≡ panic_if
          (ltb (kernel_overlap_from 0 kernel es) (kernel.end - kernel.start))
          kernel_not_in_ram
unfolding check_kernel_location
check_kernel_location-eq kernel es = refl

-- `check_mmap` panics where the flag is clear or the map is outside the direct map; otherwise it is
-- its loop.
pub check_mmap-eq :
    (mem : Memory) (mbi : MultibootInfo)
    → check_mmap mem mbi ≡ (
        if bit_and mbi.flags flag_mmap == 0
        then panic mmap_not_present
        else if vmm_phys_to_virt mbi.mmap_addr == 0
        then panic mmap_outside_direct_map
        else check_entries
            (map_fuel mbi)
            mem
            (vmm_phys_to_virt mbi.mmap_addr)
            (add32 (vmm_phys_to_virt mbi.mmap_addr) mbi.mmap_length))
unfolding check_mmap
check_mmap-eq mem mbi = ground arith
