-- ===== src/Initramfs.antt =====
-- kernel/initramfs.c: the archive of files that the boot loader passes to the kernel.
pub mod Find
mod Tests
use Prim.Native.Nat.{ℕ, zero, suc}
use emyx.Base.{
  ◌+◌, ◌*◌, ◌-◌, ◌/◌, Bool, true, false, not, ◌&&◌, ◌||◌, Option, none, some, bit_and, ltb, leb,
  ◌==◌, if◌then◌else◌, add32, sub32,
}
use emyx.Memory.{Memory, read_le32, load32}
use emyx.DirectMap.{vmm_phys_to_virt}
use emyx.Pmm.Mmap.{MultibootInfo}

-- EMXA_HEADER_SIZE, EMXA_PATH_SIZE and EMXA_ENTRY_SIZE.
abbrev pub header_size : ℕ
header_size = 8

abbrev pub path_size : ℕ
path_size = 32

abbrev pub entry_size : ℕ
entry_size = 40

-- What `boot_module_start` and `boot_module_size` return.
pub record Module : Type 0 where
  pub start : ℕ
  pub size : ℕ

-- kernel/boot.c: what `boot_init` stores of the first module.
pub boot_init : Memory → MultibootInfo → Module
boot_init mem mbi =
    let mods = vmm_phys_to_virt mbi.mods_addr in
    let module_start = vmm_phys_to_virt (load32 mem mods) in
    if (bit_and mbi.flags 8 == 0) || (mbi.mods_count == 0)
    then record { start = 0; size = 0 }
    else if mods == 0
    then record { start = 0; size = 0 }
    else if module_start == 0
    then record { start = 0; size = 0 }
    else record { start = module_start; size = sub32 (load32 mem (mods + 4)) (load32 mem mods) }

-- `archive_size` is the module's size; the result is `file_count`, or `none` for -1.
pub initramfs_header : Memory → Module → Option ℕ
initramfs_header mem archive =
    let p = archive.start in
    let count = read_le32 mem (p + 4) in
    if (p == 0) || ltb archive.size header_size
    then none
    else if not (mem p == b'E')
        || (not (mem (p + 1) == b'M') || (not (mem (p + 2) == b'X') || not (mem (p + 3) == b'A')))
    then none
    else if ltb ((archive.size - header_size) / entry_size) count
    then none
    else some count

-- The loop of `path_matches`, for `n` characters from `i` on.
pub matches_from : Memory → ℕ → (ℕ → ℕ) → ℕ → ℕ → Bool
matches_from mem entry_path path zero i = false
matches_from mem entry_path path (suc n) i =
    let rest = matches_from mem entry_path path n (i + 1) in
    if not (mem (entry_path + i) == path i) then false else if path i == 0 then true else rest

-- `path` gives the bytes of the string.
pub path_matches : Memory → ℕ → (ℕ → ℕ) → Bool
path_matches mem entry_path path = matches_from mem entry_path path path_size 0

-- The address of an entry.
abbrev pub entry_at : Module → ℕ → ℕ
entry_at archive i = archive.start + header_size + i * entry_size

-- The body of the loop of `initramfs_find` for an entry that matches.
pub open_entry : Memory → Module → ℕ → Option (ℕ × ℕ)
open_entry mem archive entry =
    let offset = read_le32 mem (entry + path_size) in
    let file_size = read_le32 mem (entry + path_size + 4) in
    if ltb archive.size offset || ltb (archive.size - offset) file_size
    then none
    else some (archive.start + offset, file_size)

-- The loop of `initramfs_find`, for `n` entries from `i` on.
pub find_from : Memory → Module → (ℕ → ℕ) → ℕ → ℕ → Option (ℕ × ℕ)
find_from mem archive path zero i = none
find_from mem archive path (suc n) i =
    let rest = find_from mem archive path n (i + 1) in
    if path_matches mem (entry_at archive i) path
    then open_entry mem archive (entry_at archive i)
    else rest

-- For pointers that are not NULL: the data and the size, or `none` for -1.
pub initramfs_find : Memory → Module → (ℕ → ℕ) → Option (ℕ × ℕ)
initramfs_find mem archive path = elim (initramfs_header mem archive) [
  | none ↦ none
  | some file_count ↦ find_from mem archive path file_count 0
]
