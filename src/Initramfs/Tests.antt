-- ===== src/Initramfs/Tests.antt =====
-- kernel/initramfs.c at an archive of one file.
use Prim.Native.Nat.{ℕ}
use emyx.Base.{
  ◌-◌, ◌<◌, ◌≡◌, ◌⊎◌, refl, none, some, List, [], ◌∷◌, ◌++◌, get_or, replicate, All, All-get_or,
  arith,
}
use emyx.Memory.{Memory, read_le32}
use emyx.Initramfs.{
  Module, initramfs_header, initramfs_find, path_matches, matches_from, find_from, open_entry,
}
use emyx.Initramfs.Find.{IsArchive, Search, initramfs_find_lem}

abbrev image : List ℕ
image =
    b'E'
    ∷ b'M'
    ∷ b'X'
    ∷ b'A'
    ∷ 1
    ∷ 0
    ∷ 0
    ∷ 0
    ∷ b'/'
    ∷ b'a'
    ∷ (replicate 30 0 ++ (48 ∷ 0 ∷ 0 ∷ 0 ∷ 2 ∷ 0 ∷ 0 ∷ 0 ∷ 7 ∷ 9 ∷ []))

abbrev mem : Memory
mem p = get_or image (p - 0x1000) 0

image-bytes : All (λ b. b < 256) image
image-bytes = omega arith

mem-bytes : (p : ℕ) → mem p < 256
mem-bytes p = All-get_or (λ b. b < 256) image (p - 0x1000) 0 image-bytes (omega arith)

abbrev archive : Module
archive = record { start = 0x1000; size = 50 }

abbrev path : ℕ → ℕ
path i = get_or (b'/' ∷ b'a' ∷ []) i 0

initramfs_find_lem_example :
    ((initramfs_find mem archive path ≡ none) × ((count : ℕ) → IsArchive mem archive count → ⊥))
    ⊎ ((count : ℕ) × IsArchive mem archive count
        × Search mem archive path 0 count (initramfs_find mem archive path))
initramfs_find_lem_example = initramfs_find_lem mem archive path mem-bytes

find_runs : initramfs_find mem archive path ≡ some (0x1030, 2)
unfolding initramfs_find initramfs_header find_from open_entry path_matches matches_from read_le32
find_runs = refl
