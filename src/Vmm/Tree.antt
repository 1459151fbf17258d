-- ===== src/Vmm/Tree.antt =====
-- kernel/mm/vmm.c: a page directory with its page tables in memory, the mapping that they stand for,
-- and what the writes of `vmm_map_page_in` and `vmm_unmap_page_in` do to that mapping.
use Prim.Native.Nat.{ℕ}
use emyx.Base.{
  ◌+◌, ◌*◌, ◌/◌, ◌%◌, ◌^◌, ◌<◌, ◌≡◌, ◌≢◌, inl, inr, refl, true, false, Option, none, some, List,
  ◌==◌, if◌then◌else◌, Bool-cases, arith,
}
use native.Mathlib.Decide.{ℕ_discrete}
use emyx.DirectMap.{kernel_virtual_base}
use emyx.Pmm.Bitmap.{used}
use emyx.Vmm.{store}
use emyx.Vmm.Entries.{more_flags, more_flags-eq}

-- The entry `i` of the page that is a directory, or of any other page.
abbrev pub at : (ℕ → ℕ) → ℕ → ℕ → ℕ
at words page i = words (kernel_virtual_base + page * 4096 + 4 * i)

abbrev pub leaf : (ℕ → ℕ) → ℕ → ℕ → Option ℕ
leaf words table w =
    let pte = at words table (w / 4096 % 1024) in
    if pte % 2 == 1 then some (pte / 4096 * 4096 + w % 4096) else none

-- The physical address that a virtual address is mapped to.
abbrev pub translate : (ℕ → ℕ) → ℕ → ℕ → Option ℕ
translate words root w =
    let pde = at words root (w / 2 ^ 22) in if pde % 2 == 1 then leaf words (pde / 4096) w else none

-- The directory and its tables are different pages of the direct map, all of them taken.
pub record IsTree (words : ℕ → ℕ) (root : ℕ) (bm : List ℕ) : Type 0 where
  pub word : (p : ℕ) → words p < 2 ^ 32
  pub root_low : root < 4096
  pub root_used : used bm root ≡ true
  pub table_low : (i : ℕ) → i < 1024 → at words root i % 2 ≡ 1 → at words root i / 4096 < 4096
  pub table_ne : (i : ℕ) → i < 1024 → at words root i % 2 ≡ 1 → at words root i / 4096 ≢ root
  pub table_used :
      (i : ℕ) → i < 1024 → at words root i % 2 ≡ 1 → used bm (at words root i / 4096) ≡ true
  pub apart :
      (i j : ℕ)
      → i < 1024
      → j < 1024
      → at words root i % 2 ≡ 1
      → at words root j % 2 ≡ 1
      → at words root i / 4096 ≡ at words root j / 4096
      → i ≡ j

-- Two memories whose directories agree but for flags other than the present bit.
abbrev pub Agree : (ℕ → ℕ) → (ℕ → ℕ) → ℕ → Type 0
Agree words words' root =
    (i : ℕ)
    → i < 1024
    → (at words' root i / 4096 ≡ at words root i / 4096)
      × (at words' root i % 2 ≡ at words root i % 2)

pub Agree-IsTree :
    (words words' : ℕ → ℕ) (root : ℕ) (bm : List ℕ)
    → Agree words words' root
    → ((p : ℕ) → words' p < 2 ^ 32)
    → IsTree words root bm
    → IsTree words' root bm
Agree-IsTree words words' root bm same word t = record {
  word = word;
  root_low = t.root_low;
  root_used = t.root_used;
  table_low = λ i h on. omega (arith, t.table_low i h (omega (arith, same i h)), same i h);
  table_ne = λ i h on e. t.table_ne i h (omega (arith, same i h)) (omega (arith, same i h));
  table_used = λ i h on. rw (same i h).0 (t.table_used i h (omega (arith, same i h)));
  apart = λ i j h h' on on' e.
      t.apart i j h h' (omega (arith, same i h)) (omega (arith, same j h'))
        (omega (arith, same i h, same j h'));
}

-- Writing one entry of the page table for `v`, and flags of its directory entry.
abbrev pub write_entry : (ℕ → ℕ) → ℕ → ℕ → ℕ → ℕ → ℕ → ℕ
write_entry words root v entry flags =
    let pde = kernel_virtual_base + root * 4096 + 4 * (v / 2 ^ 22) in
    store (store words pde (more_flags (words pde) flags))
      (kernel_virtual_base + words pde / 4096 * 4096 + 4 * (v / 4096 % 1024)) entry

module _ (words : ℕ → ℕ) (root : ℕ) (bm : List ℕ) (t : IsTree words root bm) (v entry flags : ℕ)
    (wide : v < 2 ^ 32) (on : at words root (v / 2 ^ 22) % 2 ≡ 1)
    (entry_wide : entry < 2 ^ 32) where
  abbrev pde_slot : ℕ
  pde_slot = kernel_virtual_base + root * 4096 + 4 * (v / 2 ^ 22)

  abbrev pte_slot : ℕ
  pte_slot = kernel_virtual_base + at words root (v / 2 ^ 22) / 4096 * 4096 + 4 * (v / 4096 % 1024)

  abbrev written : ℕ → ℕ
  written = write_entry words root v entry flags

  written-word : (p : ℕ) → written p < 2 ^ 32
  written-word p = ground (arith, t.word p, more_flags-eq (words pde_slot) flags (t.word pde_slot))

  pub written-Agree : Agree words written root
  written-Agree i h = elim (ℕ_discrete i (v / 2 ^ 22)) [
    | yes same ↦
        let off : (kernel_virtual_base + root * 4096 + 4 * i == pte_slot) ≡ false =
          ground (arith, t.table_ne (v / 2 ^ 22) (omega arith) on) in
        let hit : (kernel_virtual_base + root * 4096 + 4 * i == pde_slot) ≡ true = ground arith in
        let kept = more_flags-eq (words pde_slot) flags (t.word pde_slot) in
        rw (off, hit, same) (kept.1, kept.2)
    | no other ↦
        let off : (kernel_virtual_base + root * 4096 + 4 * i == pte_slot) ≡ false =
          ground (arith, t.table_ne (v / 2 ^ 22) (omega arith) on) in
        let miss : (kernel_virtual_base + root * 4096 + 4 * i == pde_slot) ≡ false = ground arith in
        rw (off, miss) (refl, refl)
  ]

  pub written-IsTree : IsTree written root bm
  written-IsTree = Agree-IsTree words written root bm written-Agree written-word t

  -- The entry that `w` leads to.
  written-leaf :
      (w : ℕ)
      → w < 2 ^ 32
      → at words root (w / 2 ^ 22) % 2 ≡ 1
      → at written (at words root (w / 2 ^ 22) / 4096) (w / 4096 % 1024) ≡ (
          if w / 4096 == v / 4096
          then entry
          else at words (at words root (w / 2 ^ 22) / 4096) (w / 4096 % 1024))
  written-leaf w h present =
      let off : (kernel_virtual_base
              + at words root (w / 2 ^ 22) / 4096 * 4096
              + 4 * (w / 4096 % 1024)
            == pde_slot)
          ≡ false =
        ground (arith, t.table_ne (w / 2 ^ 22) (omega arith) present) in
      elim (Bool-cases (w / 4096 == v / 4096)) [
        | inl same ↦
            let dir : w / 2 ^ 22 ≡ v / 2 ^ 22 = ground arith in
            let col : w / 4096 % 1024 ≡ v / 4096 % 1024 = ground arith in
            rw (same, dir, col) (ground arith)
        | inr differ ↦
            let clear : (kernel_virtual_base
                    + at words root (w / 2 ^ 22) / 4096 * 4096
                    + 4 * (w / 4096 % 1024)
                  == pte_slot)
                ≡ false =
              elim (ℕ_discrete (w / 2 ^ 22) (v / 2 ^ 22)) [
                | yes dir ↦ rw dir (ground arith)
                | no dirs ↦
                    let tables : at words root (w / 2 ^ 22) / 4096
                        ≢ at words root (v / 2 ^ 22) / 4096 =
                      λ e. dirs (
                        t.apart (w / 2 ^ 22) (v / 2 ^ 22) (omega arith) (omega arith) present on
                          e) in
                    ground arith
              ] in
            rw (differ, off, clear) refl
      ]

  -- The mapping after the write: the page of `v` has the new entry, and no other page has changed.
  pub written-translate :
      (w : ℕ)
      → w < 2 ^ 32
      → translate written root w ≡ (
          if w / 4096 == v / 4096
          then (if entry % 2 == 1 then some (entry / 4096 * 4096 + w % 4096) else none)
          else translate words root w)
  written-translate w h =
      let same = written-Agree (w / 2 ^ 22) (omega arith) in
      elim (Bool-cases (at words root (w / 2 ^ 22) % 2 == 1)) [
        | inl present ↦
            let hit = written-leaf w h (ground arith) in
            rw (same.0, same.1, present, hit)
              (elim (Bool-cases (w / 4096 == v / 4096)) [
                | inl page ↦ rw page refl
                | inr page ↦ rw page refl
              ])
        | inr absent ↦
            let page : (w / 4096 == v / 4096) ≡ false = elim (Bool-cases (w / 4096 == v / 4096)) [
              | inl e ↦ absurd (let dir : w / 2 ^ 22 ≡ v / 2 ^ 22 = ground arith in ground arith)
              | inr e ↦ e
            ] in
            rw (same.1, absent, page) refl
      ]
