-- ===== src/Vmm/Table.antt =====
-- kernel/mm/vmm.c: the page table that `vmm_map_page_in` finds or makes.
use Prim.Native.Nat.{ℕ}
use emyx.Base.{
  ◌+◌, ◌*◌, ◌/◌, ◌%◌, ◌^◌, ◌≤◌, ◌<◌, ◌≡◌, ◌⊎◌, inl, inr, refl, ap, ◌∙◌, true, false, Option, none,
  some, ◌==◌, Bool-cases, arith, bit_or, bit_or_fields,
}
use emyx.DirectMap.{
  kernel_virtual_base, direct_map_limit, vmm_phys_to_virt, phys_to_virt-eq, direct_map_lem,
}
use emyx.Pmm.{Pmm, pmm_alloc_page, pmm_free_page}
use emyx.Pmm.Bitmap.{used}
use emyx.Pmm.Invariant.{taking, used-taking}
use emyx.Pmm.Alloc.{exhausted, page, pmm_alloc_page_lem, taking-IsValid, free-alloc}
use emyx.Vmm.{Vmm, table_for, frame_of}
use emyx.Vmm.Entries.{frame_of-eq, is_present-eq}
use emyx.Vmm.Tree.{at, translate}
use emyx.Vmm.Fresh.{add_table, added-IsTree, added-translate, at-added_self}
use emyx.Vmm.Space.{IsSpace}

-- What `table_for` may find: no memory for a table that is missing, or a table, where a new one
-- changes no mapping.
pub data Tables (s : Vmm) (a v : ℕ) (r : Option ℕ × Vmm) : Type 0 where
  no_memory :
      r ≡ (none, s)
      → at s.words (a / 4096) (v / 2 ^ 22) % 2 ≡ 0
      → ((pmm_alloc_page s.pmm).0 ≡ 0) ⊎ (direct_map_limit ≤ (pmm_alloc_page s.pmm).0)
      → Tables s a v r
  table :
      (s1 : Vmm)
      → r ≡ (some (kernel_virtual_base + at s1.words (a / 4096) (v / 2 ^ 22) / 4096 * 4096), s1)
      → IsSpace s1 a
      → at s1.words (a / 4096) (v / 2 ^ 22) % 2 ≡ 1
      → ((w : ℕ) → w < 2 ^ 32 → translate s1.words (a / 4096) w ≡ translate s.words (a / 4096) w)
      → (s1 ≡ s) ⊎ (at s.words (a / 4096) (v / 2 ^ 22) % 2 ≡ 0)
      → s1.invalidated ≡ s.invalidated
      → Tables s a v r

-- A new table at page `p`.
abbrev with_table : Vmm → ℕ → ℕ → ℕ → Vmm
with_table s a i p = record s { pmm = taking s.pmm p; words = add_table s.words (a / 4096) i p }

new_table :
    (s : Vmm) (a v p : ℕ)
    → IsSpace s a
    → v < 2 ^ 32
    → pmm_alloc_page s.pmm ≡ (p * 4096, taking s.pmm p)
    → p < s.pmm.max_page
    → used s.pmm.bitmap p ≡ false
    → at s.words (a / 4096) (v / 2 ^ 22) % 2 ≡ 0
    → p * 4096 < direct_map_limit
    → (vmm_phys_to_virt (p * 4096) == 0) ≡ false
    → Tables s a v (table_for s (kernel_virtual_base + a / 4096 * 4096) (v / 2 ^ 22))
unfolding table_for
new_table s a v p h wide e hi free off low near =
    table (with_table s a i p)
      (rw (is_present-eq (at s.words root i), absent, e, nz, near, ptr, entry, slot_eq, page_back)
        refl)
      (record {
        valid = taking-IsValid s.pmm p h.valid hi free;
        aligned = h.aligned;
        nonnull = h.nonnull;
        tree =
            added-IsTree s.words root s.pmm.bitmap (taking s.pmm p).bitmap h.tree i p inside off
              free taken small keeps;
      })
      (omega (arith, slot_eq))
      (added-translate s.words root s.pmm.bitmap (taking s.pmm p).bitmap h.tree i p inside off free
        taken small keeps)
      (inr off) refl
  where
    i : ℕ
    i = v / 2 ^ 22

    root : ℕ
    root = a / 4096

    inside : i < 1024
    inside = omega arith

    small : p < 4096
    small = omega arith

    nz : (p * 4096 == 0) ≡ false
    nz = ground (arith, h.valid.zero_taken)

    absent : (at s.words root i % 2 == 1) ≡ false
    absent = ground arith

    ptr : vmm_phys_to_virt (p * 4096) ≡ kernel_virtual_base + p * 4096
    ptr = phys_to_virt-eq (p * 4096) low

    entry : bit_or (p * 4096) 1 ≡ p * 4096 + 1
    entry = bit_or_fields 12 p 1 (omega arith)

    page_back : (p * 4096 + 1) / 4096 ≡ p
    page_back = omega arith

    taken : used (taking s.pmm p).bitmap p ≡ true
    taken = ground (arith, used-taking s.pmm p h.valid.counts hi p)

    keeps : (q : ℕ) → used s.pmm.bitmap q ≡ true → used (taking s.pmm p).bitmap q ≡ true
    keeps q on = ground (arith, used-taking s.pmm p h.valid.counts hi q)

    slot_eq : at (add_table s.words root i p) root i ≡ p * 4096 + 1
    slot_eq =
        at-added_self s.words root s.pmm.bitmap (taking s.pmm p).bitmap h.tree i p inside off free
          taken small keeps

pub table_for-Tables :
    (s : Vmm) (a v : ℕ)
    → IsSpace s a
    → v < 2 ^ 32
    → Tables s a v (table_for s (kernel_virtual_base + a / 4096 * 4096) (v / 2 ^ 22))
unfolding table_for
table_for-Tables s a v h wide =
    let pde : ℕ = at s.words (a / 4096) (v / 2 ^ 22) in
    elim (Bool-cases (pde % 2 == 1)) [
      | inl on ↦
          let ptr : vmm_phys_to_virt (frame_of pde) ≡ kernel_virtual_base + pde / 4096 * 4096 =
            ap vmm_phys_to_virt (frame_of-eq pde (h.tree.word _))
            ∙ phys_to_virt-eq (pde / 4096 * 4096)
                (omega (arith, h.tree.table_low (v / 2 ^ 22) (omega arith) (ground arith))) in
          table s (rw (is_present-eq pde, on, ptr) (ground arith)) h (ground arith) (λ w wide. refl)
            (inl refl) refl
      | inr off ↦ elim (pmm_alloc_page_lem s.pmm h.valid) [
        | exhausted e all ↦
            no_memory (rw (is_present-eq pde, off, e) refl) (ground arith)
              (inl (ap (λ (r : ℕ × Pmm). r.0) e))
        | page p e lo hi free all ↦
            let nz : (p * 4096 == 0) ≡ false = ground arith in
            elim (Bool-cases (vmm_phys_to_virt (p * 4096) == 0)) [
              | inl far ↦
                  let back : pmm_free_page (taking s.pmm p) (p * 4096) ≡ s.pmm =
                    rw e at (free-alloc s.pmm h.valid (rw e (omega arith))) in
                  no_memory (rw (is_present-eq pde, off, e, nz, far, back) refl) (ground arith)
                    (inr (rw e (ground (arith, direct_map_lem (p * 4096) 0))))
              | inr near ↦
                  let low : p * 4096 < direct_map_limit =
                    ground (arith, direct_map_lem (p * 4096) 0) in
                  new_table s a v p h wide e hi free (ground arith) low near
            ]
      ]
    ]
