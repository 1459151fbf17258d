-- ===== src/Vmm/Map.antt =====
-- kernel/mm/vmm.c: what `vmm_map_page_in` does to the mapping of an address space.
use Prim.Native.Nat.{ℕ}
use emyx.Base.{
  ◌+◌, ◌*◌, ◌/◌, ◌%◌, ◌^◌, ◌≤◌, ◌<◌, ◌≡◌, ◌≢◌, ◌⊎◌, inl, inr, refl, sym, ap, ◌∙◌, Bool, true, false,
  not, ◌&&◌, Option, none, some, List, ◌∷◌, leb, ◌==◌, if◌then◌else◌, Bool-cases, arith,
}
use emyx.DirectMap.{kernel_virtual_base, direct_map_limit, vmm_phys_to_virt, phys_to_virt-eq}
use emyx.Pmm.{pmm_alloc_page}
use emyx.Vmm.{Vmm, enter_table, enter_page, vmm_map_page_in, vmm_get_paddr_in, kernel_pde_index}
use emyx.Vmm.Entries.{pde_index-eq, pte_index-eq, is_present-eq, is_unaligned-eq, entry-eq}
use emyx.Vmm.Tree.{at, translate, write_entry, written-IsTree, written-translate}
use emyx.Vmm.Space.{IsSpace, get_paddr-translate}
use emyx.Vmm.Table.{Tables, no_memory, table, table_for-Tables}

pub clash {ℓ} : {A : Type ℓ} {x : A} → none ≡ some x → ⊥
clash e = cc

-- Why `vmm_map_page_in` refuses: its arguments, a page that is mapped already, or no memory for a
-- page table.
pub data Refuses (s : Vmm) (a v paddr : ℕ) : Type 0 where
  misaligned : (v % 4096 ≢ 0) ⊎ (paddr % 4096 ≢ 0) → Refuses s a v paddr
  kernel_half : a ≢ s.kernel_page_directory → 768 ≤ v / 2 ^ 22 → Refuses s a v paddr
  mapped : vmm_get_paddr_in s a v ≢ none → Refuses s a v paddr
  memory :
      ((pmm_alloc_page s.pmm).0 ≡ 0) ⊎ (direct_map_limit ≤ (pmm_alloc_page s.pmm).0)
      → Refuses s a v paddr

pub data Maps (s : Vmm) (a v paddr flags : ℕ) (r : Bool × Vmm) : Type 0 where
  refuses : r ≡ (false, s) → Refuses s a v paddr → Maps s a v paddr flags r
  maps :
      r.0 ≡ true
      → IsSpace r.1 a
      → vmm_get_paddr_in s a v ≡ none
      → r.1.invalidated ≡ v ∷ s.invalidated
      → ((w : ℕ)
          → w < 2 ^ 32
          → vmm_get_paddr_in r.1 a w ≡ (
              if w / 4096 == v / 4096
              then (if flags % 2 == 1 then some (paddr + w % 4096) else none)
              else vmm_get_paddr_in s a w))
      → Maps s a v paddr flags r

-- The space after the entry is written.
abbrev entered : Vmm → ℕ → ℕ → ℕ → ℕ → Vmm
entered s a v paddr flags = record s {
  words = write_entry s.words (a / 4096) v (paddr + flags % 4096) flags;
  invalidated = v ∷ s.invalidated;
}

enter_page-eq :
    (s : Vmm) (a v paddr flags : ℕ)
    → paddr % 4096 ≡ 0
    → enter_page s
        (kernel_virtual_base + a / 4096 * 4096 + 4 * (v / 2 ^ 22))
        (kernel_virtual_base + at s.words (a / 4096) (v / 2 ^ 22) / 4096 * 4096)
        v
        paddr
        flags
      ≡ (if at s.words (at s.words (a / 4096) (v / 2 ^ 22) / 4096) (v / 4096 % 1024) % 2 == 1
          then (false, s)
          else (true, entered s a v paddr flags))
unfolding enter_page
enter_page-eq s a v paddr flags e =
    rw
      (
        pte_index-eq v,
        is_present-eq (at s.words (at s.words (a / 4096) (v / 2 ^ 22) / 4096) (v / 4096 % 1024)),
        entry-eq paddr flags e,
      )
      refl

entered-IsSpace :
    (s : Vmm) (a v paddr flags : ℕ)
    → IsSpace s a
    → v < 2 ^ 32
    → at s.words (a / 4096) (v / 2 ^ 22) % 2 ≡ 1
    → paddr + flags % 4096 < 2 ^ 32
    → IsSpace (entered s a v paddr flags) a
entered-IsSpace s a v paddr flags h wide on small = record {
  valid = h.valid;
  aligned = h.aligned;
  nonnull = h.nonnull;
  tree =
      written-IsTree s.words (a / 4096) s.pmm.bitmap h.tree v (paddr + flags % 4096) flags wide on
        small;
}

Tables-Maps :
    (s : Vmm) (a v paddr flags : ℕ) (r : Option ℕ × Vmm)
    → IsSpace s a
    → v < 2 ^ 32
    → paddr < 2 ^ 32
    → paddr % 4096 ≡ 0
    → Tables s a v r
    → Maps s a v paddr flags
        (enter_table r (kernel_virtual_base + a / 4096 * 4096 + 4 * (v / 2 ^ 22)) v paddr flags)
Tables-Maps s a v paddr flags r h wide wide' even (no_memory e off full) =
    rw e (refuses refl (memory full))
Tables-Maps s a v paddr flags r h wide wide' even (table s1 e h1 on same fresh inval) =
    rw (e, enter_page-eq s1 a v paddr flags even)
      (elim (Bool-cases (pte % 2 == 1)) [
        | inl present ↦ elim fresh [
          | inl old ↦
              rw (present, old)
                (refuses refl (
                  mapped (λ unmapped.
                    clash (sym unmapped ∙ get_paddr-translate s a v h wide ∙ found present))))
          | inr off ↦ absurd (clash (sym (missing off) ∙ found present))
        ]
        | inr absent ↦ rw absent (
            maps refl (entered-IsSpace s1 a v paddr flags h1 wide on small)
              (get_paddr-translate s a v h wide ∙ here ∙ rw absent refl)
              (ap (λ (l : List ℕ). v ∷ l) inval) (λ w wide_w. after w wide_w))
      ])
  where
    pte : ℕ
    pte = at s1.words (at s1.words (a / 4096) (v / 2 ^ 22) / 4096) (v / 4096 % 1024)

    small : paddr + flags % 4096 < 2 ^ 32
    small = omega arith

    here :
        translate s.words (a / 4096) v
        ≡ (if pte % 2 == 1 then some (pte / 4096 * 4096 + v % 4096) else none)
    here = sym (same v wide) ∙ rw on refl

    found :
        (pte % 2 == 1) ≡ true → translate s.words (a / 4096) v ≡ some (pte / 4096 * 4096 + v % 4096)
    found present = here ∙ rw present refl

    missing : at s.words (a / 4096) (v / 2 ^ 22) % 2 ≡ 0 → translate s.words (a / 4096) v ≡ none
    missing off =
        let even : (at s.words (a / 4096) (v / 2 ^ 22) % 2 == 1) ≡ false = ground arith in
        rw even refl

    after :
        (w : ℕ)
        → w < 2 ^ 32
        → vmm_get_paddr_in (entered s1 a v paddr flags) a w ≡ (
            if w / 4096 == v / 4096
            then (if flags % 2 == 1 then some (paddr + w % 4096) else none)
            else vmm_get_paddr_in s a w)
    after w wide_w =
        let bit : (paddr + flags % 4096) % 2 ≡ flags % 2 = omega arith in
        let frame : (paddr + flags % 4096) / 4096 * 4096 ≡ paddr = omega arith in
        get_paddr-translate (entered s1 a v paddr flags) a w
          (entered-IsSpace s1 a v paddr flags h1 wide on small) wide_w
        ∙ written-translate s1.words (a / 4096) s1.pmm.bitmap h1.tree v (paddr + flags % 4096) flags
            wide on small w wide_w
        ∙ rw (bit, frame, same w wide_w, get_paddr-translate s a w h wide_w) refl

-- In a valid address space `vmm_map_page_in` either refuses, with a reason, and changes nothing; or
-- the page of `vaddr`, which was not mapped, is mapped to `paddr` where the flags have the present
-- bit, no other address is mapped otherwise than before, the stale translation is invalidated, and
-- the address space is valid again.
pub vmm_map_page_in_lem :
    (s : Vmm) (a v paddr flags : ℕ)
    → IsSpace s a
    → v < 2 ^ 32
    → paddr < 2 ^ 32
    → Maps s a v paddr flags (vmm_map_page_in s a v paddr flags)
unfolding vmm_map_page_in
vmm_map_page_in_lem s a v paddr flags h wide wide' =
    rw (nz, is_unaligned-eq v, is_unaligned-eq paddr, pde_index-eq v wide, ptr)
      (elim (Bool-cases (v % 2 ^ 12 == 0)) [
        | inr odd ↦ rw odd (refuses refl (misaligned (inl (ground arith))))
        | inl even ↦ rw even (elim (Bool-cases (paddr % 2 ^ 12 == 0)) [
          | inr odd' ↦ rw odd' (refuses refl (misaligned (inr (ground arith))))
          | inl even' ↦
              rw even'
                (elim (Bool-cases
                  (not (a == s.kernel_page_directory) && leb kernel_pde_index (v / 2 ^ 22))) [
                    | inl high ↦ rw high (refuses refl (kernel_half (ground arith) (ground arith)))
                    | inr fine ↦
                        rw (fine, nonnull)
                          (Tables-Maps s a v paddr flags _ h wide wide' (ground arith)
                            (table_for-Tables s a v h wide))
                  ])
        ])
      ])
  where
    nz : (a == 0) ≡ false
    nz = ground (arith, h.nonnull)

    ptr : vmm_phys_to_virt a ≡ kernel_virtual_base + a / 4096 * 4096
    ptr = omega (arith, phys_to_virt-eq a (omega (arith, h.aligned, h.tree.root_low)), h.aligned)

    nonnull : (kernel_virtual_base + a / 4096 * 4096 == 0) ≡ false
    nonnull = ground arith
