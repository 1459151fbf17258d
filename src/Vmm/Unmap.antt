-- ===== src/Vmm/Unmap.antt =====
-- kernel/mm/vmm.c: what `vmm_unmap_page_in` does to the mapping of an address space.
use Prim.Native.Nat.{ℕ}
use emyx.Base.{
  ◌+◌, ◌*◌, ◌/◌, ◌%◌, ◌^◌, ◌≤◌, ◌<◌, ◌≡◌, ◌≢◌, ◌⊎◌, inl, inr, refl, sym, ◌∙◌, Bool, true, false,
  not, ◌&&◌, none, some, ◌∷◌, leb, ◌==◌, if◌then◌else◌, Bool-cases, arith, bit_or-zero,
}
use mathlib.Core.Path.{fun_ext}
use emyx.DirectMap.{kernel_virtual_base}
use emyx.Vmm.{Vmm, store, vmm_get_paddr_in, vmm_unmap_page_in, leave_page, kernel_pde_index}
use emyx.Vmm.Entries.{pde_index-eq, pte_index-eq, is_present-eq, is_unaligned-eq}
use emyx.Vmm.Tree.{at, write_entry, written-IsTree, written-translate}
use emyx.Vmm.Space.{IsSpace, page_table-eq, get_paddr-translate}
use emyx.Vmm.Map.{clash}

-- What `vmm_unmap_page_in` may do: refuse, for a reason; or take out the page of `v`.
pub data Unmaps (s : Vmm) (a v : ℕ) (r : Bool × Vmm) : Type 0 where
  keeps :
      r ≡ (false, s)
      → (v % 4096 ≢ 0)
        ⊎ (a ≢ s.kernel_page_directory) × (768 ≤ v / 2 ^ 22)
        ⊎ (vmm_get_paddr_in s a v ≡ none)
      → Unmaps s a v r
  unmaps :
      r.0 ≡ true
      → IsSpace r.1 a
      → vmm_get_paddr_in s a v ≢ none
      → r.1.invalidated ≡ v ∷ s.invalidated
      → ((w : ℕ)
          → w < 2 ^ 32
          → vmm_get_paddr_in r.1 a w
            ≡ (if w / 4096 == v / 4096 then none else vmm_get_paddr_in s a w))
      → Unmaps s a v r

-- Clearing an entry of a table writes no flags.
clear_entry-eq :
    (words : ℕ → ℕ) (root v : ℕ)
    → store words
        (kernel_virtual_base + at words root (v / 2 ^ 22) / 4096 * 4096 + 4 * (v / 4096 % 1024))
        0
      ≡ write_entry words root v 0 0
clear_entry-eq words root v =
    fun_ext (λ p. ground (arith, bit_or-zero (at words root (v / 2 ^ 22))))

-- The space without the page.
abbrev left : Vmm → ℕ → ℕ → Vmm
left s a v = record s {
  words = write_entry s.words (a / 4096) v 0 0;
  invalidated = v ∷ s.invalidated;
}

module _ (s : Vmm) (a v : ℕ) (h : IsSpace s a) (wide : v < 2 ^ 32) where
  pte : ℕ
  pte = at s.words (at s.words (a / 4096) (v / 2 ^ 22) / 4096) (v / 4096 % 1024)

  left-IsSpace : at s.words (a / 4096) (v / 2 ^ 22) % 2 ≡ 1 → IsSpace (left s a v) a
  left-IsSpace on = record {
    valid = h.valid;
    aligned = h.aligned;
    nonnull = h.nonnull;
    tree = written-IsTree s.words (a / 4096) s.pmm.bitmap h.tree v 0 0 wide on (omega arith);
  }

  left-paddr :
      at s.words (a / 4096) (v / 2 ^ 22) % 2 ≡ 1
      → (w : ℕ) → w < 2 ^ 32
      → vmm_get_paddr_in (left s a v) a w
        ≡ (if w / 4096 == v / 4096 then none else vmm_get_paddr_in s a w)
  left-paddr on w wide_w =
      get_paddr-translate (left s a v) a w (left-IsSpace on) wide_w
      ∙ written-translate s.words (a / 4096) s.pmm.bitmap h.tree v 0 0 wide on (omega arith) w
          wide_w
      ∙ rw (get_paddr-translate s a w h wide_w) refl

-- In a valid address space `vmm_unmap_page_in` refuses, for a misaligned address, an address of the
-- kernel's half in a space other than the kernel's, or a page that is not mapped, and changes
-- nothing; or it takes out the mapping of the page, changes no other, invalidates the stale
-- translation, and leaves the address space valid.
pub vmm_unmap_page_in_lem :
    (s : Vmm) (a v : ℕ) → IsSpace s a → v < 2 ^ 32 → Unmaps s a v (vmm_unmap_page_in s a v)
unfolding vmm_unmap_page_in leave_page
vmm_unmap_page_in_lem s a v h wide =
    rw (nz, is_unaligned-eq v, pde_index-eq v wide)
      (elim (Bool-cases (v % 2 ^ 12 == 0)) [
        | inr odd ↦ rw odd (keeps refl (inl (ground arith)))
        | inl even ↦
            rw even
              (elim (Bool-cases
                (not (a == s.kernel_page_directory) && leb kernel_pde_index (v / 2 ^ 22))) [
                  | inl high ↦ rw high (keeps refl (inr (inl (ground arith, ground arith))))
                  | inr fine ↦
                      rw (fine, page_table-eq s a v h wide)
                        (elim (Bool-cases (at s.words (a / 4096) (v / 2 ^ 22) % 2 == 1)) [
                          | inr off ↦ rw off (
                              keeps refl
                                (inr (inr (get_paddr-translate s a v h wide ∙ rw off refl))))
                          | inl on ↦
                              rw (on, pte_index-eq v, is_present-eq entry)
                                (elim (Bool-cases (entry % 2 == 1)) [
                                  | inr absent ↦ rw absent (
                                      keeps refl (
                                        inr (
                                          inr (
                                            get_paddr-translate s a v h wide
                                            ∙ rw (on, absent) refl))))
                                  | inl present ↦
                                      let found : vmm_get_paddr_in s a v
                                          ≡ some (entry / 4096 * 4096 + v % 4096) =
                                        get_paddr-translate s a v h wide ∙ rw (on, present) refl in
                                      rw (present, clear_entry-eq s.words (a / 4096) v)
                                        (unmaps refl (left-IsSpace s a v h wide (ground arith))
                                          (λ e. clash (sym e ∙ found)) refl
                                          (left-paddr s a v h wide (ground arith)))
                                ])
                        ])
                ])
      ])
  where
    nz : (a == 0) ≡ false
    nz = ground (arith, h.nonnull)

    entry : ℕ
    entry = at s.words (at s.words (a / 4096) (v / 2 ^ 22) / 4096) (v / 4096 % 1024)
