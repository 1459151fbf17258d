-- ===== src/Vmm/Space.antt =====
-- kernel/mm/vmm.c: a valid address space, and `vmm_get_paddr_in` as a look-up in its mapping.
use Prim.Native.Nat.{ℕ}
use emyx.Base.{
  ◌+◌, ◌*◌, ◌/◌, ◌%◌, ◌^◌, ◌<◌, ◌≡◌, ◌≢◌, inl, inr, refl, true, false, none, some, ◌==◌,
  if◌then◌else◌, Bool-cases, arith, bit_and, bit_or_fields, bit_and_mask,
}
use emyx.DirectMap.{kernel_virtual_base, direct_map_limit, vmm_phys_to_virt, phys_to_virt-eq}
use emyx.Pmm.Invariant.{IsValid}
use emyx.Vmm.{Vmm, vmm_get_page_table_in, vmm_get_paddr_in, look_up}
use emyx.Vmm.Entries.{pde_index-eq, pte_index-eq, frame_of-eq, is_present-eq}
use emyx.Vmm.Tree.{at, translate, IsTree}

-- An address space that is the physical address of a directory with its tables.
pub record IsSpace (s : Vmm) (address_space : ℕ) : Type 0 where
  pub valid : IsValid s.pmm
  pub aligned : address_space % 4096 ≡ 0
  pub nonnull : address_space ≢ 0
  pub tree : IsTree s.words (address_space / 4096) s.pmm.bitmap

pub page_table-eq :
    (s : Vmm) (a v : ℕ)
    → IsSpace s a
    → v < 2 ^ 32
    → vmm_get_page_table_in s a v ≡ (
        if at s.words (a / 4096) (v / 2 ^ 22) % 2 == 1
        then some (kernel_virtual_base + at s.words (a / 4096) (v / 2 ^ 22) / 4096 * 4096)
        else none)
unfolding vmm_get_page_table_in
page_table-eq s a v h wide =
    let root : a ≡ a / 4096 * 4096 = omega (arith, h.aligned) in
    let low : a < direct_map_limit = omega (arith, h.tree.root_low) in
    let ptr : vmm_phys_to_virt a ≡ kernel_virtual_base + a / 4096 * 4096 =
      omega (arith, phys_to_virt-eq a low) in
    let nz : (a == 0) ≡ false = ground (arith, h.nonnull) in
    let pde : ℕ = at s.words (a / 4096) (v / 2 ^ 22) in
    rw (ptr, pde_index-eq v wide, nz, frame_of-eq pde (h.tree.word _))
      (elim (Bool-cases (pde % 2 == 1)) [
        | inl on ↦
            let bit : (bit_and pde 1 == 0) ≡ false = ground (arith, bit_and_mask 1 pde) in
            let table : vmm_phys_to_virt (pde / 2 ^ 12 * 2 ^ 12)
                ≡ kernel_virtual_base + pde / 4096 * 4096 =
              phys_to_virt-eq (pde / 4096 * 4096)
                (omega (arith, h.tree.table_low (v / 2 ^ 22) (omega arith) (ground arith))) in
            rw (on, bit, table) (ground arith)
        | inr off ↦
            let bit : (bit_and pde 1 == 0) ≡ true = ground (arith, bit_and_mask 1 pde) in
            rw (off, bit) (ground arith)
      ])

-- `vmm_get_paddr_in` reads the mapping.
pub get_paddr-translate :
    (s : Vmm) (a v : ℕ)
    → IsSpace s a
    → v < 2 ^ 32
    → vmm_get_paddr_in s a v ≡ translate s.words (a / 4096) v
unfolding vmm_get_paddr_in look_up
get_paddr-translate s a v h wide =
    let pde : ℕ = at s.words (a / 4096) (v / 2 ^ 22) in
    let pte : ℕ = at s.words (pde / 4096) (v / 4096 % 1024) in
    elim (Bool-cases (pde % 2 == 1)) [
      | inl on ↦
          rw
            (
              page_table-eq s a v h wide,
              on,
              pte_index-eq v,
              is_present-eq pte,
              frame_of-eq pte (h.tree.word _),
              bit_and_mask 12 v,
              bit_or_fields 12 (pte / 2 ^ 12) (v % 2 ^ 12) (omega arith),
            )
            refl
      | inr off ↦ rw (page_table-eq s a v h wide, off) refl
    ]
