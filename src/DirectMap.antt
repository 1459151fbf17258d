-- ===== src/DirectMap.antt =====
-- kernel/mm/vmm.c: the direct map of low physical memory at the kernel's virtual base.
use emyx.Base.{ℕ, ◌+◌, ◌-◌, ◌*◌, ◌<◌, ◌≡◌, ◌≢◌, ◌↔◌, ltb, leb, ◌||◌, if◌then◌else◌, arith}

-- VMM_KERNEL_VIRTUAL_BASE and VMM_DIRECT_MAP_LIMIT.
abbrev pub kernel_virtual_base : ℕ
kernel_virtual_base = 0xC0000000

abbrev pub direct_map_limit : ℕ
direct_map_limit = 16 * 1024 * 1024

-- A pointer is its address, and NULL is 0.
unfoldable pub vmm_phys_to_virt : ℕ → ℕ
vmm_phys_to_virt paddr = if leb direct_map_limit paddr then 0 else kernel_virtual_base + paddr

unfoldable pub vmm_virt_to_phys : ℕ → ℕ
vmm_virt_to_phys addr =
    if ltb addr kernel_virtual_base || leb (kernel_virtual_base + direct_map_limit) addr
    then 0
    else addr - kernel_virtual_base

-- The direct map is a bijection: a physical address below 16 MiB has a non-null pointer that leads
-- back to it, any other has none; and a pointer that translates to a physical address other than 0
-- is the one that the address has.
pub direct_map_lem :
    (p v : ℕ)
    → ((vmm_phys_to_virt p ≢ 0) ↔ (p < direct_map_limit))
      × (p < direct_map_limit → vmm_virt_to_phys (vmm_phys_to_virt p) ≡ p)
      × (vmm_virt_to_phys v ≢ 0 → vmm_phys_to_virt (vmm_virt_to_phys v) ≡ v)
unfolding vmm_phys_to_virt vmm_virt_to_phys
direct_map_lem p v = (ground arith, (λ h. ground arith), (λ h. ground arith))

pub phys_to_virt-eq : (a : ℕ) → a < direct_map_limit → vmm_phys_to_virt a ≡ kernel_virtual_base + a
unfolding vmm_phys_to_virt
phys_to_virt-eq a h = ground arith
