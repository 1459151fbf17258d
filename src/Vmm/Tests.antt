-- ===== src/Vmm/Tests.antt =====
-- kernel/mm/vmm.c at an address space with an empty directory.
use emyx.Base.{refl, [], arith}
use emyx.Pmm.Examples.{pages, pages-IsValid, page_two}
use emyx.Vmm.{Vmm, vmm_map_page_in, vmm_unmap_page_in}
use emyx.Vmm.Spaces.{vmm_create_address_space}
use emyx.Vmm.Spaces.Create.{Creates, vmm_create_address_space_lem}
use emyx.Vmm.Space.{IsSpace}
use emyx.Vmm.Map.{Maps, vmm_map_page_in_lem}
use emyx.Vmm.Unmap.{Unmaps, vmm_unmap_page_in_lem}

-- The directory is page 2; the kernel's is page 1.
abbrev empty_space : Vmm
empty_space = record {
  pmm = pages;
  words = λ p. 0;
  kernel_page_directory = 0x1000;
  invalidated = [];
}

empty_space-IsSpace : IsSpace empty_space 0x2000
empty_space-IsSpace = record {
  valid = pages-IsValid;
  aligned = refl;
  nonnull = omega arith;
  tree = record {
    word = λ p. omega arith;
    root_low = omega arith;
    root_used = page_two;
    table_low = λ i h on. absurd (omega arith);
    table_ne = λ i h on. absurd (omega arith);
    table_used = λ i h on. absurd (omega arith);
    apart = λ i j h h' on. absurd (omega arith);
  };
}

vmm_map_page_in_lem_example :
    Maps empty_space 0x2000 0x400000 0x8000 5 (vmm_map_page_in empty_space 0x2000 0x400000 0x8000 5)
vmm_map_page_in_lem_example =
    vmm_map_page_in_lem empty_space 0x2000 0x400000 0x8000 5 empty_space-IsSpace (omega arith)
      (omega arith)

vmm_unmap_page_in_lem_example :
    Unmaps empty_space 0x2000 0x400000 (vmm_unmap_page_in empty_space 0x2000 0x400000)
vmm_unmap_page_in_lem_example =
    vmm_unmap_page_in_lem empty_space 0x2000 0x400000 empty_space-IsSpace (omega arith)

-- The same directory as the kernel's.
abbrev kernel_only : Vmm
kernel_only = record empty_space { kernel_page_directory = 0x2000 }

kernel_only-IsSpace : IsSpace kernel_only 0x2000
kernel_only-IsSpace = record {
  valid = pages-IsValid;
  aligned = refl;
  nonnull = omega arith;
  tree = empty_space-IsSpace.tree;
}

vmm_create_address_space_lem_example : Creates kernel_only (vmm_create_address_space kernel_only)
vmm_create_address_space_lem_example = vmm_create_address_space_lem kernel_only kernel_only-IsSpace
