-- ===== src/Commands/Selftest.antt =====
-- kernel/kshell.c: the smoke tests of the memory manager and of the heap.
pub mod Keeps
use Prim.Native.Nat.{ℕ, zero, suc}
use emyx.Base.{
  ◌^◌, ltb, ◌+◌, ◌-◌, Bool, true, false, not, ◌||◌, Option, none, some, List, [], ◌∷◌, bit_or, ◌==◌,
  if◌then◌else◌, codes,
}
use emyx.Printk.{Arg, u32}
use emyx.Pmm.{pmm_alloc_page, pmm_free_page}
use emyx.Heap.{Heap, kmalloc, kfree}
use emyx.Vmm.{
  Vmm, store, vmm_map_page, vmm_map_page_in, vmm_unmap_page, vmm_unmap_page_in, vmm_get_paddr,
  vmm_get_paddr_in, page_present, page_writable, page_user,
}
use emyx.Vmm.Spaces.{vmm_create_address_space, vmm_destroy_address_space}
use emyx.Sched.{Sched, heap_of, with_heap, kthread_create, sched_set_current_address_space}
use emyx.Process.{Userland, with_vmm}
use emyx.Process.Load.{code_addr}
use emyx.Process.Calls.{print}
use emyx.Commands.{or_minus_one}

-- The values that a call returns: 0 and -1.
abbrev pub ret_of : Bool → ℕ
ret_of true = 0
ret_of false = 0xffffffff

-- Of a look-up: the value that it returns, and what it leaves in the variable that had `before`.
abbrev pub ret_of_paddr : Option ℕ → ℕ
ret_of_paddr none = 0xffffffff
ret_of_paddr (some paddr) = 0

abbrev pub paddr_or : ℕ → Option ℕ → ℕ
paddr_or before none = before
paddr_or before (some paddr) = paddr

abbrev pub put_vmm : Userland → Bool × Vmm → Userland
put_vmm s result = with_vmm s result.1

-- `ret | lookup`, or -1 where the addresses differ.
abbrev pub checked : ℕ → ℕ → ℕ → ℕ
checked ret a b = if a == b then ret else 0xffffffff

-- The thread that `cmd_vmmtest` starts.
pub sched_zero_address_space_test : Userland → Userland
sched_zero_address_space_test s =
    let (ok, sched) = sched_set_current_address_space s.sched 0 in
    print (record s { sched = sched }) (codes "sched zero address space: ret=%x\n")
      (u32 (ret_of ok) ∷ [])

-- The part up to the new address space: `test` and `trampoline` are addresses of functions, and `turn`
-- is what happens while `sched_yield` runs other tasks.
pub test_threads : ℕ → ℕ → (Userland → Userland) → Userland → Userland
test_threads test trampoline turn s =
    let (ok, sched) = sched_set_current_address_space s.sched s.sched.vmm.kernel_page_directory in
    let s1 =
      print (record s { sched = sched }) (codes "sched task0 address space: ret=%x\n")
        (u32 (ret_of ok) ∷ []) in
    let (task, sched2) = kthread_create s1.sched test trampoline in
    let s2 =
      print (record s1 { sched = sched2 }) (codes "sched address space test task=%x\n")
        (u32 (or_minus_one task) ∷ []) in
    let s3 = if ltb (or_minus_one task) (2 ^ 31) then turn s2 else s2 in
    print s3 (codes "vmm kernel user code: ret=%x\n")
      (u32 (ret_of_paddr (vmm_get_paddr s3.sched.vmm code_addr)) ∷ [])

-- The part on an address space of its own; `here` is the address of `cmd_vmmtest`.
pub test_space : ℕ → Userland → Userland
test_space here s =
    let (space, vmm) = vmm_create_address_space s.sched.vmm in
    let s1 = with_vmm s vmm in
    let kernel = vmm_get_paddr vmm here in
    let shared = vmm_get_paddr_in vmm space here in
    let ret = bit_or (ret_of_paddr kernel) (ret_of_paddr shared) in
    let s2 = print s1 (codes "vmm address space=%x kernel=%x shared=%x ret=%x\n") (
      u32 space
      ∷ u32 (paddr_or 0 kernel)
      ∷ u32 (paddr_or 0 shared)
      ∷ u32 (checked ret (paddr_or 0 kernel) (paddr_or 0 shared))
      ∷ []) in
    let (page, pmm) = pmm_alloc_page s2.sched.vmm.pmm in
    let flags = bit_or (bit_or page_present page_writable) page_user in
    let mapped = vmm_map_page_in (record s2.sched.vmm { pmm = pmm }) space 0x00400000 page flags in
    let found = vmm_get_paddr_in mapped.1 space 0x00400000 in
    let ret2 = bit_or (ret_of mapped.0) (ret_of_paddr found) in
    let s3 =
      print (put_vmm s2 mapped) (codes "vmm user map page=%x paddr=%x ret=%x\n")
        (u32 page ∷ u32 (paddr_or 0 found) ∷ u32 (checked ret2 (paddr_or 0 found) page) ∷ []) in
    let again = vmm_map_page_in s3.sched.vmm space 0x00400000 page flags in
    let s4 =
      print (put_vmm s3 again) (codes "vmm duplicate map: ret=%x\n") (u32 (ret_of again.0) ∷ []) in
    let unmapped = vmm_unmap_page_in s4.sched.vmm space 0x00400000 in
    let lost = vmm_get_paddr_in unmapped.1 space 0x00400000 in
    let s5 =
      print (put_vmm s4 unmapped) (codes "vmm user unmap: ret=%x lookup=%x\n")
        (u32 (ret_of unmapped.0) ∷ u32 (ret_of_paddr lost) ∷ []) in
    let vmm5 = s5.sched.vmm in
    with_vmm s5
      (vmm_destroy_address_space (record vmm5 { pmm = pmm_free_page vmm5.pmm page }) space)

-- The part on the kernel's own address space.
pub test_kernel_page : Userland → Userland
test_kernel_page s =
    let s1 =
      print s (codes "vmm kernel low before: ret=%x\n")
        (u32 (ret_of_paddr (vmm_get_paddr s.sched.vmm 0x00F00000)) ∷ []) in
    let before = paddr_or 0 (vmm_get_paddr s.sched.vmm 0x00F00000) in
    let mapped = vmm_map_page s1.sched.vmm 0x00F00000 0 (bit_or page_present page_writable) in
    let s2 =
      print (put_vmm s1 mapped) (codes "vmm_map_page: ret=%x\n") (u32 (ret_of mapped.0) ∷ []) in
    let found = vmm_get_paddr s2.sched.vmm 0x00F00000 in
    let s3 =
      print s2 (codes "vmm_get_paddr after map: ret=%x paddr=%x\n")
        (u32 (ret_of_paddr found) ∷ u32 (paddr_or before found) ∷ []) in
    let unmapped = vmm_unmap_page s3.sched.vmm 0x00F00000 in
    let s4 =
      print (put_vmm s3 unmapped) (codes "vmm_unmap_page: ret=%x\n")
        (u32 (ret_of unmapped.0) ∷ []) in
    print s4 (codes "vmm kernel low after: ret=%x\n")
      (u32 (ret_of_paddr (vmm_get_paddr s4.sched.vmm 0x00F00000)) ∷ [])

pub cmd_vmmtest : ℕ → ℕ → ℕ → (Userland → Userland) → Userland → Userland
cmd_vmmtest test trampoline here turn s =
    test_kernel_page (test_space here (test_threads test trampoline turn s))

abbrev pub put_heap : Userland → Heap → Userland
put_heap s h = record s { sched = with_heap s.sched h }

-- `*p = value`.
abbrev pub put_word : Userland → ℕ → ℕ → Userland
put_word s p value = with_vmm s (record s.sched.vmm { words = store s.sched.vmm.words p value })

abbrev pub word_at : Userland → ℕ → ℕ
word_at s p = s.sched.vmm.words p

-- From the third call of `kmalloc` on.
pub reuse : Userland → ℕ → ℕ → Userland
reuse s a b =
    let (c, h) = kmalloc (heap_of s.sched) 4 in
    let s1 = print (put_heap s h) (codes "kmalloc c=%x\n") (u32 c ∷ []) in
    let s2 = put_word s1 c 0xfeedbeef in
    let s3 =
      print s2 (codes "heap value c=%x reused=%x\n")
        (u32 (word_at s2 c) ∷ u32 (if c == a then 1 else 0) ∷ []) in
    let s4 = put_heap s3 (kfree (heap_of s3.sched) b) in
    if c == 0 then s1 else put_heap s4 (kfree (heap_of s4.sched) c)

pub cmd_heaptest : Userland → Userland
cmd_heaptest s =
    let (a, h1) = kmalloc (heap_of s.sched) 4 in
    let s1 = put_heap s h1 in
    let (b, h2) = kmalloc (heap_of s1.sched) 4 in
    let s2 = print (put_heap s1 h2) (codes "kmalloc a=%x b=%x\n") (u32 a ∷ u32 b ∷ []) in
    let s3 = put_word (put_word s2 a 0x12345678) b 0x9abcdef0 in
    let s4 =
      print s3 (codes "heap values a=%x b=%x\n") (u32 (word_at s3 a) ∷ u32 (word_at s3 b) ∷ []) in
    if (a == 0) || (b == 0) then s2 else reuse (put_heap s4 (kfree (heap_of s4.sched) a)) a b
