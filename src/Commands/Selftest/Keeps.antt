-- ===== src/Commands/Selftest/Keeps.antt =====
-- kernel/kshell.c: the smoke tests leave the processes alone.
use Prim.Native.Nat.{ℕ}
use emyx.Base.{◌≡◌, inl, inr, refl, ◌^◌, ◌||◌, ltb, ◌==◌, Bool-cases, [], ◌∷◌, codes}
use emyx.Printk.{u32}
use emyx.Heap.{kmalloc}
use emyx.Sched.{heap_of, kthread_create, sched_set_current_address_space}
use emyx.Process.{Userland}
use emyx.Process.Calls.{print}
use emyx.Process.Calls.Invariant.{HasTable}
use emyx.Process.Calls.Turns.{KeepsTable}
use emyx.Commands.{or_minus_one}
use emyx.Commands.Keeps.{SameProcesses, SameProcesses-trans, SameProcesses-HasTable}
use emyx.Commands.Selftest.{
  test_threads, test_space, test_kernel_page, cmd_vmmtest, reuse, cmd_heaptest, put_heap, ret_of,
}

test_space-same : (here : ℕ) (s : Userland) → SameProcesses s (test_space here s)
unfolding test_space
test_space-same here s = record { processes = refl; next_pid = refl }

test_kernel_page-same : (s : Userland) → SameProcesses s (test_kernel_page s)
unfolding test_kernel_page
test_kernel_page-same s = record { processes = refl; next_pid = refl }

test_threads-HasTable :
    (test trampoline : ℕ) (turn : Userland → Userland) (s : Userland)
    → KeepsTable turn
    → HasTable s
    → HasTable (test_threads test trampoline turn s)
unfolding test_threads
test_threads-HasTable test trampoline turn s k v =
    let (ok, sched) = sched_set_current_address_space s.sched s.sched.vmm.kernel_page_directory in
    let s1 =
      print (record s { sched = sched }) (codes "sched task0 address space: ret=%x\n")
        (u32 (ret_of ok) ∷ []) in
    let (task, sched2) = kthread_create s1.sched test trampoline in
    let s2 =
      print (record s1 { sched = sched2 }) (codes "sched address space test task=%x\n")
        (u32 (or_minus_one task) ∷ []) in
    elim (Bool-cases (ltb (or_minus_one task) (2 ^ 31))) [
      | inl begun ↦ rw begun (k s2 v)
      | inr none_there ↦ rw none_there v
    ]

pub cmd_vmmtest-HasTable :
    (test trampoline here : ℕ) (turn : Userland → Userland) (s : Userland)
    → KeepsTable turn
    → HasTable s
    → HasTable (cmd_vmmtest test trampoline here turn s)
unfolding cmd_vmmtest
cmd_vmmtest-HasTable test trampoline here turn s k v =
    let s1 = test_threads test trampoline turn s in
    let s2 = test_space here s1 in
    SameProcesses-HasTable s1 (test_kernel_page s2)
      (SameProcesses-trans s1 s2 (test_kernel_page s2) (test_space-same here s1)
        (test_kernel_page-same s2))
      (test_threads-HasTable test trampoline turn s k v)

reuse-same : (s : Userland) (a b : ℕ) → SameProcesses s (reuse s a b)
unfolding reuse
reuse-same s a b =
    let (c, h) = kmalloc (heap_of s.sched) 4 in
    elim (Bool-cases (c == 0)) [
      | inl failed ↦ rw failed (record { processes = refl; next_pid = refl })
      | inr made ↦ rw made (record { processes = refl; next_pid = refl })
    ]

reuse-after :
    (s q : Userland) (a b : ℕ)
    → q.processes ≡ s.processes
    → q.next_pid ≡ s.next_pid
    → SameProcesses s (reuse q a b)
reuse-after s q a b e f =
    SameProcesses-trans s q (reuse q a b) (record { processes = e; next_pid = f })
      (reuse-same q a b)

pub cmd_heaptest-same : (s : Userland) → SameProcesses s (cmd_heaptest s)
unfolding cmd_heaptest
cmd_heaptest-same s =
    let (a, h1) = kmalloc (heap_of s.sched) 4 in
    let (b, h2) = kmalloc (heap_of (put_heap s h1).sched) 4 in
    elim (Bool-cases ((a == 0) || (b == 0))) [
      | inl failed ↦ rw failed (record { processes = refl; next_pid = refl })
      | inr made ↦ rw made (reuse-after s _ a b refl refl)
    ]
