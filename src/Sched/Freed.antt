-- ===== src/Sched/Freed.antt =====
-- kernel/sched.c: the memory of the zombies that `sched_yield` reaps.
use Prim.Native.Nat.{ℕ, zero, suc}
use emyx.Base.{
  ◌+◌, ◌≤◌, ◌≡◌, inl, inr, refl, sym, ap, ◌∙◌, Bool, true, false, not, ◌||◌, Option, none, some,
  List, ◌==◌, if◌then◌else◌, Bool-cases, arith, get_or, get_or-set_ne, ap₂,
}
use native.Mathlib.Nat.{le_refl}
use emyx.Heap.{Block, kfree}
use emyx.Vmm.{Vmm}
use emyx.Vmm.Spaces.{vmm_destroy_address_space}
use emyx.Sched.{
  Sched, Task, task_at, no_task, is_zombie, release_memory, task_cleanup, reap_from, reap_zombies,
  switch_to, yield_to, next_runnable, sched_yield, sched_set_kernel_task,
}
use emyx.Sched.Table.{is_reaped, release_memory-keeps}

-- The page tables and the blocks of the heap.
abbrev pub Store : Type 0
Store = Vmm × List Block

abbrev pub store_of : Sched → Store
store_of s = (s.vmm, s.heap)

-- An address space is destroyed, but not the kernel's own, and a stack goes back to the heap.
abbrev pub free_space : ℕ → ℕ → Store → Store
free_space kernel space (v, blocks) =
    if (space == 0) || (space == kernel)
    then (v, blocks)
    else (vmm_destroy_address_space v space, blocks)

abbrev pub free_stack : ℕ → Store → Store
free_stack stack (v, blocks) =
    let h = kfree (record { pmm = v.pmm; blocks = blocks }) stack in
    if stack == 0 then (v, blocks) else (record v { pmm = h.pmm }, h.blocks)

-- What is left once the zombies among `n` tasks from `i` on of the table have given their memory back,
-- one after the other.
pub given_back : ℕ → ℕ → Sched → Store → Store
given_back zero i s m = m
given_back (suc n) i s m =
    let t = task_at s i in
    given_back n (i + 1) s (
      if is_reaped s i
      then free_stack t.stack (free_space s.vmm.kernel_page_directory t.address_space m)
      else m)

release_memory-store :
    (s : Sched) (a st : ℕ)
    → store_of (release_memory s a st)
      ≡ free_stack st (free_space s.vmm.kernel_page_directory a (store_of s))
unfolding release_memory
release_memory-store s a st = elim (Bool-cases (a == 0)) [
  | inl z ↦ elim (Bool-cases (st == 0)) [ inl n ↦ rw (z, n) refl | inr y ↦ rw (z, y) refl ]
  | inr nz ↦ elim (Bool-cases (a == s.vmm.kernel_page_directory)) [
    | inl own ↦ elim (Bool-cases (st == 0)) [
      | inl n ↦ rw (nz, own, n) refl
      | inr y ↦ rw (nz, own, y) refl
    ]
    | inr other ↦ elim (Bool-cases (st == 0)) [
      | inl n ↦ rw (nz, other, n) refl
      | inr y ↦ rw (nz, other, y) refl
    ]
  ]
]

-- The tasks from `i` on are still those of `s`.
record Agrees (s : Sched) (i : ℕ) (r : Sched) : Type 0 where
  current : r.current_task ≡ s.current_task
  kernel : r.vmm.kernel_page_directory ≡ s.vmm.kernel_page_directory
  tasks : (j : ℕ) → i ≤ j → task_at r j ≡ task_at s j

cleaned : (s : Sched) (i : ℕ) (r : Sched) → Agrees s i r → Agrees s (i + 1) (task_cleanup r i)
unfolding task_cleanup
cleaned s i r a =
    let t = task_at r i in
    let k = release_memory-keeps r t.address_space t.stack in
    record {
      current = k.1 ∙ a.current;
      kernel = k.3 ∙ a.kernel;
      tasks = λ j hj.
          get_or-set_ne (release_memory r t.address_space t.stack).tasks i j no_task no_task
            (λ e. absurd (omega (arith, hj)))
          ∙ ap (λ (xs : List Task). get_or xs j no_task) k.0
          ∙ a.tasks j (omega (arith, hj));
    }

task_cleanup-store :
    (s : Sched) (i : ℕ) (r : Sched)
    → Agrees s i r
    → store_of (task_cleanup r i)
      ≡ free_stack
          (task_at s i).stack
          (free_space s.vmm.kernel_page_directory (task_at s i).address_space (store_of r))
unfolding task_cleanup
task_cleanup-store s i r a =
    release_memory-store r (task_at r i).address_space (task_at r i).stack
    ∙ rw (a.tasks i (le_refl i), a.kernel) refl

reap_from-store :
    (n i : ℕ) (s r : Sched)
    → 1 ≤ i
    → Agrees s i r
    → store_of (reap_from n i r) ≡ given_back n i s (store_of r)
unfolding reap_from given_back
reap_from-store zero i s r h a = refl
reap_from-store (suc n) i s r h a =
    let zero_not : (i == 0) ≡ false = ground arith in
    let later : Agrees s (i + 1) r = record {
      current = a.current;
      kernel = a.kernel;
      tasks = λ j hj. a.tasks j (omega (arith, hj));
    } in
    let t = task_at s i in
    let onward : Bool → Store =
      λ b. store_of (reap_from n (i + 1) (if b then r else task_cleanup r i)) in
    let back : Bool → Store = λ b. given_back n (i + 1) s (
      if b
      then free_stack t.stack (free_space s.vmm.kernel_page_directory t.address_space (store_of r))
      else store_of r) in
    let same =
      ap₂ (λ (c : ℕ) (t : Task). (i == c) || not (is_zombie t.state)) a.current
        (a.tasks i (le_refl i)) in
    elim (Bool-cases ((i == s.current_task) || not (is_zombie (task_at s i).state))) [
      | inl keep ↦
          let kept : ((i == r.current_task) || not (is_zombie (task_at r i).state)) ≡ true =
            same ∙ keep in
          let not_reaped : is_reaped s i ≡ false = ground (arith, keep) in
          ap onward kept
          ∙ reap_from-store n (i + 1) s r (omega arith) later
          ∙ sym (ap back not_reaped)
      | inr reap ↦
          let dead : ((i == r.current_task) || not (is_zombie (task_at r i).state)) ≡ false =
            same ∙ reap in
          let reaped : is_reaped s i ≡ true = ground (arith, reap, zero_not) in
          ap onward dead
          ∙ reap_from-store n (i + 1) s (task_cleanup r i) (omega arith) (cleaned s i r a)
          ∙ ap (given_back n (i + 1) s) (task_cleanup-store s i r a)
          ∙ sym (ap back reaped)
    ]

-- The kernel's stack for the next task plays no part.
stacked :
    (b : Bool) (s : Sched) (stack size : ℕ)
    → store_of (if b then s else sched_set_kernel_task s stack size) ≡ store_of s
unfolding sched_set_kernel_task
stacked true s stack size = refl
stacked false s stack size = refl

switch_to-store : (s : Sched) (idx esp : ℕ) → store_of (switch_to s idx esp) ≡ store_of s
unfolding switch_to
switch_to-store s idx esp = stacked _ _ _ _

yield_to-store : (s : Sched) (o : Option ℕ) (esp : ℕ) → store_of (yield_to s o esp) ≡ store_of s
unfolding yield_to
yield_to-store s none esp = refl
yield_to-store s (some idx) esp = switch_to-store s idx esp

-- `sched_yield` frees no other memory than that of the zombies among the tasks 1 to 15 that are not
-- the current one.
pub sched_yield-store :
    (s : Sched) (esp : ℕ) → store_of (sched_yield s esp) ≡ given_back 15 1 s (store_of s)
unfolding sched_yield reap_zombies
sched_yield-store s esp =
    yield_to-store (reap_zombies s) (next_runnable 16 1 (reap_zombies s)) esp
    ∙ reap_from-store 15 1 s s (omega arith)
        (record { current = refl; kernel = refl; tasks = λ j hj. refl })
