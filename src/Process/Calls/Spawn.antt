-- ===== src/Process/Calls/Spawn.antt =====
-- kernel/user.c: what `user_spawn` does on each of its branches.
use Prim.Native.Nat.{ℕ}
use emyx.Base.{
  ltb, ◌+◌, ◌^◌, ◌≤◌, ◌<◌, ◌≡◌, ◌≢◌, inl, inr, refl, sym, ap, subst, ◌∙◌, true, false, Option, none,
  some, get_or, set, leb, ◌==◌, if◌then◌else◌, Bool-cases, Option-cases, arith, add32,
  get_or-set_self, set-set, set-get_or,
}
use emyx.Keyboard.{keyboard_buffer_clear}
use emyx.Initramfs.{initramfs_find, path_size}
use emyx.Vmm.{Vmm}
use emyx.Vmm.Spaces.{vmm_create_address_space}
use emyx.Sched.{Sched, kthread_create}
use emyx.Process.{
  Process, ProcessState, is_free, no_process, search, Userland, process_at, put_process, with_vmm,
  current_process, enlist, user_process_alloc, user_process_release,
}
use emyx.Process.Table.{Found, missing, found, search_lem, IsTable}
use emyx.Process.Calls.Focus.{IsParentPid, parent_pid_of-IsParentPid}
use emyx.Process.Calls.{
  Code, as_int, path_length, fail_spawn, adopt_task, spawn_task, parent_pid_of, spawn_process,
  spawn_file, user_spawn,
}

-- Why no process is begun: the path is empty or too long, no file has it, or the table is full.
pub data Refusal (s : Userland) (path : ℕ → ℕ) : Type 0 where
  empty : path_length path ≡ 0 → Refusal s path
  long : path_size ≤ path_length path → Refusal s path
  no_file : initramfs_find s.memory s.archive path ≡ none → Refusal s path
  full : ((j : ℕ) → j < 16 → is_free (process_at s j).state ≡ false) → Refusal s path

-- The record of a process that has just been spawned.
pub record IsNew (s : Userland) (path : ℕ → ℕ) (p : Process) : Type 0 where
  pub state : p.state ≡ ProcessState.created
  pub pid : p.pid ≡ s.next_pid
  pub parent_pid : IsParentPid s p.parent_pid
  pub path_of : (i : ℕ) → i ≤ path_length path → p.path i ≡ path i
  pub page_count : p.page_count ≡ 0

-- What `user_spawn` comes to.
pub data Spawns (code : Code) (s : Userland) (path : ℕ → ℕ) : Option ℕ × Userland → Type 0 where
  refused : Refusal s path → Spawns code s path (none, s)
  failed :
      (r : Userland)
      → r.processes ≡ s.processes
      → r.next_pid ≡ s.next_pid + 1
      → Spawns code s path (none, r)
  spawned :
      (r : Userland) (i space task_id : ℕ) (vmm : Vmm)
      → i < 16
      → is_free (process_at s i).state ≡ true
      → vmm_create_address_space s.sched.vmm ≡ (space, vmm)
      → space ≢ 0
      → kthread_create (record s.sched { vmm = vmm }) code.user_exec_task code.kthread_trampoline
        ≡ (some task_id, r.sched)
      → IsNew s path (process_at r i)
      → (process_at r i).address_space ≡ space
      → (process_at r i).task_id ≡ task_id
      → r.processes ≡ set s.processes i (process_at r i)
      → r.next_pid ≡ s.next_pid + 1
      → r.keyboard ≡ keyboard_buffer_clear s.keyboard
      → Spawns code s path (some s.next_pid, r)

fail_spawn-processes :
    (s t : Userland) (i : ℕ) (q : Process)
    → t.processes ≡ set s.processes i q
    → process_at s i ≡ no_process
    → (fail_spawn t i).processes ≡ s.processes
unfolding fail_spawn user_process_release
fail_spawn-processes s t i q e off = released ∙ restored
  where
    released : (fail_spawn t i).processes ≡ set t.processes i no_process
    released = elim (Bool-cases ((process_at t i).address_space == 0)) [
      | inl no_space ↦ rw no_space refl
      | inr space ↦ rw space refl
    ]

    restored : set t.processes i no_process ≡ s.processes
    restored =
        ap (λ ps. set ps i no_process) e
        ∙ (set-set s.processes i q no_process
            ∙ (ap (set s.processes i) (sym off) ∙ set-get_or s.processes i no_process))

fail_spawn-next : (t : Userland) (i : ℕ) → (fail_spawn t i).next_pid ≡ t.next_pid
unfolding fail_spawn
fail_spawn-next t i = elim (Bool-cases ((process_at t i).address_space == 0)) [
  | inl no_space ↦ rw no_space refl
  | inr space ↦ rw space refl
]

as_int-some : (o : Option ℕ) (id : ℕ) → as_int o ≡ some id → o ≡ some id
as_int-some none id e = e
as_int-some (some n) id e = elim (Bool-cases (ltb n (2 ^ 31))) [
  | inl small ↦ let same : as_int (some n) ≡ some n = rw small refl in sym same ∙ e
  | inr large ↦
      let gone : as_int (some n) ≡ none = rw large refl in absurd (ground (arith, sym gone ∙ e))
]

module _ (code : Code) (s : Userland) (path : ℕ → ℕ) (i : ℕ) (v : IsTable s.processes s.next_pid)
    (below : s.next_pid + 1 < 2 ^ 32) (h : i < 16)
    (free : is_free (process_at s i).state ≡ true) where
  -- The record before the address space is made, and the state then.
  abbrev draft : Process
  draft = record no_process {
    pid = s.next_pid;
    parent_pid = parent_pid_of s (current_process s);
    state = ProcessState.created;
    path = λ j. if leb j (path_length path) then path j else 0;
  }

  abbrev drafted : Userland
  drafted = record s {
    next_pid = add32 s.next_pid 1;
    processes =
        set (set s.processes i (record no_process { state = ProcessState.created })) i draft;
  }

  one_set : drafted.processes ≡ set s.processes i draft
  one_set = set-set s.processes i (record no_process { state = ProcessState.created }) draft

  at_draft : process_at drafted i ≡ draft
  at_draft = rw one_set (get_or-set_self s.processes i draft no_process (omega (arith, v.size)))

  counted : add32 s.next_pid 1 ≡ s.next_pid + 1
  counted = omega (arith, below)

  -- With the address space entered.
  abbrev spaced : ℕ → Vmm → Userland
  spaced space vmm =
      put_process (with_vmm drafted vmm) i (record (process_at drafted i) { address_space = space })

  spaced-set :
      (space : ℕ) (vmm : Vmm)
      → (spaced space vmm).processes ≡ set s.processes i (record draft { address_space = space })
  spaced-set space vmm =
      ap (λ p. set drafted.processes i (record p { address_space = space })) at_draft
      ∙ (ap (λ ps. set ps i (record draft { address_space = space })) one_set
          ∙ set-set s.processes i draft (record draft { address_space = space }))

  at_spaced :
      (space : ℕ) (vmm : Vmm)
      → process_at (spaced space vmm) i ≡ record draft { address_space = space }
  at_spaced space vmm = rw (spaced-set space vmm) (
      get_or-set_self s.processes i (record draft { address_space = space }) no_process
        (omega (arith, v.size)))

  -- With the task's number entered, too.
  adopted : ℕ → Vmm → ℕ → Sched → Userland
  adopted space vmm task_id sched =
      record (put_process (spaced space vmm) i
        (record (process_at (spaced space vmm) i) { task_id = task_id })) {
          sched = sched;
          keyboard = keyboard_buffer_clear s.keyboard;
        }

  adopted-set :
      (space : ℕ) (vmm : Vmm) (task_id : ℕ) (sched : Sched)
      → (adopted space vmm task_id sched).processes
        ≡ set s.processes i (record draft { address_space = space; task_id = task_id })
  unfolding adopted
  adopted-set space vmm task_id sched =
      ap (λ p. set (spaced space vmm).processes i (record p { task_id = task_id }))
        (at_spaced space vmm)
      ∙ (ap (λ ps. set ps i (record draft { address_space = space; task_id = task_id }))
            (spaced-set space vmm)
          ∙ set-set s.processes i (record draft { address_space = space })
              (record draft { address_space = space; task_id = task_id }))

  at_adopted :
      (space : ℕ) (vmm : Vmm) (task_id : ℕ) (sched : Sched)
      → process_at (adopted space vmm task_id sched) i
        ≡ record draft { address_space = space; task_id = task_id }
  at_adopted space vmm task_id sched =
      ap (λ ps. get_or ps i no_process) (adopted-set space vmm task_id sched)
      ∙ get_or-set_self s.processes i (record draft { address_space = space; task_id = task_id })
          no_process (omega (arith, v.size))

  adopt_lem :
      (space : ℕ) (vmm : Vmm) (task : Option ℕ) (sched : Sched)
      → vmm_create_address_space s.sched.vmm ≡ (space, vmm)
      → space ≢ 0
      → ((task_id : ℕ)
          → task ≡ some task_id
          → kthread_create
              (record s.sched { vmm = vmm })
              code.user_exec_task
              code.kthread_trampoline
            ≡ (some task_id, sched))
      → Spawns code s path (adopt_task i (spaced space vmm) (task, sched))
  unfolding adopt_task adopted
  adopt_lem space vmm none sched e ne e' =
      let t : Userland = record (spaced space vmm) { sched = sched } in
      failed (fail_spawn t i)
        (fail_spawn-processes s t i (record draft { address_space = space }) (spaced-set space vmm)
          (v.unused i h free))
        (fail_spawn-next t i ∙ counted)
  adopt_lem space vmm (some task_id) sched e ne e' =
      let r = adopted space vmm task_id sched in
      let at = at_adopted space vmm task_id sched in
      subst (λ n. Spawns code s path (some n, r)) (sym (ap (λ p. p.pid) (at_spaced space vmm)))
        (spawned r i space task_id vmm h free e ne (e' task_id refl)
          (record {
            state = ap (λ p. p.state) at;
            pid = ap (λ p. p.pid) at;
            parent_pid =
                subst (IsParentPid s) (sym (ap (λ p. p.parent_pid) at))
                  (parent_pid_of-IsParentPid s);
            path_of = λ j l. ap (λ p. p.path j) at ∙ ground (arith, l);
            page_count = ap (λ p. p.page_count) at;
          })
          (ap (λ p. p.address_space) at) (ap (λ p. p.task_id) at)
          (adopted-set space vmm task_id sched ∙ ap (set s.processes i) (sym at)) counted refl)

  spawn_task_lem : Spawns code s path (spawn_task code i drafted)
  unfolding spawn_task
  spawn_task_lem =
      let (space, vmm) = vmm_create_address_space s.sched.vmm in
      elim (Bool-cases (space == 0)) [
        | inl no_space ↦ rw no_space (
            failed (fail_spawn (spaced space vmm) i)
              (fail_spawn-processes s (spaced space vmm) i (record draft { address_space = space })
                (spaced-set space vmm) (v.unused i h free))
              (fail_spawn-next (spaced space vmm) i ∙ counted))
        | inr some_space ↦
            let thread =
              kthread_create (record s.sched { vmm = vmm }) code.user_exec_task
                code.kthread_trampoline in
            rw some_space (
              adopt_lem space vmm (as_int thread.0) thread.1 refl (ground (arith, some_space))
                (λ task_id e.
                  ap {A = Option ℕ} {B = Option ℕ × Sched} (λ o. (o, thread.1))
                    (as_int-some thread.0 task_id e)))
      ]

spawn_process_lem :
    (code : Code) (s : Userland) (path : ℕ → ℕ) (slot : Option ℕ)
    → IsTable s.processes s.next_pid
    → s.next_pid + 1 < 2 ^ 32
    → Found (λ p. is_free p.state) s.processes 0 16 slot
    → Spawns code s path (spawn_process code path s (enlist s.processes slot))
unfolding spawn_process
spawn_process_lem code s path none v below (missing off) =
    refused (full (λ j hj. off j (omega arith) hj))
spawn_process_lem code s path (some _) v below (found i l h free first) =
    let at =
      get_or-set_self s.processes i (record no_process { state = ProcessState.created }) no_process
        (omega (arith, v.size)) in
    rw at (spawn_task_lem code s path i v below h free)

pub user_spawn_lem :
    (code : Code) (s : Userland) (path : ℕ → ℕ)
    → IsTable s.processes s.next_pid
    → s.next_pid + 1 < 2 ^ 32
    → Spawns code s path (user_spawn code s path)
unfolding user_spawn spawn_file user_process_alloc
user_spawn_lem code s path v below =
    let len = path_length path in
    elim (Bool-cases (len == 0)) [
      | inl none_there ↦ rw none_there (refused (empty (ground arith)))
      | inr some_there ↦ elim (Bool-cases (leb path_size len)) [
        | inl too_long ↦ rw (some_there, too_long) (refused (long (ground arith)))
        | inr short ↦ elim (Option-cases (initramfs_find s.memory s.archive path)) [
          | inl nothing ↦ rw (some_there, short, nothing) (refused (no_file nothing))
          | inr (file, here) ↦
              rw (some_there, short, here)
                (spawn_process_lem code s path (search (λ p. is_free p.state) 16 0 s.processes) v
                  below (search_lem (λ p. is_free p.state) s.processes))
        ]
      ]
    ]
