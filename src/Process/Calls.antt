-- ===== src/Process/Calls.antt =====
-- kernel/user.c: `user_spawn`, `user_exec_task`, `user_wait`, `user_exit_current` and `user_init`.
pub mod Exit
pub mod Spawn
pub mod Invariant
pub mod Turns
pub mod Paths
pub mod Focus
pub mod Waiting
use Prim.Native.Nat.{ℕ, zero, suc}
use emyx.Base.{
  ◌^◌, ltb, ◌+◌, Bool, true, false, not, ◌&&◌, ◌||◌, Option, none, some, List, [], ◌∷◌, ◌++◌,
  get_or, set, ltb, leb, ◌==◌, if◌then◌else◌, add32, codes,
}
use emyx.Printk.{Arg, str, u32, printk}
use emyx.Strings.{strlen}
use emyx.Keyboard.{keyboard_buffer_clear}
use emyx.Initramfs.{initramfs_find, path_size}
use emyx.Vmm.{Vmm}
use emyx.Vmm.Spaces.{vmm_create_address_space, vmm_destroy_address_space}
use emyx.Sched.{Sched, sched_current_task_id, kthread_create, sched_set_current_address_space}
use emyx.Process.{
  Process, ProcessState, is_free, is_running, is_exited, Userland, process_at, put_process,
  with_vmm, no_process, no_parent, user_process_find_by_pid, current_process, user_process_alloc,
  user_process_release, user_process_orphan_children,
}
use emyx.Process.Load.{user_process_free_pages, user_prepare_exec}

-- The addresses of `user_exec_task` and of `kthread_trampoline`.
pub record Code : Type 0 where
  pub user_exec_task : ℕ
  pub kthread_trampoline : ℕ

-- The characters of a string before its NUL, `n` at most.
unfoldable pub string_from : ℕ → ℕ → (ℕ → ℕ) → List ℕ
string_from zero i path = []
string_from (suc n) i path =
    let rest = string_from n (i + 1) path in if path i == 0 then [] else path i ∷ rest

abbrev pub string_at : ℕ → (ℕ → ℕ) → List ℕ
string_at n path = string_from n 0 path

-- `strlen(path)`, or 32 for a path of 32 characters or more: `user_spawn` asks no more of it.
abbrev pub path_length : (ℕ → ℕ) → ℕ
path_length path = elim (strlen path_size path 0 0) [ none ↦ path_size | some len ↦ len ]

-- The end of `user_spawn` at its label `fail`.
pub fail_spawn : Userland → ℕ → Userland
fail_spawn s process =
    let space = (process_at s process).address_space in
    let s1 = if space == 0 then s else with_vmm s (vmm_destroy_address_space s.sched.vmm space) in
    record s1 { processes = user_process_release s1.processes process }

-- An id as an `int`: one of 2^31 or more is negative, as -1 is, and fails the tests of the callers.
abbrev pub as_int : Option ℕ → Option ℕ
as_int none = none
as_int (some id) = if ltb id (2 ^ 31) then some id else none

-- From the result of `kthread_create` on.
pub adopt_task : ℕ → Userland → Option ℕ × Sched → Option ℕ × Userland
adopt_task process s (none, sched) = (none, fail_spawn (record s { sched = sched }) process)
adopt_task process s (some task_id, sched) =
    let p = process_at s process in
    (
      some p.pid,
      record (put_process s process (record p { task_id = task_id })) {
        sched = sched;
        keyboard = keyboard_buffer_clear s.keyboard;
      },
    )

-- From the call of `vmm_create_address_space` on.
pub spawn_task : Code → ℕ → Userland → Option ℕ × Userland
spawn_task code process s =
    let (space, vmm) = vmm_create_address_space s.sched.vmm in
    let s1 =
      put_process (with_vmm s vmm) process
        (record (process_at s process) { address_space = space }) in
    if space == 0
    then (none, fail_spawn s1 process)
    else let (task_id, sched) =
        kthread_create s1.sched code.user_exec_task code.kthread_trampoline in
      adopt_task process s1 (as_int task_id, sched)

-- `parent->pid`, or the value that the record has already.
abbrev pub parent_pid_of : Userland → Option ℕ → ℕ
parent_pid_of s none = no_parent
parent_pid_of s (some parent) = (process_at s parent).pid

-- From the result of `user_process_alloc` on.
pub spawn_process : Code → (ℕ → ℕ) → Userland → Option ℕ × List Process → Option ℕ × Userland
spawn_process code path s (none, processes) = (none, s)
spawn_process code path s (some process, processes) = spawn_task code process (record s {
  next_pid = add32 s.next_pid 1;
  processes = set processes process (record (get_or processes process no_process) {
    pid = s.next_pid;
    parent_pid = parent_pid_of s (current_process s);
    path = λ i. if leb i (path_length path) then path i else 0;
  });
})

-- From the result of `initramfs_find` on.
pub spawn_file : Code → (ℕ → ℕ) → Userland → Option (ℕ × ℕ) → Option ℕ × Userland
spawn_file code path s none = (none, s)
spawn_file code path s (some file) = spawn_process code path s (user_process_alloc s.processes)

-- The process id, or `none` for -1. The path is the bytes at the pointer, which is not NULL.
pub user_spawn : Code → Userland → (ℕ → ℕ) → Option ℕ × Userland
user_spawn code s path =
    if (path_length path == 0) || leb path_size (path_length path)
    then (none, s)
    else spawn_file code path s (initramfs_find s.memory s.archive path)

abbrev pub print : Userland → List ℕ → List Arg → Userland
print s format args = record s { output = s.output ++ (printk format args).0 }

-- How `user_exec_task` ends: it returns to the thread's trampoline, or enters the process.
pub data Exec : Type 0 where
  returned : Userland → Exec
  entered : ℕ → Userland → Exec

-- `user_exec_task` at its label `fail`.
pub fail_exec : Userland → ℕ → Userland
fail_exec s process =
    fail_spawn
      (print s (codes "user: failed to execute %s\n")
        (str (some (string_at 32 (process_at s process).path)) ∷ []))
      process

-- From the result of `sched_set_current_address_space` on.
pub enter_space : ℕ → Userland → Bool × Sched → Exec
enter_space process s (false, sched) =
    returned (fail_exec (user_process_free_pages (record s { sched = sched }) process) process)
enter_space process s (true, sched) =
    let s1 = record s { sched = sched } in
    entered process
      (put_process s1 process (record (process_at s1 process) { state = ProcessState.running }))

-- From the result of `user_prepare_exec` on.
pub exec_prepared : ℕ → Bool × Userland → Exec
exec_prepared process (false, s) = returned (fail_exec s process)
exec_prepared process (true, s) =
    enter_space process s
      (sched_set_current_address_space s.sched (process_at s process).address_space)

pub exec_process : Userland → Option ℕ → Exec
exec_process s none = returned s
exec_process s (some process) =
    exec_prepared process (user_prepare_exec s process (process_at s process).path)

pub user_exec_task : Userland → Exec
user_exec_task s = exec_process s (current_process s)

-- One round of the loop of `user_wait`: the call returns, with -1 as `none`, or yields.
pub data Wait : Type 0 where
  done : Option ℕ → Userland → Wait
  yields : Wait

-- From the result of `user_process_find_by_pid` on.
pub wait_child : Userland → ℕ → Option ℕ → Wait
wait_child s caller none = done none s
wait_child s caller (some child) =
    if not ((process_at s child).parent_pid == (process_at s caller).pid)
    then done none s
    else if is_exited (process_at s child).state
    then done (some (process_at s child).exit_status)
        (record s { processes = user_process_release s.processes child })
    else yields

pub wait_round : Userland → ℕ → ℕ → Wait
wait_round s caller pid = wait_child s caller (user_process_find_by_pid s.processes pid)

abbrev pub or_later : Wait → Wait → Wait
or_later (done status s) rest = done status s
or_later yields rest = rest

-- The loop of `user_wait`. Each of `turns` is what happens from a call of `sched_yield` until it
-- returns to the caller, and there are as many as there is time for; `yields` is that the call
-- waits still.
pub wait_loop : List (Userland → Userland) → Userland → ℕ → ℕ → Wait
wait_loop [] s caller pid = wait_round s caller pid
wait_loop (turn ∷ turns) s caller pid =
    let rest = wait_loop turns (turn s) caller pid in or_later (wait_round s caller pid) rest

pub wait_by : List (Userland → Userland) → Userland → Option ℕ → ℕ → Wait
wait_by turns s none pid = done none s
wait_by turns s (some caller) pid = wait_loop turns s caller pid

pub user_wait : List (Userland → Userland) → Userland → ℕ → Wait
user_wait turns s pid = wait_by turns s (current_process s) pid

-- `process != NULL && process->state == USER_PROCESS_RUNNING`.
abbrev pub runs_now : Userland → Option ℕ → Bool
runs_now s none = false
runs_now s (some process) = is_running (process_at s process).state

pub user_has_input_focus : Userland → Bool
user_has_input_focus s = if s.userland_active then true else runs_now s (current_process s)

-- The end of `user_exit_current`: the record is kept for the parent, if there is one.
pub release_orphan : ℕ → Userland → Option ℕ → Userland
release_orphan process s none = record s { processes = user_process_release s.processes process }
release_orphan process s (some parent) = s

pub exit_process : Userland → ℕ → ℕ → Userland
exit_process s process status =
    let s1 =
      user_process_free_pages
        (put_process s process
          (record (process_at s process) { exit_status = status; state = ProcessState.exited }))
        process in
    let s2 = put_process s1 process (record (process_at s1 process) { address_space = 0 }) in
    let s3 = record s2 { processes = user_process_orphan_children s2.processes process } in
    release_orphan process s3
      (user_process_find_by_pid s3.processes (process_at s3 process).parent_pid)

pub exit_current : Userland → ℕ → Option ℕ → Userland
exit_current s status none = s
exit_current s status (some process) = exit_process s process status

pub user_exit_current : Userland → ℕ → Userland
user_exit_current s status = exit_current s status (current_process s)

-- A round of the loop of `user_init`: it is over once the process is not found.
abbrev pub or_over : Userland → Option ℕ → Option Userland → Option Userland
or_over s none rest = some s
or_over s (some process) rest = rest

-- The loop of `user_init`, with `turns` as in `wait_loop`; `none` is that it waits still.
pub init_loop : List (Userland → Userland) → Userland → ℕ → Option Userland
init_loop [] s pid = or_over s (user_process_find_by_pid s.processes pid) none
init_loop (turn ∷ turns) s pid =
    let rest = init_loop turns (turn s) pid in
    or_over s (user_process_find_by_pid s.processes pid) rest

-- The end of `user_init`, after the loop.
pub leave_init : Option Userland → Option Userland
leave_init none = none
leave_init (some s) =
    some (print (record s { userland_active = false }) (codes "user: exiting userland\n") [])

-- "/bin/init" as a string in memory.
abbrev pub init_path : ℕ → ℕ
init_path i = get_or (codes "/bin/init") i 0

-- From the result of `user_spawn` on.
pub run_init : List (Userland → Userland) → Option ℕ × Userland → Option Userland
run_init turns (none, s) = some (print s (codes "user: failed to start /bin/init\n") [])
run_init turns (some pid, s) =
    let s1 =
      print (record s { userland_active = true }) (codes "user: init pid=%x\n") (u32 pid ∷ []) in
    leave_init (init_loop turns s1 pid)

pub user_init : List (Userland → Userland) → Code → Userland → Option Userland
user_init turns code s =
    let (pid, s') = user_spawn code s init_path in run_init turns (as_int pid, s')
