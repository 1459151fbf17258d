-- ===== src/Sched.antt =====
-- kernel/sched.c and kernel/arch/i386/sched.c: kernel threads and the round-robin scheduler.
pub mod Table
pub mod Switch
pub mod Yield
pub mod Fair
pub mod Freed
mod Tests
use Prim.Native.Nat.{ℕ, zero, suc}
use emyx.Base.{
  ◌+◌, ◌*◌, ◌-◌, ◌/◌, ◌%◌, Bool, true, false, not, ◌&&◌, ◌||◌, Option, none, some, List, [], ◌∷◌,
  replicate, get_or, set, bit_and, ltb, leb, ◌==◌, if◌then◌else◌, add32, sub32, not32,
}
use emyx.Pmm.{Pmm}
use emyx.Heap.{Block, Heap, kmalloc, kfree}
use emyx.Vmm.{Vmm, store}
use emyx.Vmm.Spaces.{vmm_destroy_address_space}

-- MAX_TASKS and KTHREAD_STACK_SIZE.
abbrev pub max_tasks : ℕ
max_tasks = 16

abbrev pub kthread_stack_size : ℕ
kthread_stack_size = 2048

-- `task_state`.
pub data TaskState : Type 0 where
  unused runnable running zombie : TaskState

abbrev pub is_unused : TaskState → Bool
is_unused TaskState.unused = true
is_unused TaskState.runnable = false
is_unused TaskState.running = false
is_unused TaskState.zombie = false

abbrev pub is_runnable : TaskState → Bool
is_runnable TaskState.unused = false
is_runnable TaskState.runnable = true
is_runnable TaskState.running = false
is_runnable TaskState.zombie = false

abbrev pub is_running : TaskState → Bool
is_running TaskState.unused = false
is_running TaskState.runnable = false
is_running TaskState.running = true
is_running TaskState.zombie = false

abbrev pub is_zombie : TaskState → Bool
is_zombie TaskState.unused = false
is_zombie TaskState.runnable = false
is_zombie TaskState.running = false
is_zombie TaskState.zombie = true

-- `task`; `entry` is the address of the function.
pub record Task : Type 0 where
  pub id : ℕ
  pub state : TaskState
  pub address_space : ℕ
  pub stack_pointer : ℕ
  pub stack : ℕ
  pub entry : ℕ

-- The static variables of sched.c; the memory that they are used with, which is that of vmm.c and of
-- the heap; and what the processor was told: the directory in CR3 and the TSS's kernel stack.
pub record Sched : Type 0 where
  pub tasks : List Task
  pub current_task : ℕ
  pub next_task_id : ℕ
  pub vmm : Vmm
  pub heap : List Block
  pub directory : ℕ
  pub kernel_stack : ℕ

abbrev pub no_task : Task
no_task = record {
  id = 0;
  state = TaskState.unused;
  address_space = 0;
  stack_pointer = 0;
  stack = 0;
  entry = 0;
}

abbrev pub task_at : Sched → ℕ → Task
task_at s i = get_or s.tasks i no_task

abbrev pub put_task : Sched → ℕ → Task → Sched
put_task s i t = record s { tasks = set s.tasks i t }

abbrev pub heap_of : Sched → Heap
heap_of s = record { pmm = s.vmm.pmm; blocks = s.heap }

abbrev pub with_heap : Sched → Heap → Sched
with_heap s h = record s { vmm = record s.vmm { pmm = h.pmm }; heap = h.blocks }

pub sched_init : Sched → Sched
sched_init s = record s {
  tasks =
      record no_task {
        id = s.next_task_id;
        state = TaskState.running;
        address_space = s.vmm.kernel_page_directory;
      }
      ∷ replicate 15 no_task;
  current_task = 0;
  next_task_id = add32 s.next_task_id 1;
}

unfoldable pub sched_current_task_id : Sched → ℕ
sched_current_task_id s = (task_at s s.current_task).id

-- The result is whether the call returns 0; otherwise it returns -1.
pub sched_set_current_address_space : Sched → ℕ → Bool × Sched
sched_set_current_address_space s address_space =
    if (s.current_task == 0) || (address_space == 0) then (false, s) else (
      true,
      record (put_task s s.current_task
          (record (task_at s s.current_task) { address_space = address_space })) {
            directory = address_space;
          },
    )

-- `(stack + stack_size) & ~(KTHREAD_STACK_ALIGN - 1)`.
abbrev pub stack_top : ℕ → ℕ → ℕ
stack_top stack stack_size = bit_and (add32 stack stack_size) (not32 15)

pub sched_set_kernel_task : Sched → ℕ → ℕ → Sched
sched_set_kernel_task s stack stack_size = record s { kernel_stack = stack_top stack stack_size }

-- The six words that are pushed, and the stack pointer after them.
pub sched_prepare_kthread_stack : (ℕ → ℕ) → ℕ → ℕ → ℕ → ℕ × (ℕ → ℕ)
sched_prepare_kthread_stack words stack stack_size trampoline =
    let top = stack_top stack stack_size in
    let w1 = store words (sub32 top 4) 0 in
    let w2 = store w1 (sub32 top 8) trampoline in
    let w3 = store w2 (sub32 top 12) 0 in
    let w4 = store w3 (sub32 top 16) 0 in
    let w5 = store w4 (sub32 top 20) 0 in (sub32 top 24, store w5 (sub32 top 24) 0)

-- The end of `task_cleanup`: the address space and the stack are given back.
pub release_memory : Sched → ℕ → ℕ → Sched
release_memory s address_space stack =
    let s' =
      if not (address_space == 0) && not (address_space == s.vmm.kernel_page_directory)
      then record s { vmm = vmm_destroy_address_space s.vmm address_space }
      else s in
    if stack == 0 then s' else with_heap s' (kfree (heap_of s') stack)

pub task_cleanup : Sched → ℕ → Sched
task_cleanup s idx =
    let t = task_at s idx in put_task (release_memory s t.address_space t.stack) idx no_task

-- `reap_zombies` for `n` tasks from `i` on.
pub reap_from : ℕ → ℕ → Sched → Sched
reap_from zero i s = s
reap_from (suc n) i s =
    reap_from n (i + 1)
      (if (i == s.current_task) || not (is_zombie (task_at s i).state) then s else task_cleanup s i)

pub reap_zombies : Sched → Sched
reap_zombies s = reap_from 15 1 s

-- The body of the loop of `kthread_create` for an unused task; -1 is `none`.
pub start_task : Sched → ℕ → ℕ → ℕ → Option ℕ × Sched
start_task s i entry trampoline =
    let (stack, h) = kmalloc (heap_of s) kthread_stack_size in
    let s1 = with_heap s h in
    let (stack_pointer, words) =
      sched_prepare_kthread_stack s1.vmm.words stack kthread_stack_size trampoline in
    if stack == 0 then (none, s1) else (
      some s.next_task_id,
      record (put_task s1 i (record {
        id = s.next_task_id;
        state = TaskState.runnable;
        address_space = s1.vmm.kernel_page_directory;
        stack_pointer = stack_pointer;
        stack = stack;
        entry = entry;
      })) { next_task_id = add32 s.next_task_id 1; vmm = record s1.vmm { words = words } },
    )

-- The loop of `kthread_create` for `n` tasks from `i` on.
pub create_from : ℕ → ℕ → Sched → ℕ → ℕ → Option ℕ × Sched
create_from zero i s entry trampoline = (none, s)
create_from (suc n) i s entry trampoline =
    let rest = create_from n (i + 1) s entry trampoline in
    if is_unused (task_at s i).state then start_task s i entry trampoline else rest

-- `trampoline` is the address of `kthread_trampoline`.
pub kthread_create : Sched → ℕ → ℕ → Option ℕ × Sched
kthread_create s entry trampoline =
    if entry == 0 then (none, s) else create_from 15 1 (reap_zombies s) entry trampoline

-- What follows once `sched_yield` has found task `idx`, up to the switch, which saves the stack
-- pointer `esp` of the task that yields.
pub switch_to : Sched → ℕ → ℕ → Sched
switch_to s idx esp =
    let old = s.current_task in
    let t = task_at s old in
    let s1 =
      put_task s old
        (record t { state = if is_running t.state then TaskState.runnable else t.state }) in
    let s2 = record (put_task s1 idx (record (task_at s1 idx) { state = TaskState.running })) {
      current_task = idx;
    } in
    let u = task_at s2 idx in
    let s3 = if u.stack == 0 then s2 else sched_set_kernel_task s2 u.stack kthread_stack_size in
    let s4 = record s3 { directory = u.address_space } in
    put_task s4 old (record (task_at s4 old) { stack_pointer = esp })

-- The loop of `sched_yield`, for `n` rounds from `i` on: the index that it finds.
pub next_runnable : ℕ → ℕ → Sched → Option ℕ
next_runnable zero i s = none
next_runnable (suc n) i s =
    let idx = (s.current_task + i) % max_tasks in
    let rest = next_runnable n (i + 1) s in
    if is_runnable (task_at s idx).state then some idx else rest

pub yield_to : Sched → Option ℕ → ℕ → Sched
yield_to s none esp = s
yield_to s (some idx) esp = switch_to s idx esp

-- `sched_yield` up to the switch; the task in `current_task` is the one that runs then.
pub sched_yield : Sched → ℕ → Sched
sched_yield s esp = let s' = reap_zombies s in yield_to s' (next_runnable max_tasks 1 s') esp

-- What `kthread_exit` comes to: its two panics, or the switch to another task.
pub data Exit : Type 0 where
  task_zero_exited zombie_resumed : Exit
  switched : Sched → Exit

-- `sched_yield` returns to the caller where it finds no task, and that is the second panic.
pub kthread_exit : Sched → ℕ → Exit
kthread_exit s esp =
    let t = record (task_at s s.current_task) { state = TaskState.zombie } in
    let s' = put_task s s.current_task t in
    if s.current_task == 0
    then Exit.task_zero_exited
    else elim (next_runnable max_tasks 1 (reap_zombies s')) [
      | none ↦ Exit.zombie_resumed
      | some idx ↦ Exit.switched (sched_yield s' esp)
    ]
