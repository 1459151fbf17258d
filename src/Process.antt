-- ===== src/Process.antt =====
-- kernel/user.c: the process table, and the processes that are spawned, waited for and that exit.
pub mod Table
pub mod Load
pub mod Calls
pub mod Orphans
pub mod Examples
mod Tests
use Prim.Native.Nat.{ℕ, zero, suc}
use emyx.Base.{
  ◌+◌, Bool, true, false, not, ◌&&◌, Option, none, some, List, [], ◌∷◌, replicate, get_or, set,
  ◌==◌, if◌then◌else◌,
}
use emyx.Memory.{Memory}
use emyx.Keyboard.{Keyboard}
use emyx.Initramfs.{Module}
use emyx.Vmm.{Vmm}
use emyx.Sched.{Sched, sched_current_task_id}

-- USER_PROCESS_MAX, USER_PROCESS_MAX_PAGES and USER_PROCESS_NO_PARENT.
abbrev pub process_max : ℕ
process_max = 16

abbrev pub max_pages : ℕ
max_pages = 16

abbrev pub no_parent : ℕ
no_parent = 0

-- `user_page`.
pub record Page : Type 0 where
  pub vaddr : ℕ
  pub paddr : ℕ

-- `user_process_state`.
pub data ProcessState : Type 0 where
  free created running exited : ProcessState

abbrev pub is_free : ProcessState → Bool
is_free ProcessState.free = true
is_free ProcessState.created = false
is_free ProcessState.running = false
is_free ProcessState.exited = false

abbrev pub is_running : ProcessState → Bool
is_running ProcessState.free = false
is_running ProcessState.created = false
is_running ProcessState.running = true
is_running ProcessState.exited = false

abbrev pub is_exited : ProcessState → Bool
is_exited ProcessState.free = false
is_exited ProcessState.created = false
is_exited ProcessState.running = false
is_exited ProcessState.exited = true

-- `user_process`; `path` gives the bytes of the array.
pub record Process : Type 0 where
  pub pid : ℕ
  pub task_id : ℕ
  pub parent_pid : ℕ
  pub address_space : ℕ
  pub entry : ℕ
  pub stack : ℕ
  pub stack_size : ℕ
  pub exit_status : ℕ
  pub state : ProcessState
  pub path : ℕ → ℕ
  pub pages : List Page
  pub page_count : ℕ

abbrev pub no_page : Page
no_page = record { vaddr = 0; paddr = 0 }

-- What `memset(process, 0, sizeof(*process))` leaves; the state USER_PROCESS_FREE is 0.
abbrev pub no_process : Process
no_process = record {
  pid = 0;
  task_id = 0;
  parent_pid = 0;
  address_space = 0;
  entry = 0;
  stack = 0;
  stack_size = 0;
  exit_status = 0;
  state = ProcessState.free;
  path = λ i. 0;
  pages = replicate 16 no_page;
  page_count = 0;
}

-- The static variables of user.c and the parts of the kernel that it works on: the scheduler with
-- the memory manager, the keyboard buffer, the archive of files, and what was printed. `memory` has
-- the bytes that are read and written as such, those of the archive and of the processes' pages.
pub record Userland : Type 0 where
  pub processes : List Process
  pub next_pid : ℕ
  pub userland_active : Bool
  pub sched : Sched
  pub keyboard : Keyboard
  pub archive : Module
  pub memory : Memory
  pub output : List ℕ

abbrev pub process_at : Userland → ℕ → Process
process_at s i = get_or s.processes i no_process

abbrev pub put_process : Userland → ℕ → Process → Userland
put_process s i p = record s { processes = set s.processes i p }

abbrev pub with_vmm : Userland → Vmm → Userland
with_vmm s vmm = record s { sched = record s.sched { vmm = vmm } }

-- The loops that look for a process: the first that passes the test, of `n` from `i` on.
pub search : (Process → Bool) → ℕ → ℕ → List Process → Option ℕ
search test zero i processes = none
search test (suc n) i processes =
    let rest = search test n (i + 1) processes in
    if test (get_or processes i no_process) then some i else rest

abbrev pub has_pid : ℕ → Process → Bool
has_pid pid p = not (is_free p.state) && (p.pid == pid)

abbrev pub has_task_id : ℕ → Process → Bool
has_task_id task_id p = not (is_free p.state) && (p.task_id == task_id)

-- A process is the index of its record, and `none` is NULL.
pub user_process_find_by_pid : List Process → ℕ → Option ℕ
user_process_find_by_pid processes pid = search (has_pid pid) process_max 0 processes

pub user_process_find_by_task_id : List Process → ℕ → Option ℕ
user_process_find_by_task_id processes task_id =
    search (has_task_id task_id) process_max 0 processes

-- The process of the task that runs.
abbrev pub current_process : Userland → Option ℕ
current_process s = user_process_find_by_task_id s.processes (sched_current_task_id s.sched)

abbrev pub enlist : List Process → Option ℕ → Option ℕ × List Process
enlist processes none = (none, processes)
enlist processes (some i) = (
  some i,
  set processes i (record no_process { state = ProcessState.created; parent_pid = no_parent }),
)

pub user_process_alloc : List Process → Option ℕ × List Process
user_process_alloc processes =
    enlist processes (search (λ p. is_free p.state) process_max 0 processes)

-- For a process that is not NULL.
pub user_process_release : List Process → ℕ → List Process
user_process_release processes i = set processes i no_process

-- The body of the loop of `user_process_orphan_children`.
pub orphan_child : ℕ → ℕ → List Process → List Process
orphan_child i parent processes =
    let child = get_or processes i no_process in
    let orphan = set processes i (record child { parent_pid = no_parent }) in
    if is_free child.state
    then processes
    else if not (child.parent_pid == (get_or processes parent no_process).pid)
    then processes
    else if is_exited child.state
    then user_process_release orphan i
    else orphan

pub orphan_from : ℕ → ℕ → ℕ → List Process → List Process
orphan_from zero i parent processes = processes
orphan_from (suc n) i parent processes =
    orphan_from n (i + 1) parent (orphan_child i parent processes)

pub user_process_orphan_children : List Process → ℕ → List Process
user_process_orphan_children processes parent = orphan_from process_max 0 parent processes
