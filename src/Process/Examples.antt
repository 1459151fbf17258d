-- ===== src/Process/Examples.antt =====
-- kernel/user.c: a table of two processes, the first of which is the other's parent, and a machine.
use Prim.Native.Nat.{ℕ}
use emyx.Base.{
  ◌-◌, refl, sym, true, List, [], ◌∷◌, replicate, get_or, set, arith, get_or-replicate,
  get_or-set_ne, codes, ◌++◌,
}
use native.Mathlib.Decide.{ℕ_discrete}
use emyx.Pmm.Examples.{pages}
use emyx.Memory.{Memory}
use emyx.Keyboard.{initial}
use emyx.Sched.{TaskState, no_task}
use emyx.Process.{Process, ProcessState, no_process, Userland}
use emyx.Process.Table.{IsTable, set-IsTable, process}
use emyx.Process.Calls.{Code}

abbrev pub none_yet : List Process
none_yet = replicate 16 no_process

none_yet-IsTable : IsTable none_yet 1
none_yet-IsTable = record {
  size = refl;
  begun = omega arith;
  unique = λ i j hi hj.
      rw (get_or-replicate 16 i no_process no_process hi) (λ on. absurd (ground arith));
  numbered =
      λ i hi. rw (get_or-replicate 16 i no_process no_process hi) (λ on. absurd (ground arith));
  unused = λ i hi off. get_or-replicate 16 i no_process no_process hi;
}

abbrev pub init : Process
init = record no_process {
  pid = 1;
  task_id = 1;
  state = ProcessState.running;
  address_space = 0x2000;
}

abbrev pub shell : Process
shell = record no_process {
  pid = 2;
  task_id = 2;
  parent_pid = 1;
  state = ProcessState.running;
  address_space = 0x3000;
}

abbrev pub two : List Process
two = set (set none_yet 0 init) 1 shell

pub two-IsTable : IsTable two 3
two-IsTable =
    set-IsTable (set none_yet 0 init) 2 3 1 shell
      (set-IsTable none_yet 1 2 0 init none_yet-IsTable (omega arith) (omega arith) (
        process refl (omega arith) (omega arith) (λ j hj ne.
          rw (get_or-replicate 16 j no_process no_process hj) (λ on. absurd (ground arith)))))
      (omega arith) (omega arith)
      (process refl (omega arith) (omega arith) (λ j hj ne. elim (ℕ_discrete j 0) [
        | yes first ↦ rw first (λ on e. absurd (ground arith))
        | no later ↦
            rw
              (
                get_or-set_ne none_yet 0 j init no_process (λ e. later (sym e)),
                get_or-replicate 16 j no_process no_process hj,
              )
              (λ on. absurd (ground arith))
      ]))

-- An archive at 0x1000 with "/bin/init", a program of one byte.
abbrev pub image : List ℕ
image =
    codes "EMXA"
    ++ (1 ∷ 0 ∷ 0 ∷ 0 ∷ [])
    ++ codes "/bin/init"
    ++ replicate 23 0
    ++ (48 ∷ 0 ∷ 0 ∷ 0 ∷ 13 ∷ 0 ∷ 0 ∷ 0 ∷ [])
    ++ codes "EMXF"
    ++ (1 ∷ 0 ∷ 0 ∷ 0 ∷ 0 ∷ 0 ∷ 0 ∷ 0 ∷ 144 ∷ [])

abbrev pub mem : Memory
mem p = get_or image (p - 0x1000) 0

-- Tasks 0 to 2, of which task `n` runs; the processes are those of tasks 1 and 2.
abbrev pub machine : ℕ → Userland
machine n = record {
  processes = two;
  next_pid = 3;
  userland_active = true;
  sched = record {
    tasks =
        record no_task { id = 0; state = TaskState.runnable; address_space = 0x1000 }
        ∷ record no_task { id = 1; state = TaskState.runnable; address_space = 0x2000 }
        ∷ record no_task { id = 2; state = TaskState.running; address_space = 0x3000 }
        ∷ replicate 13 no_task;
    current_task = n;
    next_task_id = 3;
    vmm = record { pmm = pages; words = λ p. 0; kernel_page_directory = 0x1000; invalidated = [] };
    heap = [];
    directory = 0x3000;
    kernel_stack = 0;
  };
  keyboard = initial;
  archive = record { start = 0x1000; size = 61 };
  memory = mem;
  output = [];
}

abbrev pub code : Code
code = record { user_exec_task = 0xC0100000; kthread_trampoline = 0xC0100040 }
