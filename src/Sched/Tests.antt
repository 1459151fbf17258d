-- ===== src/Sched/Tests.antt =====
-- kernel/sched.c at a table of three tasks.
use Prim.Native.Nat.{ℕ}
use emyx.Base.{
  ◌≡◌, ◌≤◌, refl, Bool, true, [], ◌∷◌, replicate, not, ◌||◌, ◌==◌, holds_up_to, holds_up_to-at,
  arith,
}
use emyx.Pmm.Examples.{pages}
use emyx.Vmm.{Vmm}
use emyx.Sched.{Sched, TaskState, no_task, task_at, is_running, sched_yield}
use emyx.Sched.Freed.{store_of, given_back}
use emyx.Sched.Table.{Reaps}
use emyx.Sched.Yield.{IsScheduled, Yields, sched_yield_lem}
use emyx.Sched.Fair.{Runs, distance, sched_yield-Runs}

abbrev memory : Vmm
memory = record { pmm = pages; words = λ p. 0; kernel_page_directory = 0x1000; invalidated = [] }

-- Task 0 runs, task 1 is a zombie, and task 2 can run.
abbrev three : Sched
three = record {
  tasks =
      record no_task { id = 0; state = TaskState.running; address_space = 0x1000 }
      ∷ record no_task { id = 1; state = TaskState.zombie; address_space = 0x1000 }
      ∷ record no_task {
        id = 2;
        state = TaskState.runnable;
        address_space = 0x1000;
        entry = 0xC0100000;
      }
      ∷ replicate 13 no_task;
  current_task = 0;
  next_task_id = 3;
  vmm = memory;
  heap = [];
  directory = 0x1000;
  kernel_stack = 0;
}

abbrev stopped : ℕ → Bool
stopped j = (j == 0) || not (is_running (task_at three j).state)

all_stopped : holds_up_to stopped 16 ≡ true
unfolding holds_up_to
all_stopped = refl

three-IsScheduled : IsScheduled three
three-IsScheduled = record {
  size = refl;
  current_in = omega arith;
  current_on = refl;
  others = λ j h ne. ground (arith, holds_up_to-at stopped 16 all_stopped j h);
}

sched_yield_lem_example :
    IsScheduled (sched_yield three 0xC0002F00)
    × ((reaped : Sched) × Reaps three 1 16 reaped
        × Yields reaped 0xC0002F00 (sched_yield three 0xC0002F00))
    × (store_of (sched_yield three 0xC0002F00) ≡ given_back 15 1 three (store_of three))
sched_yield_lem_example = sched_yield_lem three 0xC0002F00 three-IsScheduled

sched_yield-Runs_example : (distance three 2 ≤ 15) × Runs 2 (distance three 2) three
sched_yield-Runs_example = sched_yield-Runs three 2 three-IsScheduled (omega arith) refl
