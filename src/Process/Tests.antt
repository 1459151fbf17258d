-- ===== src/Process/Tests.antt =====
-- kernel/user.c at a table of two processes, the first of which is the other's parent.
use Prim.Native.Nat.{ℕ}
use emyx.Base.{
  ap, ◌+◌, ◌≤◌, ◌<◌, ◌≡◌, ◌≢◌, refl, sym, ◌∙◌, false, none, some, List, [], ◌∷◌, get_or, set, arith,
  get_or-replicate, get_or-set_self, get_or-set_ne,
}
use native.Mathlib.Decide.{ℕ_discrete}
use emyx.Sched.{sched_current_task_id}
use emyx.Process.{
  Process, no_process, Userland, has_task_id, process_at, current_process, search,
  user_process_find_by_task_id, user_process_release,
}
use emyx.Process.Table.{search-only}
use emyx.Process.Orphans.{orphaned}
use emyx.Process.Calls.{Wait, user_spawn, user_wait, user_exit_current, init_path}
use emyx.Process.Calls.Exit.{Exits, user_exit_current_lem}
use emyx.Process.Calls.Waiting.{exit-wait}
use emyx.Process.Calls.Invariant.{HasTable, begin, next, spawns, exits, Reach-HasTable}
use emyx.Process.Examples.{none_yet, init, shell, two-IsTable, machine, code}

runs_shell : current_process (machine 2) ≡ some 1
unfolding user_process_find_by_task_id search sched_current_task_id
runs_shell = refl

user_exit_current_lem_example : Exits (machine 2) 1 7 (user_exit_current (machine 2) 7)
user_exit_current_lem_example = user_exit_current_lem (machine 2) 1 7 two-IsTable runs_shell

abbrev over : Userland
over = record (machine 1) { processes = (user_exit_current (machine 2) 7).processes }

exited : Exits (machine 2) 1 7 (user_exit_current (machine 2) 7)
exited = user_exit_current_lem (machine 2) 1 7 two-IsTable runs_shell

others_free : (j : ℕ) → j < 16 → j ≢ 0 → j ≢ 1 → process_at (machine 2) j ≡ no_process
others_free j hj ne ne' =
    get_or-set_ne (set none_yet 0 init) 1 j shell no_process (λ e. ne' (sym e))
    ∙ (get_or-set_ne none_yet 0 j init no_process (λ e. ne (sym e))
        ∙ get_or-replicate 16 j no_process no_process hj)

-- A table with init, a record that is free or has another task, and nothing else.
init_only :
    (ps : List Process)
    → get_or ps 0 no_process ≡ init
    → has_task_id 1 (get_or ps 1 no_process) ≡ false
    → ((j : ℕ) → j < 16 → j ≢ 0 → j ≢ 1 → get_or ps j no_process ≡ no_process)
    → user_process_find_by_task_id ps 1 ≡ some 0
unfolding user_process_find_by_task_id
init_only ps first second rest =
    search-only (has_task_id 1) ps 0 (omega arith) (rw first refl) (λ j hj. elim (ℕ_discrete j 0) [
      | yes a ↦ λ here. a
      | no a ↦ elim (ℕ_discrete j 1) [
        | yes b ↦ rw b (λ here. absurd (ground (arith, here, second)))
        | no b ↦ rw (rest j hj a b) (λ here. absurd (ground (arith, here)))
      ]
    ])

over_rest : (j : ℕ) → j < 16 → j ≢ 0 → j ≢ 1 → process_at over j ≡ no_process
over_rest j hj a b = exited.others j hj b ∙ ap (orphaned 2) (others_free j hj a b)

-- With task 1 running, init is the process that runs.
over_runs_init : current_process over ≡ some 0
unfolding sched_current_task_id
over_runs_init =
    init_only over.processes (exited.others 0 (omega arith) (ground arith))
      (ground (arith, (exited.awaited 0 (omega arith) refl).task_id)) over_rest

abbrev collected : Userland
collected = record over { processes = user_process_release over.processes 1 }

collected_runs_init : current_process collected ≡ some 0
unfolding sched_current_task_id user_process_release
collected_runs_init =
    let ps = over.processes in
    let other : (j : ℕ)
        → j ≢ 1
        → get_or (set ps 1 no_process) j no_process ≡ get_or ps j no_process =
      λ j ne. get_or-set_ne ps 1 j no_process no_process (λ e. ne (sym e)) in
    init_only (set ps 1 no_process)
      (other 0 (ground arith) ∙ exited.others 0 (omega arith) (ground arith))
      (rw (get_or-set_self ps 1 no_process no_process (omega (arith, exited.table.size))) refl)
      (λ j hj a b. other j b ∙ over_rest j hj a b)

exit-wait_example :
    (user_wait [] over 2
      ≡ Wait.done (some 7) (record over { processes = user_process_release over.processes 1 }))
    × (user_wait ((λ s. s) ∷ []) collected 2 ≡ Wait.done none collected)
exit-wait_example =
    exit-wait (machine 2) 1 0 7 over collected [] ((λ s. s) ∷ []) two-IsTable runs_shell
      (omega arith) refl refl over_runs_init refl collected_runs_init

Reach-HasTable_example :
    HasTable (user_exit_current (user_spawn code (machine 2) init_path).1 7)
    × ((user_exit_current (user_spawn code (machine 2) init_path).1 7).next_pid ≤ 3 + 1)
Reach-HasTable_example =
    Reach-HasTable code (machine 2) 1
      (user_exit_current (user_spawn code (machine 2) init_path).1 7) two-IsTable (omega arith)
      (next (next begin (spawns init_path)) (exits 7))
