-- ===== src/Sched/Switch.antt =====
-- kernel/sched.c: what a switch from one task to another does to the task table.
use Prim.Native.Nat.{ℕ}
use emyx.Base.{
  ◌<◌, ◌≡◌, ◌≢◌, inl, inr, refl, sym, ap, ◌∙◌, true, false, List, ◌==◌, if◌then◌else◌, Bool-cases,
  arith, length, set, get_or, length-set, get_or-set_self, get_or-set_ne,
}
use native.Mathlib.Decide.{ℕ_discrete}
use emyx.Sched.{
  Sched, Task, TaskState, task_at, no_task, is_running, switch_to, sched_set_kernel_task,
}

-- The entries of the two tasks of a switch.
abbrev pub switched_in : Sched → ℕ → Task
switched_in s idx = record (task_at s idx) { state = TaskState.running }

abbrev pub yielded : Sched → Task
yielded s = record (task_at s s.current_task) {
  state =
      if is_running (task_at s s.current_task).state
      then TaskState.runnable
      else (task_at s s.current_task).state;
}

abbrev pub switched_out : Sched → ℕ → Task
switched_out s esp = record (yielded s) { stack_pointer = esp }

module _ (s : Sched) (idx esp : ℕ) (size : length s.tasks ≡ 16) (h : s.current_task < 16)
    (hi : idx < 16) (ne : idx ≢ s.current_task) where
  pub switched_table : List Task
  switched_table =
      set (set (set s.tasks s.current_task (yielded s)) idx (switched_in s idx)) s.current_task
        (switched_out s esp)

  pub switch_to-fields :
      ((switch_to s idx esp).tasks ≡ switched_table)
      × ((switch_to s idx esp).current_task ≡ idx)
      × ((switch_to s idx esp).directory ≡ (task_at s idx).address_space)
  unfolding switch_to sched_set_kernel_task switched_table
  switch_to-fields =
      let one = set s.tasks s.current_task (yielded s) in
      let kept : get_or one idx no_task ≡ task_at s idx =
        get_or-set_ne s.tasks s.current_task idx (yielded s) no_task (λ e. ne (sym e)) in
      let in_now : get_or (set one idx (switched_in s idx)) idx no_task ≡ switched_in s idx =
        get_or-set_self one idx (switched_in s idx) no_task
          (omega (arith, length-set s.tasks s.current_task (yielded s))) in
      let out_now : get_or (set one idx (switched_in s idx)) s.current_task no_task ≡ yielded s =
        get_or-set_ne one idx s.current_task (switched_in s idx) no_task ne
        ∙ get_or-set_self s.tasks s.current_task (yielded s) no_task (omega arith) in
      elim (Bool-cases ((task_at s idx).stack == 0)) [
        | inl no_stack ↦ rw (kept, in_now, no_stack, out_now) (refl, refl, refl)
        | inr stack ↦ rw (kept, in_now, stack, out_now) (refl, refl, refl)
      ]

  switched_table-at :
      (j : ℕ)
      → j < 16
      → get_or switched_table j no_task ≡ (
          if j == idx
          then switched_in s idx
          else if j == s.current_task
          then switched_out s esp
          else task_at s j)
  unfolding switched_table
  switched_table-at j hj =
      let one = set s.tasks s.current_task (yielded s) in
      let two = set one idx (switched_in s idx) in
      let long : length two ≡ 16 = omega (
        arith,
        length-set s.tasks s.current_task (yielded s),
        length-set one idx (switched_in s idx),
      ) in
      elim (ℕ_discrete j s.current_task) [
        | yes same ↦
            let off : (j == idx) ≡ false = ground arith in
            let on : (j == s.current_task) ≡ true = ground arith in
            rw (off, on, same)
              (get_or-set_self two s.current_task (switched_out s esp) no_task (omega arith))
        | no other ↦
            let off : (j == s.current_task) ≡ false = ground arith in
            rw off (
              get_or-set_ne two s.current_task j (switched_out s esp) no_task (λ e. other (sym e))
              ∙ elim (ℕ_discrete j idx) [
                | yes same ↦
                    let on : (j == idx) ≡ true = ground arith in
                    rw (on, same)
                      (get_or-set_self one idx (switched_in s idx) no_task
                        (omega (arith, length-set s.tasks s.current_task (yielded s))))
                | no ne_idx ↦
                    let miss : (j == idx) ≡ false = ground arith in
                    rw miss (
                      get_or-set_ne one idx j (switched_in s idx) no_task (λ e. ne_idx (sym e))
                      ∙ get_or-set_ne s.tasks s.current_task j (yielded s) no_task
                          (λ e. other (sym e)))
              ])
      ]

  length-switched_table : length switched_table ≡ 16
  unfolding switched_table
  length-switched_table =
      let one = set s.tasks s.current_task (yielded s) in
      let two = set one idx (switched_in s idx) in
      length-set two s.current_task (switched_out s esp)
      ∙ length-set one idx (switched_in s idx)
      ∙ length-set s.tasks s.current_task (yielded s)
      ∙ size

  pub length-switch_to : length (switch_to s idx esp).tasks ≡ 16
  length-switch_to = ap length switch_to-fields.0 ∙ length-switched_table

  -- The entries after a switch from the current task to task `idx`.
  pub switch_to-task :
      (j : ℕ)
      → j < 16
      → task_at (switch_to s idx esp) j ≡ (
          if j == idx
          then switched_in s idx
          else if j == s.current_task
          then switched_out s esp
          else task_at s j)
  switch_to-task j hj =
      ap (λ (ts : List Task). get_or ts j no_task) switch_to-fields.0 ∙ switched_table-at j hj
