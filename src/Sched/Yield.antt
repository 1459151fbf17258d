-- ===== src/Sched/Yield.antt =====
-- kernel/sched.c: `sched_yield` is round robin.
use Prim.Native.Nat.{ℕ, zero, suc}
use emyx.Base.{
  ◌+◌, ◌-◌, ◌%◌, ◌≤◌, ◌<◌, ◌≡◌, ◌≢◌, inl, inr, refl, sym, ap, ◌∙◌, Bool, true, false, Option, none,
  some, ◌==◌, if◌then◌else◌, Bool-cases, arith, length,
}
use native.Mathlib.Decide.{ℕ_discrete}
use emyx.Sched.{
  Sched, Task, TaskState, task_at, no_task, is_running, is_runnable, reap_zombies, next_runnable,
  switch_to, yield_to, sched_yield, max_tasks,
}
use emyx.Sched.Switch.{
  switched_in, switched_out, switch_to-fields, length-switch_to, switch_to-task,
}
use emyx.Sched.Freed.{store_of, given_back, sched_yield-store}
use emyx.Sched.Table.{Reaps, reap_zombies-Reaps}

-- What the scan for a runnable task finds: none in the whole table, or the first one after the
-- current task, going round.
pub data Scans (s : Sched) (r : Option ℕ) : Type 0 where
  all_blocked : r ≡ none → ((j : ℕ) → j < 16 → is_runnable (task_at s j).state ≡ false) → Scans s r
  found :
      (d : ℕ)
      → r ≡ some ((s.current_task + d) % 16)
      → 1 ≤ d
      → d ≤ 16
      → is_runnable (task_at s ((s.current_task + d) % 16)).state ≡ true
      → ((e : ℕ)
          → 1 ≤ e
          → e < d
          → is_runnable (task_at s ((s.current_task + e) % 16)).state ≡ false)
      → Scans s r

scan :
    (n i : ℕ) (s : Sched)
    → s.current_task < 16
    → i + n ≡ 17
    → 1 ≤ i
    → ((e : ℕ) → 1 ≤ e → e < i → is_runnable (task_at s ((s.current_task + e) % 16)).state ≡ false)
    → Scans s (next_runnable n i s)
unfolding next_runnable
scan zero i s h e lo before = all_blocked refl (λ j hj.
    elim (ℕ_discrete ((s.current_task + ((j + 16 - s.current_task - 1) % 16 + 1)) % 16) j) [
      | yes same ↦
          ap (λ (k : ℕ). is_runnable (task_at s k).state) (sym same)
          ∙ before ((j + 16 - s.current_task - 1) % 16 + 1) (omega arith) (omega arith)
      | no ne ↦ absurd (omega arith)
    ])
scan (suc n) i s h e lo before =
    elim (Bool-cases (is_runnable (task_at s ((s.current_task + i) % max_tasks)).state)) [
      | inl on ↦ rw on (found i refl lo (omega arith) on before)
      | inr off ↦ rw off (
          scan n (i + 1) s h (omega arith) (omega arith) (λ k lo' hi. elim (ℕ_discrete k i) [
            | yes same ↦ rw same off
            | no ne ↦ before k lo' (omega arith)
          ]))
    ]

-- The table has its sixteen tasks, and none but the current one is running, which has not yielded.
pub record IsScheduled (s : Sched) : Type 0 where
  pub size : length s.tasks ≡ 16
  pub current_in : s.current_task < 16
  pub current_on : is_runnable (task_at s s.current_task).state ≡ false
  pub others : (j : ℕ) → j < 16 → j ≢ s.current_task → is_running (task_at s j).state ≡ false

-- What `sched_yield` does once the zombies are reaped, `s` being the table then: nothing where no task
-- can run, or a switch to the first task that can, counted from the current one and going round.
pub data Yields (s : Sched) (esp : ℕ) (r : Sched) : Type 0 where
  idle : r ≡ s → ((j : ℕ) → j < 16 → is_runnable (task_at s j).state ≡ false) → Yields s esp r
  switches :
      (d : ℕ)
      → 1 ≤ d
      → d < 16
      → is_runnable (task_at s ((s.current_task + d) % 16)).state ≡ true
      → ((e : ℕ)
          → 1 ≤ e
          → e < d
          → is_runnable (task_at s ((s.current_task + e) % 16)).state ≡ false)
      → r.current_task ≡ (s.current_task + d) % 16
      → r.directory ≡ (task_at s ((s.current_task + d) % 16)).address_space
      → is_running (task_at r r.current_task).state ≡ true
      → ((j : ℕ)
          → j < 16
          → task_at r j ≡ (
              if j == (s.current_task + d) % 16
              then switched_in s ((s.current_task + d) % 16)
              else if j == s.current_task
              then switched_out s esp
              else task_at s j))
      → Yields s esp r

module _ (s : Sched) (idx esp : ℕ) (v : IsScheduled s) (hi : idx < 16)
    (on : is_runnable (task_at s idx).state ≡ true) where
  runnable_ne : idx ≢ s.current_task
  runnable_ne same =
      let clash : is_runnable (task_at s s.current_task).state ≡ true =
        ap (λ (k : ℕ). is_runnable (task_at s k).state) (sym same) ∙ on in
      absurd (ground (arith, v.current_on))

  switch_to-current : task_at (switch_to s idx esp) idx ≡ switched_in s idx
  switch_to-current =
      let here : (idx == idx) ≡ true = ground arith in
      switch_to-task s idx esp v.size v.current_in hi runnable_ne idx hi ∙ rw here refl

  switch_to-IsScheduled : IsScheduled (switch_to s idx esp)
  switch_to-IsScheduled =
      let k = switch_to-fields s idx esp v.size v.current_in hi runnable_ne in
      record {
        size = length-switch_to s idx esp v.size v.current_in hi runnable_ne;
        current_in = omega (arith, k.1);
        current_on = rw (k.1, switch_to-current) refl;
        others = λ j hj other.
            let miss : (j == idx) ≡ false = ground (arith, k.1) in
            elim (Bool-cases (j == s.current_task)) [
              | inl old ↦
                  rw (switch_to-task s idx esp v.size v.current_in hi runnable_ne j hj, miss, old)
                    stopped
              | inr else_where ↦
                  rw
                    (
                      switch_to-task s idx esp v.size v.current_in hi runnable_ne j hj,
                      miss,
                      else_where,
                    )
                    (v.others j hj (ground arith))
            ];
      }
    where
      stopped : is_running (switched_out s esp).state ≡ false
      stopped = elim (Bool-cases (is_running (task_at s s.current_task).state)) [
        | inl was ↦ rw was refl
        | inr not_was ↦ rw (not_was, not_was) refl
      ]

yield_to-Yields :
    (s : Sched) (esp : ℕ)
    → IsScheduled s
    → IsScheduled (yield_to s (next_runnable 16 1 s) esp)
      × Yields s esp (yield_to s (next_runnable 16 1 s) esp)
unfolding yield_to
yield_to-Yields s esp v =
    elim (scan 16 1 s v.current_in (omega arith) (omega arith) (λ e lo hi. absurd (omega arith))) [
      | all_blocked e all ↦ rw e (v, idle refl all)
      | found d e lo hi on before ↦
          let idx : ℕ = (s.current_task + d) % 16 in
          let inside : idx < 16 = omega arith in
          let ne = runnable_ne s idx esp v inside on in
          let k = switch_to-fields s idx esp v.size v.current_in inside ne in
          let short : d < 16 = elim (ℕ_discrete d 16) [
            | yes full ↦ absurd (ne (omega arith))
            | no less ↦ omega arith
          ] in
          rw e (
            switch_to-IsScheduled s idx esp v inside on,
            switches d lo short on before k.1 k.2
                (rw (k.1, switch_to-current s idx esp v inside on) refl)
                (switch_to-task s idx esp v.size v.current_in inside ne),
          )
    ]

-- A test that no unused entry meets.
unmet :
    (test : TaskState → Bool) (b : Bool) (t : Task)
    → test TaskState.unused ≡ false
    → test t.state ≡ false
    → test (if b then no_task else t).state ≡ false
unmet test true t e e' = e
unmet test false t e e' = e'

pub reap_zombies-IsScheduled : (s : Sched) → IsScheduled s → IsScheduled (reap_zombies s)
reap_zombies-IsScheduled s v =
    let r = reap_zombies-Reaps s v.size in
    record {
      size = r.size ∙ v.size;
      current_in = omega (arith, r.current, v.current_in);
      current_on =
          rw (r.current, r.task s.current_task v.current_in)
            (unmet is_runnable _ (task_at s s.current_task) refl v.current_on);
      others = λ j hj other.
          rw (r.task j hj) (
            unmet is_running _ (task_at s j) refl (v.others j hj (λ e. other (e ∙ sym r.current))));
    }

-- As `sched_yield_lem`, of the table that `reap_zombies` leaves.
pub sched_yield-Yields :
    (s : Sched) (esp : ℕ)
    → IsScheduled s
    → IsScheduled (sched_yield s esp) × Yields (reap_zombies s) esp (sched_yield s esp)
unfolding sched_yield
sched_yield-Yields s esp v = yield_to-Yields (reap_zombies s) esp (reap_zombies-IsScheduled s v)

-- Where no task but the current one is running, and that one is not runnable, this stays so.
-- `sched_yield` first clears the entries of all zombies but task 0 and the current one, and no other
-- entry, and then switches to the first task that can run, counted from the current one and going
-- round, or does no more where there is none. The task that yields stays runnable if it was
-- running, with its stack pointer saved; the next one is running, in its address space; every
-- other entry is as it was once the zombies are cleared, and no two tasks are running. The page tables
-- and the heap are those left when each such zombie, in turn, has given back its address space, if that
-- is not the kernel's, and its stack.
pub sched_yield_lem :
    (s : Sched) (esp : ℕ)
    → IsScheduled s
    → IsScheduled (sched_yield s esp)
      × ((reaped : Sched) × Reaps s 1 16 reaped × Yields reaped esp (sched_yield s esp))
      × (store_of (sched_yield s esp) ≡ given_back 15 1 s (store_of s))
sched_yield_lem s esp v =
    let y = sched_yield-Yields s esp v in
    (y.0, (reap_zombies s, reap_zombies-Reaps s v.size, y.1), sched_yield-store s esp)
