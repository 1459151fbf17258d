-- ===== src/Sched/Fair.antt =====
-- kernel/sched.c: no task that can run is passed over for ever.
use Prim.Native.Nat.{ℕ, zero, suc}
use emyx.Base.{
  ◌+◌, ◌-◌, ◌%◌, ◌≤◌, ◌<◌, ◌≡◌, ◌≢◌, inl, inr, refl, sym, ap, ◌∙◌, Bool, true, false, not, ◌&&◌,
  ltb, leb, ◌==◌, if◌then◌else◌, Bool-cases, arith,
}
use native.Mathlib.Decide.{ℕ_discrete}
use emyx.Sched.{
  Sched, Task, TaskState, task_at, no_task, is_runnable, is_zombie, reap_zombies, sched_yield,
}
use emyx.Sched.Table.{reap_zombies-Reaps}
use emyx.Sched.Yield.{IsScheduled, idle, switches, sched_yield-Yields}

-- Task `j` is the current one after `n` calls of `sched_yield` at most, whatever stack pointers they save.
pub data Runs (j : ℕ) : ℕ → Sched → Type 0 where
  now : {n : ℕ} {s : Sched} → s.current_task ≡ j → Runs j n s
  soon : {n : ℕ} {s : Sched} → ((esp : ℕ) → Runs j n (sched_yield s esp)) → Runs j (suc n) s

-- How far task `j` is from the current one, going round.
abbrev pub distance : Sched → ℕ → ℕ
distance s j = (j + 16 - s.current_task) % 16

alive : (x : TaskState) → is_runnable x ≡ true → is_zombie x ≡ false
alive TaskState.unused e = refl
alive TaskState.runnable e = refl
alive TaskState.running e = refl
alive TaskState.zombie e = absurd (ground arith)

-- A task that can run is not reaped.
not_reaped :
    (b c : Bool) (t : Task)
    → is_runnable t.state ≡ true
    → is_runnable (if b && (c && is_zombie t.state) then no_task else t).state ≡ true
not_reaped true true t on = rw (alive t.state on) on
not_reaped true false t on = on
not_reaped false c t on = on

reaped-runnable :
    (s : Sched) (j : ℕ)
    → IsScheduled s
    → j < 16
    → is_runnable (task_at s j).state ≡ true
    → is_runnable (task_at (reap_zombies s) j).state ≡ true
reaped-runnable s j v h on =
    rw ((reap_zombies-Reaps s v.size).task j h)
      (not_reaped (leb 1 j && ltb j 16) (not (j == s.current_task)) (task_at s j) on)

fair_within :
    (n : ℕ) (s : Sched) (j : ℕ)
    → IsScheduled s
    → j < 16
    → is_runnable (task_at s j).state ≡ true
    → distance s j ≤ n
    → Runs j n s
fair_within zero s j v h on near = now (omega (arith, v.current_in))
fair_within (suc n) s j v h on near =
    soon (λ esp. after esp (λ s' v' on' near'. fair_within n s' j v' h on' near'))
  where
    r : Sched
    r = reap_zombies s

    current : r.current_task ≡ s.current_task
    current = (reap_zombies-Reaps s v.size).current

    on_r : is_runnable (task_at r j).state ≡ true
    on_r = reaped-runnable s j v h on

    not_current : j ≢ s.current_task
    not_current same =
        let clash : is_runnable (task_at s s.current_task).state ≡ true =
          ap (λ (k : ℕ). is_runnable (task_at s k).state) (sym same) ∙ on in
        absurd (ground (arith, v.current_on))

    away : (r.current_task + distance s j) % 16 ≡ j
    away = omega (arith, current, v.current_in)

    after :
        (esp : ℕ)
        → ((s' : Sched)
            → IsScheduled s'
            → is_runnable (task_at s' j).state ≡ true
            → distance s' j ≤ n
            → Runs j n s')
        → Runs j n (sched_yield s esp)
    after esp again = elim (sched_yield-Yields s esp v).1 [
      | idle e all ↦ absurd (ground (arith, all j h, on_r))
      | switches d lo hi on' first e dir run tasks ↦
          let close : d ≤ distance s j = elim (Bool-cases (leb d (distance s j))) [
            | inl le ↦ ground arith
            | inr gt ↦
                let off =
                  first (distance s j) (omega (arith, v.current_in, not_current)) (ground arith) in
                let clash : is_runnable (task_at r j).state ≡ false =
                  ap (λ (k : ℕ). is_runnable (task_at r k).state) (sym away) ∙ off in
                absurd (ground (arith, on_r))
          ] in
          elim (ℕ_discrete j ((r.current_task + d) % 16)) [
            | yes here ↦ now (e ∙ sym here)
            | no other ↦
                let miss : (j == (r.current_task + d) % 16) ≡ false = ground arith in
                let miss' : (j == r.current_task) ≡ false = ground (arith, current, not_current) in
                let same : task_at (sched_yield s esp) j ≡ task_at r j =
                  tasks j h ∙ rw (miss, miss') refl in
                again (sched_yield s esp) (sched_yield-Yields s esp v).0 (rw same on_r)
                  (omega (arith, e, current, v.current_in))
          ]
    ]

-- The scheduler is fair: where no task but the current one is running, and that one is not runnable, a
-- task that can run is the current one after fifteen yields at most with no other change between
-- them, as many as it is places after the current one, going round.
pub sched_yield-Runs :
    (s : Sched) (j : ℕ)
    → IsScheduled s
    → j < 16
    → is_runnable (task_at s j).state ≡ true
    → (distance s j ≤ 15) × Runs j (distance s j) s
sched_yield-Runs s j v h on = (omega arith, fair_within (distance s j) s j v h on (omega arith))
