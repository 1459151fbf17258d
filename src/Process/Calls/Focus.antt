-- ===== src/Process/Calls/Focus.antt =====
-- kernel/user.c: who has the keyboard.
use Prim.Native.Nat.{ℕ}
use emyx.Base.{
  ◌<◌, ◌≡◌, ◌⊎◌, inl, inr, refl, Bool, true, false, Option, none, some, Bool-cases, arith, ltb,
  if◌then◌else◌, sym, ap, ◌∙◌,
}
use native.Mathlib.Decide.{ℕ_discrete}
use emyx.Process.{
  is_free, is_running, has_task_id, Userland, process_at, search, current_process,
  user_process_find_by_task_id,
}
use emyx.Sched.{sched_current_task_id}
use emyx.Process.Table.{Found, missing, found, search_lem}
use emyx.Process.Calls.{parent_pid_of, runs_now, user_has_input_focus}

-- A record of the table is that of the task that runs.
abbrev pub IsCurrent : Userland → ℕ → Type 0
IsCurrent s i =
    (is_free (process_at s i).state ≡ false)
    × ((process_at s i).task_id ≡ sched_current_task_id s.sched)

-- The processes have the keyboard while they are started from the kernel, and where the first record of
-- the task that runs is one of a running process.
abbrev pub HasFocus : Userland → Type 0
HasFocus s =
    (s.userland_active ≡ true)
    ⊎ ((i : ℕ) × (i < 16)
        × IsCurrent s i
        × ((j : ℕ) → j < i → IsCurrent s j → ⊥)
        × (is_running (process_at s i).state ≡ true))

pub data Focuses (s : Userland) : Type 0 where
  focused : user_has_input_focus s ≡ true → HasFocus s → Focuses s
  not_focused : user_has_input_focus s ≡ false → (HasFocus s → ⊥) → Focuses s

tested :
    (s : Userland) (i : ℕ)
    → has_task_id (sched_current_task_id s.sched) (process_at s i) ≡ true
    → IsCurrent s i
tested s i e = (ground arith, ground arith)

not_tested :
    (s : Userland) (i : ℕ)
    → has_task_id (sched_current_task_id s.sched) (process_at s i) ≡ false
    → IsCurrent s i
    → ⊥
not_tested s i e c = let task = c.1 in absurd (ground (arith, e, c.0, task))

-- By what the look-up of the running task's process finds.
runs_now-Focuses :
    (s : Userland) (o : Option ℕ)
    → s.userland_active ≡ false
    → user_has_input_focus s ≡ runs_now s o
    → Found (has_task_id (sched_current_task_id s.sched)) s.processes 0 16 o
    → Focuses s
runs_now-Focuses s none idle e (missing off) = not_focused e (λ f. elim f [
  | inl active ↦ absurd (ground (arith, idle))
  | inr (i, hi, c, first, run) ↦ not_tested s i (off i (omega arith) hi) c
])
runs_now-Focuses s (some _) idle e (found k lo hi on first) =
    let own = tested s k on in
    elim (Bool-cases (is_running (process_at s k).state)) [
      | inl run ↦
          focused (e ∙ run)
            (inr (k, hi, own, (λ j lt. not_tested s j (first j (omega arith) lt)), run))
      | inr stopped ↦ not_focused (e ∙ stopped) (λ f. elim f [
        | inl active ↦ absurd (ground (arith, idle))
        | inr (i, hi', c, first', run) ↦ elim (ℕ_discrete i k) [
          | yes same ↦
              let clash : is_running (process_at s k).state ≡ true =
                ap (λ (l : ℕ). is_running (process_at s l).state) (sym same) ∙ run in
              absurd (ground (arith, stopped))
          | no other ↦ elim (Bool-cases (ltb i k)) [
            | inl before ↦ not_tested s i (first i (omega arith) (ground arith)) c
            | inr after ↦ first' k (ground (arith, other)) own
          ]
        ]
      ])
    ]

-- `user_has_input_focus` tells whether the processes have the keyboard.
pub user_has_input_focus-Focuses : (s : Userland) → Focuses s
unfolding user_has_input_focus user_process_find_by_task_id
user_has_input_focus-Focuses s =
    let test = has_task_id (sched_current_task_id s.sched) in
    let focus_by : Bool → Bool = λ b. if b then true else runs_now s (current_process s) in
    elim (Bool-cases s.userland_active) [
      | inl active ↦ focused (ap focus_by active) (inl active)
      | inr idle ↦
          runs_now-Focuses s (search test 16 0 s.processes) idle (ap focus_by idle)
            (search_lem test s.processes)
    ]

-- The id that a process spawned now has for its parent: 0 where the running task has no process, and
-- otherwise the id of its first process.
pub record IsParentPid (s : Userland) (pid : ℕ) : Type 0 where
  pub no_process_runs : ((i : ℕ) → i < 16 → IsCurrent s i → ⊥) → pid ≡ 0
  pub process_runs :
      (i : ℕ)
      → i < 16
      → IsCurrent s i
      → ((j : ℕ) → j < i → IsCurrent s j → ⊥)
      → pid ≡ (process_at s i).pid

parent_pid_of-some :
    (s : Userland) (o : Option ℕ)
    → Found (has_task_id (sched_current_task_id s.sched)) s.processes 0 16 o
    → IsParentPid s (parent_pid_of s o)
parent_pid_of-some s none (missing off) = record {
  no_process_runs = λ none_there. refl;
  process_runs = λ i hi c first. absurd (not_tested s i (off i (omega arith) hi) c);
}
parent_pid_of-some s (some _) (found k lo hi on first) = record {
  no_process_runs = λ none_there. absurd (none_there k hi (tested s k on));
  process_runs = λ i hi' c first'. elim (ℕ_discrete i k) [
    | yes same ↦ ap (λ (l : ℕ). (process_at s l).pid) (sym same)
    | no other ↦ elim (Bool-cases (ltb i k)) [
      | inl before ↦ absurd (not_tested s i (first i (omega arith) (ground arith)) c)
      | inr after ↦ absurd (first' k (ground (arith, other)) (tested s k on))
    ]
  ];
}

pub parent_pid_of-IsParentPid : (s : Userland) → IsParentPid s (parent_pid_of s (current_process s))
unfolding user_process_find_by_task_id
parent_pid_of-IsParentPid s =
    let test = has_task_id (sched_current_task_id s.sched) in
    parent_pid_of-some s (search test 16 0 s.processes) (search_lem test s.processes)

parent_pid_of-only :
    (s : Userland) (o : Option ℕ) (pid : ℕ)
    → Found (has_task_id (sched_current_task_id s.sched)) s.processes 0 16 o
    → IsParentPid s pid
    → pid ≡ parent_pid_of s o
parent_pid_of-only s none pid (missing off) p =
    p.no_process_runs (λ i hi. not_tested s i (off i (omega arith) hi))
parent_pid_of-only s (some _) pid (found k lo hi on first) p =
    p.process_runs k hi (tested s k on) (λ j lt. not_tested s j (first j (omega arith) lt))

-- There is just one such id.
pub IsParentPid-only :
    (s : Userland) (pid : ℕ) → IsParentPid s pid → pid ≡ parent_pid_of s (current_process s)
unfolding user_process_find_by_task_id
IsParentPid-only s pid p =
    let test = has_task_id (sched_current_task_id s.sched) in
    parent_pid_of-only s (search test 16 0 s.processes) pid (search_lem test s.processes) p
