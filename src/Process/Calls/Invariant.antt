-- ===== src/Process/Calls/Invariant.antt =====
-- kernel/user.c: the process table across every series of calls.
use Prim.Native.Nat.{ℕ}
use emyx.Base.{
  ◌+◌, ◌^◌, ◌≤◌, ◌<◌, ◌≡◌, inl, inr, refl, sym, subst, ◌∙◌, Bool, true, false, Option, none, some,
  ◌==◌, Bool-cases, Option-cases, arith,
}
use emyx.Sched.{Sched, sched_set_current_address_space}
use emyx.Process.{
  ProcessState, is_free, is_exited, Userland, process_at, current_process, user_process_find_by_pid,
  has_pid,
}
use emyx.Process.Table.{
  IsTable, set-IsTable, keep-IsTable, release-IsTable, grow-IsTable, process, search-found,
}
use emyx.Process.Load.{user_process_free_pages, user_prepare_exec}
use emyx.Process.Load.Edits.{Edits, edited, free_pages-Edits, prepare_exec-Edits}
use emyx.Process.Calls.Focus.{IsParentPid-only}
use emyx.Process.Calls.{
  Code, fail_spawn, fail_exec, Exec, returned, entered, enter_space, exec_prepared, exec_process,
  user_exec_task, Wait, done, yields, wait_child, wait_round, user_spawn, user_exit_current,
  exit_current, parent_pid_of,
}
use emyx.Process.Calls.Spawn.{Spawns, refused, failed, spawned, user_spawn_lem}
use emyx.Process.Calls.Exit.{user_exit_current_lem, current-taken}

-- The table of a state.
abbrev pub HasTable : Userland → Type 0
HasTable s = IsTable s.processes s.next_pid

parent-lt :
    (s : Userland) (o : Option ℕ)
    → HasTable s
    → current_process s ≡ o
    → parent_pid_of s o < s.next_pid
parent-lt s none v e = v.begun
parent-lt s (some i) v e = let t = current-taken s i e in (v.numbered i t.0 t.1).0

pub spawn-HasTable :
    (code : Code) (s : Userland) (path : ℕ → ℕ) (result : Option ℕ × Userland)
    → HasTable s
    → Spawns code s path result
    → HasTable result.1 × (result.1.next_pid ≤ s.next_pid + 1)
spawn-HasTable code s path _ v (refused why) = (v, omega arith)
spawn-HasTable code s path _ v (failed r same next) = (
  rw (same, next) (grow-IsTable s.processes s.next_pid (s.next_pid + 1) v (omega arith)),
  omega (arith, next),
)
spawn-HasTable code s path _ v (spawned r i space task_id vmm h free e ne e' new a b at next k) =
    let p = process_at r i in
    let lt = parent-lt s (current_process s) v refl in
    (
      subst (λ ps. IsTable ps r.next_pid) (sym at)
          (set-IsTable s.processes s.next_pid r.next_pid i p v (omega (arith, next)) h (
            process (rw (new.state) refl) (omega (arith, new.pid, next))
              (omega (arith, lt, new.pid, IsParentPid-only s _ new.parent_pid))
              (λ j hj ne on same. absurd (omega (arith, new.pid, same, (v.numbered j hj on).0))))),
      omega (arith, next),
    )

fail_exec-HasTable :
    (s : Userland) (i : ℕ)
    → HasTable s
    → i < 16
    → HasTable (fail_exec s i) × ((fail_exec s i).next_pid ≡ s.next_pid)
unfolding fail_exec fail_spawn
fail_exec-HasTable s i v h =
    let released = release-IsTable s.processes s.next_pid i v h in
    elim (Bool-cases ((process_at s i).address_space == 0)) [
      | inl no_space ↦ rw no_space (released, refl)
      | inr space ↦ rw space (released, refl)
    ]

-- An edit keeps the table.
edit-HasTable :
    (s : Userland) (i : ℕ) (r : Userland)
    → HasTable s
    → i < 16
    → is_free (process_at s i).state ≡ false
    → Edits s i r
    → HasTable r × (is_free (process_at r i).state ≡ false)
edit-HasTable s i r v h on e =
    let at = edited s r i e (omega (arith, h, v.size)) in
    let on' : is_free e.record_of.state ≡ false = rw (e.keeps.state) on in
    (
      rw (e.processes, e.next_pid)
          (keep-IsTable s.processes s.next_pid i e.record_of v h on on' e.keeps.pid
            (omega (arith, e.keeps.parent_pid))),
      rw at on',
    )

-- The state that `user_exec_task` ends in.
abbrev pub after_exec : Exec → Userland
after_exec (returned s) = s
after_exec (entered i s) = s

enter-HasTable :
    (i : ℕ) (s : Userland) (result : Bool × Sched)
    → HasTable s
    → i < 16
    → is_free (process_at s i).state ≡ false
    → HasTable (after_exec (enter_space i s result))
      × ((after_exec (enter_space i s result)).next_pid ≡ s.next_pid)
unfolding enter_space
enter-HasTable i s (false, sched) v h on =
    let s1 : Userland = record s { sched = sched } in
    let e = free_pages-Edits s1 i (omega (arith, h, v.size)) in
    let r = user_process_free_pages s1 i in
    let f = fail_exec-HasTable r i (edit-HasTable s1 i r v h on e).0 h in (f.0, f.1 ∙ e.next_pid)
enter-HasTable i s (true, sched) v h on = (
  keep-IsTable s.processes s.next_pid i (record (process_at s i) { state = ProcessState.running }) v
      h on refl refl (omega arith),
  refl,
)

prepared-HasTable :
    (i : ℕ) (s : Userland) (result : Bool × Userland)
    → HasTable s
    → i < 16
    → is_free (process_at s i).state ≡ false
    → Edits s i result.1
    → HasTable (after_exec (exec_prepared i result))
      × ((after_exec (exec_prepared i result)).next_pid ≡ s.next_pid)
unfolding exec_prepared
prepared-HasTable i s (false, r) v h on e =
    let f = fail_exec-HasTable r i (edit-HasTable s i r v h on e).0 h in (f.0, f.1 ∙ e.next_pid)
prepared-HasTable i s (true, r) v h on e =
    let k = edit-HasTable s i r v h on e in
    let f =
      enter-HasTable i r (sched_set_current_address_space r.sched (process_at r i).address_space)
        k.0 h k.1 in
    (f.0, f.1 ∙ e.next_pid)

exec-HasTable :
    (s : Userland)
    → HasTable s
    → HasTable (after_exec (user_exec_task s))
      × ((after_exec (user_exec_task s)).next_pid ≡ s.next_pid)
unfolding user_exec_task exec_process
exec-HasTable s v = elim (Option-cases (current_process s)) [
  | inl no_one ↦ rw no_one (v, refl)
  | inr (i, e) ↦
      let t = current-taken s i e in
      rw e (
        prepared-HasTable i s (user_prepare_exec s i (process_at s i).path) v t.0 t.1
          (prepare_exec-Edits s i (process_at s i).path (omega (arith, t.0, v.size))))
]

exit-none : (s : Userland) (status : ℕ) → current_process s ≡ none → user_exit_current s status ≡ s
unfolding user_exit_current exit_current
exit-none s status e = rw e refl

exit-HasTable :
    (s : Userland) (status : ℕ)
    → HasTable s
    → HasTable (user_exit_current s status) × ((user_exit_current s status).next_pid ≡ s.next_pid)
exit-HasTable s status v = elim (Option-cases (current_process s)) [
  | inl no_one ↦ rw (exit-none s status no_one) (v, refl)
  | inr (i, e) ↦ let x = user_exit_current_lem s i status v e in (x.table, x.next_pid)
]

-- The state after a round of `user_wait`, if the round is the last.
abbrev pub after_wait : Userland → Wait → Userland
after_wait s (done status r) = r
after_wait s yields = s

pub wait-HasTable :
    (s : Userland) (caller pid : ℕ) (o : Option ℕ)
    → HasTable s
    → user_process_find_by_pid s.processes pid ≡ o
    → HasTable (after_wait s (wait_child s caller o))
      × ((after_wait s (wait_child s caller o)).next_pid ≡ s.next_pid)
unfolding wait_child user_process_find_by_pid
wait-HasTable s caller pid none v e = (v, refl)
wait-HasTable s caller pid (some i) v e =
    let hit = search-found (has_pid pid) s.processes i e in
    elim (Bool-cases ((process_at s i).parent_pid == (process_at s caller).pid)) [
      | inr stranger ↦ rw stranger (v, refl)
      | inl own ↦ elim (Bool-cases (is_exited (process_at s i).state)) [
        | inl over ↦ rw (own, over) (release-IsTable s.processes s.next_pid i v hit.0, refl)
        | inr alive ↦ rw (own, alive) (v, refl)
      ]
    ]

-- What one task or another does next; whatever else happens leaves the table alone.
pub data Step (code : Code) (s : Userland) : ℕ → Userland → Type 0 where
  spawns : (path : ℕ → ℕ) → Step code s 1 (user_spawn code s path).1
  execs : Step code s 0 (after_exec (user_exec_task s))
  waits : (caller pid : ℕ) → Step code s 0 (after_wait s (wait_round s caller pid))
  exits : (status : ℕ) → Step code s 0 (user_exit_current s status)
  elsewhere : (r : Userland) → r.processes ≡ s.processes → r.next_pid ≡ s.next_pid → Step code s 0 r

-- What is reached with `n` calls of `user_spawn` from the state after booting.
pub data Reach (code : Code) (start : Userland) : ℕ → Userland → Type 0 where
  begin : Reach code start 0 start
  next :
      {n k : ℕ} {s r : Userland}
      → Reach code start n s
      → Step code s k r
      → Reach code start (n + k) r

pub Step-HasTable :
    (code : Code) (s r : Userland) (k : ℕ)
    → HasTable s
    → s.next_pid + 1 < 2 ^ 32
    → Step code s k r
    → HasTable r × (r.next_pid ≤ s.next_pid + k)
unfolding wait_round
Step-HasTable code s _ _ v below (spawns path) =
    spawn-HasTable code s path (user_spawn code s path) v (user_spawn_lem code s path v below)
Step-HasTable code s _ _ v below execs = let e = exec-HasTable s v in (e.0, omega (arith, e.1))
Step-HasTable code s _ _ v below (waits caller pid) =
    let w = wait-HasTable s caller pid (user_process_find_by_pid s.processes pid) v refl in
    (w.0, omega (arith, w.1))
Step-HasTable code s _ _ v below (exits status) =
    let e = exit-HasTable s status v in (e.0, omega (arith, e.1))
Step-HasTable code s _ _ v below (elsewhere r same same') =
    (rw (same, same') v, omega (arith, same'))

-- From a state whose table keeps its invariant, every series of spawns, executions, waits and
-- exits by any tasks, with anything in between that leaves the table alone, keeps it, so that ids
-- stay unique, as long as the ids of the `n` spawns do not wrap around; the next id grows by `n`
-- at most.
pub Reach-HasTable :
    (code : Code) (start : Userland) (n : ℕ) (s : Userland)
    → HasTable start
    → start.next_pid + n + 1 < 2 ^ 32
    → Reach code start n s
    → HasTable s × (s.next_pid ≤ start.next_pid + n)
Reach-HasTable code start _ _ v below begin = (v, omega arith)
Reach-HasTable code start _ _ v below (next {n} {k} {s} {r} before step) =
    let b = Reach-HasTable code start n s v (omega (arith, below)) before in
    let a = Step-HasTable code s r k b.0 (omega (arith, below, b.1)) step in
    (a.0, omega (arith, a.1, b.1))
