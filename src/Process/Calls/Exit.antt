-- ===== src/Process/Calls/Exit.antt =====
-- kernel/user.c: what `user_exit_current` leaves of the process, its children and its parent.
use Prim.Native.Nat.{ℕ}
use emyx.Base.{
  ◌<◌, ◌≡◌, ◌≢◌, inl, inr, refl, sym, ap, subst, ◌∙◌, true, false, Option, none, some, List, get_or,
  set, ◌==◌, Bool-cases, arith, length, length-set, get_or-set_self, get_or-set_ne, set-set,
}
use native.Mathlib.Decide.{ℕ_discrete}
use emyx.Sched.{sched_current_task_id}
use emyx.Process.{
  Process, ProcessState, is_free, is_exited, no_process, has_pid, Userland, process_at, put_process,
  current_process, user_process_find_by_pid, user_process_find_by_task_id, user_process_release,
  user_process_orphan_children, has_task_id,
}
use emyx.Process.Table.{IsTable, keep-IsTable, release-IsTable, search-found, search-hits}
use emyx.Process.Orphans.{orphaned, orphan_children_lem, orphan_children-IsTable}
use emyx.Process.Load.{user_process_free_pages}
use emyx.Process.Load.Edits.{Keeps, free_pages-Edits, edited}
use emyx.Process.Calls.{exit_process, exit_current, release_orphan, user_exit_current}

-- The record of a process that has exited, until its parent has waited for it.
pub record IsOver (p : Process) (status : ℕ) (q : Process) : Type 0 where
  pub over : q.state ≡ ProcessState.exited
  pub exit_status : q.exit_status ≡ status
  pub pid : q.pid ≡ p.pid
  pub task_id : q.task_id ≡ p.task_id
  pub parent_pid : q.parent_pid ≡ p.parent_pid
  pub address_space : q.address_space ≡ 0

-- The table once the process `i` has exited, up to the test for a parent.
pub record Over (s : Userland) (i status : ℕ) (r : Userland) : Type 0 where
  gone : Process
  is_over : IsOver (process_at s i) status gone
  processes : r.processes ≡ user_process_orphan_children (set s.processes i gone) i
  next_pid : r.next_pid ≡ s.next_pid
  tasks : r.sched.tasks ≡ s.sched.tasks
  current_task : r.sched.current_task ≡ s.sched.current_task

-- The state before the test for a parent.
abbrev over_state : Userland → ℕ → ℕ → Userland
over_state s i status =
    let s1 =
      user_process_free_pages
        (put_process s i
          (record (process_at s i) { exit_status = status; state = ProcessState.exited }))
        i in
    let s2 = put_process s1 i (record (process_at s1 i) { address_space = 0 }) in
    record s2 { processes = user_process_orphan_children s2.processes i }

over_state-Over :
    (s : Userland) (i status : ℕ) → i < length s.processes → Over s i status (over_state s i status)
over_state-Over s i status h =
    let q : Process = record (process_at s i) {
      exit_status = status;
      state = ProcessState.exited;
    } in
    let s0 = put_process s i q in
    let h0 : i < length s0.processes = rw (length-set s.processes i q) h in
    let e = free_pages-Edits s0 i h0 in
    let s1 = user_process_free_pages s0 i in
    let own : process_at s0 i ≡ q = get_or-set_self s.processes i q no_process h in
    let at : process_at s1 i ≡ e.record_of = edited s0 s1 i e h0 in
    let k : Keeps q e.record_of = subst (λ p. Keeps p e.record_of) own e.keeps in
    let g : Process = record (process_at s1 i) { address_space = 0 } in
    record {
      gone = g;
      is_over = record {
        over = ap (λ p. p.state) at ∙ k.state;
        exit_status = ap (λ p. p.exit_status) at ∙ k.exit_status;
        pid = ap (λ p. p.pid) at ∙ k.pid;
        task_id = ap (λ p. p.task_id) at ∙ k.task_id;
        parent_pid = ap (λ p. p.parent_pid) at ∙ k.parent_pid;
        address_space = refl;
      };
      processes =
          ap (λ ps. user_process_orphan_children ps i)
            (ap (λ ps. set ps i g) e.processes
              ∙ (set-set (set s.processes i q) i e.record_of g ∙ set-set s.processes i q g));
      next_pid = e.next_pid;
      tasks = e.tasks;
      current_task = e.current_task;
    }

-- What `user_exit_current` does where process `i` runs.
pub record Exits (s : Userland) (i status : ℕ) (r : Userland) : Type 0 where
  pub table : IsTable r.processes r.next_pid
  pub others :
      (j : ℕ) → j < 16 → j ≢ i → process_at r j ≡ orphaned (process_at s i).pid (process_at s j)
  pub awaited :
      (k : ℕ)
      → k < 16
      → has_pid (process_at s i).parent_pid (process_at s k) ≡ true
      → IsOver (process_at s i) status (process_at r i)
  pub unawaited :
      ((k : ℕ) → k < 16 → has_pid (process_at s i).parent_pid (process_at s k) ≡ false)
      → process_at r i ≡ no_process
  pub next_pid : r.next_pid ≡ s.next_pid
  pub tasks : r.sched.tasks ≡ s.sched.tasks
  pub current_task : r.sched.current_task ≡ s.sched.current_task

orphaned-not_child : (pid : ℕ) (c : Process) → c.parent_pid ≢ pid → orphaned pid c ≡ c
orphaned-not_child pid c ne = ground arith

-- A process that is there is still there once the children of another, later one are orphaned.
pub orphaned-has :
    (pid parent : ℕ) (c : Process)
    → parent < pid
    → (is_free c.state ≡ false → c.parent_pid < c.pid)
    → has_pid parent c ≡ true
    → orphaned pid c ≡ c
orphaned-has pid parent c l before on =
    orphaned-not_child pid c (λ e. absurd (ground (arith, before)))

-- And one that is not there does not appear.
orphaned-lacks :
    (pid parent : ℕ) (c : Process)
    → has_pid parent c ≡ false
    → has_pid parent (orphaned pid c) ≡ false
orphaned-lacks pid parent c off = elim (Bool-cases (is_free c.state)) [
  | inl free ↦ rw free off
  | inr taken ↦ elim (Bool-cases (c.parent_pid == pid)) [
    | inr stranger ↦ rw (taken, stranger) off
    | inl child ↦ elim (Bool-cases (is_exited c.state)) [
      | inl over ↦ rw (taken, child, over) refl
      | inr alive ↦ rw (taken, child, alive, taken) (ground arith)
    ]
  ]
]

-- The record that the process leaves is one that is over, and not free.
IsOver-taken :
    (p : Process) (status : ℕ) (q : Process) → IsOver p status q → is_free q.state ≡ false
IsOver-taken p status q o = rw (o.over) refl

module _ (s : Userland) (i status : ℕ) (v : IsTable s.processes s.next_pid) (h : i < 16)
    (on : is_free (process_at s i).state ≡ false) (r : Userland) (o : Over s i status r) where
  abbrev p : Process
  p = process_at s i

  abbrev mid : List Process
  mid = set s.processes i o.gone

  mid-IsTable : IsTable mid s.next_pid
  mid-IsTable =
      keep-IsTable s.processes s.next_pid i o.gone v h on (IsOver-taken p status o.gone o.is_over)
        (o.is_over.pid) (omega (arith, o.is_over.parent_pid))

  own : get_or mid i no_process ≡ o.gone
  own = get_or-set_self s.processes i o.gone no_process (omega (arith, v.size))

  other : (j : ℕ) → j ≢ i → get_or mid j no_process ≡ process_at s j
  other j ne = get_or-set_ne s.processes i j o.gone no_process (λ e. ne (sym e))

  later : (process_at s i).parent_pid < (process_at s i).pid
  later = (v.numbered i h on).1

  all :
      (length (user_process_orphan_children mid i) ≡ 16)
      × ((j : ℕ)
          → j < 16
          → get_or (user_process_orphan_children mid i) j no_process
            ≡ orphaned (get_or mid i no_process).pid (get_or mid j no_process))
  all =
      orphan_children_lem mid i (mid-IsTable.size) h
        (rw own (λ e. absurd (omega (arith, later, o.is_over.pid, o.is_over.parent_pid))))

  at : (j : ℕ) → j < 16 → process_at r j ≡ orphaned (process_at s i).pid (get_or mid j no_process)
  at j hj =
      ap (λ ps. get_or ps j no_process) o.processes
      ∙ (all.1 j hj
          ∙ ap (λ g. orphaned g.pid (get_or mid j no_process)) own
          ∙ ap (λ n. orphaned n (get_or mid j no_process)) o.is_over.pid)

  -- The process is not its own child.
  at_own : process_at r i ≡ o.gone
  at_own =
      at i h
      ∙ (ap (orphaned p.pid) own
          ∙ orphaned-not_child p.pid o.gone
              (λ e. absurd (omega (arith, later, o.is_over.parent_pid))))

  others : (j : ℕ) → j < 16 → j ≢ i → process_at r j ≡ orphaned p.pid (process_at s j)
  others j hj ne = at j hj ∙ ap (orphaned p.pid) (other j ne)

  table : IsTable r.processes r.next_pid
  table = rw (o.processes, o.next_pid) (orphan_children-IsTable mid i s.next_pid mid-IsTable)

  -- A parent that was there is still there.
  parent_on :
      (k : ℕ)
      → k < 16
      → has_pid p.parent_pid (process_at s k) ≡ true
      → has_pid (process_at r i).parent_pid (process_at r k) ≡ true
  parent_on k hk here =
      let kept =
        orphaned-has p.pid p.parent_pid (process_at s k) later (λ a. (v.numbered k hk a).1) here in
      rw (ap (λ q. q.parent_pid) at_own ∙ o.is_over.parent_pid) (
        rw
          (
            others k hk (λ e. absurd (
                ground (
                  arith,
                  later,
                  subst (λ j. has_pid p.parent_pid (process_at s j) ≡ true) e here,
                ))),
            kept,
          )
          here)

  parent_off :
      ((k : ℕ) → k < 16 → has_pid p.parent_pid (process_at s k) ≡ false)
      → (k : ℕ) → k < 16
      → has_pid (process_at r i).parent_pid (process_at r k) ≡ false
  parent_off lacking k hk = elim (ℕ_discrete k i) [
    | yes same ↦ rw (same, at_own, o.is_over.parent_pid) (ground (arith, o.is_over.pid, later))
    | no ne ↦
        rw (ap (λ q. q.parent_pid) at_own ∙ o.is_over.parent_pid, others k hk ne)
          (orphaned-lacks p.pid p.parent_pid (process_at s k) (lacking k hk))
  ]

  -- The end of the call, for what the search for the parent finds.
  pub settle :
      (found : Option ℕ)
      → user_process_find_by_pid r.processes (process_at r i).parent_pid ≡ found
      → Exits s i status (release_orphan i r found)
  unfolding release_orphan user_process_find_by_pid user_process_release
  settle none e = record {
    table = release-IsTable r.processes r.next_pid i table h;
    others = λ j hj ne.
        get_or-set_ne r.processes i j no_process no_process (λ e'. ne (sym e')) ∙ others j hj ne;
    awaited = λ k hk here.
        let hit =
          search-hits (has_pid (process_at r i).parent_pid) r.processes k hk
            (parent_on k hk here) in
        absurd (ground (arith, sym e ∙ hit.1));
    unawaited = λ lacking.
        get_or-set_self r.processes i no_process no_process (omega (arith, h, table.size));
    next_pid = o.next_pid;
    tasks = o.tasks;
    current_task = o.current_task;
  }
  settle (some k) e =
      let hit = search-found (has_pid (process_at r i).parent_pid) r.processes k e in
      record {
        table = table;
        others = others;
        awaited = λ j hj here. rw at_own o.is_over;
        unawaited = λ lacking. absurd (ground (arith, hit.1, parent_off lacking k hit.0));
        next_pid = o.next_pid;
        tasks = o.tasks;
        current_task = o.current_task;
      }

exit_process_lem :
    (s : Userland) (i status : ℕ)
    → IsTable s.processes s.next_pid
    → i < 16
    → is_free (process_at s i).state ≡ false
    → Exits s i status (exit_process s i status)
unfolding exit_process
exit_process_lem s i status v h on =
    let r = over_state s i status in
    settle s i status v h on r (over_state-Over s i status (omega (arith, v.size)))
      (user_process_find_by_pid r.processes (process_at r i).parent_pid) refl

-- The process that runs is one of the table.
pub current-taken :
    (s : Userland) (i : ℕ)
    → current_process s ≡ some i
    → (i < 16) × (is_free (process_at s i).state ≡ false)
unfolding user_process_find_by_task_id
current-taken s i e =
    let hit = search-found (has_task_id (sched_current_task_id s.sched)) s.processes i e in
    (hit.0, ground (arith, hit.1))

-- Where the table keeps its invariant and process `i` runs, `user_exit_current` keeps the
-- invariant and leaves ids and tasks alone; every child of the process loses its parent, and its
-- record, too, if it had exited already; all other records stay. The record of the process stays,
-- as exited, with the status and without its address space, if its parent is there, and is
-- released otherwise.
pub user_exit_current_lem :
    (s : Userland) (i status : ℕ)
    → IsTable s.processes s.next_pid
    → current_process s ≡ some i
    → Exits s i status (user_exit_current s status)
unfolding user_exit_current exit_current
user_exit_current_lem s i status v e =
    let taken = current-taken s i e in rw e (exit_process_lem s i status v taken.0 taken.1)
