-- ===== src/Process/Calls/Waiting.antt =====
-- kernel/user.c: `user_wait` and the status that a process exits with.
use Prim.Native.Nat.{ℕ}
use emyx.Base.{
  ◌<◌, ◌≡◌, ◌≢◌, inl, inr, refl, sym, ap, subst, ◌∙◌, true, false, none, some, List, [], ◌∷◌,
  get_or, set, Bool-cases, arith, get_or-set_self, get_or-set_ne,
}
use native.Mathlib.Decide.{ℕ_discrete}
use emyx.Process.{
  Process, ProcessState, is_free, no_process, has_pid, Userland, process_at, current_process,
  user_process_find_by_pid, user_process_release,
}
use emyx.Process.Table.{IsTable, search-only, search-none}
use emyx.Process.Calls.{
  Wait, wait_child, wait_round, wait_loop, wait_by, user_wait, user_exit_current,
}
use emyx.Process.Calls.Exit.{user_exit_current_lem, current-taken, orphaned-has}

-- The process with an id is the one that is found by it.
pub find-own :
    (ps : List Process) (next i : ℕ)
    → IsTable ps next
    → i < 16
    → is_free (get_or ps i no_process).state ≡ false
    → user_process_find_by_pid ps (get_or ps i no_process).pid ≡ some i
unfolding user_process_find_by_pid
find-own ps next i v h on =
    let pid = (get_or ps i no_process).pid in
    search-only (has_pid pid) ps i h (ground (arith, on))
      (λ j hj here. v.unique j i hj h (ground (arith, here)) on (ground (arith, here)))

-- Once its record is released, it is not found.
pub find-released :
    (ps : List Process) (next i : ℕ)
    → IsTable ps next
    → i < 16
    → is_free (get_or ps i no_process).state ≡ false
    → user_process_find_by_pid (user_process_release ps i) (get_or ps i no_process).pid ≡ none
unfolding user_process_find_by_pid user_process_release
find-released ps next i v h on =
    let pid = (get_or ps i no_process).pid in
    search-none (has_pid pid) (set ps i no_process) (λ j hj. elim (ℕ_discrete j i) [
      | yes same ↦
          rw (same, get_or-set_self ps i no_process no_process (omega (arith, h, v.size))) refl
      | no ne ↦
          rw (get_or-set_ne ps i j no_process no_process (λ e. ne (sym e))) (elsewhere j hj ne)
    ])
  where
    elsewhere :
        (j : ℕ)
        → j < 16
        → j ≢ i
        → has_pid (get_or ps i no_process).pid (get_or ps j no_process) ≡ false
    elsewhere j hj ne =
        elim (Bool-cases (has_pid (get_or ps i no_process).pid (get_or ps j no_process))) [
          | inr off ↦ off
          | inl here ↦
              absurd (ne (v.unique j i hj h (ground (arith, here)) on (ground (arith, here))))
        ]

wait_round-over :
    (s : Userland) (caller pid child : ℕ)
    → user_process_find_by_pid s.processes pid ≡ some child
    → (process_at s child).parent_pid ≡ (process_at s caller).pid
    → (process_at s child).state ≡ ProcessState.exited
    → wait_round s caller pid
      ≡ Wait.done
          (some (process_at s child).exit_status)
          (record s { processes = user_process_release s.processes child })
unfolding wait_round wait_child
wait_round-over s caller pid child here parent over = rw (here, over) (ground (arith, parent))

-- A wait for a child that is over is done at once, whatever the other tasks would do.
wait-over :
    (turns : List (Userland → Userland)) (s : Userland) (caller pid child : ℕ)
    → user_process_find_by_pid s.processes pid ≡ some child
    → (process_at s child).parent_pid ≡ (process_at s caller).pid
    → (process_at s child).state ≡ ProcessState.exited
    → wait_loop turns s caller pid
      ≡ Wait.done
          (some (process_at s child).exit_status)
          (record s { processes = user_process_release s.processes child })
unfolding wait_loop
wait-over [] s caller pid child here parent over =
    wait_round-over s caller pid child here parent over
wait-over (turn ∷ turns) s caller pid child here parent over =
    rw (wait_round-over s caller pid child here parent over) refl

wait_round-gone :
    (s : Userland) (caller pid : ℕ)
    → user_process_find_by_pid s.processes pid ≡ none
    → wait_round s caller pid ≡ Wait.done none s
unfolding wait_round wait_child
wait_round-gone s caller pid gone = rw gone refl

-- A wait for a process that is not there fails at once.
wait-gone :
    (turns : List (Userland → Userland)) (s : Userland) (caller pid : ℕ)
    → user_process_find_by_pid s.processes pid ≡ none
    → wait_loop turns s caller pid ≡ Wait.done none s
unfolding wait_loop
wait-gone [] s caller pid gone = wait_round-gone s caller pid gone
wait-gone (turn ∷ turns) s caller pid gone = rw (wait_round-gone s caller pid gone) refl

-- Where the table keeps its invariant and process `i` runs, whose parent is there: after it has
-- exited with a status, `user_wait` of the parent for its id returns that status at once, whatever
-- the other tasks would do, and releases the record; a second wait for the id fails and changes
-- nothing. The parent waits in any state with the table that the exit, or the first wait, has
-- left.
pub exit-wait :
    (s : Userland) (i parent status : ℕ) (r r' : Userland)
    (turns turns' : List (Userland → Userland))
    → IsTable s.processes s.next_pid
    → current_process s ≡ some i
    → parent < 16
    → has_pid (process_at s i).parent_pid (process_at s parent) ≡ true
    → r.processes ≡ (user_exit_current s status).processes
    → current_process r ≡ some parent
    → r'.processes ≡ user_process_release r.processes i
    → current_process r' ≡ some parent
    → (user_wait turns r (process_at s i).pid
        ≡ Wait.done (some status) (record r { processes = user_process_release r.processes i }))
      × (user_wait turns' r' (process_at s i).pid ≡ Wait.done none r')
unfolding user_wait wait_by
exit-wait s i parent status r r' turns turns' v running hp here same turn same' turn' =
    let e = user_exit_current_lem s i status v running in
    let x = user_exit_current s status in
    let taken = current-taken s i running in
    let over = e.awaited parent hp here in
    let pid = (process_at s i).pid in
    let later = v.numbered i taken.0 taken.1 in
    let apart : parent ≢ i = λ eq. absurd (
      ground (
        arith,
        later,
        subst (λ j. has_pid (process_at s i).parent_pid (process_at s j) ≡ true) eq here,
      )) in
    let kept =
      e.others parent hp apart
      ∙ orphaned-has pid (process_at s i).parent_pid (process_at s parent) later.1
          (λ on. (v.numbered parent hp on).1) here in
    let at : process_at r i ≡ process_at x i = ap (λ ps. get_or ps i no_process) same in
    let atp : process_at r parent ≡ process_at s parent =
      ap (λ ps. get_or ps parent no_process) same ∙ kept in
    let v' : IsTable r.processes x.next_pid = rw same e.table in
    let on : is_free (process_at r i).state ≡ false = rw (at, over.over) refl in
    let pid_r : (process_at r i).pid ≡ pid = ap (λ p. p.pid) at ∙ over.pid in
    let own : user_process_find_by_pid r.processes pid ≡ some i =
      subst (λ n. user_process_find_by_pid r.processes n ≡ some i) pid_r
        (find-own r.processes x.next_pid i v' taken.0 on) in
    let gone : user_process_find_by_pid r'.processes pid ≡ none =
      ap (λ ps. user_process_find_by_pid ps pid) same'
      ∙ subst (λ n. user_process_find_by_pid (user_process_release r.processes i) n ≡ none) pid_r
          (find-released r.processes x.next_pid i v' taken.0 on) in
    let its : (process_at s parent).pid ≡ (process_at s i).parent_pid = ground (arith, here) in
    let par : (process_at r i).parent_pid ≡ (process_at r parent).pid =
      ap (λ p. p.parent_pid) at ∙ (over.parent_pid ∙ (sym its ∙ sym (ap (λ p. p.pid) atp))) in
    (
      rw turn (
          wait-over turns r parent pid i own par (ap (λ p. p.state) at ∙ over.over)
          ∙ ap
              (λ n.
                Wait.done (some n) (record r { processes = user_process_release r.processes i }))
              (ap (λ p. p.exit_status) at ∙ over.exit_status)),
      rw turn' (wait-gone turns' r' parent pid gone),
    )
