-- ===== src/Process/Orphans.antt =====
-- kernel/user.c: what becomes of the children of a process that exits.
use Prim.Native.Nat.{ℕ, zero, suc}
use emyx.Base.{
  ◌+◌, ◌≤◌, ◌<◌, ◌≡◌, ◌≢◌, inl, inr, refl, sym, ap, subst, ◌∙◌, not, ◌&&◌, List, get_or, set, ltb,
  leb, ◌==◌, if◌then◌else◌, Bool-cases, arith, length, length-set, get_or-set_self, get_or-set_ne,
  set-set, set-get_or,
}
use native.Mathlib.Decide.{ℕ_discrete}
use emyx.Process.Table.{IsTable, set-IsTable, keep-IsTable, zeroed}
use emyx.Process.{
  Process, is_free, is_exited, no_process, no_parent, orphan_child, orphan_from,
  user_process_release, user_process_orphan_children,
}

-- A record once the process `pid` is no parent any more.
abbrev pub orphaned : ℕ → Process → Process
orphaned pid c =
    if not (is_free c.state) && (c.parent_pid == pid)
    then (if is_exited c.state then no_process else record c { parent_pid = no_parent })
    else c

-- The table after the children of `pid` among the records from `lo` on and below `hi` are orphaned.
pub record Orphans (ps : List Process) (pid lo hi : ℕ) (rs : List Process) : Type 0 where
  pub size : length rs ≡ length ps
  pub child :
      (j : ℕ)
      → j < 16
      → get_or rs j no_process ≡ (
          if leb lo j && ltb j hi
          then orphaned pid (get_or ps j no_process)
          else get_or ps j no_process)

-- The record that the loop's body leaves at `i`.
orphan_child-set :
    (ps : List Process) (i parent : ℕ)
    → (set ps i (orphaned (get_or ps parent no_process).pid (get_or ps i no_process))
        ≡ orphan_child i parent ps)
unfolding orphan_child user_process_release
orphan_child-set ps i parent =
    let c = get_or ps i no_process in
    let pid = (get_or ps parent no_process).pid in
    elim (Bool-cases (is_free c.state)) [
      | inl free ↦ rw free (set-get_or ps i no_process)
      | inr taken ↦ elim (Bool-cases (c.parent_pid == pid)) [
        | inr stranger ↦ rw (taken, stranger) (set-get_or ps i no_process)
        | inl child ↦ elim (Bool-cases (is_exited c.state)) [
          | inl over ↦
              rw (taken, child, over)
                (sym (set-set ps i (record c { parent_pid = no_parent }) no_process))
          | inr alive ↦ rw (taken, child, alive) refl
        ]
      ]
    ]

orphan_one :
    (ps : List Process) (i parent : ℕ)
    → length ps ≡ 16
    → i < 16
    → Orphans ps (get_or ps parent no_process).pid i (i + 1) (orphan_child i parent ps)
orphan_one ps i parent size h =
    let pid = (get_or ps parent no_process).pid in
    let c = orphaned pid (get_or ps i no_process) in
    rw (sym (orphan_child-set ps i parent)) (record {
      size = length-set ps i c;
      child = λ j hj. elim (ℕ_discrete j i) [
        | yes same ↦ rw same (ground (arith, get_or-set_self ps i c no_process (omega arith)))
        | no other ↦ ground (arith, get_or-set_ne ps i j c no_process (λ e. other (sym e)))
      ];
    })

add_suc : (i n : ℕ) → i + 1 + n ≡ i + suc n
add_suc i n = omega arith

orphan_more :
    (ps qs rs : List Process) (pid lo mid hi : ℕ)
    → lo ≤ mid
    → mid ≤ hi
    → Orphans ps pid lo mid qs
    → Orphans qs pid mid hi rs
    → Orphans ps pid lo hi rs
orphan_more ps qs rs pid lo mid hi l m a b = record {
  size = b.size ∙ a.size;
  child = λ j hj. ground (arith, a.child j hj, b.child j hj);
}

orphan_from_lem :
    (n i parent : ℕ) (ps : List Process)
    → length ps ≡ 16
    → i + n ≤ 16
    → parent < 16
    → (get_or ps parent no_process).parent_pid ≢ (get_or ps parent no_process).pid
    → Orphans ps (get_or ps parent no_process).pid i (i + n) (orphan_from n i parent ps)
unfolding orphan_from
orphan_from_lem zero i parent ps size h hp ne = record { size = refl; child = λ j hj. ground arith }
orphan_from_lem (suc n) i parent ps size h hp ne =
    let one = orphan_one ps i parent size (omega arith) in
    let qs = orphan_child i parent ps in
    let p = get_or ps parent no_process in
    let same : get_or qs parent no_process ≡ p = ground (arith, one.child parent hp) in
    let rest =
      orphan_from_lem n (i + 1) parent qs (one.size ∙ size) (omega arith) hp (rw same ne) in
    orphan_more ps qs (orphan_from n (i + 1) parent qs) p.pid i (i + 1) (i + suc n) (omega arith)
      (omega arith) one
      (rw (sym (ap (λ q. q.pid) same)) (
        subst
          (λ hi.
            Orphans qs (get_or qs parent no_process).pid (i + 1) hi
              (orphan_from n (i + 1) parent qs))
          (add_suc i n) rest))

-- `user_process_orphan_children` does to every record what it should.
pub orphan_children_lem :
    (ps : List Process) (parent : ℕ)
    → length ps ≡ 16
    → parent < 16
    → (get_or ps parent no_process).parent_pid ≢ (get_or ps parent no_process).pid
    → (length (user_process_orphan_children ps parent) ≡ 16)
      × ((j : ℕ)
          → j < 16
          → get_or (user_process_orphan_children ps parent) j no_process
            ≡ orphaned (get_or ps parent no_process).pid (get_or ps j no_process))
unfolding user_process_orphan_children
orphan_children_lem ps parent size hp ne =
    let all = orphan_from_lem 16 0 parent ps size (omega arith) hp ne in
    (all.size ∙ size, λ j hj. ground (arith, all.child j hj))

orphan_one-IsTable :
    (ps : List Process) (next i parent : ℕ)
    → IsTable ps next
    → i < 16
    → IsTable (orphan_child i parent ps) next
orphan_one-IsTable ps next i parent v h =
    rw (sym (orphan_child-set ps i parent)) (by_cases (get_or ps parent no_process).pid)
  where
    by_cases : (pid : ℕ) → IsTable (set ps i (orphaned pid (get_or ps i no_process))) next
    by_cases pid =
        let c = get_or ps i no_process in
        elim (Bool-cases (is_free c.state)) [
          | inl free ↦ rw (free, set-get_or ps i no_process) v
          | inr taken ↦ elim (Bool-cases (c.parent_pid == pid)) [
            | inr stranger ↦ rw (taken, stranger, set-get_or ps i no_process) v
            | inl child ↦ elim (Bool-cases (is_exited c.state)) [
              | inl over ↦
                  rw (taken, child, over)
                    (set-IsTable ps next next i no_process v (omega arith) h (zeroed refl))
              | inr alive ↦
                  rw (taken, child, alive)
                    (keep-IsTable ps next i (record c { parent_pid = no_parent }) v h taken taken
                      refl (omega arith))
            ]
          ]
        ]

-- `user_process_orphan_children` keeps the table's invariant.
pub orphan_from-IsTable :
    (n i parent next : ℕ) (ps : List Process)
    → IsTable ps next
    → i + n ≤ 16
    → IsTable (orphan_from n i parent ps) next
unfolding orphan_from
orphan_from-IsTable zero i parent next ps v h = v
orphan_from-IsTable (suc n) i parent next ps v h =
    orphan_from-IsTable n (i + 1) parent next (orphan_child i parent ps)
      (orphan_one-IsTable ps next i parent v (omega arith)) (omega arith)

pub orphan_children-IsTable :
    (ps : List Process) (parent next : ℕ)
    → IsTable ps next
    → IsTable (user_process_orphan_children ps parent) next
unfolding user_process_orphan_children
orphan_children-IsTable ps parent next v = orphan_from-IsTable 16 0 parent next ps v (omega arith)
