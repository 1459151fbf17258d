-- ===== src/Sched/Table.antt =====
-- kernel/sched.c: the task table, and what reaping zombies does to it.
use Prim.Native.Nat.{ℕ, zero, suc}
use emyx.Base.{
  ◌+◌, ◌≤◌, ◌<◌, ◌≡◌, inl, inr, refl, sym, ◌∙◌, Bool, not, ◌&&◌, ◌||◌, ltb, leb, ◌==◌,
  if◌then◌else◌, Bool-cases, arith, length, length-set, get_or-set_self, get_or-set_ne,
}
use native.Mathlib.Decide.{ℕ_discrete}
use emyx.Vmm.Spaces.{destroy-directory}
use emyx.Sched.{
  Sched, task_at, no_task, is_zombie, release_memory, task_cleanup, reap_from, reap_zombies,
}

-- What is left as it was when memory is given back.
pub release_memory-keeps :
    (s : Sched) (a st : ℕ)
    → ((release_memory s a st).tasks ≡ s.tasks)
      × ((release_memory s a st).current_task ≡ s.current_task)
      × ((release_memory s a st).next_task_id ≡ s.next_task_id)
      × ((release_memory s a st).vmm.kernel_page_directory ≡ s.vmm.kernel_page_directory)
unfolding release_memory
release_memory-keeps s a st = elim (Bool-cases (st == 0)) [
  | inl no_stack ↦ elim (Bool-cases (not (a == 0) && not (a == s.vmm.kernel_page_directory))) [
    | inl own ↦ rw (no_stack, own) (refl, refl, refl, destroy-directory s.vmm a)
    | inr shared ↦ rw (no_stack, shared) (refl, refl, refl, refl)
  ]
  | inr stack ↦ elim (Bool-cases (not (a == 0) && not (a == s.vmm.kernel_page_directory))) [
    | inl own ↦ rw (stack, own) (refl, refl, refl, destroy-directory s.vmm a)
    | inr shared ↦ rw (stack, shared) (refl, refl, refl, refl)
  ]
]

-- Task `i` is a zombie that can be reaped.
abbrev pub is_reaped : Sched → ℕ → Bool
is_reaped s i = not (i == 0) && (not (i == s.current_task) && is_zombie (task_at s i).state)

-- The table after the zombies among the tasks from `lo` on and below `hi` are reaped.
pub record Reaps (s : Sched) (lo hi : ℕ) (r : Sched) : Type 0 where
  pub size : length r.tasks ≡ length s.tasks
  pub current : r.current_task ≡ s.current_task
  pub next_id : r.next_task_id ≡ s.next_task_id
  pub task :
      (j : ℕ)
      → j < 16
      → task_at r j ≡ (
          if (leb lo j && ltb j hi) && (not (j == s.current_task) && is_zombie (task_at s j).state)
          then no_task
          else task_at s j)

reap_one :
    (s : Sched) (i : ℕ)
    → length s.tasks ≡ 16
    → i < 16
    → Reaps s i (i + 1) (
        if (i == s.current_task) || not (is_zombie (task_at s i).state)
        then s
        else task_cleanup s i)
unfolding task_cleanup
reap_one s i size h =
    elim (Bool-cases ((i == s.current_task) || not (is_zombie (task_at s i).state))) [
      | inl keep ↦ rw keep (record {
        size = refl;
        current = refl;
        next_id = refl;
        task = λ j hj. elim (ℕ_discrete j i) [
          | yes same ↦ rw same (ground arith)
          | no other ↦ ground arith
        ];
      })
      | inr reap ↦
          let t = task_at s i in
          let k = release_memory-keeps s t.address_space t.stack in
          rw (reap, k.0, k.1, k.2)
            (record {
              size = length-set s.tasks i no_task;
              current = refl;
              next_id = refl;
              task = λ j hj. elim (ℕ_discrete j i) [
                | yes same ↦
                    rw same
                      (ground (arith, get_or-set_self s.tasks i no_task no_task (omega arith)))
                | no other ↦
                    ground (arith, get_or-set_ne s.tasks i j no_task no_task (λ e. other (sym e)))
              ];
            })
    ]

Reaps-trans :
    (s r q : Sched) (lo mid hi : ℕ)
    → lo ≤ mid
    → mid ≤ hi
    → Reaps s lo mid r
    → Reaps r mid hi q
    → Reaps s lo hi q
Reaps-trans s r q lo mid hi h h' a b = record {
  size = omega (arith, a.size, b.size);
  current = b.current ∙ a.current;
  next_id = b.next_id ∙ a.next_id;
  task = λ j hj.
      b.task j hj
      ∙ elim (Bool-cases (
          (leb lo j && ltb j mid)
          && (not (j == s.current_task) && is_zombie (task_at s j).state))) [
            | inl early ↦ rw (a.task j hj, a.current, early) (ground arith)
            | inr rest ↦ rw (a.task j hj, a.current, rest) (ground arith)
          ];
}

reap_from-Reaps :
    (n i : ℕ) (s : Sched) → length s.tasks ≡ 16 → i + n ≡ 16 → Reaps s i 16 (reap_from n i s)
unfolding reap_from
reap_from-Reaps zero i s size e = record {
  size = refl;
  current = refl;
  next_id = refl;
  task = λ j hj. ground arith;
}
reap_from-Reaps (suc n) i s size e =
    let one = reap_one s i size (omega arith) in
    Reaps-trans s _ _ i (i + 1) 16 (omega arith) (omega arith) one
      (reap_from-Reaps n (i + 1) _ (omega (arith, one.size)) (omega arith))

-- `reap_zombies` clears the entries of all zombies but task 0 and the current task, and changes no
-- other entry.
pub reap_zombies-Reaps : (s : Sched) → length s.tasks ≡ 16 → Reaps s 1 16 (reap_zombies s)
unfolding reap_zombies
reap_zombies-Reaps s size = reap_from-Reaps 15 1 s size (omega arith)
