-- ===== src/Process/Calls/Turns.antt =====
-- kernel/user.c: the process table where calls wait for other tasks.
use Prim.Native.Nat.{ℕ}
use emyx.Base.{codes, All, List, [], ◌∷◌, ◌+◌, ◌^◌, ◌<◌, refl, true, Option, none, some}
use emyx.Process.{Userland, current_process, user_process_find_by_pid}
use emyx.Printk.{u32}
use emyx.Process.Calls.{
  as_int, init_path, init_loop, or_over, leave_init, run_init, user_init, print, Code, Wait, done,
  yields, or_later, wait_child, wait_round, wait_loop, wait_by, user_wait, user_spawn,
}
use emyx.Process.Calls.Spawn.{user_spawn_lem}
use emyx.Process.Calls.Invariant.{HasTable, after_wait, wait-HasTable, spawn-HasTable}

-- What the other tasks do keeps the table's invariant.
abbrev pub KeepsTable : (Userland → Userland) → Type 0
KeepsTable turn = (s : Userland) → HasTable s → HasTable (turn s)

-- The state in which a wait is done keeps the table's invariant.
abbrev pub DoneHasTable : Wait → Type 0
DoneHasTable (done status s) = HasTable s
DoneHasTable yields = Unit {0}

round-DoneHasTable : (s : Userland) (w : Wait) → HasTable (after_wait s w) → DoneHasTable w
round-DoneHasTable s (done status r) v = v
round-DoneHasTable s yields v = tt

later-DoneHasTable :
    (w rest : Wait) → DoneHasTable w → DoneHasTable rest → DoneHasTable (or_later w rest)
later-DoneHasTable (done status s) rest v u = v
later-DoneHasTable yields rest v u = u

pub loop-DoneHasTable :
    (turns : List (Userland → Userland)) (s : Userland) (caller pid : ℕ)
    → All KeepsTable turns
    → HasTable s
    → DoneHasTable (wait_loop turns s caller pid)
unfolding wait_loop wait_round
loop-DoneHasTable [] s caller pid k v =
    let w = wait_child s caller (user_process_find_by_pid s.processes pid) in
    round-DoneHasTable s w
      (wait-HasTable s caller pid (user_process_find_by_pid s.processes pid) v refl).0
loop-DoneHasTable (turn ∷ turns) s caller pid k v =
    let w = wait_child s caller (user_process_find_by_pid s.processes pid) in
    later-DoneHasTable w (wait_loop turns (turn s) caller pid)
      (round-DoneHasTable s w
        (wait-HasTable s caller pid (user_process_find_by_pid s.processes pid) v refl).0)
      (loop-DoneHasTable turns (turn s) caller pid k.1 (k.0 s v))

by-DoneHasTable :
    (turns : List (Userland → Userland)) (s : Userland) (pid : ℕ) (o : Option ℕ)
    → All KeepsTable turns
    → HasTable s
    → DoneHasTable (wait_by turns s o pid)
unfolding wait_by
by-DoneHasTable turns s pid none k v = v
by-DoneHasTable turns s pid (some caller) k v = loop-DoneHasTable turns s caller pid k v

pub user_wait-DoneHasTable :
    (turns : List (Userland → Userland)) (s : Userland) (pid : ℕ)
    → All KeepsTable turns
    → HasTable s
    → DoneHasTable (user_wait turns s pid)
unfolding user_wait
user_wait-DoneHasTable turns s pid k v = by-DoneHasTable turns s pid (current_process s) k v

-- The state in which `user_init` is done keeps the table's invariant.
abbrev pub OverHasTable : Option Userland → Type 0
OverHasTable none = Unit {0}
OverHasTable (some s) = HasTable s

over-OverHasTable :
    (s : Userland) (o : Option ℕ) (rest : Option Userland)
    → HasTable s
    → OverHasTable rest
    → OverHasTable (or_over s o rest)
over-OverHasTable s none rest v u = v
over-OverHasTable s (some other) rest v u = u

init_loop-OverHasTable :
    (turns : List (Userland → Userland)) (s : Userland) (pid : ℕ)
    → All KeepsTable turns
    → HasTable s
    → OverHasTable (init_loop turns s pid)
unfolding init_loop
init_loop-OverHasTable [] s pid k v =
    over-OverHasTable s (user_process_find_by_pid s.processes pid) none v tt
init_loop-OverHasTable (turn ∷ turns) s pid k v =
    over-OverHasTable s (user_process_find_by_pid s.processes pid) (init_loop turns (turn s) pid) v
      (init_loop-OverHasTable turns (turn s) pid k.1 (k.0 s v))

leave-OverHasTable : (o : Option Userland) → OverHasTable o → OverHasTable (leave_init o)
unfolding leave_init
leave-OverHasTable none v = tt
leave-OverHasTable (some s) v = v

run_init-OverHasTable :
    (turns : List (Userland → Userland)) (pid : Option ℕ) (s : Userland)
    → All KeepsTable turns
    → HasTable s
    → OverHasTable (run_init turns (pid, s))
unfolding run_init
run_init-OverHasTable turns none s k v = v
run_init-OverHasTable turns (some pid) s k v =
    let s1 =
      print (record s { userland_active = true }) (codes "user: init pid=%x\n") (u32 pid ∷ []) in
    leave-OverHasTable (init_loop turns s1 pid) (init_loop-OverHasTable turns s1 pid k v)

pub user_init-OverHasTable :
    (turns : List (Userland → Userland)) (code : Code) (s : Userland)
    → All KeepsTable turns
    → HasTable s
    → s.next_pid + 1 < 2 ^ 32
    → OverHasTable (user_init turns code s)
unfolding user_init
user_init-OverHasTable turns code s k v below =
    let r = user_spawn code s init_path in
    run_init-OverHasTable turns (as_int r.0) r.1 k
      (spawn-HasTable code s init_path r v (user_spawn_lem code s init_path v below)).0
