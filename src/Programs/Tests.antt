-- ===== src/Programs/Tests.antt =====
-- user/shell.c at a line that runs a program, with the kernel's calls as a list of what was asked for.
use Prim.Native.Nat.{ℕ}
use emyx.Base.{◌≡◌, refl, some, List, [], ◌∷◌, ◌++◌, replicate, codes, arith}
use emyx.Programs.{
  Calls, Input, Next, reads, quits, rounds, round_after, round, put_char, rub_out, end_line,
  run_line, shell_main, init_main,
}
use emyx.Process.Calls.{string_from}
use emyx.Programs.Line.{IsInput, text, edited_all}
use emyx.Programs.Runs.{Runs, shell_lem}

-- The text that was written, with the paths that were spawned between brackets.
abbrev recorded : Calls (List ℕ)
recorded = record {
  write = λ w s. w ++ s;
  yield = λ w. w;
  spawn = λ w path. (some 3, w ++ codes "[" ++ path ++ codes "]");
  wait = λ w pid. (some 0, w);
}

abbrev start : Input
start = record { chars = replicate 32 0; length = 0 }

start-IsInput : IsInput start
start-IsInput = record { size = refl; short = omega arith; solid = λ j hj. absurd (omega arith) }

abbrev keys : List ℕ
keys = codes "/bin/hellp" ++ (8 ∷ []) ++ codes "o"

abbrev world_of : Next (List ℕ) → List ℕ
world_of (reads w k) = w
world_of (quits w) = w

ran :
    world_of (rounds recorded (shell_main recorded [] (replicate 32 0)) (keys ++ (10 ∷ [])))
    ≡ codes "emyx$ /bin/hellp" ++ (8 ∷ []) ++ codes "o\n[/bin/hello]emyx$ "
unfolding rounds shell_main round put_char rub_out end_line run_line string_from
ran = refl

shell_lem_example :
    Runs recorded
      (edited_all (text start) keys)
      (rounds recorded (reads [] start) keys)
      (round_after recorded 10 (rounds recorded (reads [] start) keys))
shell_lem_example = shell_lem recorded [] start keys start-IsInput (ground arith)

init_status : init_main recorded [] ≡ (0, codes "[/bin/shell]")
unfolding init_main
init_status = refl
