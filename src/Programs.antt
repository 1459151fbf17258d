-- ===== src/Programs.antt =====
-- user/init.c, user/shell.c and user/hello.c: the first program, the shell that runs programs by
-- their paths, and one that writes a text.
pub mod Line
pub mod Runs
mod Tests
use Prim.Native.Nat.{ℕ}
use emyx.Base.{
  ◌+◌, ◌-◌, Bool, true, false, ◌&&◌, ◌||◌, Option, none, some, List, [], ◌∷◌, get_or, set, ltb,
  ◌==◌, if◌then◌else◌, codes,
}
use emyx.Process.Calls.{string_at}

-- The system calls of user.h, on a world of the kernel's: what is written to the standard output, and
-- the path as the string that the kernel reads. A negative result is `none`.
pub record Calls (W : Type 0) : Type 0 where
  pub write : W → List ℕ → W
  pub yield : W → W
  pub spawn : W → List ℕ → Option ℕ × W
  pub wait : W → ℕ → Option ℕ × W

-- INPUT_SIZE.
abbrev pub input_size : ℕ
input_size = 32

-- The variables `input` and `length` of the shell.
pub record Input : Type 0 where
  pub chars : List ℕ
  pub length : ℕ

-- The shell asks for a character, or it returns.
pub data Next (W : Type 0) : Type 0 where
  reads : W → Input → Next W
  quits : W → Next W

module _ {W : Type 0} (calls : Calls W) where
  abbrev pub report_wait : Option ℕ × W → W
  report_wait (none, w) = calls.write w (codes "shell: failed to wait for program\n")
  report_wait (some status, w) = w

  abbrev pub report_run : Option ℕ × W → W
  report_run (none, w) = calls.write w (codes "shell: failed to run program\n")
  report_run (some pid, w) = report_wait (calls.wait w pid)

  -- The line, once its NUL is there.
  pub run_line : W → Input → W
  run_line w k =
      if ltb 0 k.length
      then report_run (calls.spawn w (string_at input_size (λ i. get_or k.chars i 0)))
      else w

  abbrev pub is_quit : Input → Bool
  is_quit k =
      (k.length == 4)
      && ((get_or k.chars 0 0 == b'q')
          && ((get_or k.chars 1 0 == b'u')
              && ((get_or k.chars 2 0 == b'i') && (get_or k.chars 3 0 == b't'))))

  pub end_line : W → Input → Next W
  end_line w k =
      if is_quit k
      then quits w
      else reads (calls.write (run_line w k) (codes "emyx$ ")) (record k { length = 0 })

  pub rub_out : W → Input → Next W
  rub_out w k =
      if ltb 0 k.length
      then reads (calls.write w (8 ∷ [])) (record k { length = k.length - 1 })
      else reads w k

  pub put_char : W → Input → ℕ → Next W
  put_char w k c =
      if ltb c b' ' || (ltb b'~' c || (k.length == input_size - 1))
      then reads w k
      else reads (calls.write w (c ∷ []))
          (record { chars = set k.chars k.length c; length = k.length + 1 })

  -- A round of the loop, for what `getchar` returns.
  pub round : W → Input → ℕ → Next W
  round w k c =
      if c == 0
      then reads (calls.yield w) k
      else if c == 8
      then rub_out w k
      else if c == 10
      then end_line (calls.write w (10 ∷ [])) (record k { chars = set k.chars k.length 0 })
      else put_char w k c

  abbrev pub round_after : ℕ → Next W → Next W
  round_after c (reads w k) = round w k c
  round_after c (quits w) = quits w

  -- The rounds of the loop for the characters that `getchar` returns.
  pub rounds : Next W → List ℕ → Next W
  rounds next [] = next
  rounds next (c ∷ cs) = rounds (round_after c next) cs

  -- `main` of the shell, up to its loop.
  pub shell_main : W → List ℕ → Next W
  shell_main w chars = reads (calls.write w (codes "emyx$ ")) (record { chars = chars; length = 0 })

  -- `main` of the first program: from `wait` on, and from `spawn` on.
  abbrev pub init_waited : Option ℕ × W → ℕ × W
  init_waited (none, w) = (1, w)
  init_waited (some status, w) = (status, w)

  abbrev pub init_spawned : Option ℕ × W → ℕ × W
  init_spawned (none, w) = (1, w)
  init_spawned (some pid, w) = init_waited (calls.wait w pid)

  pub init_main : W → ℕ × W
  init_main w = init_spawned (calls.spawn w (codes "/bin/shell"))

  -- `main` of user/hello.c.
  pub hello_main : W → ℕ × W
  hello_main w = (0, calls.write w (codes "hello from C\n"))
