-- ===== src/Programs/Runs.antt =====
-- user/shell.c: the program that a line runs.
use Prim.Native.Nat.{ℕ}
use emyx.Base.{
  All, ◌+◌, ◌<◌, ◌≡◌, ◌≢◌, inl, inr, refl, sym, ap, ◌∙◌, Bool, true, Option, none, some, ◌&&◌, List,
  [], ◌∷◌, length, get_or, set, ltb, ◌==◌, if◌then◌else◌, Bool-cases, arith, codes, length-set,
  get_or-set_self, get_or-set_ne, get_or-take,
}
use emyx.Process.Calls.{string_at}
use emyx.Process.Calls.Paths.{string_from-line}
use emyx.Programs.{
  Calls, Input, Next, reads, quits, report_wait, report_run, run_line, is_quit, end_line, round,
  rounds, round_after,
}
use emyx.Programs.Line.{IsInput, text, text-length, edited_all, HasText, rounds-HasText}

module _ {W : Type 0} (calls : Calls W) where
  -- What the line is taken for, and what is done about one that is not `quit`.
  abbrev pub is_quit_text : List ℕ → Bool
  is_quit_text line =
      (length line == 4)
      && ((get_or line 0 0 == b'q')
          && ((get_or line 1 0 == b'u')
              && ((get_or line 2 0 == b'i') && (get_or line 3 0 == b't'))))

  abbrev pub launched : W → List ℕ → W
  launched w line = if ltb 0 (length line) then report_run calls (calls.spawn w line) else w

  -- What becomes of the world `w` where a line runs: nothing for an empty one; or its program cannot
  -- be spawned, cannot be waited for, or has been waited for.
  pub data Launches (w : W) (line : List ℕ) (r : W) : Type 0 where
    nothing : line ≡ [] → r ≡ w → Launches w line r
    not_spawned :
        line ≢ []
        → (w1 : W) → calls.spawn w line ≡ (none, w1)
        → r ≡ calls.write w1 (codes "shell: failed to run program\n")
        → Launches w line r
    not_waited :
        line ≢ []
        → (pid : ℕ) (w1 w2 : W) → calls.spawn w line ≡ (some pid, w1)
        → calls.wait w1 pid ≡ (none, w2)
        → r ≡ calls.write w2 (codes "shell: failed to wait for program\n")
        → Launches w line r
    done :
        line ≢ []
        → (pid status : ℕ) (w1 w2 : W) → calls.spawn w line ≡ (some pid, w1)
        → calls.wait w1 pid ≡ (some status, w2)
        → r ≡ w2
        → Launches w line r

  -- After these characters the shell has this line, and after a newline it has done what the line
  -- asks for and has an empty line.
  pub record Runs (line : List ℕ) (typed next : Next W) : Type 0 where
    pub world : W
    pub before : Input
    pub left : Input
    pub typing : typed ≡ reads world before
    pub shows : text before ≡ line
    pub input : IsInput left
    pub empty : left.length ≡ 0
    pub quit : line ≡ codes "quit" → next ≡ quits (calls.write world (10 ∷ []))
    pub run :
        line ≢ codes "quit"
        → (after : W) × Launches (calls.write world (10 ∷ [])) line after
          × (next ≡ reads (calls.write after (codes "emyx$ ")) left)

  waited-Launches :
      (w : W) (line : List ℕ) (pid : ℕ) (w1 : W)
      → line ≢ []
      → calls.spawn w line ≡ (some pid, w1)
      → (r : Option ℕ × W) → calls.wait w1 pid ≡ r
      → Launches w line (report_wait calls r)
  waited-Launches w line pid w1 ne e (none, w2) e' = not_waited ne pid w1 w2 e e' refl
  waited-Launches w line pid w1 ne e (some status, w2) e' = done ne pid status w1 w2 e e' refl

  spawned-Launches :
      (w : W) (line : List ℕ)
      → line ≢ []
      → (r : Option ℕ × W) → calls.spawn w line ≡ r
      → Launches w line (report_run calls r)
  spawned-Launches w line ne (none, w1) e = not_spawned ne w1 e refl
  spawned-Launches w line ne (some pid, w1) e =
      waited-Launches w line pid w1 ne e (calls.wait w1 pid) refl

  launched-Launches : (w : W) (line : List ℕ) → Launches w line (launched w line)
  launched-Launches w [] = nothing refl refl
  launched-Launches w (c ∷ cs) =
      let some_there : ltb 0 (length (c ∷ cs)) ≡ true = ground arith in
      let ne : (c ∷ cs) ≢ [] = λ e. absurd (ground (arith, ap length e)) in
      rw some_there (spawned-Launches w (c ∷ cs) ne (calls.spawn w (c ∷ cs)) refl)

  -- Only `quit` is taken for it.
  is_quit_text-eq : (line : List ℕ) → is_quit_text line ≡ true → line ≡ codes "quit"
  is_quit_text-eq [] e = absurd (ground arith)
  is_quit_text-eq (a ∷ []) e = absurd (ground arith)
  is_quit_text-eq (a ∷ b ∷ []) e = absurd (ground arith)
  is_quit_text-eq (a ∷ b ∷ c ∷ []) e = absurd (ground arith)
  is_quit_text-eq (a ∷ b ∷ c ∷ d ∷ []) e =
      let ea : a ≡ b'q' = ground arith in
      let eb : b ≡ b'u' = ground arith in
      let ec : c ≡ b'i' = ground arith in
      let ed : d ≡ b't' = ground arith in rw (ea, eb, ec, ed) refl
  is_quit_text-eq (a ∷ b ∷ c ∷ d ∷ x ∷ xs) e = absurd (ground arith)

  abbrev ended_line : Input → Input
  ended_line k = record k { chars = set k.chars k.length 0 }

  kept : (k : Input) (j : ℕ) → j < k.length → get_or (ended_line k).chars j 0 ≡ get_or (text k) j 0
  kept k j h =
      get_or-set_ne k.chars k.length j 0 0 (λ e. absurd (omega arith))
      ∙ sym (get_or-take k.length j k.chars 0 h)

  spawned-text :
      (k : Input) → IsInput k → string_at 32 (λ i. get_or (ended_line k).chars i 0) ≡ text k
  spawned-text k v =
      let len = text-length k v in
      let p = λ (i : ℕ). get_or (ended_line k).chars i 0 in
      let shift : (j : ℕ) → 0 + j ≡ j = λ j. omega arith in
      string_from-line 32 0 p (text k) (λ j hj. ap p (shift j) ∙ kept k j (omega (arith, len, hj)))
        (λ j hj.
          rw (get_or-take k.length j k.chars 0 (omega (arith, len, hj)))
            (v.solid j (omega (arith, len, hj))))
        (ap p (shift (length (text k)) ∙ len)
          ∙ get_or-set_self k.chars k.length 0 0 (omega (arith, v.size, v.short)))
        (omega (arith, len, v.short))

  quit-text : (k : Input) → IsInput k → is_quit calls (ended_line k) ≡ is_quit_text (text k)
  quit-text k v =
      let len = text-length k v in
      elim (Bool-cases (k.length == 4)) [
        | inl four ↦
            let n : k.length ≡ 4 = ground arith in
            rw
              (
                len,
                four,
                kept k 0 (omega arith),
                kept k 1 (omega arith),
                kept k 2 (omega arith),
                kept k 3 (omega arith),
              )
              refl
        | inr other ↦ rw (len, other) refl
      ]

  run_line-text :
      (w : W) (k : Input) → IsInput k → run_line calls w (ended_line k) ≡ launched w (text k)
  unfolding run_line
  run_line-text w k v = rw (text-length k v, spawned-text k v) refl

  round-Runs : (w : W) (k : Input) → IsInput k → Runs (text k) (reads w k) (round calls w k 10)
  unfolding round end_line
  round-Runs w k v =
      let w1 = calls.write w (10 ∷ []) in
      record {
        world = w;
        before = k;
        typing = refl;
        shows = refl;
        left = record { chars = (ended_line k).chars; length = 0 };
        input = record {
          size = length-set k.chars k.length 0 ∙ v.size;
          short = omega arith;
          solid = λ j hj. absurd (omega arith);
        };
        empty = refl;
        quit =
            λ e. let is : is_quit_text (text k) ≡ true = rw e refl in rw (quit-text k v, is) refl;
        run = λ ne. elim (Bool-cases (is_quit_text (text k))) [
          | inl is ↦ absurd (ne (is_quit_text-eq (text k) is))
          | inr not_quit ↦ (
            launched w1 (text k),
            launched-Launches w1 (text k),
            rw (quit-text k v, not_quit, run_line-text w1 k v) refl,
          )
        ];
      }

  HasText-Runs :
      (line : List ℕ) (next : Next W)
      → HasText line next
      → Runs line next (round_after calls 10 next)
  HasText-Runs line (quits w) v = absurd v
  HasText-Runs line (reads w k) v = rw (sym v.1) (round-Runs w k v.0)

  -- On a line of at most 31 characters without NULs, after every series of characters that are not
  -- newlines, the shell has the line edited by them, inside its array. At a newline it writes the
  -- newline, and then it returns if the line is `quit`. Otherwise, if the line is not empty, it spawns
  -- the program whose path is just the line and waits for it, and writes a message of its own for
  -- each of the two that fails; and then it has an empty line behind a new prompt.
  pub shell_lem :
      (w : W) (k : Input) (cs : List ℕ)
      → IsInput k
      → All (λ c. c ≢ 10) cs
      → Runs
          (edited_all (text k) cs)
          (rounds calls (reads w k) cs)
          (round_after calls 10 (rounds calls (reads w k) cs))
  shell_lem w k cs v h =
      HasText-Runs (edited_all (text k) cs) (rounds calls (reads w k) cs)
        (rounds-HasText calls cs (text k) (reads w k) (v, refl) h)
