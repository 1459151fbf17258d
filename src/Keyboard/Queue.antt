-- ===== src/Keyboard/Queue.antt =====
-- The promise of kernel/keyboard.c: a queue of at most 31 characters, oldest first.
use emyx.Base.{ℕ, ◌==◌, ltb, if◌then◌else◌, ◌||◌, not, List, [], ◌∷◌, ◌++◌, length}
use emyx.Keyboard.{u32_of_char}

abbrev pub Queue : Type 0
Queue = List ℕ

-- The zero character and a character that finds the queue full are dropped.
unfoldable pub push : Queue → ℕ → Queue
push q c = if (c == 0) || not (ltb (length q) 31) then q else q ++ (c ∷ [])

-- An empty queue gives 0.
unfoldable pub pop : Queue → ℕ × Queue
pop [] = (0, [])
pop (c ∷ q) = (u32_of_char c, q)

-- What the interrupt handler, SYS_GETC and the spawn of a process ask of the buffer.
pub data Call : Type 0 where
  pushes : ℕ → Call
  pops : Call
  clears : Call

-- The characters that a series of calls pops.
unfoldable pub run : Queue → List Call → List ℕ
run q [] = []
run q (pushes c ∷ calls) = run (push q c) calls
run q (pops ∷ calls) = let (c, q') = pop q in c ∷ run q' calls
run q (clears ∷ calls) = run [] calls
