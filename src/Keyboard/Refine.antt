-- ===== src/Keyboard/Refine.antt =====
-- kernel/keyboard.c: the ring buffer with its two indices behaves as the bounded queue.
use Prim.Native.Nat.{ℕ, zero, suc}
use emyx.Base.{
  ◌+◌, ◌-◌, ◌%◌, ◌<◌, ◌≡◌, ◌≢◌, refl, ap, ap₂, ◌∙◌, ◌==◌, List, [], ◌∷◌, ◌++◌, length, get_or, set,
  length-set, get_or-set_self, get_or-set_ne, arith, Bool-cases, inl, inr,
}
use emyx.Keyboard.{
  Keyboard, initial, keyboard_buffer_push, keyboard_buffer_pop, keyboard_buffer_clear,
}
use emyx.Keyboard.Queue
use emyx.Keyboard.Queue.{Queue, Call, pushes, pops, clears}

pub record IsValid (k : Keyboard) : Type 0 where
  pub storage : length k.buffer ≡ 32
  pub read_in : k.read_index < 32
  pub write_in : k.write_index < 32

-- The `n` characters from index `h` on, going round at the end of the buffer.
abbrev pub window : List ℕ → ℕ → ℕ → List ℕ
window buf h zero = []
window buf h (suc n) = get_or buf h 0 ∷ window buf ((h + 1) % 32) n

length-window : (buf : List ℕ) (h n : ℕ) → length (window buf h n) ≡ n
length-window buf h zero = refl
length-window buf h (suc n) = ap suc (length-window buf ((h + 1) % 32) n)

abbrev pub used : Keyboard → ℕ
used k = (k.write_index + 32 - k.read_index) % 32

-- The characters that wait in the buffer, oldest first.
abbrev pub contents : Keyboard → Queue
contents k = window k.buffer k.read_index (used k)

-- Writing just past a window extends it by that character.
window-set :
    (buf : List ℕ) (h n i c : ℕ)
    → length buf ≡ 32
    → h < 32
    → n < 32
    → i ≡ (h + n) % 32
    → window (set buf i c) h (suc n) ≡ window buf h n ++ (c ∷ [])
window-set buf h zero i c s hh hn e =
    let here : i ≡ h = omega arith in rw (here, get_or-set_self buf h c 0 (omega arith))
window-set buf h (suc n) i c s hh hn e =
    ap₂ ◌∷◌ (get_or-set_ne buf i h c 0 (omega arith))
      (window-set buf ((h + 1) % 32) n i c s (omega arith) (omega arith) (omega arith))

window_of_pos :
    (buf : List ℕ) (h n : ℕ)
    → n ≢ 0
    → window buf h n ≡ get_or buf h 0 ∷ window buf ((h + 1) % 32) (n - 1)
window_of_pos buf h zero ne = absurd (ne refl)
window_of_pos buf h (suc n) ne = ap (λ m. window buf h (suc m)) (omega arith)

pub initial-IsValid : IsValid initial
initial-IsValid = omega arith

pub push-IsValid : (k : Keyboard) (c : ℕ) → IsValid k → IsValid (keyboard_buffer_push k c)
unfolding keyboard_buffer_push
push-IsValid k c v = ground (arith, length-set k.buffer k.write_index c)

pop-IsValid : (k : Keyboard) → IsValid k → IsValid (keyboard_buffer_pop k).1
unfolding keyboard_buffer_pop
pop-IsValid k v = ground arith

clear-IsValid : (k : Keyboard) → IsValid k → IsValid (keyboard_buffer_clear k)
unfolding keyboard_buffer_clear
clear-IsValid k v = ground arith

push_refines :
    (k : Keyboard) (c : ℕ)
    → IsValid k
    → contents (keyboard_buffer_push k c) ≡ Queue.push (contents k) c
unfolding keyboard_buffer_push Queue.push
push_refines k c v = elim (Bool-cases (c == 0)) [
  | inl nul ↦ rw nul
  | inr chr ↦ elim (Bool-cases ((k.write_index + 1) % 32 == k.read_index)) [
    | inl full ↦ rw (chr, full) (ground (arith, length-window k.buffer k.read_index (used k)))
    | inr room ↦
        let grown : ((k.write_index + 1) % 32 + 32 - k.read_index) % 32 ≡ suc (used k) =
          ground arith in
        rw (chr, room, grown)
          (window-set k.buffer k.read_index (used k) k.write_index c v.storage v.read_in
              (omega arith) (omega arith)
            ∙ ground (arith, length-window k.buffer k.read_index (used k)))
  ]
]

pop_refines :
    (k : Keyboard)
    → IsValid k
    → ((keyboard_buffer_pop k).0, contents (keyboard_buffer_pop k).1) ≡ Queue.pop (contents k)
unfolding keyboard_buffer_pop Queue.pop
pop_refines k v = elim (Bool-cases (k.read_index == k.write_index)) [
  | inl empty ↦ let none_left : used k ≡ 0 = ground arith in rw (empty, none_left)
  | inr some_left ↦
      let fewer : (k.write_index + 32 - (k.read_index + 1) % 32) % 32 ≡ used k - 1 = ground arith in
      rw (some_left, fewer, window_of_pos k.buffer k.read_index (used k) (ground arith))
]

clear_refines : (k : Keyboard) → IsValid k → contents (keyboard_buffer_clear k) ≡ []
unfolding keyboard_buffer_clear
clear_refines k v =
    let none_left : used (record k { read_index = k.write_index }) ≡ 0 = omega arith in rw none_left

-- The characters that a series of calls pops from the ring buffer.
unfoldable pub run : Keyboard → List Call → List ℕ
run k [] = []
run k (pushes c ∷ calls) = run (keyboard_buffer_push k c) calls
run k (pops ∷ calls) = let (c, k') = keyboard_buffer_pop k in c ∷ run k' calls
run k (clears ∷ calls) = run (keyboard_buffer_clear k) calls

-- No series of calls tells a valid buffer from the bounded queue of the characters in it.
pub run_refines :
    (calls : List Call) (k : Keyboard) → IsValid k → run k calls ≡ Queue.run (contents k) calls
unfolding run Queue.run
run_refines [] k v = refl
run_refines (pushes c ∷ calls) k v =
    rw (run_refines calls (keyboard_buffer_push k c) (push-IsValid k c v), push_refines k c v)
run_refines (pops ∷ calls) k v =
    rw (run_refines calls (keyboard_buffer_pop k).1 (pop-IsValid k v), ← pop_refines k v)
run_refines (clears ∷ calls) k v =
    rw (run_refines calls (keyboard_buffer_clear k) (clear-IsValid k v), clear_refines k v)
