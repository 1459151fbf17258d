-- ===== src/Keyboard/Tests.antt =====
-- kernel/keyboard.c and kernel/arch/i386/keyboard.c at concrete keys.
use emyx.Base.{◌≡◌, ◌≢◌, ◌<◌, refl, true, List, [], ◌∷◌, arith}
use emyx.Keyboard.{
  initial, keyboard_decode, keyboard_buffer_push, keyboard_buffer_pop, keyboard_buffer_clear,
}
use emyx.Keyboard.Queue
use emyx.Keyboard.Queue.{Call, pushes, pops, clears}
use emyx.Keyboard.Refine.{contents, run, run_refines, initial-IsValid}
use emyx.Keyboard.Decode.{is_typed, keyboard_decode_lem}

abbrev calls : List Call
calls = pops ∷ pushes b'a' ∷ pushes b'b' ∷ pops ∷ pushes 0 ∷ pushes b'c' ∷ pops ∷ clears ∷ pops ∷ []

run_refines_example : run initial calls ≡ Queue.run (contents initial) calls
run_refines_example = run_refines calls initial initial-IsValid

run_result : run initial calls ≡ 0 ∷ b'a' ∷ b'b' ∷ 0 ∷ []
unfolding run keyboard_buffer_push keyboard_buffer_pop keyboard_buffer_clear
run_result = refl

decode_a : keyboard_decode 0x1E ≢ 0
unfolding keyboard_decode
decode_a = omega arith

keyboard_decode_lem_example : ◌<◌ 0x1E 128 × (is_typed (keyboard_decode 0x1E) ≡ true)
keyboard_decode_lem_example = let l = keyboard_decode_lem 0x1E (omega arith) decode_a in (l.0, l.1)
