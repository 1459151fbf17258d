-- ===== src/Keyboard/Decode.antt =====
-- kernel/arch/i386/keyboard.c: what the scancode table can yield.
use emyx.Base.{
  ℕ, ◌<◌, ◌≡◌, ◌≢◌, refl, Bool, true, not, ◌&&◌, ◌||◌, ◌==◌, ltb, leb, holds_up_to, holds_up_to-at,
  arith,
}
use emyx.Keyboard.{keyboard_decode}

-- A printable ASCII character, a newline or a backspace.
abbrev pub is_typed : ℕ → Bool
is_typed c = (leb 32 c && ltb c 127) || ((c == 10) || (c == 8))

abbrev decodes_well : ℕ → Bool
decodes_well sc = (keyboard_decode sc == 0) || (ltb sc 128 && is_typed (keyboard_decode sc))

abbrev distinct : ℕ → ℕ → Bool
distinct a b =
    (keyboard_decode a == 0) || (not (keyboard_decode a == keyboard_decode b) || (a == b))

decode_table : holds_up_to decodes_well 256 ≡ true
unfolding holds_up_to keyboard_decode
decode_table = refl

distinct_table : holds_up_to (λ a. holds_up_to (distinct a) 256) 256 ≡ true
unfolding holds_up_to keyboard_decode
distinct_table = refl

-- A scancode byte that yields a character is a key press, not a release; the character is
-- printable, a newline or a backspace, and no other scancode yields it.
pub keyboard_decode_lem :
    (a : ℕ)
    → a < 256
    → keyboard_decode a ≢ 0
    → (a < 128)
      × (is_typed (keyboard_decode a) ≡ true)
      × ((b : ℕ) → b < 256 → keyboard_decode a ≡ keyboard_decode b → a ≡ b)
keyboard_decode_lem a ha ne = (
  ground (arith, holds_up_to-at decodes_well 256 decode_table a ha),
  ground (arith, holds_up_to-at decodes_well 256 decode_table a ha),
  λ b hb same. ground (
    arith,
    holds_up_to-at (distinct a) 256
        (holds_up_to-at (λ a. holds_up_to (distinct a) 256) 256 distinct_table a ha) b hb,
  ),
)
