-- ===== src/Printk/Numbers.antt =====
-- kernel/lib/printk.c: the text of a number, read back, is the number.
use Prim.Native.Nat.{ℕ}
use emyx.Base.{
  ◌+◌, ◌*◌, ◌-◌, ◌/◌, ◌%◌, ◌^◌, ◌<◌, ◌≡◌, refl, ap, ◌∙◌, Bool, true, false, ◌&&◌, ◌||◌, Option,
  none, some, leb, List, [], ◌∷◌, ◌++◌, length, bit_and, bit_and_mask, ◌==◌, if◌then◌else◌, shr,
  arith,
}
use emyx.Printk.{hex_digit, hex_digits, u32_to_hex}

-- The digits of base 16, and the value of a string of them after `acc`, which has to end in a NUL.
abbrev pub is_decimal_digit : ℕ → Bool
is_decimal_digit c = leb b'0' c && leb c b'9'

abbrev pub is_hex_digit : ℕ → Bool
is_hex_digit c = is_decimal_digit c || (leb b'a' c && leb c b'f')

abbrev pub hex_value : ℕ → ℕ
hex_value c = if is_decimal_digit c then c - b'0' else c - b'a' + 10

abbrev pub read_hex : List ℕ → ℕ → Option ℕ
read_hex [] acc = none
read_hex (c ∷ cs) acc =
    let rest = read_hex cs (acc * 16 + hex_value c) in
    if c == 0 then some acc else if is_hex_digit c then rest else none

-- The value of a string of decimal digits after `acc`, which has to end in a NUL.
abbrev pub read_decimal : List ℕ → ℕ → Option ℕ
read_decimal [] acc = none
read_decimal (c ∷ cs) acc =
    let rest = read_decimal cs (acc * 10 + (c - b'0')) in
    if c == 0 then some acc else if is_decimal_digit c then rest else none

hex_digit_lem :
    (n : ℕ)
    → n < 16
    → (hex_value (hex_digit n) ≡ n)
      × ((hex_digit n == 0) ≡ false)
      × (is_hex_digit (hex_digit n) ≡ true)
unfolding hex_digit
hex_digit_lem n h = ground arith

digit_step :
    (k value acc : ℕ) (cs : List ℕ)
    → read_hex (hex_digit (bit_and (shr value k) 0x0f) ∷ cs) acc
      ≡ read_hex cs (acc * 16 + value / 2 ^ k % 16)
digit_step k value acc cs =
    let n : ℕ = value / 2 ^ k % 16 in
    let small : n < 16 = omega arith in
    let l = hex_digit_lem n small in rw (bit_and_mask 4 (value / 2 ^ k), l.1, l.2, l.0) refl

-- For a value of 32 bits `u32_to_hex` writes "0x", then eight digits, 0 to 9 and a to f,
-- that are the value in base 16, then NUL.
pub u32_to_hex_lem :
    (value : ℕ)
    → value < 2 ^ 32
    → (length (u32_to_hex value) ≡ 11)
      × (u32_to_hex value ≡ b'0' ∷ b'x' ∷ (hex_digits 8 0 value ++ 0 ∷ []))
      × (read_hex (hex_digits 8 0 value ++ 0 ∷ []) 0 ≡ some value)
unfolding u32_to_hex hex_digits
u32_to_hex_lem value h =
    let a1 = 0 * 16 + value / 2 ^ 28 % 16 in
    let a2 = a1 * 16 + value / 2 ^ 24 % 16 in
    let a3 = a2 * 16 + value / 2 ^ 20 % 16 in
    let a4 = a3 * 16 + value / 2 ^ 16 % 16 in
    let a5 = a4 * 16 + value / 2 ^ 12 % 16 in
    let a6 = a5 * 16 + value / 2 ^ 8 % 16 in
    let a7 = a6 * 16 + value / 2 ^ 4 % 16 in
    let total : a7 * 16 + value / 2 ^ 0 % 16 ≡ value = omega arith in
    let tail : ℕ → ℕ → List ℕ = λ n i. hex_digits n i value ++ 0 ∷ [] in
    (
      refl,
      refl,
      digit_step 28 value 0 (tail 7 1)
          ∙ digit_step 24 value a1 (tail 6 2)
          ∙ digit_step 20 value a2 (tail 5 3)
          ∙ digit_step 16 value a3 (tail 4 4)
          ∙ digit_step 12 value a4 (tail 3 5)
          ∙ digit_step 8 value a5 (tail 2 6)
          ∙ digit_step 4 value a6 (tail 1 7)
          ∙ digit_step 0 value a7 (0 ∷ [])
          ∙ ap some total,
    )
