-- ===== src/Printk.antt =====
-- kernel/lib/printk.c: numbers as text, and the formatter. The text that goes to `terminal_write` is
-- the first part of a result.
pub mod Numbers
pub mod Format
mod Tests
use Prim.Native.Nat.{ℕ, zero, suc}
use emyx.Base.{
  ◌+◌, ◌*◌, ◌-◌, ◌/◌, ◌%◌, ◌^◌, Bool, true, false, not, ◌&&◌, ◌||◌, Option, none, some, List, [],
  ◌∷◌, ◌++◌, length, bit_and, ltb, leb, ◌==◌, if◌then◌else◌, shr,
}

pub hex_digit : ℕ → ℕ
hex_digit nibble = if ltb nibble 10 then b'0' + nibble else b'a' + (nibble - 10)

-- The loop of `u32_to_hex`, for `n` digits from `i` on.
pub hex_digits : ℕ → ℕ → ℕ → List ℕ
hex_digits zero i value = []
hex_digits (suc n) i value =
    hex_digit (bit_and (shr value ((7 - i) * 4)) 0x0f) ∷ hex_digits n (i + 1) value

-- The eleven characters of `out`.
pub u32_to_hex : ℕ → List ℕ
u32_to_hex value = b'0' ∷ b'x' ∷ (hex_digits 8 0 value ++ 0 ∷ [])

-- The loop `while (value > 0)`, with `tmp` from its last digit on, which is the order in which the
-- next loop copies it to `out`.
pub collect : ℕ → ℕ → List ℕ → List ℕ
collect zero value tmp = tmp
collect (suc fuel) value tmp =
    let rest = collect fuel (value / 10) ((b'0' + value % 10) ∷ tmp) in
    if value == 0 then tmp else rest

-- `tmp` holds ten characters.
pub u32_to_str : ℕ → List ℕ
u32_to_str value = if value == 0 then b'0' ∷ 0 ∷ [] else collect 10 value [] ++ 0 ∷ []

-- The characters of an array up to its NUL.
abbrev pub c_string : List ℕ → List ℕ
c_string [] = []
c_string (c ∷ cs) = let rest = c_string cs in if c == 0 then [] else c ∷ rest

-- An argument of `printk`; a string that is NULL is `none`.
pub data Arg : Type 0 where
  char : ℕ → Arg
  str : Option (List ℕ) → Arg
  u32 : ℕ → Arg

abbrev pub int_max : ℕ
int_max = 2 ^ 31 - 1

-- "(null)".
abbrev null_text : List ℕ
null_text = b'(' ∷ b'n' ∷ b'u' ∷ b'l' ∷ b'l' ∷ b')' ∷ []

abbrev pub is_conversion : ℕ → Bool
is_conversion c = (c == b'c') || ((c == b's') || ((c == b'x') || (c == b'u')))

-- What a conversion prints of its argument. An argument of another type than the conversion's is
-- outside what the function is made for, and prints nothing here.
pub converted : ℕ → Arg → List ℕ
converted c (char x) = if c == b'c' then x ∷ [] else []
converted c (str none) = if c == b's' then null_text else []
converted c (str (some s)) = if c == b's' then s else []
converted c (u32 v) =
    if c == b'x' then c_string (u32_to_hex v) else if c == b'u' then c_string (u32_to_str v) else []

-- The characters up to the next '%', and what follows them.
abbrev pub run : List ℕ → List ℕ
run [] = []
run (c ∷ cs) = let rest = run cs in if c == b'%' then [] else c ∷ rest

abbrev pub after : List ℕ → List ℕ
after [] = []
after (c ∷ cs) = let rest = after cs in if c == b'%' then c ∷ cs else rest

-- `if (maxrem < amount) return -1;`, `print_bytes`, and the rest of the loop. `none` is -1.
abbrev pub emit : List ℕ → ℕ → List ℕ × Option ℕ → List ℕ × Option ℕ
emit text written rest =
    if ltb (int_max - written) (length text) then ([], none) else (text ++ rest.0, rest.1)

-- `va_arg`: the text of the next argument, and those after it. A missing one prints nothing here.
abbrev pub next_arg : ℕ → List Arg → List ℕ × List Arg
next_arg c [] = ([], [])
next_arg c (arg ∷ args) = (converted c arg, args)

-- The loop of `printk`.
pub print_from : ℕ → List ℕ → List Arg → ℕ → List ℕ × Option ℕ
print_from fuel [] args written = ([], some written)
print_from zero (c ∷ cs) args written = ([], none)
print_from (suc fuel) (c ∷ []) args written =
    emit (c ∷ []) written (print_from fuel [] args (written + 1))
print_from (suc fuel) (c ∷ d ∷ cs) args written =
    let literal = c ∷ run (d ∷ cs) in
    let escaped = d ∷ run cs in
    let (arg_text, args') = next_arg d args in
    let on_literal = print_from fuel (after (d ∷ cs)) args (written + length literal) in
    let on_escaped = print_from fuel (after cs) args (written + length escaped) in
    let on_conversion = print_from fuel cs args' (written + length arg_text) in
    if not (c == b'%')
    then emit literal written on_literal
    else if d == b'%'
    then emit escaped written on_escaped
    else if is_conversion d
    then emit arg_text written on_conversion
    else emit (c ∷ d ∷ cs) written ([], some (written + length (c ∷ d ∷ cs)))

pub printk : List ℕ → List Arg → List ℕ × Option ℕ
printk format args = print_from (length format) format args 0
