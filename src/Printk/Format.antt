-- ===== src/Printk/Format.antt =====
-- kernel/lib/printk.c: `printk`, which prints whole runs of text, agrees with a reading of the format
-- character by character.
use Prim.Native.Nat.{ℕ, zero, suc}
use emyx.Base.{
  ◌+◌, ◌-◌, ◌≤◌, ◌≡◌, inl, inr, refl, sym, ap, ap₂, ◌∙◌, not, false, Option, none, some, List, [],
  ◌∷◌, ◌++◌, append-nil, subst, length, ltb, leb, codes, ◌==◌, if◌then◌else◌, Bool-cases, arith,
  length-append,
}
use native.Mathlib.Decide.{ℕ_discrete}
use emyx.Printk.{
  Arg, char, str, u32, c_string, u32_to_hex, u32_to_str, converted, int_max, is_conversion,
  next_arg, run, after, emit, print_from, printk,
}

-- What each conversion is to print of the arguments that are left: a character as it is, a string, or
-- "(null)" for NULL, and a number as the digits before its NUL. An argument of another type, or none,
-- prints nothing.
abbrev pub char_text : List Arg → List ℕ
char_text [] = []
char_text (char x ∷ args) = x ∷ []
char_text (str s ∷ args) = []
char_text (u32 v ∷ args) = []

abbrev pub string_text : List Arg → List ℕ
string_text [] = []
string_text (char x ∷ args) = []
string_text (str none ∷ args) = codes "(null)"
string_text (str (some s) ∷ args) = s
string_text (u32 v ∷ args) = []

abbrev pub hex_text : List Arg → List ℕ
hex_text [] = []
hex_text (char x ∷ args) = []
hex_text (str s ∷ args) = []
hex_text (u32 v ∷ args) = c_string (u32_to_hex v)

abbrev pub decimal_text : List Arg → List ℕ
decimal_text [] = []
decimal_text (char x ∷ args) = []
decimal_text (str s ∷ args) = []
decimal_text (u32 v ∷ args) = c_string (u32_to_str v)

abbrev pub others : List Arg → List Arg
others [] = []
others (arg ∷ args) = args

-- The text of a format: "%c", "%s", "%x" and "%u" stand for the next argument, "%%" for one '%', an
-- unknown conversion for the rest of the format, and any other character for itself.
pub render : List ℕ → List Arg → List ℕ
render [] args = []
render (c ∷ []) args = c ∷ []
render (c ∷ d ∷ cs) args =
    let literal = render (d ∷ cs) args in
    let escaped = render cs args in
    let conversion = render cs (others args) in
    if not (c == b'%')
    then c ∷ literal
    else if d == b'%'
    then d ∷ escaped
    else if d == b'c'
    then char_text args ++ conversion
    else if d == b's'
    then string_text args ++ conversion
    else if d == b'x'
    then hex_text args ++ conversion
    else if d == b'u'
    then decimal_text args ++ conversion
    else c ∷ d ∷ cs

others-next_arg : (d : ℕ) (args : List Arg) → (next_arg d args).1 ≡ others args
others-next_arg d [] = refl
others-next_arg d (arg ∷ args) = refl

next_arg-char : (args : List Arg) → (next_arg b'c' args).0 ≡ char_text args
unfolding converted
next_arg-char [] = refl
next_arg-char (char x ∷ args) = refl
next_arg-char (str none ∷ args) = refl
next_arg-char (str (some s) ∷ args) = refl
next_arg-char (u32 v ∷ args) = refl

next_arg-string : (args : List Arg) → (next_arg b's' args).0 ≡ string_text args
unfolding converted
next_arg-string [] = refl
next_arg-string (char x ∷ args) = refl
next_arg-string (str none ∷ args) = refl
next_arg-string (str (some s) ∷ args) = refl
next_arg-string (u32 v ∷ args) = refl

next_arg-hex : (args : List Arg) → (next_arg b'x' args).0 ≡ hex_text args
unfolding converted
next_arg-hex [] = refl
next_arg-hex (char x ∷ args) = refl
next_arg-hex (str none ∷ args) = refl
next_arg-hex (str (some s) ∷ args) = refl
next_arg-hex (u32 v ∷ args) = refl

next_arg-decimal : (args : List Arg) → (next_arg b'u' args).0 ≡ decimal_text args
unfolding converted
next_arg-decimal [] = refl
next_arg-decimal (char x ∷ args) = refl
next_arg-decimal (str none ∷ args) = refl
next_arg-decimal (str (some s) ∷ args) = refl
next_arg-decimal (u32 v ∷ args) = refl

-- The text after a '%' and a character that is not another '%'.
abbrev pub render_conversion : ℕ → ℕ → List ℕ → List Arg → List ℕ
render_conversion c d cs args =
    if d == b'c'
    then char_text args ++ render cs (others args)
    else if d == b's'
    then string_text args ++ render cs (others args)
    else if d == b'x'
    then hex_text args ++ render cs (others args)
    else if d == b'u'
    then decimal_text args ++ render cs (others args)
    else c ∷ d ∷ cs

render-conversion :
    (c d : ℕ) (cs : List ℕ) (args : List Arg)
    → render_conversion c d cs args ≡ (
        if is_conversion d
        then (next_arg d args).0 ++ render cs (next_arg d args).1
        else c ∷ d ∷ cs)
render-conversion c d cs args =
    let more = others-next_arg d args in
    elim (ℕ_discrete d b'c') [
      | yes e ↦ rw (e, others-next_arg b'c' args, next_arg-char args) refl
      | no nc ↦ elim (ℕ_discrete d b's') [
        | yes e ↦ rw (e, others-next_arg b's' args, next_arg-string args) refl
        | no ns ↦ elim (ℕ_discrete d b'x') [
          | yes e ↦ rw (e, others-next_arg b'x' args, next_arg-hex args) refl
          | no nx ↦ elim (ℕ_discrete d b'u') [
            | yes e ↦ rw (e, others-next_arg b'u' args, next_arg-decimal args) refl
            | no nu ↦
                let fc : (d == b'c') ≡ false = ground (arith, nc) in
                let fs : (d == b's') ≡ false = ground (arith, ns) in
                let fx : (d == b'x') ≡ false = ground (arith, nx) in
                let fu : (d == b'u') ≡ false = ground (arith, nu) in rw (fc, fs, fx, fu) refl
          ]
        ]
      ]
    ]

render-run : (cs : List ℕ) (args : List Arg) → render cs args ≡ run cs ++ render (after cs) args
unfolding render
render-run [] args = refl
render-run (c ∷ []) args = ground arith
render-run (c ∷ d ∷ cs) args = elim (Bool-cases (c == b'%')) [
  | inl percent ↦
      let nothing : run (c ∷ d ∷ cs) ≡ [] = rw percent refl in
      let all : after (c ∷ d ∷ cs) ≡ c ∷ d ∷ cs = rw percent refl in
      sym (ap₂ (λ (r a : List ℕ). r ++ render a args) nothing all)
  | inr other ↦ rw other (ap (λ (t : List ℕ). c ∷ t) (render-run (d ∷ cs) args))
]

length-after : (cs : List ℕ) → length (after cs) ≤ length cs
length-after [] = omega arith
length-after (c ∷ cs) = ground (arith, length-after cs)

-- The result is -1 where the text is longer than INT_MAX; otherwise all of it is printed and counted.
pub record Prints (text : List ℕ) (written : ℕ) (r : List ℕ × Option ℕ) : Type 0 where
  pub status :
      r.1 ≡ (if leb (written + length text) int_max then some (written + length text) else none)
  pub all : written + length text ≤ int_max → r.0 ≡ text

emit-Prints :
    (text more : List ℕ) (written : ℕ) (r : List ℕ × Option ℕ)
    → written ≤ int_max
    → (written + length text ≤ int_max → Prints more (written + length text) r)
    → Prints (text ++ more) written (emit text written r)
emit-Prints text more written r h rest = elim (Bool-cases (ltb (int_max - written) (length text))) [
  | inl long ↦ rw long (record {
    status = ground (arith, length-append text more);
    all = λ fits. absurd (ground (arith, length-append text more));
  })
  | inr short ↦
      let p = rest (ground arith) in
      let sum : written + length text + length more ≡ written + length (text ++ more) =
        omega (arith, length-append text more) in
      rw short (record {
        status = p.status ∙ rw sum refl;
        all = λ fits. ap (λ (t : List ℕ). text ++ t) (p.all (omega (arith, sum)));
      })
]

print_from-Prints :
    (fuel : ℕ) (format : List ℕ) (args : List Arg) (written : ℕ)
    → length format ≤ fuel
    → written ≤ int_max
    → Prints (render format args) written (print_from fuel format args written)
unfolding render print_from
print_from-Prints fuel [] args written h w = record { status = ground arith; all = λ fits. refl }
print_from-Prints zero (c ∷ cs) args written h w = absurd (omega arith)
print_from-Prints (suc fuel) (c ∷ []) args written h w =
    emit-Prints (c ∷ []) [] written _ w
      (λ fits. print_from-Prints fuel [] args (written + 1) (omega arith) fits)
print_from-Prints (suc fuel) (c ∷ d ∷ cs) args written h w = elim (Bool-cases (c == b'%')) [
  | inr other ↦
      rw (other, render-run (d ∷ cs) args)
        (emit-Prints (c ∷ run (d ∷ cs)) (render (after (d ∷ cs)) args) written _ w (λ fits.
          print_from-Prints fuel (after (d ∷ cs)) args _ (omega (arith, length-after (d ∷ cs)))
            fits))
  | inl percent ↦ elim (Bool-cases (d == b'%')) [
    | inl escape ↦
        rw (percent, escape, render-run cs args)
          (emit-Prints (d ∷ run cs) (render (after cs) args) written _ w (λ fits.
            print_from-Prints fuel (after cs) args _ (omega (arith, length-after cs)) fits))
    | inr plain ↦ elim (Bool-cases (is_conversion d)) [
      | inl conversion ↦
          rw (percent, plain, render-conversion c d cs args, conversion)
            (emit-Prints (next_arg d args).0 (render cs (next_arg d args).1) written _ w
              (λ fits. print_from-Prints fuel cs (next_arg d args).1 _ (omega arith) fits))
      | inr unknown ↦
          rw (percent, plain, render-conversion c d cs args, unknown)
            (subst
              (λ (t : List ℕ).
                Prints t written
                  (emit (c ∷ d ∷ cs) written ([], some (written + length (c ∷ d ∷ cs)))))
              (append-nil (c ∷ d ∷ cs))
              (emit-Prints (c ∷ d ∷ cs) [] written ([], some (written + length (c ∷ d ∷ cs))) w
                (λ fits. record { status = ground arith; all = λ more. refl })))
    ]
  ]
]

-- `printk` ends. Where the text of the format and the arguments, with the four conversions as they are
-- meant, has INT_MAX characters at most, it prints just that text and returns its length; otherwise it
-- returns -1.
pub printk_lem :
    (format : List ℕ) (args : List Arg)
    → ((printk format args).1 ≡ (
        if leb (length (render format args)) int_max
        then some (length (render format args))
        else none))
      × (length (render format args) ≤ int_max → (printk format args).0 ≡ render format args)
unfolding printk
printk_lem format args =
    let p = print_from-Prints (length format) format args 0 (omega arith) (omega arith) in
    let none_before : 0 + length (render format args) ≡ length (render format args) = omega arith in
    (p.status ∙ rw none_before refl, λ fits. p.all (omega (arith, fits)))
