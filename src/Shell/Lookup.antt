-- ===== src/Shell/Lookup.antt =====
-- kernel/kshell.c: which command a line runs.
use Prim.Native.Nat.{ℕ, zero, suc}
use emyx.Base.{
  ◌+◌, ◌-◌, ◌≤◌, ◌<◌, ◌≡◌, ◌≢◌, ◌⊎◌, inl, inr, refl, sym, ap, ◌∙◌, Bool, true, false, ◌&&◌, none,
  some, List, [], ◌∷◌, length, get_or, take, ltb, ◌==◌, if◌then◌else◌, Bool-cases, arith,
  length-take, get_or-take,
}
use native.Mathlib.Decide.{ℕ_discrete}
use emyx.Strings.{memcmp}
use emyx.Strings.Compares.{same, lower, higher, memcmp_lem, strlen_lem}
use emyx.Shell.{
  Kshell, KshellCmd, Action, nothing, unknown, run, commands, word_from, both, is_equal,
  line_length, find_from, kshell_exec, size,
}
use emyx.Shell.Line.{IsLine, text, text-length}

-- The first word of a line, and the equality of two texts.
abbrev pub first_word : List ℕ → List ℕ
first_word [] = []
first_word (c ∷ cs) = if c == b' ' then [] else c ∷ first_word cs

unfoldable pub same_text : List ℕ → List ℕ → Bool
same_text [] [] = true
same_text [] (d ∷ ds) = false
same_text (c ∷ cs) [] = false
same_text (c ∷ cs) (d ∷ ds) = (c == d) && same_text cs ds

-- The command that has a name.
unfoldable pub lookup : List KshellCmd → List ℕ → Action
lookup [] word = unknown
lookup (cmd ∷ cmds) word = if same_text cmd.name word then run cmd.fn else lookup cmds word

-- What a line asks for: nothing if it is empty, else the command that its first word names.
unfoldable pub asked : List ℕ → Action
asked [] = nothing
asked (c ∷ cs) = lookup commands (first_word (c ∷ cs))

first_word-take :
    (n w : ℕ) (xs : List ℕ)
    → w ≤ n
    → n ≤ length xs
    → ((j : ℕ) → j < w → get_or xs j 0 ≢ b' ')
    → (w ≡ n) ⊎ (get_or xs w 0 ≡ b' ')
    → first_word (take n xs) ≡ take w xs
first_word-take zero zero xs h k clear end = refl
first_word-take zero (suc w) xs h k clear end = absurd (omega arith)
first_word-take (suc n) w [] h k clear end = absurd (omega arith)
first_word-take (suc n) zero (x ∷ xs) h k clear (inl all) = absurd (omega arith)
first_word-take (suc n) zero (x ∷ xs) h k clear (inr space) = rw space refl
first_word-take (suc n) (suc w) (x ∷ xs) h k clear end =
    let off : (x == b' ') ≡ false = ground (arith, clear 0 (omega arith)) in
    rw off (
      ap (λ ys. x ∷ ys)
        (first_word-take n w xs (omega arith) (omega arith) (λ j hj. clear (suc j) (omega arith))
          (elim end [ inl all ↦ inl (omega arith) | inr space ↦ inr space ])))

-- Where the loop over the first word ends.
record Word (xs : List ℕ) (i n w : ℕ) : Type 0 where
  from : i ≤ w
  to : w ≤ i + n
  clear : (j : ℕ) → i ≤ j → j < w → get_or xs j 0 ≢ b' '
  end : (w ≡ i + n) ⊎ (get_or xs w 0 ≡ b' ')

word_from-Word : (n i : ℕ) (xs : List ℕ) → Word xs i n (word_from n i xs)
unfolding word_from
word_from-Word zero i xs = record {
  from = omega arith;
  to = omega arith;
  clear = λ j l m. absurd (omega arith);
  end = inl (omega arith);
}
word_from-Word (suc n) i xs = elim (Bool-cases (get_or xs i 0 == b' ')) [
  | inl space ↦ rw space (record {
    from = omega arith;
    to = omega arith;
    clear = λ j l m. absurd (omega arith);
    end = inr (ground arith);
  })
  | inr other ↦
      let rest = word_from-Word n (i + 1) xs in
      rw other (record {
        from = omega (arith, rest.from);
        to = omega (arith, rest.to);
        clear = λ j l m. elim (ℕ_discrete j i) [
          | yes here ↦ rw here (ground (arith, other))
          | no later ↦ rest.clear j (omega arith) m
        ];
        end = elim rest.end [ inl all ↦ inl (omega arith) | inr space ↦ inr space ];
      })
]

same_text-pointwise :
    (xs ys : List ℕ)
    → length xs ≡ length ys
    → ((j : ℕ) → j < length xs → get_or xs j 0 ≡ get_or ys j 0)
    → same_text xs ys ≡ true
unfolding same_text
same_text-pointwise [] [] e h = refl
same_text-pointwise [] (d ∷ ds) e h = absurd (omega arith)
same_text-pointwise (c ∷ cs) [] e h = absurd (omega arith)
same_text-pointwise (c ∷ cs) (d ∷ ds) e h = ground (
  arith,
  h 0 (omega arith),
  same_text-pointwise cs ds (omega arith) (λ j hj. h (suc j) (omega arith)),
)

get_or-cons :
    (c d : ℕ) (cs ds : List ℕ)
    → c ≡ d
    → ((j : ℕ) → get_or cs j 0 ≡ get_or ds j 0)
    → (j : ℕ) → get_or (c ∷ cs) j 0 ≡ get_or (d ∷ ds) j 0
get_or-cons c d cs ds e h zero = e
get_or-cons c d cs ds e h (suc j) = h j

pointwise-same_text :
    (xs ys : List ℕ)
    → same_text xs ys ≡ true
    → (length xs ≡ length ys) × ((j : ℕ) → get_or xs j 0 ≡ get_or ys j 0)
unfolding same_text
pointwise-same_text [] [] e = (refl, λ j. refl)
pointwise-same_text [] (d ∷ ds) e = absurd (ground arith)
pointwise-same_text (c ∷ cs) [] e = absurd (ground arith)
pointwise-same_text (c ∷ cs) (d ∷ ds) e =
    let rest = pointwise-same_text cs ds (ground arith) in
    (omega (arith, rest.0), get_or-cons c d cs ds (ground arith) rest.1)

both-low : (xs name : List ℕ) (k : ℕ) → k < 128 → both xs name (0 + k) ≡ get_or xs k 0
both-low xs name k h = let z : 0 + k ≡ k = omega arith in rw z (ground (arith, h))

both-high : (xs name : List ℕ) (k : ℕ) → both xs name (128 + k) ≡ get_or name k 0
both-high xs name k =
    let off : ltb (128 + k) 128 ≡ false = ground arith in
    let z : 128 + k - 128 ≡ k = omega arith in rw (off, z) refl

-- The test of the loop is the equality of the command's name and the word.
is_word :
    (xs name : List ℕ) (w : ℕ)
    → length xs ≡ 128
    → w ≤ 128
    → ((length name == w) && is_equal (memcmp (both xs name) 0 128 (length name)))
      ≡ same_text name (take w xs)
is_word xs name w size h = elim (Bool-cases (same_text name (take w xs))) [
  | inl yes_text ↦
      let p = pointwise-same_text name (take w xs) yes_text in
      let len : length name ≡ w = p.0 ∙ length-take w xs (omega (arith, size, h)) in
      let l : (length name == w) ≡ true = ground (arith, len) in
      rw (l, yes_text)
        (elim (memcmp_lem (both xs name) 0 128 (length name)) [
          | same e all ↦ rw e refl
          | lower k e lo m eq lt ↦ absurd (
              omega (
                arith,
                lt,
                p.1 k,
                get_or-take w k xs 0 (omega (arith, m, len)),
                both-low xs name k (omega (arith, m, len, h)),
                both-high xs name k,
              ))
          | higher k e lo m eq lt ↦ absurd (
              omega (
                arith,
                lt,
                p.1 k,
                get_or-take w k xs 0 (omega (arith, m, len)),
                both-low xs name k (omega (arith, m, len, h)),
                both-high xs name k,
              ))
        ])
  | inr no_text ↦ elim (ℕ_discrete (length name) w) [
    | no other ↦ let l : (length name == w) ≡ false = ground (arith, other) in rw (l, no_text) refl
    | yes len ↦
        let l : (length name == w) ≡ true = ground (arith, len) in
        rw (l, no_text)
          (elim (memcmp_lem (both xs name) 0 128 (length name)) [
            | same e all ↦ absurd (
                ground (
                  arith,
                  no_text,
                  same_text-pointwise name (take w xs)
                      (len ∙ sym (length-take w xs (omega (arith, size, h))))
                      (λ j hj.
                        sym (both-high xs name j)
                        ∙ (sym (all j (omega arith) hj)
                            ∙ (both-low xs name j (omega (arith, hj, len, h))
                                ∙ sym (get_or-take w j xs 0 (omega (arith, hj, len)))))),
                ))
            | lower k e lo m eq lt ↦ rw e refl
            | higher k e lo m eq lt ↦ rw e refl
          ])
  ]
]

find_from-lookup :
    (cmds : List KshellCmd) (xs : List ℕ) (w : ℕ)
    → length xs ≡ 128
    → w ≤ 128
    → find_from cmds w xs ≡ lookup cmds (take w xs)
unfolding find_from lookup
find_from-lookup [] xs w size h = refl
find_from-lookup (cmd ∷ cmds) xs w size h =
    rw (is_word xs cmd.name w size h, find_from-lookup cmds xs w size h) refl

asked-some : (line : List ℕ) → 0 < length line → asked line ≡ lookup commands (first_word line)
unfolding asked
asked-some [] h = absurd (omega arith)
asked-some (c ∷ cs) h = refl

asked-none : (line : List ℕ) → length line ≡ 0 → asked line ≡ nothing
unfolding asked
asked-none [] h = refl
asked-none (c ∷ cs) h = absurd (omega arith)

line_length_lem : (k : Kshell) → IsLine k → line_length k.buffer ≡ k.length
unfolding line_length
line_length_lem k v =
    let zero_plus : (j : ℕ) → 0 + j ≡ j = λ j. omega arith in
    ap (λ o. elim o [ none ↦ 128 | some len ↦ len ])
      (strlen_lem 128 (λ i. get_or k.buffer i 0) 0 k.length v.short
        (ap (λ i. get_or k.buffer i 0) (zero_plus k.length) ∙ v.ended)
        (λ j hj e. v.solid j hj (sym (ap (λ i. get_or k.buffer i 0) (zero_plus j)) ∙ e)))

-- On a buffer with a text of at most 127 characters and the NUL behind it, `kshell_exec` does
-- nothing if the text is empty, and otherwise runs the first command of the table whose name is
-- the text's first word, or says that there is none.
pub kshell_exec_lem : (k : Kshell) → IsLine k → kshell_exec k ≡ asked (text k)
unfolding kshell_exec
kshell_exec_lem k v =
    let len = line_length_lem k v in
    let word = word_from-Word k.length 0 k.buffer in
    let w = word_from k.length 0 k.buffer in
    let first : first_word (text k) ≡ take w k.buffer =
      first_word-take k.length w k.buffer (omega (arith, word.to)) (omega (arith, v.size, v.short))
        (λ j hj. word.clear j (omega arith) hj)
        (elim word.end [ inl all ↦ inl (omega arith) | inr space ↦ inr space ]) in
    elim (Bool-cases (k.length == 0)) [
      | inl empty ↦ rw (len, empty) (sym (asked-none (text k) (text-length k v ∙ ground arith)))
      | inr some_there ↦
          let pos : 0 < k.length = ground arith in
          rw (len, some_there)
            (find_from-lookup commands k.buffer w v.size (omega (arith, word.to, v.short))
              ∙ sym (
                  asked-some (text k) (omega (arith, text-length k v, pos))
                  ∙ ap (lookup commands) first))
    ]
