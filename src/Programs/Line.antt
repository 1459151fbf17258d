-- ===== src/Programs/Line.antt =====
-- user/shell.c: the line that is typed, and the program that it runs.
use Prim.Native.Nat.{ℕ}
use emyx.Base.{
  All, ◌+◌, ◌-◌, ◌<◌, ◌≡◌, ◌≢◌, inl, inr, refl, sym, ap, ap₂, ◌∙◌, true, false, ◌||◌, List, [], ◌∷◌,
  ◌++◌, length, get_or, set, take, ltb, ◌==◌, if◌then◌else◌, Bool-cases, arith, length-set,
  get_or-set_self, get_or-set_ne, length-take, take-set, take-suc, take-take,
}
use native.Mathlib.Decide.{ℕ_discrete}
use emyx.Programs.{Calls, Input, Next, reads, quits, rub_out, put_char, round, rounds}

-- The line has 31 characters at most, none of which is a NUL.
pub record IsInput (k : Input) : Type 0 where
  pub size : length k.chars ≡ 32
  pub short : k.length < 32
  pub solid : (j : ℕ) → j < k.length → get_or k.chars j 0 ≢ 0

abbrev pub text : Input → List ℕ
text k = take k.length k.chars

-- The text after a character that is not a newline: a backspace takes the last one away, and one that
-- can be printed is added where there is room.
abbrev pub extended : List ℕ → ℕ → List ℕ
extended line c = if ltb c 32 || (ltb 126 c || (length line == 31)) then line else line ++ (c ∷ [])

abbrev pub edited : List ℕ → ℕ → List ℕ
edited line c = if c == 8 then take (length line - 1) line else extended line c

abbrev pub edited_all : List ℕ → List ℕ → List ℕ
edited_all line [] = line
edited_all line (c ∷ cs) = edited_all (edited line c) cs

-- The shell goes on with this line.
abbrev pub HasText : {W : Type 0} → List ℕ → Next W → Type 0
HasText line (reads w k) = IsInput k × (text k ≡ line)
HasText line (quits w) = ⊥

pub text-length : (k : Input) → IsInput k → length (text k) ≡ k.length
text-length k v = length-take k.length k.chars (omega (arith, v.size, v.short))

shorter : (k : Input) → IsInput k → IsInput (record k { length = k.length - 1 })
shorter k v = record {
  size = v.size;
  short = omega (arith, v.short);
  solid = λ j hj. v.solid j (omega (arith, hj));
}

added :
    (k : Input) (c : ℕ)
    → IsInput k
    → c ≢ 0
    → k.length < 31
    → IsInput (record { chars = set k.chars k.length c; length = k.length + 1 })
added k c v ne h = record {
  size = length-set k.chars k.length c ∙ v.size;
  short = omega (arith, h);
  solid = λ j hj. elim (ℕ_discrete j k.length) [
    | yes here ↦ rw (here, get_or-set_self k.chars k.length c 0 (omega (arith, v.size, h))) ne
    | no before ↦
        rw (get_or-set_ne k.chars k.length j c 0 (λ e. before (sym e)))
          (v.solid j (omega (arith, before)))
  ];
}

added-text :
    (k : Input) (c : ℕ)
    → IsInput k
    → take (k.length + 1) (set k.chars k.length c) ≡ text k ++ (c ∷ [])
added-text k c v =
    let sz = length-set k.chars k.length c ∙ v.size in
    take-suc k.length (set k.chars k.length c) 0 (omega (arith, sz, v.short))
    ∙ ap₂ (λ xs d. xs ++ (d ∷ [])) (take-set k.length k.length k.chars c (omega arith))
        (get_or-set_self k.chars k.length c 0 (omega (arith, v.size, v.short)))

module _ {W : Type 0} (calls : Calls W) where
  rub_out-HasText :
      (w : W) (k : Input) → IsInput k → HasText (edited (text k) 8) (rub_out calls w k)
  unfolding rub_out
  rub_out-HasText w k v = elim (Bool-cases (ltb 0 k.length)) [
    | inl more ↦ rw more (
      shorter k v,
      sym (take-take (k.length - 1) k.length k.chars (omega arith))
          ∙ ap (λ n. take (n - 1) (text k)) (sym (text-length k v)),
    )
    | inr none_there ↦
        let none_left : k.length ≡ 0 = ground arith in
        let e : text k ≡ [] = ap (λ n. take n k.chars) none_left in
        rw none_there (v, e ∙ sym (ap (λ xs. take (length xs - 1) xs) e))
  ]

  put_char-HasText :
      (w : W) (k : Input) (c : ℕ) → IsInput k → HasText (extended (text k) c) (put_char calls w k c)
  unfolding put_char
  put_char-HasText w k c v =
      let len = text-length k v in
      elim (Bool-cases (ltb c 32 || (ltb 126 c || (k.length == 31)))) [
        | inl skip ↦
            let skip' : (ltb c 32 || (ltb 126 c || (length (text k) == 31))) ≡ true = rw len skip in
            rw skip (v, rw skip' refl)
        | inr fine ↦
            let fine' : (ltb c 32 || (ltb 126 c || (length (text k) == 31))) ≡ false =
              rw len fine in
            rw fine (
              added k c v (ground (arith, fine)) (ground (arith, fine, v.short)),
              rw fine' (added-text k c v),
            )
      ]

  round-HasText :
      (w : W) (k : Input) (c : ℕ)
      → IsInput k
      → c ≢ 10
      → HasText (edited (text k) c) (round calls w k c)
  unfolding round
  round-HasText w k c v ne = elim (Bool-cases (c == 0)) [
    | inl idle ↦ let nul : c ≡ 0 = ground arith in rw (idle, nul) (v, refl)
    | inr more ↦ elim (Bool-cases (c == 8)) [
      | inl back ↦ let bs : c ≡ 8 = ground arith in rw bs (rub_out-HasText w k v)
      | inr plain ↦
          let other : (c == 10) ≡ false = ground (arith, ne) in
          rw (more, plain, other) (put_char-HasText w k c v)
    ]
  ]

  pub rounds-HasText :
      (cs line : List ℕ) (next : Next W)
      → HasText line next
      → All (λ c. c ≢ 10) cs
      → HasText (edited_all line cs) (rounds calls next cs)
  unfolding rounds
  rounds-HasText [] line next v h = v
  rounds-HasText (c ∷ cs) line (quits w) v h = absurd v
  rounds-HasText (c ∷ cs) line (reads w k) v h =
      rounds-HasText cs (edited line c) (round calls w k c)
        (rw (sym v.1) (round-HasText w k c v.0 h.0)) h.1
