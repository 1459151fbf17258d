-- ===== src/Shell/Line.antt =====
-- kernel/kshell.c: the line buffer as the text that was typed.
use Prim.Native.Nat.{ℕ}
use emyx.Base.{
  All, ◌+◌, ◌-◌, ◌<◌, ◌≡◌, ◌≢◌, inl, inr, refl, sym, ap, ap₂, ◌∙◌, Bool, true, false, not, none,
  some, ◌||◌, List, [], ◌∷◌, ◌++◌, length, get_or, set, take, ltb, ◌==◌, if◌then◌else◌, Bool-cases,
  arith, length-set, get_or-set_self, get_or-set_ne, length-take, take-set, take-suc, take-take,
}
use native.Mathlib.Decide.{ℕ_discrete}
use emyx.Shell.{Kshell, echo, erase, append, kshell_on_char, kshell_init, kshell_exec, kshell_poll}

-- The buffer has a text of 127 characters at most, none of which is a NUL, and the NUL behind it.
pub record IsLine (k : Kshell) : Type 0 where
  pub size : length k.buffer ≡ 128
  pub short : k.length < 128
  pub ended : get_or k.buffer k.length 0 ≡ 0
  pub solid : (j : ℕ) → j < k.length → get_or k.buffer j 0 ≢ 0

abbrev pub text : Kshell → List ℕ
text k = take k.length k.buffer

-- The text after a character: a newline changes nothing, a backspace takes the last character away,
-- and any other is added where there is room.
abbrev pub typed : List ℕ → ℕ → List ℕ
typed line c =
    if c == 10
    then line
    else if c == 8
    then take (length line - 1) line
    else if ltb (length line) 127
    then line ++ (c ∷ [])
    else line

-- What holds after a character.
pub record Types (k : Kshell) (c : ℕ) (r : Kshell) : Type 0 where
  pub line : IsLine r
  pub typing : text r ≡ typed (text k) c
  pub ready : r.command_ready ≡ (k.command_ready || (c == 10))
  pub active : r.active ≡ k.active

pub text-length : (k : Kshell) → IsLine k → length (text k) ≡ k.length
text-length k v = length-take k.length k.buffer (omega (arith, v.size, v.short))

erase-IsLine : (k : Kshell) → IsLine k → 0 < k.length → IsLine (erase k)
erase-IsLine k v h = record {
  size = length-set k.buffer (k.length - 1) 0 ∙ v.size;
  short = omega (arith, v.short);
  ended = get_or-set_self k.buffer (k.length - 1) 0 0 (omega (arith, v.size, v.short));
  solid = λ j hj e.
      v.solid j (omega arith)
        (sym (get_or-set_ne k.buffer (k.length - 1) j 0 0 (λ e'. absurd (omega arith))) ∙ e);
}

append-IsLine : (k : Kshell) (c : ℕ) → IsLine k → c ≢ 0 → k.length < 127 → IsLine (append k c)
append-IsLine k c v ne h =
    let b = set k.buffer k.length c in
    let sz : length b ≡ 128 = length-set k.buffer k.length c ∙ v.size in
    record {
      size = length-set b (k.length + 1) 0 ∙ sz;
      short = omega (arith, h);
      ended = get_or-set_self b (k.length + 1) 0 0 (omega (arith, sz, h));
      solid = λ j hj. elim (ℕ_discrete j k.length) [
        | yes here ↦
            rw
              (
                here,
                get_or-set_ne b (k.length + 1) k.length 0 0 (λ e. absurd (omega arith)),
                get_or-set_self k.buffer k.length c 0 (omega (arith, v.size, h)),
              )
              ne
        | no before ↦
            rw
              (
                get_or-set_ne b (k.length + 1) j 0 0 (λ e. absurd (omega arith)),
                get_or-set_ne k.buffer k.length j c 0 (λ e. before (sym e)),
              )
              (v.solid j (omega (arith, before)))
      ];
    }

append-text :
    (k : Kshell) (c : ℕ) → IsLine k → k.length < 127 → text (append k c) ≡ text k ++ (c ∷ [])
append-text k c v h =
    let b = set k.buffer k.length c in
    let sz : length b ≡ 128 = length-set k.buffer k.length c ∙ v.size in
    take-set (k.length + 1) (k.length + 1) b 0 (omega arith)
    ∙ (take-suc k.length b 0 (omega (arith, sz, h))
        ∙ ap₂ (λ xs d. xs ++ (d ∷ [])) (take-set k.length k.length k.buffer c (omega arith))
            (get_or-set_self k.buffer k.length c 0 (omega (arith, v.size, h))))

erase-text : (k : Kshell) → IsLine k → text (erase k) ≡ take (length (text k) - 1) (text k)
erase-text k v =
    take-set (k.length - 1) (k.length - 1) k.buffer 0 (omega arith)
    ∙ (sym (take-take (k.length - 1) k.length k.buffer (omega arith))
        ∙ ap (λ n. take (n - 1) (text k)) (sym (text-length k v)))

-- The other variables play no part.
relined :
    (k : Kshell) (ready active : Bool) (output : List ℕ)
    → IsLine k
    → IsLine (record k { command_ready = ready; active = active; output = output })
relined k ready active output v = record {
  size = v.size;
  short = v.short;
  ended = v.ended;
  solid = v.solid;
}

no_change :
    (k : Kshell) (c : ℕ) → IsLine k → (c == 10) ≡ false → text k ≡ typed (text k) c → Types k c k
no_change k c v n e = record { line = v; typing = e; ready = ground (arith, n); active = refl }

backspace-Types :
    (k : Kshell) → IsLine k → Types k 8 (if ltb 0 k.length then echo (erase k) 8 else k)
backspace-Types k v = elim (Bool-cases (ltb 0 k.length)) [
  | inl some_there ↦ rw some_there (record {
    line =
        relined (erase k) k.command_ready k.active (echo (erase k) 8).output
          (erase-IsLine k v (ground arith));
    typing = erase-text k v;
    ready = ground arith;
    active = refl;
  })
  | inr none_there ↦
      let none_left : k.length ≡ 0 = ground arith in
      let e : text k ≡ [] = ap (λ n. take n k.buffer) none_left in
      rw none_there (no_change k 8 v refl (e ∙ sym (ap (λ xs. take (length xs - 1) xs) e)))
]

plain-Types :
    (k : Kshell) (c : ℕ)
    → IsLine k
    → c ≢ 0
    → (c == 10) ≡ false
    → (c == 8) ≡ false
    → Types k c (if ltb k.length 127 then echo (append k c) c else k)
plain-Types k c v ne n b = elim (Bool-cases (ltb k.length 127)) [
  | inl room ↦
      let fits : ltb (length (text k)) 127 ≡ true = rw (text-length k v) room in
      rw room (record {
        line =
            relined (append k c) k.command_ready k.active (echo (append k c) c).output
              (append-IsLine k c v ne (ground arith));
        typing = rw (n, b, fits) (append-text k c v (ground arith));
        ready = ground (arith, n);
        active = refl;
      })
  | inr full ↦
      let full' : ltb (length (text k)) 127 ≡ false = rw (text-length k v) full in
      rw full (no_change k c v n (rw (n, b, full') refl))
]

pub on_char_lem :
    (k : Kshell) (c : ℕ) → IsLine k → k.active ≡ true → c ≢ 0 → Types k c (kshell_on_char k c)
unfolding kshell_on_char
on_char_lem k c v on ne =
    let awake : not k.active ≡ false = ground (arith, on) in
    elim (ℕ_discrete c 10) [
      | yes newline ↦
          rw (awake, newline)
            (record {
              line = relined k true k.active (echo k 10).output v;
              typing = refl;
              ready = ground arith;
              active = refl;
            })
      | no other ↦
          let n : (c == 10) ≡ false = ground (arith, other) in
          elim (ℕ_discrete c 8) [
            | yes back ↦ rw (awake, back) (backspace-Types k v)
            | no plain ↦
                let b : (c == 8) ≡ false = ground (arith, plain) in
                rw (awake, n, b) (plain-Types k c v ne n b)
          ]
    ]

-- A shell that is not active takes no character.
pub on_char-asleep : (k : Kshell) (c : ℕ) → k.active ≡ false → kshell_on_char k c ≡ k
unfolding kshell_on_char
on_char-asleep k c off = let asleep : not k.active ≡ true = ground (arith, off) in rw asleep refl

-- A series of characters, and the text after it.
unfoldable pub type_all : Kshell → List ℕ → Kshell
type_all k [] = k
type_all k (c ∷ cs) = type_all (kshell_on_char k c) cs

unfoldable pub typed_all : List ℕ → List ℕ → List ℕ
typed_all line [] = line
typed_all line (c ∷ cs) = typed_all (typed line c) cs

-- On an active shell whose buffer has a text of at most 127 characters and the NUL behind it, any
-- series of characters that are not NUL leaves such a buffer, and its text is the one that a line
-- editor gives: a newline changes nothing, a backspace takes the last character away, and any
-- other is added where there is room.
pub type_all_lem :
    (k : Kshell) (cs : List ℕ)
    → IsLine k
    → k.active ≡ true
    → All (λ c. c ≢ 0) cs
    → IsLine (type_all k cs) × (text (type_all k cs) ≡ typed_all (text k) cs)
unfolding type_all typed_all
type_all_lem k [] v on h = (v, refl)
type_all_lem k (c ∷ cs) v on h =
    let one = on_char_lem k c v on h.0 in
    let rest = type_all_lem (kshell_on_char k c) cs one.line (one.active ∙ on) h.1 in
    (rest.0, rest.1 ∙ ap (λ line. typed_all line cs) one.typing)

-- A new line is empty.
pub init-IsLine : (k : Kshell) → IsLine (kshell_init k)
unfolding kshell_init
init-IsLine k = record {
  size = refl;
  short = omega arith;
  ended = refl;
  solid = λ j hj. absurd (omega arith);
}

pub init-active : (k : Kshell) → (kshell_init k).active ≡ true
unfolding kshell_init
init-active k = refl

pub init_fields :
    (k : Kshell) → ((kshell_init k).length ≡ 0) × ((kshell_init k).command_ready ≡ false)
unfolding kshell_init
init_fields k = (refl, refl)

-- A command runs where one is ready.
pub poll-ready : (k : Kshell) → k.command_ready ≡ true → kshell_poll k ≡ some (kshell_exec k)
unfolding kshell_poll
poll-ready k ready = ap (λ (b : Bool). if not b then none else some (kshell_exec k)) ready

pub poll-not_ready : (k : Kshell) → k.command_ready ≡ false → kshell_poll k ≡ none
unfolding kshell_poll
poll-not_ready k ready = ap (λ (b : Bool). if not b then none else some (kshell_exec k)) ready
