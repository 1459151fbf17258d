-- ===== src/Process/Table.antt =====
-- kernel/user.c: what its loops find in the process table, and the invariant of the table.
use Prim.Native.Nat.{ℕ, zero, suc}
use emyx.Base.{
  ◌+◌, ◌≤◌, ◌<◌, ◌≡◌, ◌≢◌, inl, inr, refl, sym, ap, subst, ◌∙◌, Bool, true, false, Option, none,
  some, List, get_or, set, Bool-cases, arith, length, length-set, get_or-set_self, get_or-set_ne,
}
use native.Mathlib.Decide.{ℕ_discrete}
use emyx.Process.{Process, is_free, no_process, search, user_process_release}

-- What a search for the first of the processes from `lo` on and below `hi` comes to.
pub data Found (test : Process → Bool) (ps : List Process) (lo hi : ℕ) : Option ℕ → Type 0 where
  missing :
      ((j : ℕ) → lo ≤ j → j < hi → test (get_or ps j no_process) ≡ false) → Found test ps lo hi none
  found :
      (k : ℕ)
      → lo ≤ k
      → k < hi
      → test (get_or ps k no_process) ≡ true
      → ((j : ℕ) → lo ≤ j → j < k → test (get_or ps j no_process) ≡ false)
      → Found test ps lo hi (some k)

widen :
    (test : Process → Bool) (ps : List Process) (lo hi : ℕ) (o : Option ℕ)
    → test (get_or ps lo no_process) ≡ false
    → Found test ps (lo + 1) hi o
    → Found test ps lo hi o
widen test ps lo hi none off (missing h) =
    missing
      (λ j l m. elim (ℕ_discrete j lo) [ yes same ↦ rw same off | no other ↦ h j (omega arith) m ])
widen test ps lo hi (some _) off (found k l m on h) =
    found k (omega arith) m on (λ j l' m'. elim (ℕ_discrete j lo) [
      | yes same ↦ rw same off
      | no other ↦ h j (omega arith) m'
    ])

search_from :
    (test : Process → Bool) (ps : List Process) (n i hi : ℕ)
    → i + n ≡ hi
    → Found test ps i hi (search test n i ps)
unfolding search
search_from test ps zero i hi e = missing (λ j l m. absurd (omega arith))
search_from test ps (suc n) i hi e = elim (Bool-cases (test (get_or ps i no_process))) [
  | inl on ↦ rw on (found i (omega arith) (omega arith) on (λ j l m. absurd (omega arith)))
  | inr off ↦ rw off (
      widen test ps i hi (search test n (i + 1) ps) off
        (search_from test ps n (i + 1) hi (omega arith)))
]

pub search_lem :
    (test : Process → Bool) (ps : List Process) → Found test ps 0 16 (search test 16 0 ps)
search_lem test ps = search_from test ps 16 0 16 refl

-- The one process that passes a test is the one that is found.
pub search-only :
    (test : Process → Bool) (ps : List Process) (k : ℕ)
    → k < 16
    → test (get_or ps k no_process) ≡ true
    → ((j : ℕ) → j < 16 → test (get_or ps j no_process) ≡ true → j ≡ k)
    → search test 16 0 ps ≡ some k
search-only test ps k h on only = settle (search test 16 0 ps) (search_lem test ps)
  where
    settle : (o : Option ℕ) → Found test ps 0 16 o → o ≡ some k
    settle none (missing off) = absurd (ground (arith, off k (omega arith) h))
    settle (some _) (found i l m on' first) = ap some (only i m on')

pub search-none :
    (test : Process → Bool) (ps : List Process)
    → ((j : ℕ) → j < 16 → test (get_or ps j no_process) ≡ false)
    → search test 16 0 ps ≡ none
search-none test ps off = settle (search test 16 0 ps) (search_lem test ps)
  where
    settle : (o : Option ℕ) → Found test ps 0 16 o → o ≡ none
    settle none (missing h) = refl
    settle (some _) (found i l m on first) = absurd (ground (arith, off i m))

-- The invariant of the table: 16 records; the processes have distinct ids below the next one, none
-- of them 0, and each was numbered after its parent; a record that is free is all zeroes.
pub record IsTable (ps : List Process) (next : ℕ) : Type 0 where
  pub size : length ps ≡ 16
  pub begun : 0 < next
  pub unique :
      (i j : ℕ)
      → i < 16
      → j < 16
      → is_free (get_or ps i no_process).state ≡ false
      → is_free (get_or ps j no_process).state ≡ false
      → (get_or ps i no_process).pid ≡ (get_or ps j no_process).pid
      → i ≡ j
  pub numbered :
      (i : ℕ)
      → i < 16
      → is_free (get_or ps i no_process).state ≡ false
      → ((get_or ps i no_process).pid < next)
        × ((get_or ps i no_process).parent_pid < (get_or ps i no_process).pid)
  pub unused :
      (i : ℕ)
      → i < 16
      → is_free (get_or ps i no_process).state ≡ true
      → get_or ps i no_process ≡ no_process

-- A record that a table with the next id `next` can have at `i`.
pub data Fits (ps : List Process) (next i : ℕ) (p : Process) : Type 0 where
  zeroed : p ≡ no_process → Fits ps next i p
  process :
      is_free p.state ≡ false
      → p.pid < next
      → p.parent_pid < p.pid
      → ((j : ℕ)
          → j < 16
          → j ≢ i
          → is_free (get_or ps j no_process).state ≡ false
          → (get_or ps j no_process).pid ≢ p.pid)
      → Fits ps next i p

module _ (ps : List Process) (next next' i : ℕ) (p : Process) (v : IsTable ps next)
    (grown : next ≤ next') (h : i < 16) where
  own : get_or (set ps i p) i no_process ≡ p
  own = get_or-set_self ps i p no_process (omega (arith, v.size))

  other : (j : ℕ) → j ≢ i → get_or (set ps i p) j no_process ≡ get_or ps j no_process
  other j ne = get_or-set_ne ps i j p no_process (λ e. ne (sym e))

  Fits-unique :
      Fits ps next' i p
      → (j : ℕ) → j < 16
      → j ≢ i
      → is_free p.state ≡ false
      → is_free (get_or ps j no_process).state ≡ false
      → (get_or ps j no_process).pid ≢ p.pid
  Fits-unique (zeroed e) j hj ne on on' =
      absurd (ground (arith, subst (λ q. is_free q.state ≡ false) e on))
  Fits-unique (process a b c apart) j hj ne on on' = apart j hj ne on'

  Fits-numbered :
      Fits ps next' i p → is_free p.state ≡ false → (p.pid < next') × (p.parent_pid < p.pid)
  Fits-numbered (zeroed e) on = absurd (ground (arith, subst (λ q. is_free q.state ≡ false) e on))
  Fits-numbered (process a b c apart) on = (b, c)

  Fits-unused : Fits ps next' i p → is_free p.state ≡ true → p ≡ no_process
  Fits-unused (zeroed e) off = e
  Fits-unused (process a b c apart) off = absurd (ground arith)

  pub set-IsTable : Fits ps next' i p → IsTable (set ps i p) next'
  set-IsTable f = record {
    size = length-set ps i p ∙ v.size;
    begun = omega (arith, v.begun);
    unique = λ j k hj hk. elim (ℕ_discrete j i) [
      | yes a ↦ elim (ℕ_discrete k i) [
        | yes b ↦ λ on on' e. a ∙ sym b
        | no b ↦ rw (a, own, other k b) (λ on on' e. absurd (Fits-unique f k hk b on on' (sym e)))
      ]
      | no a ↦ elim (ℕ_discrete k i) [
        | yes b ↦ rw (b, own, other j a) (λ on on' e. absurd (Fits-unique f j hj a on' on e))
        | no b ↦ rw (other j a, other k b) (λ on on' e. v.unique j k hj hk on on' e)
      ]
    ];
    numbered = λ j hj. elim (ℕ_discrete j i) [
      | yes a ↦ rw (a, own) (λ on. Fits-numbered f on)
      | no a ↦ rw (other j a) (λ on. let b = v.numbered j hj on in (omega (arith, b.0), b.1))
    ];
    unused = λ j hj. elim (ℕ_discrete j i) [
      | yes a ↦ rw (a, own) (λ off. Fits-unused f off)
      | no a ↦ rw (other j a) (λ off. v.unused j hj off)
    ];
  }

-- What a search that finds something has found.
pub search-found :
    (test : Process → Bool) (ps : List Process) (k : ℕ)
    → search test 16 0 ps ≡ some k
    → (k < 16) × (test (get_or ps k no_process) ≡ true)
search-found test ps k e = settle (search test 16 0 ps) (search_lem test ps) e
  where
    settle :
        (o : Option ℕ)
        → Found test ps 0 16 o
        → o ≡ some k
        → (k < 16) × (test (get_or ps k no_process) ≡ true)
    settle none (missing h) e = absurd (ground arith)
    settle (some i) (found j l m on first) e =
        subst (λ x. (x < 16) × (test (get_or ps x no_process) ≡ true))
          (ap (λ o. elim o [ none ↦ 0 | some x ↦ x ]) e) (m, on)

-- A search finds something where something is.
pub search-hits :
    (test : Process → Bool) (ps : List Process) (k : ℕ)
    → k < 16
    → test (get_or ps k no_process) ≡ true
    → (i : ℕ) × (search test 16 0 ps ≡ some i)
search-hits test ps k h on = settle (search test 16 0 ps) (search_lem test ps)
  where
    settle : (o : Option ℕ) → Found test ps 0 16 o → (i : ℕ) × (o ≡ some i)
    settle none (missing off) = absurd (ground (arith, off k (omega arith) h))
    settle (some i) f = (i, refl)

-- A record that keeps its id, and is not given a later parent.
pub keep-IsTable :
    (ps : List Process) (next i : ℕ) (p : Process)
    → IsTable ps next
    → i < 16
    → is_free (get_or ps i no_process).state ≡ false
    → is_free p.state ≡ false
    → p.pid ≡ (get_or ps i no_process).pid
    → p.parent_pid ≤ (get_or ps i no_process).parent_pid
    → IsTable (set ps i p) next
keep-IsTable ps next i p v h on on' e l =
    let n = v.numbered i h on in
    set-IsTable ps next next i p v (omega arith) h (
      process on' (omega arith) (omega arith)
        (λ j hj ne other e'. ne (v.unique j i hj h other on (e' ∙ e))))

pub release-IsTable :
    (ps : List Process) (next i : ℕ)
    → IsTable ps next
    → i < 16
    → IsTable (user_process_release ps i) next
unfolding user_process_release
release-IsTable ps next i v h =
    set-IsTable ps next next i no_process v (omega arith) h (zeroed refl)

pub grow-IsTable : (ps : List Process) (next m : ℕ) → IsTable ps next → next ≤ m → IsTable ps m
grow-IsTable ps next m v l = record {
  size = v.size;
  begun = omega (arith, v.begun);
  unique = v.unique;
  numbered = λ i h on. let n = v.numbered i h on in (omega (arith, n.0), n.1);
  unused = v.unused;
}
