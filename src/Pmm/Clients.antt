-- ===== src/Pmm/Clients.antt =====
-- kernel/mm/pmm.c: the callers of the allocator, as one series of calls that take pages and give
-- back pages that they hold.
use Prim.Native.Nat.{ℕ, zero, suc}
use emyx.Base.{
  ◌+◌, ◌*◌, ◌/◌, ◌<◌, ◌≡◌, ◌≢◌, refl, sym, ap, subst, ◌∙◌, true, false, List, [], ◌∷◌, length, ◌==◌,
  if◌then◌else◌, arith, Bool-cases, inl, inr,
}
use emyx.Pmm.{Pmm, pmm_alloc_page, pmm_free_page, page_size}
use emyx.Pmm.Bitmap.{used}
use emyx.Pmm.Invariant.{IsValid, taking, used-taking, taking-free_pages}
use emyx.Pmm.Alloc.{
  exhausted, page, pmm_alloc_page_lem, pmm_free_page_lem, pmm_free_page-free_pages,
  pmm_free_page-max_page, taking-IsValid,
}

-- The allocator and the addresses that its callers hold.
pub record World : Type 0 where
  pub pmm : Pmm
  pub held : List ℕ

pub data Call : Type 0 where
  takes : Call
  gives : ℕ → Call

-- The address at a position, and the others.
unfoldable pub pick : List ℕ → ℕ → ℕ
pick [] i = 0
pick (a ∷ held) zero = a
pick (a ∷ held) (suc i) = pick held i

unfoldable pub others : List ℕ → ℕ → List ℕ
others [] i = []
others (a ∷ held) zero = held
others (a ∷ held) (suc i) = a ∷ others held i

-- A caller keeps the address that it gets, unless it is 0; it gives back the address at a position
-- of its list, and gives back nothing where there is none.
unfoldable pub step : World → Call → World
unfolding pick others
step w takes =
    let (addr, s) = pmm_alloc_page w.pmm in
    if addr == 0
    then record { pmm = s; held = w.held }
    else record { pmm = s; held = addr ∷ w.held }
step w (gives i) =
    if pick w.held i == 0
    then w
    else record { pmm = pmm_free_page w.pmm (pick w.held i); held = others w.held i }

unfoldable pub run : World → List Call → World
run w [] = w
run w (c ∷ calls) = run (step w c) calls

-- No address of the list is that of a page.
abbrev pub Free : ℕ → List ℕ → Type 0
Free p [] = Unit {0}
Free p (a ∷ held) = (a ≢ p * page_size) × Free p held

-- Each held address is that of a taken page other than page 0, and no two are of one page.
abbrev pub Owned : Pmm → List ℕ → Type 0
Owned s [] = Unit {0}
Owned s (a ∷ held) =
    ((a / page_size) * page_size ≡ a)
    × (0 < a)
    × (a / page_size < s.max_page)
    × (used s.bitmap (a / page_size) ≡ true)
    × Free (a / page_size) held
    × Owned s held

-- The callers hold distinct taken pages, and the allocator's count is right: each page is held, was
-- taken before, or is counted as free.
pub record IsOwned (start : ℕ) (w : World) : Type 0 where
  pub valid : IsValid w.pmm
  pub owned : Owned w.pmm w.held
  pub no_leak : w.pmm.free_pages + length w.held ≡ start

Owned-Free :
    (s : Pmm) (p : ℕ) (held : List ℕ) → used s.bitmap p ≡ false → Owned s held → Free p held
Owned-Free s p [] off o = tt
Owned-Free s p (a ∷ held) off o = (
  λ e. let same : a / page_size ≡ p = omega arith in ground (arith, ap (used s.bitmap) same),
  Owned-Free s p held off o.5,
)

Owned-grow :
    (s s' : Pmm) (held : List ℕ)
    → s'.max_page ≡ s.max_page
    → ((q : ℕ) → used s.bitmap q ≡ true → used s'.bitmap q ≡ true)
    → Owned s held
    → Owned s' held
Owned-grow s s' [] same grow o = tt
Owned-grow s s' (a ∷ held) same grow o =
    (o.0, o.1, omega arith, grow (a / page_size) o.3, o.4, Owned-grow s s' held same grow o.5)

Free-others : (p : ℕ) (held : List ℕ) (i : ℕ) → Free p held → Free p (others held i)
unfolding others
Free-others p [] i f = tt
Free-others p (a ∷ held) zero f = f.1
Free-others p (a ∷ held) (suc i) f = (f.0, Free-others p held i f.1)

Free-pick :
    (p : ℕ) (held : List ℕ) (i : ℕ) → Free p held → pick held i ≢ 0 → pick held i ≢ p * page_size
unfolding pick
Free-pick p [] i f nz = absurd (nz refl)
Free-pick p (a ∷ held) zero f nz = f.0
Free-pick p (a ∷ held) (suc i) f nz = Free-pick p held i f.1 nz

module _ (s s' : Pmm) (p : ℕ) (same : s'.max_page ≡ s.max_page)
    (elsewhere : (q : ℕ) → q ≢ p → used s'.bitmap q ≡ used s.bitmap q) where
  still_used :
      (a : ℕ)
      → (a / page_size) * page_size ≡ a
      → a ≢ p * page_size
      → used s.bitmap (a / page_size) ≡ true
      → used s'.bitmap (a / page_size) ≡ true
  still_used a whole ne on =
      let other : a / page_size ≢ p = λ e. ne (omega arith) in elsewhere (a / page_size) other ∙ on

  Owned-apart : (held : List ℕ) → Free p held → Owned s held → Owned s' held
  Owned-apart [] f o = tt
  Owned-apart (a ∷ held) f o =
      (o.0, o.1, omega arith, still_used a o.0 f.0 o.3, o.4, Owned-apart held f.1 o.5)

  Owned-others :
      (held : List ℕ) (i : ℕ)
      → pick held i ≡ p * page_size
      → pick held i ≢ 0
      → Owned s held
      → Owned s' (others held i)
  unfolding pick others
  Owned-others [] i e nz o = tt
  Owned-others (a ∷ held) zero e nz o =
      let same_page : a / page_size ≡ p = omega arith in
      Owned-apart held (subst (λ q. Free q held) same_page o.4) o.5
  Owned-others (a ∷ held) (suc i) e nz o = (
    o.0,
    o.1,
    omega arith,
    still_used a o.0 (λ e'. Free-pick (a / page_size) held i o.4 nz (omega arith)) o.3,
    Free-others (a / page_size) held i o.4,
    Owned-others held i e nz o.5,
  )

length-others : (held : List ℕ) (i : ℕ) → pick held i ≢ 0 → length held ≡ length (others held i) + 1
unfolding pick others
length-others [] i nz = absurd (nz refl)
length-others (a ∷ held) zero nz = omega arith
length-others (a ∷ held) (suc i) nz = omega (arith, length-others held i nz)

-- What is known of the address at a position.
Owned-pick :
    (s : Pmm) (held : List ℕ) (i : ℕ)
    → pick held i ≢ 0
    → Owned s held
    → (pick held i / page_size * page_size ≡ pick held i)
      × (pick held i / page_size < s.max_page)
      × (used s.bitmap (pick held i / page_size) ≡ true)
unfolding pick
Owned-pick s [] i nz o = absurd (nz refl)
Owned-pick s (a ∷ held) zero nz o = (o.0, o.2, o.3)
Owned-pick s (a ∷ held) (suc i) nz o = Owned-pick s held i nz o.5

takes-IsOwned : (start : ℕ) (w : World) → IsOwned start w → IsOwned start (step w takes)
unfolding step
takes-IsOwned start w v = elim (pmm_alloc_page_lem w.pmm v.valid) [
  | exhausted e all ↦ rw e v
  | page p e lo hi off all ↦
      let nz : (p * page_size == 0) ≡ false = ground arith in
      rw (e, nz)
        (record {
          valid = taking-IsValid w.pmm p v.valid hi off;
          owned = (
            omega arith,
            omega arith,
            omega arith,
            let whole : p * page_size / page_size ≡ p = omega arith in
                rw whole (ground (arith, used-taking w.pmm p v.valid.counts hi p)),
            let whole : p * page_size / page_size ≡ p = omega arith in
                rw whole (Owned-Free w.pmm p w.held off v.owned),
            Owned-grow w.pmm (taking w.pmm p) w.held refl
                (λ q on. ground (arith, used-taking w.pmm p v.valid.counts hi q)) v.owned,
          );
          no_leak = omega (arith, taking-free_pages w.pmm p v.valid.counts hi off, v.no_leak);
        })
]

gives-IsOwned : (start : ℕ) (w : World) (i : ℕ) → IsOwned start w → IsOwned start (step w (gives i))
unfolding step
gives-IsOwned start w i v = elim (Bool-cases (pick w.held i == 0)) [
  | inl none_there ↦ rw none_there v
  | inr there ↦
      let a : ℕ = pick w.held i in
      let nz : a ≢ 0 = ground arith in
      let known = Owned-pick w.pmm w.held i nz v.owned in
      rw there (record {
        valid = (pmm_free_page_lem w.pmm a 0 v.valid).0;
        owned =
            Owned-others w.pmm (pmm_free_page w.pmm a) (a / page_size)
              (pmm_free_page-max_page w.pmm a)
              (λ q ne. ground (arith, (pmm_free_page_lem w.pmm a q v.valid).1)) w.held i
              (sym known.0) nz v.owned;
        no_leak = ground (
          arith,
          pmm_free_page-free_pages w.pmm a v.valid,
          known,
          length-others w.held i nz,
          v.no_leak,
        );
      })
]

-- From a valid state, whatever the callers do, the allocator stays valid, no page is held twice and none of those held
-- is free, and the free pages and the held ones are as many as the free pages were at the start.
pub run-IsOwned :
    (start : ℕ) (w : World) (calls : List Call) → IsOwned start w → IsOwned start (run w calls)
unfolding run
run-IsOwned start w [] v = v
run-IsOwned start w (takes ∷ calls) v =
    run-IsOwned start (step w takes) calls (takes-IsOwned start w v)
run-IsOwned start w (gives i ∷ calls) v =
    run-IsOwned start (step w (gives i)) calls (gives-IsOwned start w i v)
