-- ===== src/Pmm/Bitmap.antt =====
-- kernel/mm/pmm.c: what setting and clearing one bit of the page bitmap does to every page's bit.
use Prim.Native.Nat.{ℕ, zero, suc}
use emyx.Base.{
  ◌+◌, ◌/◌, ◌%◌, ◌^◌, ◌≤◌, ◌<◌, ◌≡◌, ◌≢◌, refl, sym, ◌∙◌, Bool, true, false, not, List, length, set,
  bit_and, bit_or, ◌==◌, if◌then◌else◌, not32, arith, holds_up_to, holds_up_to-at, All, All-set,
  All-get_or, get_or-set_self, get_or-set_ne, set-set, set-get_or, replicate, get_or-replicate,
  length-set,
}
use native.Mathlib.Decide.{ℕ_discrete}
use emyx.Pmm.{byte_of, bitmap_set, bitmap_clear, bitmap_test}

-- A page is taken if its bit is set.
unfoldable pub used : List ℕ → ℕ → Bool
used bm page = not (bitmap_test bm page == 0)

pub used-test : (bm : List ℕ) (p : ℕ) → used bm p ≡ not (bitmap_test bm p == 0)
unfolding used
used-test bm p = refl

abbrev pub IsByte : ℕ → Type 0
IsByte b = b < 256

abbrev pub Bytes : List ℕ → Type 0
Bytes = All IsByte

abbrev eqb : Bool → Bool → Bool
eqb true b = b
eqb false b = not b

bit : ℕ → ℕ → Bool
bit b k = not (bit_and b (2 ^ k) % 256 == 0)

with_bit : ℕ → ℕ → ℕ
with_bit b k = bit_or b (2 ^ k) % 256

without_bit : ℕ → ℕ → ℕ
without_bit b k = bit_and b (not32 (2 ^ k)) % 256

abbrev set_law : ℕ → ℕ → ℕ → Bool
set_law b k j = eqb (bit (with_bit b k) j) (if k == j then true else bit b j)

abbrev clear_law : ℕ → ℕ → ℕ → Bool
clear_law b k j = eqb (bit (without_bit b k) j) (if k == j then false else bit b j)

abbrev on_bits : (ℕ → ℕ → ℕ → Bool) → Bool
on_bits law = holds_up_to (λ b. holds_up_to (λ k. holds_up_to (law b k) 8) 8) 256

set_table : on_bits set_law ≡ true
unfolding holds_up_to bit with_bit
set_table = refl

clear_table : on_bits clear_law ≡ true
unfolding holds_up_to bit without_bit
clear_table = refl

at_bits :
    (law : ℕ → ℕ → ℕ → Bool) (b k j : ℕ)
    → on_bits law ≡ true
    → b < 256
    → k < 8
    → j < 8
    → law b k j ≡ true
at_bits law b k j h hb hk hj =
    holds_up_to-at (law b k) 8
      (holds_up_to-at (λ k. holds_up_to (law b k) 8) 8
        (holds_up_to-at (λ b. holds_up_to (λ k. holds_up_to (law b k) 8) 8) 256 h b hb) k hk)
      j hj

eqb→eq : (a b : Bool) → eqb a b ≡ true → a ≡ b
eqb→eq true b h = sym h
eqb→eq false b h = ground arith

bit-with_bit :
    (b k j : ℕ)
    → b < 256
    → k < 8
    → j < 8
    → bit (with_bit b k) j ≡ (if k == j then true else bit b j)
bit-with_bit b k j hb hk hj = eqb→eq _ _ (at_bits set_law b k j set_table hb hk hj)

bit-without_bit :
    (b k j : ℕ)
    → b < 256
    → k < 8
    → j < 8
    → bit (without_bit b k) j ≡ (if k == j then false else bit b j)
bit-without_bit b k j hb hk hj = eqb→eq _ _ (at_bits clear_law b k j clear_table hb hk hj)

-- Two pages of one byte are told apart by their bits.
same_byte : (p q : ℕ) → p / 8 ≡ q / 8 → (p % 8 == q % 8) ≡ (p == q)
same_byte p q h = ground arith

other_byte : (p q : ℕ) → p / 8 ≢ q / 8 → (p == q) ≡ false
other_byte p q h = ground arith

module _ (bm : List ℕ) (p q : ℕ) (within : p / 8 < length bm) (bytes : Bytes bm) where
  at_own_byte : (v : ℕ) → p / 8 ≡ q / 8 → used (set bm (p / 8) v) q ≡ bit v (q % 8)
  unfolding used bitmap_test bit
  at_own_byte v e = rw (← e, get_or-set_self bm (p / 8) v 0 within)

  at_other_byte : (v : ℕ) → p / 8 ≢ q / 8 → used (set bm (p / 8) v) q ≡ used bm q
  unfolding used bitmap_test
  at_other_byte v ne = rw (get_or-set_ne bm (p / 8) (q / 8) v 0 ne)

  used-bit : p / 8 ≡ q / 8 → bit (byte_of bm p) (q % 8) ≡ used bm q
  unfolding used bitmap_test bit
  used-bit e = rw e

  -- `bitmap_set` sets the bit of its own page and no other.
  pub used-bitmap_set : used (bitmap_set bm p) q ≡ (if p == q then true else used bm q)
  unfolding bitmap_set with_bit
  used-bitmap_set = elim (ℕ_discrete (p / 8) (q / 8)) [
    | yes e ↦
        at_own_byte (with_bit (byte_of bm p) (p % 8)) e
        ∙ bit-with_bit (byte_of bm p) (p % 8) (q % 8) byte (omega arith) (omega arith)
        ∙ rw (same_byte p q e, used-bit e)
    | no ne ↦ rw (other_byte p q ne) (at_other_byte (with_bit (byte_of bm p) (p % 8)) ne)
  ]
    where
      byte : byte_of bm p < 256
      byte = All-get_or IsByte bm (p / 8) 0 bytes (omega arith)

  -- `bitmap_clear` clears the bit of its own page and no other.
  pub used-bitmap_clear : used (bitmap_clear bm p) q ≡ (if p == q then false else used bm q)
  unfolding bitmap_clear without_bit
  used-bitmap_clear = elim (ℕ_discrete (p / 8) (q / 8)) [
    | yes e ↦
        at_own_byte (without_bit (byte_of bm p) (p % 8)) e
        ∙ bit-without_bit (byte_of bm p) (p % 8) (q % 8) byte (omega arith) (omega arith)
        ∙ rw (same_byte p q e, used-bit e)
    | no ne ↦ rw (other_byte p q ne) (at_other_byte (without_bit (byte_of bm p) (p % 8)) ne)
  ]
    where
      byte : byte_of bm p < 256
      byte = All-get_or IsByte bm (p / 8) 0 bytes (omega arith)

pub bitmap_set-Bytes : (bm : List ℕ) (p : ℕ) → Bytes bm → Bytes (bitmap_set bm p)
unfolding bitmap_set
bitmap_set-Bytes bm p b = All-set IsByte bm (p / 8) _ b (omega arith)

pub bitmap_clear-Bytes : (bm : List ℕ) (p : ℕ) → Bytes bm → Bytes (bitmap_clear bm p)
unfolding bitmap_clear
bitmap_clear-Bytes bm p b = All-set IsByte bm (p / 8) _ b (omega arith)

pub length-bitmap_set : (bm : List ℕ) (p : ℕ) → length (bitmap_set bm p) ≡ length bm
unfolding bitmap_set
length-bitmap_set bm p = length-set bm (p / 8) _

pub length-bitmap_clear : (bm : List ℕ) (p : ℕ) → length (bitmap_clear bm p) ≡ length bm
unfolding bitmap_clear
length-bitmap_clear bm p = length-set bm (p / 8) _

-- The number of clear bits among the first `n`.
unfoldable pub clear_count : List ℕ → ℕ → ℕ
clear_count bm zero = 0
clear_count bm (suc n) = clear_count bm n + (if used bm n then 0 else 1)

pub clear_count-le : (bm : List ℕ) (n : ℕ) → clear_count bm n ≤ n
unfolding clear_count
clear_count-le bm zero = omega arith
clear_count-le bm (suc n) = ground (arith, clear_count-le bm n)

-- Two bitmaps that agree below `n` have as many clear bits there.
clear_count-ext :
    (bm bm' : List ℕ) (n : ℕ)
    → ((q : ℕ) → q < n → used bm' q ≡ used bm q)
    → clear_count bm' n ≡ clear_count bm n
unfolding clear_count
clear_count-ext bm bm' zero h = refl
clear_count-ext bm bm' (suc n) h =
    ground (arith, h n, clear_count-ext bm bm' n (λ q lt. h q (omega arith)))

-- Where they differ at one page that is clear in the first and set in the second, one fewer.
pub clear_count-differ :
    (bm bm' : List ℕ) (p n : ℕ)
    → p < n
    → used bm p ≡ false
    → ((q : ℕ) → used bm' q ≡ (if p == q then true else used bm q))
    → clear_count bm n ≡ clear_count bm' n + 1
unfolding clear_count
clear_count-differ bm bm' p zero lt u h = absurd (omega arith)
clear_count-differ bm bm' p (suc n) lt u h = elim (ℕ_discrete p n) [
  | yes e ↦ ground (arith, h n, clear_count-ext bm bm' n (λ q below. ground (arith, h q)))
  | no ne ↦ ground (arith, h n, clear_count-differ bm bm' p n (omega arith) u h)
]

abbrev undo_law : ℕ → ℕ → ℕ → Bool
undo_law b k j = if bit b k then true else without_bit (with_bit b k) k == b

undo_table : on_bits undo_law ≡ true
unfolding holds_up_to bit with_bit without_bit
undo_table = refl

without_bit-with_bit :
    (b k : ℕ) → b < 256 → k < 8 → bit b k ≡ false → without_bit (with_bit b k) k ≡ b
without_bit-with_bit b k hb hk off = ground (arith, at_bits undo_law b k 0 undo_table hb hk)

-- Clearing a bit that was clear before it was set gives the old bitmap back.
pub bitmap_clear-bitmap_set :
    (bm : List ℕ) (p : ℕ)
    → p / 8 < length bm
    → Bytes bm
    → used bm p ≡ false
    → bitmap_clear (bitmap_set bm p) p ≡ bm
unfolding bitmap_clear bitmap_set used bitmap_test
bitmap_clear-bitmap_set bm p within bytes off =
    rw (get_or-set_self bm (p / 8) (bit_or (byte_of bm p) (2 ^ (p % 8)) % 256) 0 within)
      (set-set bm (p / 8) _ _ ∙ rw restored (set-get_or bm (p / 8) 0))
  where
    restored :
        bit_and (bit_or (byte_of bm p) (2 ^ (p % 8)) % 256) (not32 (2 ^ (p % 8))) % 256
        ≡ byte_of bm p
    restored =
        unfold with_bit without_bit bit in
        without_bit-with_bit (byte_of bm p) (p % 8)
          (All-get_or IsByte bm (p / 8) 0 bytes (omega arith)) (omega arith) off

pub clear_count-all_used :
    (bm : List ℕ) (n : ℕ) → ((q : ℕ) → q < n → used bm q ≡ true) → clear_count bm n ≡ 0
unfolding clear_count
clear_count-all_used bm zero h = refl
clear_count-all_used bm (suc n) h =
    ground (arith, h n, clear_count-all_used bm n (λ q lt. h q (omega arith)))

pub used_of_no_clear : (bm : List ℕ) (n q : ℕ) → clear_count bm n ≡ 0 → q < n → used bm q ≡ true
unfolding clear_count
used_of_no_clear bm zero q e lt = absurd (omega arith)
used_of_no_clear bm (suc n) q e lt = elim (ℕ_discrete q n) [
  | yes same ↦ rw same (ground arith)
  | no ne ↦ used_of_no_clear bm n q (omega arith) (omega arith)
]

full_table : holds_up_to (bit 0xFF) 8 ≡ true
unfolding holds_up_to bit
full_table = refl

-- In bytes 0xFF every bit is set.
pub used-replicate : (n q : ℕ) → q / 8 < n → used (replicate n 0xFF) q ≡ true
unfolding used bitmap_test bit
used-replicate n q h =
    rw (get_or-replicate {A = ℕ} n (q / 8) 0xFF 0 h)
      (holds_up_to-at (bit 0xFF) 8 full_table (q % 8) (omega arith))
