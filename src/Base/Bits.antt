-- ===== src/Base/Bits.antt =====
-- C's `&` and `|` as arithmetic: on words split into two fields, with a low mask, and with the
-- complement of a low mask, at every width.
use Prim.Native.Nat.{
  ℕ, zero, suc, ◌+◌, ◌*◌, ◌-◌, ◌/◌, ◌%◌, ◌^◌, ◌≤◌, ◌<◌, min, max, bit_and, bit_or, digits, bitwise,
  bit_and-bitwise, bit_or-bitwise,
}
use mathlib.Core.Path.{◌≡◌, refl, ap, ◌∙◌}
use native.Mathlib.Nat.{pow-suc, one-le-pow, add-suc}
use native.Mathlib.Omega.{arith}

-- `bitwise` runs the recursion on digits with its first operand as fuel; any fuel that covers it
-- gives the same result.
module _ (rest : ℕ → ℕ) (on : ℕ → ℕ → ℕ) where
  fuel_free :
      (fuel more a b : ℕ) → a ≤ fuel → digits rest on (fuel + more) a b ≡ digits rest on fuel a b
  fuel_free fuel zero a b covers = ap (λ (t : ℕ). digits rest on t a b) (omega arith)
  fuel_free fuel (suc more) a b covers =
      ap (λ (t : ℕ). digits rest on t a b) (add-suc fuel more)
      ∙ one_more (fuel + more) a b (omega arith)
      ∙ fuel_free fuel more a b covers
    where
      one_more : (k x y : ℕ) → x ≤ k → digits rest on (suc k) x y ≡ digits rest on k x y
      one_more zero zero y h = refl
      one_more zero (suc x) y h = absurd (omega arith)
      one_more (suc k) zero y h = refl
      one_more (suc k) (suc x) y h =
          ap (λ (t : ℕ). t * 2 + on (suc x % 2) (y % 2))
            (one_more k (suc x / 2) (y / 2) (omega arith))

  bitwise_digit :
      (a b : ℕ)
      → bitwise rest on (suc a) b ≡ bitwise rest on (suc a / 2) (b / 2) * 2 + on (suc a % 2) (b % 2)
  bitwise_digit a b =
      let half : ℕ = suc a / 2 in
      let split : half + (a - half) ≡ a = omega arith in
      omega (
        arith,
        fuel_free half (a - half) half (b / 2) (omega arith),
        ap (λ (t : ℕ). digits rest on t half (b / 2)) split,
      )

or_digit : (a b : ℕ) → bit_or a b ≡ bit_or (a / 2) (b / 2) * 2 + max (a % 2) (b % 2)
or_digit zero b = rw (bit_or-bitwise 0 b, bit_or-bitwise (0 / 2) (b / 2)) (omega arith)
or_digit (suc a) b =
    rw (bit_or-bitwise (suc a) b, bit_or-bitwise (suc a / 2) (b / 2))
      (bitwise_digit (λ y. y) max a b)

and_digit : (a b : ℕ) → bit_and a b ≡ bit_and (a / 2) (b / 2) * 2 + min (a % 2) (b % 2)
and_digit zero b = rw (bit_and-bitwise 0 b, bit_and-bitwise (0 / 2) (b / 2)) (omega arith)
and_digit (suc a) b =
    rw (bit_and-bitwise (suc a) b, bit_and-bitwise (suc a / 2) (b / 2))
      (bitwise_digit (λ y. 0) min a b)

-- An operation that works digit by digit works field by field.
module _ (op f : ℕ → ℕ → ℕ)
    (digit : (a b : ℕ) → op a b ≡ op (a / 2) (b / 2) * 2 + f (a % 2) (b % 2))
    (zeros : f 0 0 ≡ 0) where
  on_zeros : op 0 0 ≡ 0
  on_zeros = omega (arith, digit 0 0)

  by_fields :
      (k q r q' r' : ℕ)
      → r < 2 ^ k
      → r' < 2 ^ k
      → op (q * 2 ^ k + r) (q' * 2 ^ k + r') ≡ op q q' * 2 ^ k + op r r'
  by_fields zero q r q' r' h h' = ground (arith, on_zeros)
  by_fields (suc k) q r q' r' h h' = ground (
    arith,
    ap (λ (t : ℕ). q * t) (pow-suc 2 k),
    ap (λ (t : ℕ). q' * t) (pow-suc 2 k),
    ap (λ (t : ℕ). op q q' * t) (pow-suc 2 k),
    digit (q * 2 ^ suc k + r) (q' * 2 ^ suc k + r'),
    digit r r',
    by_fields k q (r / 2) q' (r' / 2) (omega (arith, pow-suc 2 k)) (omega (arith, pow-suc 2 k)),
  )

or_zero_below : (n a : ℕ) → a ≤ n → bit_or a 0 ≡ a
or_zero_below zero a h = let z : a ≡ 0 = omega arith in rw z refl
or_zero_below (suc n) zero h = refl
or_zero_below (suc n) (suc a) h =
    omega (arith, or_digit (suc a) 0, or_zero_below n (suc a / 2) (omega arith))

pub bit_or-zero : (a : ℕ) → bit_or a 0 ≡ a
bit_or-zero a = or_zero_below a a (omega arith)

pub zero-bit_or : (a : ℕ) → bit_or 0 a ≡ a
zero-bit_or a = simp bit_or-bitwise refl

and_zero_below : (n a : ℕ) → a ≤ n → bit_and a 0 ≡ 0
and_zero_below zero a h = let z : a ≡ 0 = omega arith in rw z refl
and_zero_below (suc n) zero h = refl
and_zero_below (suc n) (suc a) h =
    omega (arith, and_digit (suc a) 0, and_zero_below n (suc a / 2) (omega arith))

pub bit_and-zero : (a : ℕ) → bit_and a 0 ≡ 0
bit_and-zero a = and_zero_below a a (omega arith)

pub zero-bit_and : (a : ℕ) → bit_and 0 a ≡ 0
zero-bit_and a = simp bit_and-bitwise refl

-- `(q << k) | r` where `r` fits in `k` bits.
pub bit_or_fields : (k q r : ℕ) → r < 2 ^ k → bit_or (q * 2 ^ k) r ≡ q * 2 ^ k + r
bit_or_fields k q r h = ground (
  arith,
  by_fields bit_or max or_digit refl k q 0 0 r (one-le-pow k 2 (omega arith)) h,
  bit_or-zero q,
  zero-bit_or r,
)

pub bit_or_fields' : (k q r : ℕ) → r < 2 ^ k → bit_or r (q * 2 ^ k) ≡ q * 2 ^ k + r
bit_or_fields' k q r h = ground (
  arith,
  by_fields bit_or max or_digit refl k 0 r q 0 h (one-le-pow k 2 (omega arith)),
  bit_or-zero r,
  zero-bit_or q,
)

and_ones : (k r : ℕ) → r < 2 ^ k → bit_and r (2 ^ k - 1) ≡ r
and_ones zero r h = let z : r ≡ 0 = omega arith in rw z refl
and_ones (suc k) r h = ground (
  arith,
  pow-suc 2 k,
  one-le-pow k 2 (omega arith),
  and_digit r (2 ^ suc k - 1),
  and_ones k (r / 2) (omega (arith, pow-suc 2 k)),
)

-- `a & (2^k - 1)`.
pub bit_and_mask : (k a : ℕ) → bit_and a (2 ^ k - 1) ≡ a % 2 ^ k
bit_and_mask k a = ground (
  arith,
  one-le-pow k 2 (omega arith),
  by_fields bit_and min and_digit refl k (a / 2 ^ k) (a % 2 ^ k) 0 (2 ^ k - 1),
  bit_and-zero (a / 2 ^ k),
  and_ones k (a % 2 ^ k),
)

-- `a & (m << k)`.
pub bit_and_high : (k a m : ℕ) → bit_and a (m * 2 ^ k) ≡ bit_and (a / 2 ^ k) m * 2 ^ k
bit_and_high k a m = ground (
  arith,
  one-le-pow k 2 (omega arith),
  by_fields bit_and min and_digit refl k (a / 2 ^ k) (a % 2 ^ k) m 0,
  bit_and-zero (a % 2 ^ k),
)

pub bit_or-lt : (k a b : ℕ) → a < 2 ^ k → b < 2 ^ k → bit_or a b < 2 ^ k
bit_or-lt zero a b h h' = let z : a ≡ 0 = omega arith in rw z (omega (arith, zero-bit_or b))
bit_or-lt (suc k) a b h h' = ground (
  arith,
  pow-suc 2 k,
  or_digit a b,
  bit_or-lt k (a / 2) (b / 2) (omega (arith, pow-suc 2 k)) (omega (arith, pow-suc 2 k)),
)

-- The lowest bit of `a | b`.
pub bit_or-odd : (a b : ℕ) → bit_or a b % 2 ≡ max (a % 2) (b % 2)
bit_or-odd a b = omega (arith, or_digit a b)

-- `a | r` where `r` fits in `k` bits leaves the bits from `k` on.
pub bit_or_low : (k a r : ℕ) → r < 2 ^ k → bit_or a r ≡ a / 2 ^ k * 2 ^ k + bit_or (a % 2 ^ k) r
bit_or_low k a r h = ground (
  arith,
  one-le-pow k 2 (omega arith),
  by_fields bit_or max or_digit refl k (a / 2 ^ k) (a % 2 ^ k) 0 r,
  bit_or-zero (a / 2 ^ k),
)
