-- ===== src/Prelude/Bits.antt =====
-- The binary digits of a mask, and what `|` does to them.
use Prim.Native.Nat.{ℕ, zero, suc, ◌+◌, ◌*◌, ◌/◌, ◌%◌, ◌≤◌, max, bit_or, digits, bit_or-bitwise}
use mathlib.Core.Path.{◌≡◌, refl}
use native.Mathlib.Omega.{arith}

-- The digit of `m` that stands for 2 ^ k.
unfoldable pub digit : ℕ → ℕ → ℕ
digit zero m = m % 2
digit (suc k) m = digit k (m / 2)

abbrev or_digits : ℕ → ℕ → ℕ → ℕ
or_digits n a b = digits (λ y. y) max n a b

or_digits_enough : (n m a b : ℕ) → a ≤ n → a ≤ m → or_digits n a b ≡ or_digits m a b
or_digits_enough zero zero a b p q = refl
or_digits_enough zero (suc m) zero b p q = refl
or_digits_enough zero (suc m) (suc a) b p q = absurd (omega arith)
or_digits_enough (suc n) zero zero b p q = refl
or_digits_enough (suc n) zero (suc a) b p q = absurd (omega arith)
or_digits_enough (suc n) (suc m) zero b p q = refl
or_digits_enough (suc n) (suc m) (suc a) b p q =
    omega (arith, or_digits_enough n m (suc a / 2) (b / 2) (omega arith) (omega arith))

zero-bit_or : (b : ℕ) → bit_or 0 b ≡ b
zero-bit_or b = bit_or-bitwise 0 b

bit_or-halves : (a b : ℕ) → bit_or a b ≡ bit_or (a / 2) (b / 2) * 2 + max (a % 2) (b % 2)
bit_or-halves zero b = omega (arith, zero-bit_or b, zero-bit_or (b / 2))
bit_or-halves (suc a) b = omega (
  arith,
  bit_or-bitwise (suc a) b,
  bit_or-bitwise (suc a / 2) (b / 2),
  or_digits_enough a (suc a / 2) (suc a / 2) (b / 2) (omega arith) (omega arith),
)

halve-bit_or : (a b : ℕ) → bit_or a b / 2 ≡ bit_or (a / 2) (b / 2)
halve-bit_or a b = omega (arith, bit_or-halves a b)

pub digit-bit_or : (k a b : ℕ) → digit k (bit_or a b) ≡ max (digit k a) (digit k b)
unfolding digit
digit-bit_or zero a b = omega (arith, bit_or-halves a b)
digit-bit_or (suc k) a b = rw (halve-bit_or a b) (digit-bit_or k (a / 2) (b / 2))

pub digit-zero : (k : ℕ) → digit k 0 ≡ 0
unfolding digit
digit-zero zero = refl
digit-zero (suc k) = digit-zero k

digits-equal : (n a b : ℕ) → a ≤ n → b ≤ n → ((k : ℕ) → digit k a ≡ digit k b) → a ≡ b
unfolding digit
digits-equal zero a b p q h = omega arith
digits-equal (suc n) zero zero p q h = refl
digits-equal (suc n) zero (suc b) p q h =
    omega (arith, h 0, digits-equal n 0 (suc b / 2) (omega arith) (omega arith) (λ k. h (suc k)))
digits-equal (suc n) (suc a) zero p q h =
    omega (arith, h 0, digits-equal n (suc a / 2) 0 (omega arith) (omega arith) (λ k. h (suc k)))
digits-equal (suc n) (suc a) (suc b) p q h = omega (
  arith,
  h 0,
  digits-equal n (suc a / 2) (suc b / 2) (omega arith) (omega arith) (λ k. h (suc k)),
)

-- Masks with the same digits are the same.
pub digit_ext : (a b : ℕ) → ((k : ℕ) → digit k a ≡ digit k b) → a ≡ b
digit_ext a b h = digits-equal (a + b) a b (omega arith) (omega arith) h
