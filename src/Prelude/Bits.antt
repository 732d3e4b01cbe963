-- ===== src/Prelude/Bits.antt =====
-- Binary digits of the native numbers: one digit of a conjunction, a disjunction, a shift, a mask
-- and a complement, and equality digit by digit.
use Prim.Native.Nat.{
  ℕ, zero, suc, ◌+◌, ◌*◌, ◌/◌, ◌%◌, ◌^◌, ◌≤◌, ◌<◌, min, max, bit_and, bit_or, bitwise, digits,
  bit_and-bitwise, bit_or-bitwise,
}
use mathlib.Core.Path.{◌≡◌, refl, ap}
use native.Mathlib.Omega.{arith}
use native.Mathlib.Nat.{pow-suc}

-- The digit of weight 2 ^ i.
unfoldable pub bit : ℕ → ℕ → ℕ
bit x zero = x % 2
bit x (suc i) = bit (x / 2) i

-- The count of digits that the native operations recur on does not matter once it is enough.
module _ (rest : ℕ → ℕ) (op : ℕ → ℕ → ℕ) where
  enough : (n m a b : ℕ) → a ≤ n → a ≤ m → digits rest op n a b ≡ digits rest op m a b
  enough zero zero a b p q = refl
  enough zero (suc m) zero b p q = refl
  enough (suc n) zero zero b p q = refl
  enough (suc n) (suc m) zero b p q = refl
  enough zero (suc m) (suc a) b p q = absurd (omega arith)
  enough (suc n) zero (suc a) b p q = absurd (omega arith)
  enough (suc n) (suc m) (suc a) b p q =
      ap (λ t. t * 2 + op (suc a % 2) (b % 2))
        (enough n m (suc a / 2) (b / 2) (omega arith) (omega arith))

  halve :
      (a b : ℕ)
      → bitwise rest op (suc a) b ≡ bitwise rest op (suc a / 2) (b / 2) * 2 + op (suc a % 2) (b % 2)
  halve a b =
      ap (λ t. t * 2 + op (suc a % 2) (b % 2))
        (enough a (suc a / 2) (suc a / 2) (b / 2) (omega arith) (omega arith))

pub bit_and_halve : (a b : ℕ) → bit_and a b ≡ bit_and (a / 2) (b / 2) * 2 + min (a % 2) (b % 2)
bit_and_halve zero b = simp bit_and-bitwise (omega arith)
bit_and_halve (suc a) b = simp bit_and-bitwise (halve (λ t. 0) min a b)

pub bit_or_halve : (a b : ℕ) → bit_or a b ≡ bit_or (a / 2) (b / 2) * 2 + max (a % 2) (b % 2)
bit_or_halve zero b = simp bit_or-bitwise (omega arith)
bit_or_halve (suc a) b = simp bit_or-bitwise (halve (λ t. t) max a b)

half-double : (q r : ℕ) → r < 2 → (q * 2 + r) / 2 ≡ q
half-double q r h = omega arith

pub bit-bit_and : (i a b : ℕ) → bit (bit_and a b) i ≡ min (bit a i) (bit b i)
unfolding bit
bit-bit_and zero a b = omega (arith, bit_and_halve a b)
bit-bit_and (suc i) a b =
    rw
      (bit_and_halve a b, half-double (bit_and (a / 2) (b / 2)) (min (a % 2) (b % 2)) (omega arith))
      (bit-bit_and i (a / 2) (b / 2))

pub bit-bit_or : (i a b : ℕ) → bit (bit_or a b) i ≡ max (bit a i) (bit b i)
unfolding bit
bit-bit_or zero a b = omega (arith, bit_or_halve a b)
bit-bit_or (suc i) a b =
    rw (bit_or_halve a b, half-double (bit_or (a / 2) (b / 2)) (max (a % 2) (b % 2)) (omega arith))
      (bit-bit_or i (a / 2) (b / 2))

pub bit-lt_two : (i a : ℕ) → bit a i < 2
unfolding bit
bit-lt_two zero a = omega arith
bit-lt_two (suc i) a = bit-lt_two i (a / 2)

pub bit-half : (i a : ℕ) → bit (a / 2) i ≡ bit a (suc i)
unfolding bit
bit-half i a = refl

pub bit-double_zero : (a : ℕ) → bit (a * 2) 0 ≡ 0
unfolding bit
bit-double_zero a = omega arith

pub bit-double_suc : (i a : ℕ) → bit (a * 2) (suc i) ≡ bit a i
unfolding bit
bit-double_suc i a = ap (λ t. bit t i) (omega arith)

pub bit_zero : (i : ℕ) → bit 0 i ≡ 0
unfolding bit
bit_zero zero = refl
bit_zero (suc i) = bit_zero i

-- A number below 2 ^ n has no digit from n on.
pub bit_above : (n i a : ℕ) → a < 2 ^ n → n ≤ i → bit a i ≡ 0
unfolding bit
bit_above zero i a h k = rw (below_one a h) (bit_zero i)
  where
    below_one : (a : ℕ) → a < 2 ^ 0 → a ≡ 0
    below_one a h = omega arith
bit_above (suc n) zero a h k = absurd (omega arith)
bit_above (suc n) (suc i) a h k = bit_above n i (a / 2) (omega (arith, pow-suc 2 n)) (omega arith)

-- Numbers with the same digits below 2 ^ n are equal.
pub bit_ext : (n a b : ℕ) → a < 2 ^ n → b < 2 ^ n → ((i : ℕ) → i < n → bit a i ≡ bit b i) → a ≡ b
unfolding bit
bit_ext zero a b p q h = omega arith
bit_ext (suc n) a b p q h = omega (
  arith,
  h 0 (omega arith),
  bit_ext n (a / 2) (b / 2) (omega (arith, pow-suc 2 n)) (omega (arith, pow-suc 2 n))
      (λ i k. h (suc i) (omega arith)),
)

bit_and_nothing : (a b : ℕ) → a < 1 → bit_and a b ≡ 0
bit_and_nothing zero b h = simp bit_and-bitwise
bit_and_nothing (suc a) b h = absurd (omega arith)

pub bit_and-le : (n a b : ℕ) → a < 2 ^ n → (bit_and a b ≤ a) × (bit_and a b ≤ b)
bit_and-le zero a b h = omega (arith, bit_and_nothing a b h)
bit_and-le (suc n) a b h =
    omega (arith, bit_and_halve a b, bit_and-le n (a / 2) (b / 2) (omega (arith, pow-suc 2 n)))

bit_or_zero : (a b : ℕ) → a < 1 → b < 1 → bit_or a b ≡ 0
bit_or_zero zero b h k = simp bit_or-bitwise (omega arith)
bit_or_zero (suc a) b h k = absurd (omega arith)

pub bit_or-lt : (n a b : ℕ) → a < 2 ^ n → b < 2 ^ n → bit_or a b < 2 ^ n
bit_or-lt zero a b h k = omega (arith, bit_or_zero a b h k)
bit_or-lt (suc n) a b h k = omega (
  arith,
  bit_or_halve a b,
  bit_or-lt n (a / 2) (b / 2) (omega (arith, pow-suc 2 n)) (omega (arith, pow-suc 2 n)),
  pow-suc 2 n,
)
