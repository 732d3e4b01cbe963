-- ===== src/Cells/AltSets/Digits.antt =====
-- The digits of the words that make up sets of alternatives: powers of two, the mask, complements
-- and shifts.
use native.Mathlib.Nat.{pow-suc}
use poprc.Prelude.{
  ℕ, zero, suc, ◌+◌, ◌-◌, ◌*◌, ◌/◌, ◌^◌, ◌<◌, ◌≡◌, refl, ap, sym, ◌∙◌, ◌⊎◌, inl, inr, arith, ◌==◌,
  if◌then◌else◌,
}
use poprc.Prelude.Bits.{bit, bit_zero}
use poprc.Cells.AltSets.{as_mask_bits}

-- The place of alternative 0 of identifier `k`; that of alternative 1 is the next.
unfoldable pub double : ℕ → ℕ
double zero = 0
double (suc k) = suc (suc (double k))

pub double_lem : (k : ℕ) → double k ≡ k * 2
unfolding double
double_lem zero = omega arith
double_lem (suc k) = omega (arith, double_lem k)

pub place-cases : (i : ℕ) → ((k : ℕ) × (i ≡ double k)) ⊎ ((k : ℕ) × (i ≡ suc (double k)))
unfolding double
place-cases zero = inl (0, refl)
place-cases (suc zero) = inr (0, refl)
place-cases (suc (suc i)) = elim (place-cases i) [
  | inl (k, e) ↦ inl (suc k, ap (λ t. suc (suc t)) e)
  | inr (k, e) ↦ inr (suc k, ap (λ t. suc (suc t)) e)
]

pub bit-pow : (i j : ℕ) → bit (2 ^ j) i ≡ (if i == j then 1 else 0)
unfolding bit
bit-pow zero zero = refl
bit-pow zero (suc j) = ground (arith, pow-suc 2 j)
bit-pow (suc i) zero = bit_zero i ∙ ground arith
bit-pow (suc i) (suc j) =
    let half : 2 ^ suc j / 2 ≡ 2 ^ j = omega (arith, pow-suc 2 j) in
    rw half (bit-pow i j ∙ ground arith)

pub bit-complement_to : (n i a : ℕ) → a < 2 ^ n → i < n → bit (2 ^ n - 1 - a) i ≡ 1 - bit a i
unfolding bit
bit-complement_to zero i a h k = omega arith
bit-complement_to (suc n) zero a h k = omega (arith, pow-suc 2 n)
bit-complement_to (suc n) (suc i) a h k =
    let half : (2 ^ suc n - 1 - a) / 2 ≡ 2 ^ n - 1 - a / 2 = omega (arith, pow-suc 2 n) in
    rw half (bit-complement_to n i (a / 2) (omega (arith, pow-suc 2 n)) (omega arith))

-- The mask has the digits 0101...01.
alternating : ℕ → ℕ
alternating zero = 0
alternating (suc n) = alternating n * 4 + 1

bit-alternating_even : (n k : ℕ) → k < n → bit (alternating n) (double k) ≡ 1
unfolding bit double alternating
bit-alternating_even zero k h = omega arith
bit-alternating_even (suc n) zero h = omega arith
bit-alternating_even (suc n) (suc k) h =
    let rest : (alternating n * 4 + 1) / 2 / 2 ≡ alternating n = omega arith in
    rw (rest, bit) (bit-alternating_even n k (omega arith))

bit-alternating_odd : (n k : ℕ) → bit (alternating n) (suc (double k)) ≡ 0
unfolding bit double alternating
bit-alternating_odd zero k = bit_zero (double k)
bit-alternating_odd (suc n) zero = omega arith
bit-alternating_odd (suc n) (suc k) =
    let rest : (alternating n * 4 + 1) / 2 / 2 ≡ alternating n = omega arith in
    rw (rest, bit) (bit-alternating_odd n k)

mask_lem : alternating 32 ≡ as_mask_bits
unfolding alternating
mask_lem = refl

pub bit-mask_even : (k : ℕ) → k < 32 → bit as_mask_bits (double k) ≡ 1
bit-mask_even k h = rw (sym mask_lem) (bit-alternating_even 32 k h)

pub bit-mask_odd : (k : ℕ) → bit as_mask_bits (suc (double k)) ≡ 0
bit-mask_odd k = rw (sym mask_lem) (bit-alternating_odd 32 k)
