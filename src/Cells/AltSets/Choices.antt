-- ===== src/Cells/AltSets/Choices.antt =====
-- What the sets of alternatives of cells.c choose: each operation by the choices that it makes, and
-- the exactness of the conflict test.
use Prim.Native.Nat.{bit_and, bit_or, min, max}
use poprc.Prelude.{ℕ, suc, ◌/◌, ◌^◌, ◌<◌, ◌≡◌, ap, sym, ◌∙◌, ◌↔◌, inl, inr, arith}
use poprc.Prelude.Bits.{
  bit, bit-bit_and, bit-bit_or, bit-lt_two, bit-half, bit_zero, bit_ext, bit_and-le, bit_or-lt,
}
use poprc.Cells.AltSets.{as_mask_bits, as_union, as_conflict, as_mask}
use poprc.Cells.AltSets.Digits.{double, double_lem, place-cases, bit-mask_even, bit-mask_odd}

bit-conflict_even :
    (a k : ℕ)
    → k < 32
    → bit (as_conflict a) (double k) ≡ min (bit a (double k)) (bit a (suc (double k)))
unfolding as_conflict
bit-conflict_even a k h = omega (
  arith,
  bit-bit_and (double k) (bit_and a (a / 2)) as_mask_bits,
  bit-bit_and (double k) a (a / 2),
  bit-half (double k) a,
  bit-mask_even k h,
  bit-lt_two (double k) a,
)

bit-conflict_odd : (a k : ℕ) → bit (as_conflict a) (suc (double k)) ≡ 0
unfolding as_conflict
bit-conflict_odd a k =
    omega (arith, bit-bit_and (suc (double k)) (bit_and a (a / 2)) as_mask_bits, bit-mask_odd k)

pub bit-mask_of_even :
    (a k : ℕ)
    → k < 32
    → bit (as_mask a) (double k) ≡ max (bit a (double k)) (bit a (suc (double k)))
unfolding as_mask
bit-mask_of_even a k h = omega (
  arith,
  bit-bit_and (double k) (bit_or a (a / 2)) as_mask_bits,
  bit-bit_or (double k) a (a / 2),
  bit-half (double k) a,
  bit-mask_even k h,
  bit-lt_two (double k) a,
  bit-lt_two (suc (double k)) a,
)

pub bit-mask_of_odd : (a k : ℕ) → bit (as_mask a) (suc (double k)) ≡ 0
unfolding as_mask
bit-mask_of_odd a k =
    omega (arith, bit-bit_and (suc (double k)) (bit_or a (a / 2)) as_mask_bits, bit-mask_odd k)

-- No identifier has both alternatives.
abbrev pub IsConsistent : ℕ → Type 0
IsConsistent a = (k : ℕ) → k < 32 → min (bit a (double k)) (bit a (suc (double k))) ≡ 0

conflict-lt : (a : ℕ) → a < 2 ^ 64 → as_conflict a < 2 ^ 64
unfolding as_conflict
conflict-lt a h =
    let inner = bit_and-le 64 a (a / 2) h in
    omega (arith, inner, bit_and-le 64 (bit_and a (a / 2)) as_mask_bits (omega (arith, inner)))

-- Words whose digits agree at every place of every identifier are equal.
pub choices_ext :
    (a b : ℕ)
    → a < 2 ^ 64
    → b < 2 ^ 64
    → ((k : ℕ)
        → k < 32
        → (bit a (double k) ≡ bit b (double k)) × (bit a (suc (double k)) ≡ bit b (suc (double k))))
    → a ≡ b
choices_ext a b p q h = bit_ext 64 a b p q (λ i l. elim (place-cases i) [
  | inl (k, e) ↦
      ap (λ j. bit a j) e ∙ (h k (omega (arith, e, double_lem k))).0 ∙ sym (ap (λ j. bit b j) e)
  | inr (k, e) ↦
      ap (λ j. bit a j) e ∙ (h k (omega (arith, e, double_lem k))).1 ∙ sym (ap (λ j. bit b j) e)
])

-- `as_conflict` is 0 exactly for the sets that choose at most one alternative of each of the 32
-- identifiers.
pub as_conflict-IsConsistent : (a : ℕ) → a < 2 ^ 64 → (as_conflict a ≡ 0) ↔ IsConsistent a
as_conflict-IsConsistent a h = (
  λ e k l. sym (bit-conflict_even a k l) ∙ ap (λ t. bit t (double k)) e ∙ bit_zero (double k),
  λ c. choices_ext (as_conflict a) 0 (conflict-lt a h) (omega arith) (λ k l. (
    bit-conflict_even a k l ∙ c k l ∙ sym (bit_zero (double k)),
    bit-conflict_odd a k ∙ sym (bit_zero (suc (double k))),
  )),
)

-- Two sets of which each is consistent are so together, by the test of `as_conflict` on their union,
-- exactly if neither chooses the alternative that the other one excludes.
pub as_union-agree :
    (a b : ℕ)
    → a < 2 ^ 64
    → b < 2 ^ 64
    → IsConsistent a
    → IsConsistent b
    → (as_conflict (as_union a b) ≡ 0) ↔ (
        (k : ℕ)
        → k < 32
        → (min (bit a (double k)) (bit b (suc (double k))) ≡ 0)
          × (min (bit a (suc (double k))) (bit b (double k)) ≡ 0))
unfolding as_union
as_union-agree a b p q ca cb =
    let r = bit_or-lt 64 a b p q in
    (
      λ e k l. omega (
        arith,
        (as_conflict-IsConsistent (bit_or a b) r).0 e k l,
        bit-bit_or (double k) a b,
        bit-bit_or (suc (double k)) a b,
      ),
      λ agree. (as_conflict-IsConsistent (bit_or a b) r).1 (λ k l. omega (
        arith,
        agree k l,
        ca k l,
        cb k l,
        bit-bit_or (double k) a b,
        bit-bit_or (suc (double k)) a b,
      )),
    )
