-- ===== src/Cells/AltSets/Multi.antt =====
-- `as_single` and `as_multi` of cells.c: the digits of a number as choices of successive identifiers.
use Prim.Native.Nat.{bit_or, max}
use native.Mathlib.Nat.{pow-le-pow_right}
use poprc.Prelude.{
  ℕ, zero, suc, ◌+◌, ◌-◌, ◌*◌, ◌/◌, ◌%◌, ◌^◌, ◌≤◌, ◌<◌, ◌≡◌, refl, ap, sym, ◌∙◌, arith, ◌&&◌, true,
  leb, ltb, if◌then◌else◌, none, some, Bool-cases, inl, inr,
}
use poprc.Prelude.Bits.{bit, bit-bit_or, bit-lt_two, bit-half, bit_zero, bit_or-lt}
use poprc.Cells.AltSets.{as_single, as_multi_loop, as_multi}
use poprc.Cells.AltSets.Digits.{double, double_lem, bit-pow}
use poprc.Cells.AltSets.Choices.{IsConsistent}

-- Whether alternative 0, or alternative 1, of identifier `j` is chosen by the `n` digits of `v` for
-- the identifiers from `k` on.
abbrev pub takes0 : (k n v j : ℕ) → ℕ
takes0 k n v j = if leb k j && ltb j (k + n) then 1 - bit v (j - k) else 0

abbrev pub takes1 : (k n v j : ℕ) → ℕ
takes1 k n v j = if leb k j && ltb j (k + n) then bit v (j - k) else 0

-- A set that chooses what `a` does, and the digits of `v`.
pub record IsJoin (a k n v r : ℕ) : Type 0 where
  pub small : r < 2 ^ 64
  pub takes_zeros : (j : ℕ) → bit r (double j) ≡ max (bit a (double j)) (takes0 k n v j)
  pub takes_ones : (j : ℕ) → bit r (suc (double j)) ≡ max (bit a (suc (double j))) (takes1 k n v j)

single-lt : (k v : ℕ) → k < 32 → 2 ^ (k * 2 + v % 2) < 2 ^ 64
single-lt k v h =
    let bound : 2 ^ (k * 2 + v % 2) ≤ 2 ^ 63 =
      pow-le-pow_right (omega arith) {j = 63} (omega arith) in
    omega (arith, bound)

-- The digit of `v` for identifier `j`: the first one at `k`, one of the half behind.
module _ (k v j : ℕ) where
  digit_first : j ≡ k → bit v (j - k) ≡ v % 2
  unfolding bit
  digit_first h = let none_before : j - k ≡ 0 = omega arith in ap (λ i. bit v i) none_before

  digit_later : k < j → bit v (j - k) ≡ bit (v / 2) (j - (k + 1))
  digit_later h =
      let one_more : j - k ≡ suc (j - (k + 1)) = omega arith in
      ap (λ i. bit v i) one_more ∙ sym (bit-half (j - (k + 1)) v)

  takes0_step :
      (n : ℕ)
      → takes0 k (suc n) v j
        ≡ max (bit (2 ^ (k * 2 + v % 2)) (double j)) (takes0 (k + 1) n (v / 2) j)
  takes0_step n = ground (
    arith,
    bit-pow (double j) (k * 2 + v % 2),
    double_lem j,
    digit_first,
    digit_later,
    bit-lt_two (j - k) v,
  )

  takes1_step :
      (n : ℕ)
      → takes1 k (suc n) v j
        ≡ max (bit (2 ^ (k * 2 + v % 2)) (suc (double j))) (takes1 (k + 1) n (v / 2) j)
  takes1_step n = ground (
    arith,
    bit-pow (suc (double j)) (k * 2 + v % 2),
    double_lem j,
    digit_first,
    digit_later,
    bit-lt_two (j - k) v,
  )

as_multi_loop-suc :
    (a k n v : ℕ)
    → k < 32
    → as_multi_loop a k (suc n) v ≡ as_multi_loop (bit_or a (2 ^ (k * 2 + v % 2))) (k + 1) n (v / 2)
unfolding as_multi_loop as_single
as_multi_loop-suc a k n v h =
    let room : ltb k 32 ≡ true = ground arith in rw (as_multi_loop, room) refl

as_multi_loop-IsJoin :
    (n a k v : ℕ)
    → a < 2 ^ 64
    → k + n ≤ 32
    → (r : ℕ) × (as_multi_loop a k n v ≡ some r) × IsJoin a k n v r
unfolding as_multi_loop
as_multi_loop-IsJoin zero a k v h l = (
  a,
  refl,
  record {
    small = h;
    takes_zeros = λ j. ground (arith, bit-lt_two (double j) a);
    takes_ones = λ j. ground (arith, bit-lt_two (suc (double j)) a);
  },
)
as_multi_loop-IsJoin (suc n) a k v h l =
    let s = 2 ^ (k * 2 + v % 2) in
    let (r, e, w) =
      as_multi_loop-IsJoin n (bit_or a s) (k + 1) (v / 2)
        (bit_or-lt 64 a s h (single-lt k v (omega arith))) (omega arith) in
    (
      r,
      as_multi_loop-suc a k n v (omega arith) ∙ e,
      record {
        small = w.small;
        takes_zeros =
            λ j. omega (arith, w.takes_zeros j, bit-bit_or (double j) a s, takes0_step k v j n);
        takes_ones = λ j.
            omega (arith, w.takes_ones j, bit-bit_or (suc (double j)) a s, takes1_step k v j n);
      },
    )

-- What `as_multi k n v` makes: a consistent set that chooses, for each of the `n` identifiers from
-- `k` on, the alternative that the digit of `v` says, and nothing of any other identifier.
pub record IsMulti (k n v r : ℕ) : Type 0 where
  pub small : r < 2 ^ 64
  pub consistent : IsConsistent r
  pub zeros : (j : ℕ) → bit r (double j) ≡ takes0 k n v j
  pub ones : (j : ℕ) → bit r (suc (double j)) ≡ takes1 k n v j

-- For identifiers below 32 `as_multi` returns that set.
pub as_multi-IsMulti :
    (k n v : ℕ) → k + n ≤ 32 → (r : ℕ) × (as_multi k n v ≡ some r) × IsMulti k n v r
unfolding as_multi
as_multi-IsMulti k n v h =
    let (r, e, w) = as_multi_loop-IsJoin n 0 k v (omega arith) h in
    let zeros : (j : ℕ) → bit r (double j) ≡ takes0 k n v j =
      λ j. omega (arith, w.takes_zeros j, bit_zero (double j)) in
    let ones : (j : ℕ) → bit r (suc (double j)) ≡ takes1 k n v j =
      λ j. omega (arith, w.takes_ones j, bit_zero (suc (double j))) in
    (
      r,
      e,
      record {
        small = w.small;
        consistent = λ j l. ground (arith, zeros j, ones j, bit-lt_two (j - k) v);
        zeros = zeros;
        ones = ones;
      },
    )

as_multi_loop-none : (n a k v : ℕ) → 0 < n → 32 < k + n → as_multi_loop a k n v ≡ none
unfolding as_multi_loop as_single
as_multi_loop-none zero a k v h l = absurd (omega arith)
as_multi_loop-none (suc n) a k v h l = elim (Bool-cases (ltb k 32)) [
  | inl e ↦
      as_multi_loop-suc a k n v (ground arith)
      ∙ as_multi_loop-none n (bit_or a (2 ^ (k * 2 + v % 2))) (k + 1) (v / 2) (ground arith)
          (omega arith)
  | inr e ↦ rw (as_multi_loop, e) refl
]

-- Past identifier 31 the assertion of `as_single` fails, also in the middle of the loop.
pub as_multi-none : (k n v : ℕ) → 0 < n → 32 < k + n → as_multi k n v ≡ none
unfolding as_multi
as_multi-none k n v = as_multi_loop-none n 0 k v
