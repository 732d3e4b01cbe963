-- ===== src/Cells/AltSets/RoundTrip.antt =====
-- `as_mask` and `as_from_mask` of cells.c on the masks and the choices of sets of alternatives.
use Prim.Native.Nat.{bit_and, bit_or}
use poprc.Prelude.{ℕ, zero, suc, ◌*◌, ◌/◌, ◌%◌, ◌^◌, ◌≤◌, ◌<◌, ◌≡◌, ap, arith, some}
use poprc.Prelude.Bits.{
  bit, bit-bit_and, bit-bit_or, bit-lt_two, bit-half, bit_zero, bit_and-le, bit_or-lt,
  bit-double_zero, bit-double_suc,
}
use poprc.Cells.AltSets.{as_mask_bits, complement, as_mask, as_from_mask}
use poprc.Cells.AltSets.Digits.{double, bit-complement_to, bit-mask_even, bit-mask_odd, double_lem}
use poprc.Cells.AltSets.Choices.{IsConsistent, choices_ext, bit-mask_of_even, bit-mask_of_odd}

-- The upper bits of a masked word are clear, so that the assertion of `as_from_mask` holds.
masked_upper : (y : ℕ) → y < 2 ^ 64 → bit_and (bit_and y as_mask_bits) (complement as_mask_bits) ≡ 0
masked_upper y h =
    let inner = bit_and-le 64 y as_mask_bits h in
    let z = bit_and y as_mask_bits in
    choices_ext (bit_and z (complement as_mask_bits)) 0
      (omega (arith, inner, bit_and-le 64 z (complement as_mask_bits) (omega (arith, inner))))
      (omega arith)
      (λ k l. (
        omega (
          arith,
          bit-bit_and (double k) z (complement as_mask_bits),
          bit_zero (double k),
          bit-complement_to 64 (double k) as_mask_bits (omega arith) (omega (arith, double_lem k)),
          bit-mask_even k l,
        ),
        omega (
          arith,
          bit-bit_and (suc (double k)) z (complement as_mask_bits),
          bit-bit_and (suc (double k)) y as_mask_bits,
          bit-mask_odd k,
          bit_zero (suc (double k)),
        ),
      ))

module _ (a : ℕ) (h : a < 2 ^ 64) where
  -- The choices of alternative 1, moved to the places of alternative 0.
  ones : ℕ
  ones = bit_and (a / 2) as_mask_bits

  ones-le : ones ≤ as_mask_bits
  unfolding ones
  ones-le = omega (arith, bit_and-le 64 (a / 2) as_mask_bits (omega arith))

  bit-ones_even : (k : ℕ) → k < 32 → bit ones (double k) ≡ bit a (suc (double k))
  unfolding ones
  bit-ones_even k l = omega (
    arith,
    bit-bit_and (double k) (a / 2) as_mask_bits,
    bit-half (double k) a,
    bit-mask_even k l,
    bit-lt_two (suc (double k)) a,
  )

  bit-ones_odd : (k : ℕ) → bit ones (suc (double k)) ≡ 0
  unfolding ones
  bit-ones_odd k = omega (arith, bit-bit_and (suc (double k)) (a / 2) as_mask_bits, bit-mask_odd k)

  chosen_ones : ℕ
  chosen_ones = bit_and ones (as_mask a)

  chosen_ones-le : chosen_ones ≤ as_mask_bits
  unfolding chosen_ones
  chosen_ones-le = omega (arith, bit_and-le 64 ones (as_mask a) (omega (arith, ones-le)), ones-le)

  bit-shifted_even : (k : ℕ) → bit (chosen_ones * 2) (double k) ≡ 0
  unfolding double chosen_ones
  bit-shifted_even zero = bit-double_zero chosen_ones
  bit-shifted_even (suc k) = omega (
    arith,
    bit-double_suc (suc (double k)) chosen_ones,
    bit-bit_and (suc (double k)) ones (as_mask a),
    bit-ones_odd k,
  )

  bit-shifted_odd :
      (k : ℕ) → k < 32 → bit (chosen_ones * 2) (suc (double k)) ≡ bit a (suc (double k))
  unfolding chosen_ones
  bit-shifted_odd k l = omega (
    arith,
    bit-double_suc (double k) chosen_ones,
    bit-bit_and (double k) ones (as_mask a),
    bit-ones_even k l,
    bit-mask_of_even a k l,
  )

  -- The choices of alternative 0.
  zeros : ℕ
  zeros = bit_and (complement ones) (as_mask a)

  zeros-lt : zeros < 2 ^ 64
  unfolding zeros
  zeros-lt = omega (arith, bit_and-le 64 (complement ones) (as_mask a) (omega arith))

  bit-zeros_even : (k : ℕ) → k < 32 → IsConsistent a → bit zeros (double k) ≡ bit a (double k)
  unfolding zeros
  bit-zeros_even k l c = omega (
    arith,
    bit-bit_and (double k) (complement ones) (as_mask a),
    bit-complement_to 64 (double k) ones (omega (arith, ones-le)) (omega (arith, double_lem k)),
    bit-ones_even k l,
    bit-mask_of_even a k l,
    c k l,
    bit-lt_two (suc (double k)) a,
    bit-lt_two (double k) a,
  )

  bit-zeros_odd : (k : ℕ) → bit zeros (suc (double k)) ≡ 0
  unfolding zeros
  bit-zeros_odd k =
      omega (arith, bit-bit_and (suc (double k)) (complement ones) (as_mask a), bit-mask_of_odd a k)

  joined_lem : IsConsistent a → bit_or zeros (chosen_ones * 2) ≡ a
  joined_lem c =
      choices_ext (bit_or zeros (chosen_ones * 2)) a
        (bit_or-lt 64 zeros (chosen_ones * 2) zeros-lt (omega (arith, chosen_ones-le))) h
        (λ k l. (
          omega (
            arith,
            bit-bit_or (double k) zeros (chosen_ones * 2),
            bit-zeros_even k l c,
            bit-shifted_even k,
          ),
          omega (
            arith,
            bit-bit_or (suc (double k)) zeros (chosen_ones * 2),
            bit-zeros_odd k,
            bit-shifted_odd k l,
          ),
        ))

  -- A consistent set is got back from its mask and from its choices of alternative 1.
  pub as_from_mask-as_mask :
      IsConsistent a → as_from_mask (as_mask a) (bit_and (a / 2) as_mask_bits) ≡ some a
  unfolding as_from_mask as_mask ones chosen_ones zeros
  as_from_mask-as_mask c =
      let shifted : chosen_ones * 2 % 2 ^ 64 ≡ chosen_ones * 2 = omega (arith, chosen_ones-le) in
      rw
        (
          masked_upper (bit_or a (a / 2)) (bit_or-lt 64 a (a / 2) h (omega arith)),
          masked_upper (a / 2) (omega arith),
          shifted,
        )
        (ap some (joined_lem c))
