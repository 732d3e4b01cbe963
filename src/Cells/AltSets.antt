-- ===== src/Cells/AltSets.antt =====
-- The sets of alternatives of cells.c (`alt_set_t`): 64 bits, two for each of the 32 identifiers.
-- Bit 2k says that alternative 0 of identifier k is chosen, bit 2k + 1 that alternative 1 is.
pub mod Digits
pub mod Choices
pub mod RoundTrip
pub mod Multi
mod Tests
use Prim.Native.Nat.{bit_and, bit_or}
use poprc.Prelude.{
  ℕ, zero, suc, ◌+◌, ◌-◌, ◌*◌, ◌/◌, ◌%◌, ◌^◌, Bool, ◌&&◌, Option, none, some, ltb, ◌==◌,
  if◌then◌else◌,
}

-- `AS_SIZE`, `AS_MASK` and the complement of a word
abbrev pub as_size : ℕ
as_size = 32

abbrev pub as_mask_bits : ℕ
as_mask_bits = 0x5555555555555555

abbrev pub complement : ℕ → ℕ
complement a = 2 ^ 64 - 1 - a

-- `none` is a failed assertion.
unfoldable pub as_single : (k v : ℕ) → Option ℕ
as_single k v = if ltb k as_size then some (2 ^ (k * 2 + v % 2)) else none

-- The loop of `as_multi`, which goes on from `alt_set`.
unfoldable pub as_multi_loop : (alt_set k n v : ℕ) → Option ℕ
unfolding as_single
as_multi_loop alt_set k zero v = some alt_set
as_multi_loop alt_set k (suc n) v = elim (as_single k v) [
  | none ↦ none
  | some s ↦ as_multi_loop (bit_or alt_set s) (k + 1) n (v / 2)
]

unfoldable pub as_multi : (k n v : ℕ) → Option ℕ
unfolding as_multi_loop
as_multi k n v = as_multi_loop 0 k n v

unfoldable pub as_intersect : ℕ → ℕ → ℕ
as_intersect a b = bit_and a b

unfoldable pub as_union : ℕ → ℕ → ℕ
as_union a b = bit_or a b

unfoldable pub as_conflict : ℕ → ℕ
as_conflict a = bit_and (bit_and a (a / 2)) as_mask_bits

unfoldable pub as_mask : ℕ → ℕ
as_mask a = bit_and (bit_or a (a / 2)) as_mask_bits

unfoldable pub as_from_mask : (mask x : ℕ) → Option ℕ
as_from_mask mask x =
    if bit_and mask (complement as_mask_bits) == 0 && bit_and x (complement as_mask_bits) == 0
    then some (bit_or (bit_and (complement x) mask) (bit_and x mask * 2 % 2 ^ 64))
    else none
