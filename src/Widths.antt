-- ===== src/Widths.antt =====
-- ir/analysis.c: bits_needed, the width of the register that the Verilog generator gives a value of
-- a range.
pub mod Fits
pub mod Reference
mod Tests
use Prim.Native.Nat.{max}
use poprc.Prelude.{ℕ, ◌+◌, ◌≤◌, ◌^◌, ◌≡◌, Bool, ◌||◌, ◌&&◌, not, if◌then◌else◌}
use poprc.Prelude.Int.{ℤ, pos, negsuc, ◌+ℤ◌, ◌-ℤ◌, ◌≤ℤ◌, leb_ℤ, ltb_ℤ, eqb_ℤ, pos_part}
use poprc.Words.{Range, IsWord, word_min, word_max, max_ℤ}
use poprc.Saturation.{clamp_word}

-- The functions of startle/support.c that are called: saturating operations, and the least number of
-- bits that counts below `x`. The C function takes `x` as an `unsigned long`.
pub record Startle : Type 0 where
  pub sat_add : ℤ → ℤ → ℤ
  pub sat_neg : ℤ → ℤ
  pub int_log2l : ℕ → ℕ
  pub sat_add_lem : (x y : ℤ) → IsWord x → IsWord y → sat_add x y ≡ clamp_word (x +ℤ y)
  pub sat_neg_lem : (x : ℤ) → IsWord x → sat_neg x ≡ clamp_word (pos 0 -ℤ x)
  pub int_log2l_above : (x : ℕ) → x ≤ 2 ^ int_log2l x
  pub int_log2l_least : (x n : ℕ) → x ≤ 2 ^ n → int_log2l x ≤ n

abbrev pub range_empty : Range → Bool
range_empty a = ltb_ℤ a.max a.min

abbrev pub range_singleton : Range → Bool
range_singleton a = eqb_ℤ a.min a.max

abbrev pub range_bounded : Range → Bool
range_bounded a = not (eqb_ℤ a.min word_min) && not (eqb_ℤ a.max word_max)

-- The argument of `int_log2l` is positive in both calls.
unfoldable pub bits_needed : Startle → Range → Bool → ℕ
bits_needed lib r is_constant =
    if range_empty r || (not (range_bounded r) || (not is_constant && range_singleton r))
    then 0
    else if leb_ℤ (pos 0) r.min
    then max 1 (lib.int_log2l (pos_part (lib.sat_add r.max (pos 1))))
    else max 1
        (lib.int_log2l (pos_part (lib.sat_add (max_ℤ r.max (lib.sat_neg r.min)) (pos 1))) + 1)
