-- ===== src/Arithmetic/BitAnd.antt =====
-- The forward range of bitwise and.
use Prim.Native.Nat.{bit_and}
use poprc.Prelude.{ℕ, ◌^◌, ◌≤◌, ◌<◌, arith}
use poprc.Prelude.Int.{ℤ, pos, negsuc, ◌≤ℤ◌}
use poprc.Prelude.Bits.{bit_and-le}
use poprc.Words.{Range, Within, IsWord, pattern_of, signed}
use poprc.Arithmetic.{bitand_op, bitand_range_op}

pattern_lt : (x : ℤ) → pattern_of x < 2 ^ 64
pattern_lt (pos n) = omega arith
pattern_lt (negsuc n) = omega arith

-- `p` and `q` are the patterns, `r` that of the conjunction.
below_patterns :
    (x y : ℤ) (r : ℕ)
    → IsWord x
    → IsWord y
    → r ≤ pattern_of x
    → r ≤ pattern_of y
    → (IsWord (signed r))
      × (pos 0 ≤ℤ x → (pos 0 ≤ℤ signed r) × (signed r ≤ℤ x))
      × (pos 0 ≤ℤ y → (pos 0 ≤ℤ signed r) × (signed r ≤ℤ y))
below_patterns (pos m) (pos n) r wx wy h k = grind arith
below_patterns (pos m) (negsuc n) r wx wy h k = grind arith
below_patterns (negsuc m) (pos n) r wx wy h k = grind arith
below_patterns (negsuc m) (negsuc n) r wx wy h k = grind arith

-- The conjunction of a value of the one range and a value of the other lies in the range that
-- `bitand_range_op` infers.
pub bitand_range_op-Within :
    (a b : Range) (x y : ℤ)
    → IsWord x
    → IsWord y
    → Within x a
    → Within y b
    → Within (bitand_op x y) (bitand_range_op a b)
unfolding bitand_op bitand_range_op
bitand_range_op-Within a b x y wx wy xa yb =
    let r = bit_and (pattern_of x) (pattern_of y) in
    let le = bit_and-le 64 (pattern_of x) (pattern_of y) (pattern_lt x) in
    let (w, sx, sy) = below_patterns x y r wx wy le.0 le.1 in ground arith
