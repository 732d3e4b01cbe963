-- ===== src/Arithmetic/Period.antt =====
-- Where the remainders of two ends are as far apart as the ends, a remainder between them lies
-- between their remainders.
use poprc.Prelude.{ℕ, suc, ◌+◌, ◌%◌, ◌/◌, ◌≤◌, ◌≡◌, arith}
use poprc.Prelude.Int.{ℤ, pos, negsuc, ◌%ℤ◌, ◌≤ℤ◌, pos_part, neg_part}
use poprc.Prelude.Product.{mul_mono}
use native.Mathlib.Nat.{div-add-mod}

div_mono_left : (a m d : ℕ) → a ≤ m → a / suc d ≤ m / suc d
div_mono_left a m d h = grind arith

rem_between :
    (lo x hi k : ℕ)
    → lo ≤ x
    → x ≤ hi
    → hi % suc k + lo ≡ hi + lo % suc k
    → (lo % suc k ≤ x % suc k) × (x % suc k ≤ hi % suc k)
rem_between lo x hi k h l e = omega (
  arith,
  div-add-mod lo (suc k),
  div-add-mod x (suc k),
  div-add-mod hi (suc k),
  mul_mono (lo / suc k) (x / suc k) (suc k) (div_mono_left lo x k h),
  mul_mono (x / suc k) (hi / suc k) (suc k) (div_mono_left x hi k l),
)

rem_whole : (x hi k : ℕ) → x ≤ hi → hi % suc k ≡ hi → x % suc k ≡ x
rem_whole x hi k h e = grind arith

mod_le : (a k : ℕ) → a % suc k ≤ a
mod_le a k = grind arith

-- The same for integers and C's remainder by a positive divisor.
pub %ℤ_between :
    (lo x hi : ℤ) (k : ℕ)
    → lo ≤ℤ x
    → x ≤ℤ hi
    → pos_part (hi %ℤ pos (suc k)) + neg_part (lo %ℤ pos (suc k)) + (neg_part hi + pos_part lo)
      ≡ neg_part (hi %ℤ pos (suc k)) + pos_part (lo %ℤ pos (suc k)) + (pos_part hi + neg_part lo)
    → (lo %ℤ pos (suc k) ≤ℤ x %ℤ pos (suc k)) × (x %ℤ pos (suc k) ≤ℤ hi %ℤ pos (suc k))
unfolding ◌%ℤ◌
%ℤ_between (pos a) (pos x) (pos b) k h l e = ground (arith, rem_between a x b k)
%ℤ_between (pos a) (negsuc x) hi k h l e = absurd (omega arith)
%ℤ_between (pos a) (pos x) (negsuc b) k h l e = absurd (omega arith)
%ℤ_between (negsuc a) (pos x) (pos b) k h l e =
    ground (arith, mod_le b k, mod_le (suc a) k, rem_whole x b k)
%ℤ_between (negsuc a) (negsuc x) (pos b) k h l e =
    ground (arith, mod_le b k, mod_le (suc a) k, rem_whole (suc x) (suc a) k)
%ℤ_between (negsuc a) (pos x) (negsuc b) k h l e = absurd (omega arith)
%ℤ_between (negsuc a) (negsuc x) (negsuc b) k h l e =
    ground (arith, rem_between (suc b) (suc x) (suc a) k)
