-- ===== src/Widths/Reference.antt =====
-- A reference for the functions of startle/support.c that the widths are computed with.
use native.Mathlib.Nat.{pow-suc}
use poprc.Prelude.{ℕ, zero, suc, ◌/◌, ◌^◌, ◌≤◌, refl, arith}
use poprc.Prelude.Int.{pos, ◌+ℤ◌, ◌-ℤ◌}
use poprc.Saturation.{clamp_word}
use poprc.Widths.{Startle}

-- The least `n` such that `x` is at most 2 ^ n: half of it, rounded up, needs one bit less.
unfoldable pub log2_loop : ℕ → ℕ → ℕ
log2_loop zero x = 0
log2_loop (suc f) zero = 0
log2_loop (suc f) (suc zero) = 0
log2_loop (suc f) (suc (suc y)) = suc (log2_loop f (suc (suc (suc y)) / 2))

pub log2_loop-above : (f x : ℕ) → x ≤ f → x ≤ 2 ^ log2_loop f x
unfolding log2_loop
log2_loop-above zero x h = omega arith
log2_loop-above (suc f) zero h = omega arith
log2_loop-above (suc f) (suc zero) h = omega arith
log2_loop-above (suc f) (suc (suc y)) h = omega (
  arith,
  pow-suc 2 (log2_loop f (suc (suc (suc y)) / 2)),
  log2_loop-above f (suc (suc (suc y)) / 2) (omega arith),
)

pub log2_loop-least : (f x n : ℕ) → x ≤ 2 ^ n → log2_loop f x ≤ n
unfolding log2_loop
log2_loop-least zero x n h = omega arith
log2_loop-least (suc f) zero n h = omega arith
log2_loop-least (suc f) (suc zero) n h = omega arith
log2_loop-least (suc f) (suc (suc y)) zero h = absurd (omega arith)
log2_loop-least (suc f) (suc (suc y)) (suc n) h =
    omega (arith, log2_loop-least f (suc (suc (suc y)) / 2) n (omega (arith, pow-suc 2 n)))

abbrev pub startle : Startle
startle = record {
  sat_add = λ x y. clamp_word (x +ℤ y);
  sat_neg = λ x. clamp_word (pos 0 -ℤ x);
  int_log2l = λ x. log2_loop x x;
  sat_add_lem = λ x y p q. refl;
  sat_neg_lem = λ x p. refl;
  int_log2l_above = λ x. log2_loop-above x x (omega arith);
  int_log2l_least = λ x n. log2_loop-least x x n;
}
