-- ===== src/Arithmetic/Forward.antt =====
-- The forward ranges of `+` and `-`: what the compiler infers for the result of an operator holds
-- of every result that does not overflow.
use poprc.Prelude.Int.{ℤ, ◌+ℤ◌, ◌-ℤ◌}
use poprc.Words.{Range, Within, IsWord, IsFinite, IsWordRange}
use poprc.Words.Wrap.{wrap-eq_of_IsWord}
use poprc.Saturation.{Saturation}
use poprc.Saturation.Bounds.{sat_addi-le, le-sat_addi, sat_subi-le, le-sat_subi}
use poprc.Arithmetic.{add_op, sub_op, add_range_op, sub_range_op}

module _ (sat : Saturation) {a b : Range} {x y : ℤ} (wa : IsWordRange a) (wb : IsWordRange b)
    (fx : IsFinite x) (fy : IsFinite y) (xa : Within x a) (yb : Within y b) where
  -- The range of `add_range_op` contains every sum of finite values of the two ranges that does not
  -- overflow.
  pub add_range_op-Within : IsWord (x +ℤ y) → Within (add_op x y) (add_range_op sat a b)
  unfolding add_op add_range_op
  add_range_op-Within w = rw (wrap-eq_of_IsWord (x +ℤ y) w) (record {
    above = sat_addi-le sat a.min b.min x y wa.lower wb.lower fx fy xa.above yb.above w;
    below = le-sat_addi sat a.max b.max x y wa.upper wb.upper fx fy xa.below yb.below w;
  })

  -- The range of `sub_range_op` contains every difference of finite values of the two ranges that
  -- does not overflow.
  pub sub_range_op-Within : IsWord (x -ℤ y) → Within (sub_op x y) (sub_range_op sat a b)
  unfolding sub_op sub_range_op
  sub_range_op-Within w = rw (wrap-eq_of_IsWord (x -ℤ y) w) (record {
    above = sat_subi-le sat a.min b.max x y wa.lower wb.upper fx fy xa.above yb.below w;
    below = le-sat_subi sat a.max b.min x y wa.upper wb.lower fx fy xa.below yb.above w;
  })
