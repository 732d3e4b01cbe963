-- ===== src/Saturation/Bounds.antt =====
-- What a saturated sum, difference or negation says of finite values between its arguments.
use poprc.Prelude.{arith}
use poprc.Prelude.Int.{ℤ, ◌+ℤ◌, ◌-ℤ◌, ◌≤ℤ◌, +ℤ_parts, -ℤ_parts}
use poprc.Words.{IsWord, IsFinite}
use poprc.Saturation.{Saturation}

module _ (sat : Saturation) (a b x y : ℤ) (wa : IsWord a) (wb : IsWord b) where
  pub sat_addi-le :
      IsFinite x → IsFinite y → a ≤ℤ x → b ≤ℤ y → IsWord (x +ℤ y) → sat.sat_addi a b ≤ℤ x +ℤ y
  sat_addi-le fx fy h k w =
      rw (sat.sat_addi_lem a b wa wb) (ground (arith, +ℤ_parts a b, +ℤ_parts x y))

  pub le-sat_addi :
      IsFinite x → IsFinite y → x ≤ℤ a → y ≤ℤ b → IsWord (x +ℤ y) → x +ℤ y ≤ℤ sat.sat_addi a b
  le-sat_addi fx fy h k w =
      rw (sat.sat_addi_lem a b wa wb) (ground (arith, +ℤ_parts a b, +ℤ_parts x y))

  pub sat_subi-le :
      IsFinite x → IsFinite y → a ≤ℤ x → y ≤ℤ b → IsWord (x -ℤ y) → sat.sat_subi a b ≤ℤ x -ℤ y
  sat_subi-le fx fy h k w =
      rw (sat.sat_subi_lem a b wa wb) (ground (arith, -ℤ_parts a b, -ℤ_parts x y))

  pub le-sat_subi :
      IsFinite x → IsFinite y → x ≤ℤ a → b ≤ℤ y → IsWord (x -ℤ y) → x -ℤ y ≤ℤ sat.sat_subi a b
  le-sat_subi fx fy h k w =
      rw (sat.sat_subi_lem a b wa wb) (ground (arith, -ℤ_parts a b, -ℤ_parts x y))
