-- ===== src/Arithmetic/Product.antt =====
-- The forward range of `*`.
use poprc.Prelude.{◌≡◌, ◌≢◌, ◌∙◌, arith}
use poprc.Prelude.Int.{ℤ, negsuc, ◌*ℤ◌, ◌≤ℤ◌}
use poprc.Words.{Range, Within, IsWord, IsFinite, IsWordRange, min_ℤ, max_ℤ}
use poprc.Words.Wrap.{wrap-eq_of_IsWord}
use poprc.Saturation.{Saturation, clamp_word, saturated_product}
use poprc.Saturation.Product.{Ordered, product_finite, product_left, product_right}
use poprc.Arithmetic.{mul_op, mul_range_op}

-- A value between two that are between four lies between the least and the greatest of the four.
between_corners :
    (a b c d u v m : ℤ)
    → Ordered a u c
    → Ordered b v d
    → Ordered u m v
    → (min_ℤ (min_ℤ a b) (min_ℤ c d) ≤ℤ m) × (m ≤ℤ max_ℤ (max_ℤ a b) (max_ℤ c d))
between_corners a b c d u v m h k l = ground arith

clamp_word-eq_of_IsWord : (z : ℤ) → IsWord z → clamp_word z ≡ z
clamp_word-eq_of_IsWord z w = ground arith

module _ (sat : Saturation) {a b : Range} {x y : ℤ} where
  -- The product of a finite value of the one range and a finite value of the other, where it does not
  -- overflow, lies in the range that `mul_range_op` infers. Ends that stand for infinity are allowed,
  -- but no end of the first range may be -1, since then C does not define what sat_mul computes.
  pub mul_range_op-Within :
      IsWordRange a
      → IsWordRange b
      → a.min ≢ negsuc 0
      → a.max ≢ negsuc 0
      → IsFinite x
      → IsFinite y
      → Within x a
      → Within y b
      → IsWord (x *ℤ y)
      → Within (mul_op x y) (mul_range_op sat a b)
  unfolding mul_op mul_range_op
  mul_range_op-Within wa wb lo hi fx fy xa yb w =
      let wx : IsWord x = omega arith in
      let wy : IsWord y = omega arith in
      let f = saturated_product in
      let inner =
        between_corners (f a.min b.min) (f a.min b.max) (f a.max b.min) (f a.max b.max) (f x b.min)
          (f x b.max) (f x y)
          (product_left x fx wx a.min a.max b.min wa.lower wa.upper wb.lower xa.above xa.below)
          (product_left x fx wx a.min a.max b.max wa.lower wa.upper wb.upper xa.above xa.below)
          (product_right x fx wx b.min y b.max wb.lower wy wb.upper yb.above yb.below) in
      let exact : f x y ≡ x *ℤ y =
        product_finite x y fx wx wy ∙ clamp_word-eq_of_IsWord (x *ℤ y) w in
      let law = sat.sat_muli_lem in
      rw
        (
          wrap-eq_of_IsWord (x *ℤ y) w,
          ← exact,
          law a.min b.min wa.lower wb.lower lo,
          law a.min b.max wa.lower wb.upper lo,
          law a.max b.min wa.upper wb.lower hi,
          law a.max b.max wa.upper wb.upper hi,
        )
        (record { above = inner.0; below = inner.1 })
