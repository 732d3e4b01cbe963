-- ===== src/Prelude/Product.antt =====
-- Products of signed integers: the two parts of a product, and monotonicity.
use poprc.Prelude.{ℕ, suc, ◌+◌, ◌*◌, ◌≤◌, ◌≡◌, arith}
use poprc.Prelude.Int.{ℤ, pos, negsuc, pos_part, neg_part, ◌*ℤ◌, ◌≤ℤ◌}

pub *ℤ_parts :
    (a b : ℤ)
    → pos_part (a *ℤ b) + (pos_part a * neg_part b + neg_part a * pos_part b)
      ≡ neg_part (a *ℤ b) + (pos_part a * pos_part b + neg_part a * neg_part b)
unfolding ◌*ℤ◌
*ℤ_parts a b = ground arith

pub mul_mono : (m n k : ℕ) → m ≤ n → m * k ≤ n * k
mul_mono m n k h = grind arith

pub *ℤ_comm : (a b : ℤ) → a *ℤ b ≡ b *ℤ a
unfolding ◌*ℤ◌
*ℤ_comm (pos a) (pos b) = grind arith
*ℤ_comm (pos a) (negsuc b) = grind arith
*ℤ_comm (negsuc a) (pos b) = grind arith
*ℤ_comm (negsuc a) (negsuc b) = grind arith

pub *ℤ_mono_pos : (p x : ℤ) (q : ℕ) → p ≤ℤ x → p *ℤ pos q ≤ℤ x *ℤ pos q
*ℤ_mono_pos p x q h = omega (
  arith,
  *ℤ_parts p (pos q),
  *ℤ_parts x (pos q),
  mul_mono (pos_part p + neg_part x) (pos_part x + neg_part p) q h,
)

pub *ℤ_mono_neg : (p x : ℤ) (q : ℕ) → p ≤ℤ x → x *ℤ negsuc q ≤ℤ p *ℤ negsuc q
*ℤ_mono_neg p x q h = omega (
  arith,
  *ℤ_parts p (negsuc q),
  *ℤ_parts x (negsuc q),
  mul_mono (pos_part p + neg_part x) (pos_part x + neg_part p) (suc q) h,
)
