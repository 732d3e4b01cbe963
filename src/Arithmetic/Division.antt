-- ===== src/Arithmetic/Division.antt =====
-- The ranges of `/`, forward and backward: where they hold, and the classes of inputs on which
-- they do not.
use poprc.Prelude.{◌≢◌, refl, false, some, ℕ, ◌∙◌, suc, zero, ◌+◌, ◌*◌, ◌/◌, ◌≤◌, ◌<◌, ◌≡◌, arith}
use poprc.Prelude.Int.{ℤ, pos, negsuc, ◌/ℤ◌, ◌*ℤ◌, ◌≤ℤ◌}
use poprc.Words.{Range, Within, IsWord, IsFinite, IsWordRange, range, range_all, range_none}
use poprc.Saturation.{Saturation}
use poprc.Saturation.Quotient.{le_div, div_le}
use poprc.Saturation.Product.{product_finite}
use poprc.Arithmetic.{undefined_quotient, div_op, div_range_op, dividend_bound, factor_bound}

div_mono : (a m b d : ℕ) → a ≤ m → d ≤ b → a / suc b ≤ m / suc d
div_mono a m b d h k = grind arith

-- The quotient by a divisor of greater magnitude is nearer to zero.
quotient_below :
    (x m : ℤ) (b d : ℕ) → x ≤ℤ m → pos 0 ≤ℤ m → d ≤ b → x /ℤ pos (suc b) ≤ℤ m /ℤ pos (suc d)
unfolding ◌/ℤ◌
quotient_below (pos a) (pos m) b d h z k = ground (arith, div_mono a m b d)
quotient_below (negsuc a) (pos m) b d h z k = ground arith
quotient_below _ (negsuc m) b d h z k = absurd (omega arith)

quotient_above :
    (x m : ℤ) (b d : ℕ) → m ≤ℤ x → m ≤ℤ pos 0 → d ≤ b → m /ℤ pos (suc d) ≤ℤ x /ℤ pos (suc b)
unfolding ◌/ℤ◌
quotient_above (pos a) (pos zero) b d h z k = ground (arith, div_mono 0 0 b d)
quotient_above (pos a) (pos (suc m)) b d h z k = absurd (omega arith)
quotient_above (negsuc a) (pos m) b d h z k = absurd (omega arith)
quotient_above (pos a) (negsuc m) b d h z k = ground arith
quotient_above (negsuc a) (negsuc m) b d h z k = ground (arith, div_mono (suc a) (suc m) b d)

quotient_below_neg :
    (x m : ℤ) (b d : ℕ) → m ≤ℤ x → m ≤ℤ pos 0 → d ≤ b → x /ℤ negsuc b ≤ℤ m /ℤ negsuc d
unfolding ◌/ℤ◌
quotient_below_neg (pos a) (pos zero) b d h z k = ground (arith, div_mono 0 0 b d)
quotient_below_neg (pos a) (pos (suc m)) b d h z k = absurd (omega arith)
quotient_below_neg (negsuc a) (pos m) b d h z k = absurd (omega arith)
quotient_below_neg (pos a) (negsuc m) b d h z k = ground arith
quotient_below_neg (negsuc a) (negsuc m) b d h z k = ground (arith, div_mono (suc a) (suc m) b d)

quotient_above_neg :
    (x m : ℤ) (b d : ℕ) → x ≤ℤ m → pos 0 ≤ℤ m → d ≤ b → m /ℤ negsuc d ≤ℤ x /ℤ negsuc b
unfolding ◌/ℤ◌
quotient_above_neg (pos a) (pos m) b d h z k = ground (arith, div_mono a m b d)
quotient_above_neg (negsuc a) (pos m) b d h z k = ground arith
quotient_above_neg _ (negsuc m) b d h z k = absurd (omega arith)

quotient-IsWord : (x y : ℤ) → IsFinite x → IsWord (x /ℤ y)
unfolding ◌/ℤ◌
quotient-IsWord (pos a) (pos b) f = grind arith
quotient-IsWord (pos a) (negsuc b) f = grind arith
quotient-IsWord (negsuc a) (pos b) f = grind arith
quotient-IsWord (negsuc a) (negsuc b) f = grind arith

finite_quotient : (x y : ℤ) → IsFinite x → y ≢ pos 0 → undefined_quotient x y ≡ false
finite_quotient x (pos zero) f h = absurd (h refl)
finite_quotient x (pos (suc n)) f h = ground arith
finite_quotient x (negsuc n) f h = ground arith

module _ (sat : Saturation) (n : Range) (x : ℤ) (wn : IsWordRange n) (fx : IsFinite x)
    (xn : Within x n) (lo : n.min ≤ℤ pos 0) (hi : pos 0 ≤ℤ n.max) where
  by_positive :
      (e b : ℕ) (hi_d : ℤ)
      → IsWord (pos (suc e))
      → pos (suc e) ≤ℤ hi_d
      → e ≤ b
      → Within (x /ℤ pos (suc b)) (div_range_op sat n (range (pos (suc e)) hi_d))
  unfolding div_range_op
  by_positive e b hi_d we h k = ground (
    arith,
    sat.div_i_lem n.min (pos (suc e)) wn.lower we (λ q. cc),
    sat.div_i_lem n.max (pos (suc e)) wn.upper we (λ q. cc),
    quotient-IsWord x (pos (suc b)) fx,
    quotient_below x n.max b e,
    quotient_above x n.min b e,
  )

  by_negative :
      (e b : ℕ) (lo_d : ℤ)
      → IsFinite n.min
      → IsFinite n.max
      → IsWord (negsuc e)
      → lo_d ≤ℤ negsuc e
      → e ≤ b
      → Within (x /ℤ negsuc b) (div_range_op sat n (range lo_d (negsuc e)))
  unfolding div_range_op
  by_negative e b lo_d fl fh we h k = ground (
    arith,
    sat.div_i_lem n.min (negsuc e) wn.lower we (λ q. cc),
    sat.div_i_lem n.max (negsuc e) wn.upper we (λ q. cc),
    quotient_below_neg x n.min b e,
    quotient_above_neg x n.max b e,
  )

  through_zero :
      (d : Range) (y : ℤ) → d.min ≤ℤ pos 0 → pos 0 ≤ℤ d.max → Within (x /ℤ y) (div_range_op sat n d)
  unfolding div_range_op
  through_zero d y l h = ground (arith, quotient-IsWord x y fx)

  by_signs :
      (lo_d hi_d y : ℤ)
      → IsWord lo_d
      → IsWord hi_d
      → lo_d ≤ℤ y
      → y ≤ℤ hi_d
      → (hi_d ≤ℤ negsuc 0 → IsFinite n.min × IsFinite n.max)
      → Within (x /ℤ y) (div_range_op sat n (range lo_d hi_d))
  by_signs (pos (suc e)) hi_d (pos (suc b)) wl wh l h f =
      by_positive e b hi_d wl (omega arith) (omega arith)
  by_signs (pos (suc e)) hi_d (pos zero) wl wh l h f = absurd (omega arith)
  by_signs (pos (suc e)) hi_d (negsuc b) wl wh l h f = absurd (omega arith)
  by_signs lo_d (negsuc e) (negsuc b) wl wh l h f =
      let (fl, fh) = f (omega arith) in by_negative e b lo_d fl fh wh (omega arith) (omega arith)
  by_signs lo_d (negsuc e) (pos b) wl wh l h f = absurd (omega arith)
  by_signs (pos zero) (pos u) y wl wh l h f =
      through_zero (range (pos zero) (pos u)) y (omega arith) (omega arith)
  by_signs (negsuc m) (pos u) y wl wh l h f =
      through_zero (range (negsuc m) (pos u)) y (omega arith) (omega arith)

  -- Where the dividend is finite, its range contains 0, and has finite ends if the divisors are
  -- negative, the quotient by a divisor other than 0 is defined and lies in the range that is
  -- inferred for it.
  pub div_range_op-Within :
      (d : Range) (y : ℤ)
      → IsWordRange d
      → Within y d
      → y ≢ pos 0
      → (d.max ≤ℤ negsuc 0 → IsFinite n.min × IsFinite n.max)
      → (z : ℤ) × (div_op x y ≡ some z) × Within z (div_range_op sat n d)
  unfolding div_op
  div_range_op-Within d y wd yd nz f = (
    x /ℤ y,
    rw (finite_quotient x y fx nz) refl,
    by_signs d.min d.max y wd.lower wd.upper yd.above yd.below f,
  )

div_one : (a : ℕ) → a / 1 ≡ a
div_one a = omega arith

quotient_lt : (a b : ℕ) → suc a / suc (suc b) < suc a
quotient_lt a b = grind arith

quotient_of_successor : (q e : ℕ) → (q * suc (suc e) + 1) / suc (suc e) ≡ q
quotient_of_successor q e =
    grind (arith, le_div q (suc e) (q * suc (suc e) + 1), div_le q (suc e) (q * suc (suc e) + 1))

pos_mul : (q d : ℕ) → pos q *ℤ pos d ≡ pos (q * d)
unfolding ◌*ℤ◌
pos_mul q d = grind arith

factor-IsFinite : (q e : ℕ) → IsFinite (pos (q * suc (suc e) + 1)) → IsFinite (pos q)
factor-IsFinite q e f = grind arith

module _ (sat : Saturation) where
  div_i_one : (a : ℕ) → IsFinite (pos a) → sat.div_i (pos a) (pos 1) ≡ pos a
  unfolding ◌/ℤ◌
  div_i_one a f =
      ground (arith, sat.div_i_lem (pos a) (pos 1) (omega arith) (omega arith) (λ q. cc), div_one a)

  -- Where the dividend is the positive constant `a` and the divisors reach from 1 to `b + 2`, the
  -- range inferred is `a` alone, and the quotient by `b + 2` is outside it.
  pub div_range_op_misses :
      (a b : ℕ)
      → IsFinite (pos (suc a))
      → IsFinite (pos (suc (suc b)))
      → let n = range (pos (suc a)) (pos (suc a)) in
        let d = range (pos 1) (pos (suc (suc b))) in
        (div_range_op sat n d ≡ n)
        × ((z : ℤ) × (div_op (pos (suc a)) (pos (suc (suc b))) ≡ some z) × ¬ Within z n)
  unfolding div_range_op div_op ◌/ℤ◌
  div_range_op_misses a b fa fb = (
    ground (arith, div_i_one (suc a) fa),
    (
      pos (suc a) /ℤ pos (suc (suc b)),
      rw (finite_quotient (pos (suc a)) (pos (suc (suc b))) fa (λ e. cc)) refl,
      λ h. ground (arith, h, quotient_lt a b),
    ),
  )

  -- A product by a negative constant whose wanted bound is unlimited leaves no value at all to the
  -- other factor.
  pub factor_bound_unlimited :
      (c : ℕ) → IsWord (negsuc c) → factor_bound sat range_all (negsuc c) ≡ range_none
  unfolding factor_bound
  factor_bound_unlimited c w = ground (
    arith,
    sat.div_maxi_lem range_all.max (negsuc c) (omega arith) w (λ q. cc),
    sat.div_mini_lem range_all.min (negsuc c) (omega arith) w (λ q. cc),
  )

  -- The bound on a dividend misses values: `q * d + 1` divided by the constant `d`, 2 or more, is
  -- `q`, and it is above the bound that the wanted result `q` sets.
  pub dividend_bound_misses :
      (old : Range) (q e : ℕ)
      → let d = suc (suc e) in
        IsFinite (pos (q * d + 1))
        → IsFinite (pos d)
        → (div_op (pos (q * d + 1)) (pos d) ≡ some (pos q))
          × ¬ Within (pos (q * d + 1)) (dividend_bound sat old (range (pos q) (pos q)) (pos d))
  unfolding div_op ◌/ℤ◌ dividend_bound
  dividend_bound_misses old q e f g =
      let d = suc (suc e) in
      let same_quotient = quotient_of_successor q e in
      let fq : IsFinite (pos q) = factor-IsFinite q e f in
      let m =
        sat.sat_muli_lem (pos q) (pos d) (omega arith) (omega arith) (λ h. cc)
        ∙ product_finite (pos q) (pos d) fq (omega arith) (omega arith) in
      (
        rw (finite_quotient (pos (q * d + 1)) (pos d) f (λ h. cc), same_quotient) refl,
        λ h. ground (arith, h, m, pos_mul q d),
      )
