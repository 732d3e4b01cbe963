-- ===== src/Arithmetic/Remainder.antt =====
-- The forward range of `%`.
use poprc.Prelude.{
  ◌-◌, ◌^◌, ℕ, suc, zero, ◌+◌, ◌%◌, ◌≤◌, ◌<◌, ◌≡◌, refl, ◌≢◌, ◌∙◌, sym, ap, ◌⊎◌, inl, inr, some,
  Bool-cases, arith, if◌then◌else◌, true, false, Bool, not, ◌&&◌, ◌||◌,
}
use poprc.Prelude.Int.{
  ℤ, pos, negsuc, pos_part, neg_part, ◌%ℤ◌, ◌-ℤ◌, ◌+ℤ◌, ◌≤ℤ◌, eqb_ℤ, -ℤ_parts, +ℤ_parts,
  eq_of_parts,
}
use poprc.Words.{
  Range, Within, IsWord, IsWordRange, range, max_ℤ, word_max, word_min, wrap, range_none,
}
use poprc.Saturation.{Saturation}
use poprc.Arithmetic.Period.{%ℤ_between}
use poprc.Arithmetic.{undefined_quotient, mod_op, mod_range_op, mod_wide, range_span, is_singleton}

abbrev abs : ℤ → ℕ
abs x = pos_part x + neg_part x

-- The remainder lies between zero and the dividend, and is smaller than the divisor.
record IsRemainder (x : ℤ) (m : ℕ) (r : ℤ) : Type 0 where
  same_sign : pos 0 ≤ℤ x → (pos 0 ≤ℤ r) × (r ≤ℤ x)
  same_sign_neg : x ≤ℤ pos 0 → (x ≤ℤ r) × (r ≤ℤ pos 0)
  small : pos_part r < m
  small_neg : neg_part r < m

mod_small : (a b : ℕ) → (a % suc b < suc b) × (a % suc b ≤ a)
mod_small a b = grind arith

%ℤ-IsRemainder : (x y : ℤ) → y ≢ pos 0 → IsRemainder x (abs y) (x %ℤ y)
unfolding ◌%ℤ◌
%ℤ-IsRemainder x (pos zero) h = ground arith
%ℤ-IsRemainder (pos a) (pos (suc b)) h = ground (arith, mod_small a b)
%ℤ-IsRemainder (pos a) (negsuc b) h = ground (arith, mod_small a b)
%ℤ-IsRemainder (negsuc a) (pos (suc b)) h = ground (arith, mod_small (suc a) b)
%ℤ-IsRemainder (negsuc a) (negsuc b) h = ground (arith, mod_small (suc a) b)

-- The divisor's magnitude is at most `suc k`, or `suc k` is the greatest word.
abbrev Covers : ℕ → ℕ → Type 0
Covers k m = (m ≤ suc k) ⊎ (k ≡ 2 ^ 63 - 2)

module _ (sat : Saturation) (k m : ℕ) (w : IsWord (pos (suc k))) (c : Covers k m) where
  less_one-IsWord : IsWord (sat.sat_subi (pos (suc k)) (pos 1))
  less_one-IsWord =
      rw (sat.sat_subi_lem (pos (suc k)) (pos 1) w (ground arith))
        (ground (arith, -ℤ_parts (pos (suc k)) (pos 1)))

  le-less_one : (r : ℤ) → IsWord r → pos_part r < m → r ≤ℤ sat.sat_subi (pos (suc k)) (pos 1)
  le-less_one r v h =
      rw (sat.sat_subi_lem (pos (suc k)) (pos 1) w (ground arith))
        (ground (arith, -ℤ_parts (pos (suc k)) (pos 1)))

  minus_less_one-le :
      (r : ℤ) → IsWord r → neg_part r < m → sat.sat_negi (sat.sat_subi (pos (suc k)) (pos 1)) ≤ℤ r
  minus_less_one-le r v h =
      rw
        (
          sat.sat_negi_lem (sat.sat_subi (pos (suc k)) (pos 1)) less_one-IsWord,
          sat.sat_subi_lem (pos (suc k)) (pos 1) w (ground arith),
        )
        (ground (
          arith,
          -ℤ_parts (pos (suc k)) (pos 1),
          -ℤ_parts (pos 0) (pos (suc k) -ℤ pos 1),
          -ℤ_parts (pos 0) word_max,
        ))

  mod_wide-Within :
      (n : Range) (x r : ℤ)
      → IsWord x
      → Within x n
      → IsRemainder x m r
      → Within r (mod_wide sat (pos (suc k)) n)
  unfolding mod_wide
  mod_wide-Within n x r wx xn s =
      let v : IsWord r = ground arith in
      ground (arith, le-less_one r v s.small, minus_less_one-le r v s.small_neg)

-- The span of a range, before the sum wraps.
span_of :
    (a : ℤ)
    → IsWord a
    → pos 0 ≤ℤ a
    → wrap (a +ℤ pos 1) ≡ (if eqb_ℤ a word_max then word_min else a +ℤ pos 1)
unfolding wrap ◌+ℤ◌
span_of (pos n) w h = ground arith
span_of (negsuc n) w h = absurd (omega arith)

module _ (sat : Saturation) where
  -- The difference of the ends, as `range_span` computes it.
  difference-IsWord :
      (a b : ℤ)
      → IsWord a
      → IsWord b
      → b ≤ℤ a
      → IsWord (sat.sat_subi a b) × (pos 0 ≤ℤ sat.sat_subi a b)
  difference-IsWord a b wa wb h = rw (sat.sat_subi_lem a b wa wb) (ground (arith, -ℤ_parts a b))

  difference_exact :
      (a b : ℤ)
      → IsWord a
      → IsWord b
      → b ≤ℤ a
      → sat.sat_subi a b ≢ word_max
      → sat.sat_subi a b ≡ a -ℤ b
  difference_exact a b wa wb h ne = ground (arith, sat.sat_subi_lem a b wa wb, -ℤ_parts a b)

  difference_narrow :
      (a b : ℤ)
      → b ≤ℤ a
      → negsuc (2 ^ 62 - 2) ≤ℤ b
      → a ≤ℤ pos (2 ^ 62 - 1)
      → sat.sat_subi a b ≢ word_max
  difference_narrow a b h l u e =
      ground (arith, sat.sat_subi_lem a b (omega arith) (omega arith), -ℤ_parts a b)

  span_difference :
      (a b c d : ℤ)
      → IsWord a
      → IsWord b
      → b ≤ℤ a
      → negsuc (2 ^ 62 - 2) ≤ℤ d
      → d ≤ℤ c
      → c ≤ℤ pos (2 ^ 62 - 1)
      → wrap (sat.sat_subi a b +ℤ pos 1) ≡ wrap (sat.sat_subi c d +ℤ pos 1)
      → a -ℤ b ≡ c -ℤ d
  span_difference a b c d wa wb h l m u e =
      let (v, z) = difference-IsWord a b wa wb h in
      let (v', z') = difference-IsWord c d (omega arith) (omega arith) m in
      let ne = difference_narrow c d m l u in
      let step : sat.sat_subi a b ≡ sat.sat_subi c d = ground (
        arith,
        span_of (sat.sat_subi a b) v z,
        span_of (sat.sat_subi c d) v' z',
        +ℤ_parts (sat.sat_subi a b) (pos 1),
        +ℤ_parts (sat.sat_subi c d) (pos 1),
      ) in
      sym (difference_exact a b wa wb h (λ q. ne (sym step ∙ q)))
      ∙ step
      ∙ difference_exact c d (omega arith) (omega arith) m ne

  spans_agree :
      (n e : Range)
      → n.min ≤ℤ n.max
      → eqb_ℤ (range_span sat n) (pos 0) ≡ false
      → eqb_ℤ (range_span sat n) (range_span sat e) ≡ true
      → (e.min ≤ℤ e.max)
        × (wrap (sat.sat_subi n.max n.min +ℤ pos 1) ≡ wrap (sat.sat_subi e.max e.min +ℤ pos 1))
  unfolding range_span
  spans_agree n e h z q = ground arith

  -- The branch of `mod_range_op` for a constant divisor, where the ends keep their distance.
  same_span-Within :
      (n : Range) (x : ℤ) (k : ℕ)
      → IsWordRange n
      → Within x n
      → suc k ≤ 2 ^ 62
      → let ends = range (n.min %ℤ pos (suc k)) (n.max %ℤ pos (suc k)) in
        eqb_ℤ (range_span sat n) (pos 0) ≡ false
        → eqb_ℤ (range_span sat n) (range_span sat ends) ≡ true
        → Within (x %ℤ pos (suc k)) ends
  same_span-Within n x k wn xn h z e =
      let lo = n.min %ℤ pos (suc k) in
      let hi = n.max %ℤ pos (suc k) in
      let rl = %ℤ-IsRemainder n.min (pos (suc k)) (λ q. cc) in
      let rh = %ℤ-IsRemainder n.max (pos (suc k)) (λ q. cc) in
      let (m, w) = spans_agree n (range lo hi) (omega arith) z e in
      let dist =
        span_difference n.max n.min hi lo wn.upper wn.lower (omega arith) (omega arith) m
          (omega arith) w in
      let (p, q) =
        %ℤ_between n.min x n.max k xn.above xn.below (
          omega
            (arith, ap pos_part dist, ap neg_part dist, -ℤ_parts n.max n.min, -ℤ_parts hi lo)) in
      record { above = p; below = q }

  -- `da`, the greater magnitude of the divisors.
  cap : (y : ℤ) → IsWord y → sat.sat_abs y ≡ pos (if eqb_ℤ y word_min then 2 ^ 63 - 1 else abs y)
  cap y w = ground (arith, sat.sat_abs_lem y w, -ℤ_parts (pos 0) y)

  span_nonzero :
      (n : Range) → IsWordRange n → n.min ≤ℤ n.max → eqb_ℤ (range_span sat n) (pos 0) ≡ false
  unfolding range_span
  span_nonzero n wn h =
      let (v, z) = difference-IsWord n.max n.min wn.upper wn.lower h in
      ground
        (arith, span_of (sat.sat_subi n.max n.min) v z, +ℤ_parts (sat.sat_subi n.max n.min) (pos 1))

  magnitude :
      (lo hi y : ℤ)
      → IsWord lo
      → IsWord hi
      → lo ≤ℤ y
      → y ≤ℤ hi
      → y ≢ pos 0
      → let da = max_ℤ (sat.sat_abs lo) (sat.sat_abs hi) in
        let k = pos_part da - 1 in (da ≡ pos (suc k)) × Covers k (abs y) × IsWord (pos (suc k))
  magnitude lo hi (pos zero) wl wh h l ne = absurd (ne refl)
  magnitude lo hi (pos (suc b)) wl wh h l ne = rw (cap lo wl, cap hi wh) (ground arith)
  magnitude lo hi (negsuc b) wl wh h l ne = rw (cap lo wl, cap hi wh) (ground arith)

-- The choice among the three results of `mod_range_op`.
chosen :
    (r : ℤ) (one none_ whole : Bool) (none_range ends wide : Range)
    → none_ ≡ false
    → (one ≡ true → whole ≡ true → Within r ends)
    → Within r wide
    → Within r (if one then (if none_ then none_range else if whole then ends else wide) else wide)
chosen r true true whole n d v e f w = cc
chosen r true false true n d v e f w = f refl refl
chosen r true false false n d v e f w = w
chosen r false none_ whole n d v e f w = w

%ℤ-abs : (x y : ℤ) → x %ℤ y ≡ x %ℤ pos (abs y)
unfolding ◌%ℤ◌
%ℤ-abs (pos a) (pos b) = ground arith
%ℤ-abs (pos a) (negsuc b) = ground arith
%ℤ-abs (negsuc a) (pos b) = ground arith
%ℤ-abs (negsuc a) (negsuc b) = ground arith

undefined_cases :
    (x y : ℤ) → y ≢ pos 0 → undefined_quotient x y ≡ true → (x ≡ word_min) × (y ≡ negsuc 0)
undefined_cases x (pos zero) h e = absurd (h refl)
undefined_cases x (pos (suc n)) h e = absurd (ground arith)
undefined_cases x (negsuc n) h e =
    (ground (arith, eq_of_parts x word_min), ground (arith, eq_of_parts (negsuc n) (negsuc 0)))

module _ (sat : Saturation) (n d : Range) (x y : ℤ) (wn : IsWordRange n) (wd : IsWordRange d)
    (xn : Within x n) (yd : Within y d) (ne : y ≢ pos 0) where
  abbrev da : ℤ
  da = max_ℤ (sat.sat_abs d.min) (sat.sat_abs d.max)

  constant_divisor :
      (is_singleton d && not (eqb_ℤ d.min word_max || eqb_ℤ d.min word_min)) ≡ true
      → (d.min ≡ d.max) × (da ≡ pos (abs y)) × (d.min ≡ y)
  constant_divisor h =
      rw (cap sat d.min wd.lower, cap sat d.max wd.upper)
        (ground (arith, eq_of_parts d.min d.max, eq_of_parts d.min y))

  remainder-Within :
      IsWord x
      → IsWord y
      → (d.min ≡ d.max → abs d.min ≤ 2 ^ 62)
      → Within (x %ℤ y) (mod_range_op sat n d)
  unfolding mod_range_op
  remainder-Within wx wy small =
      let (e, c, w) = magnitude sat d.min d.max y wd.lower wd.upper yd.above yd.below ne in
      let k = pos_part da - 1 in
      let full = span_nonzero sat n wn (omega arith) in
      chosen (x %ℤ y) (is_singleton d && not (eqb_ℤ d.min word_max || eqb_ℤ d.min word_min))
        (eqb_ℤ (range_span sat n) (pos 0) || eqb_ℤ da (pos 0))
        (eqb_ℤ (range_span sat n) (range_span sat (range (n.min %ℤ da) (n.max %ℤ da)))) range_none
        (range (n.min %ℤ da) (n.max %ℤ da)) (mod_wide sat da n) (ground (arith, full, e))
        (λ one whole.
          let (single, eq_da, eq_y) = constant_divisor one in
          let le : suc k ≤ 2 ^ 62 =
            omega (arith, small single, ap pos_part (sym e ∙ eq_da), ap abs eq_y) in
          let same : x %ℤ y ≡ x %ℤ da = %ℤ-abs x y ∙ ap (λ t. x %ℤ t) (sym eq_da) in
          rw (same, e) (same_span-Within sat n x k wn xn le full (rw e at whole)))
        (rw e (mod_wide-Within sat k (abs y) w c n x (x %ℤ y) wx xn (%ℤ-IsRemainder x y ne)))

  -- For every divisor but 0, if a constant divisor is at most 2 ^ 62 in magnitude, the remainder is
  -- defined and lies in the range that `mod_range_op` infers, but for INTPTR_MIN and -1.
  pub mod_range_op-Within :
      IsWord x
      → IsWord y
      → (d.min ≡ d.max → abs d.min ≤ 2 ^ 62)
      → ((x ≡ word_min) × (y ≡ negsuc 0))
        ⊎ ((z : ℤ) × (mod_op x y ≡ some z) × Within z (mod_range_op sat n d))
  unfolding mod_op
  mod_range_op-Within wx wy small = elim (Bool-cases (undefined_quotient x y)) [
    | inl e ↦ inl (undefined_cases x y ne e)
    | inr e ↦ inr (x %ℤ y, rw e refl, remainder-Within wx wy small)
  ]
