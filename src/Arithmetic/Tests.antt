-- ===== src/Arithmetic/Tests.antt =====
-- Runs of the range inference, and the theorems at concrete ranges.
use poprc.Prelude.{◌≡◌, ◌⊎◌, none, some, refl, arith}
use poprc.Prelude.Int.{ℤ, pos, negsuc, ◌+ℤ◌, ◌-ℤ◌, ◌*ℤ◌, ◌/ℤ◌, ◌%ℤ◌}
use poprc.Words.{Range, range, range_all, Within, word_min, wrap}
use poprc.Saturation.Reference.{reference}
use poprc.Arithmetic.{
  add, mul, lt, lt_op, variable, ArgBounds, mul_op, shiftl_op, div_op, mod_op, bitand_op,
  mul_range_op, div_range_op, mod_range_op, bitand_range_op, bound_contexts_arith,
  bound_contexts_cmp,
}
use poprc.Widths.Reference.{startle, log2_loop}
use poprc.Arithmetic.Identities.{
  Reduced, val, build_shiftl, div_identity, meaning, mul_identity, mul_identity_symmetry,
  factor_identity, word_div,
}
use poprc.Arithmetic.Identities.Product.{mul_identity-Sound}
use poprc.Arithmetic.Identities.Sound.{identity-Sound}
use poprc.Arithmetic.Product.{mul_range_op-Within}
use poprc.Arithmetic.BitAnd.{bitand_range_op-Within}
use poprc.Arithmetic.Division.{div_range_op-Within}
use poprc.Arithmetic.Remainder.{mod_range_op-Within}
use poprc.Arithmetic.Backward.{exact, bound_contexts_arith-right, bound_contexts_arith-left}
use poprc.Arithmetic.Compare.{compare_op, bound_contexts_cmp-right}

abbrev small : Range
small = range (negsuc 9) (pos 10)

abbrev digit : Range
digit = range (pos 1) (pos 9)

abbrev bounds : ArgBounds
bounds = record { left = range_all; right = range_all }

product_of_ranges : mul_range_op reference small digit ≡ range (negsuc 89) (pos 90)
unfolding mul_range_op ◌*ℤ◌
product_of_ranges = refl

remainder_of_ranges :
    mod_range_op reference (range (pos 12) (pos 14)) (range (pos 10) (pos 10))
    ≡ range (pos 2) (pos 4)
unfolding mod_range_op ◌%ℤ◌ ◌+ℤ◌ ◌-ℤ◌ wrap
remainder_of_ranges = refl

mul_range_op-Within_example :
    Within (mul_op (negsuc 4) (pos 7)) (mul_range_op reference small digit)
mul_range_op-Within_example =
    mul_range_op-Within reference {a = small} {b = digit} (omega arith) (omega arith) (λ e. cc)
      (λ e. cc) (omega arith) (omega arith) (omega arith) (omega arith) (unfold ◌*ℤ◌ in omega arith)

div_range_op-Within_example :
    (z : ℤ) × (div_op (negsuc 4) (pos 7) ≡ some z) × Within z (div_range_op reference small digit)
div_range_op-Within_example =
    div_range_op-Within reference small (negsuc 4) (omega arith) (omega arith) (omega arith)
      (omega arith) (omega arith) digit (pos 7) (omega arith) (omega arith) (λ e. cc)
      (λ h. omega arith)

mod_range_op-Within_example :
    ((pos 13 ≡ word_min) × (pos 10 ≡ negsuc 0))
    ⊎ ((z : ℤ) × (mod_op (pos 13) (pos 10) ≡ some z)
        × Within z (mod_range_op reference (range (pos 12) (pos 14)) (range (pos 10) (pos 10))))
mod_range_op-Within_example =
    mod_range_op-Within reference (range (pos 12) (pos 14)) (range (pos 10) (pos 10)) (pos 13)
      (pos 10) (omega arith) (omega arith) (omega arith) (omega arith) (λ e. cc) (omega arith)
      (omega arith) (λ e. omega arith)

bitand_range_op-Within_example : Within (bitand_op (negsuc 4) (pos 7)) (bitand_range_op small digit)
bitand_range_op-Within_example =
    bitand_range_op-Within small digit (negsuc 4) (pos 7) (omega arith) (omega arith) (omega arith)
      (omega arith)

-- -3 * x lies between -10 and 10, so x lies between -3 and 3.
factor_bounds : ArgBounds
factor_bounds = record { left = range_all; right = range (negsuc 2) (pos 3) }

bound_contexts_arith-right_example :
    Within (pos 2) factor_bounds.right × (factor_bounds.left ≡ bounds.left)
unfolding factor_bounds
bound_contexts_arith-right_example =
    bound_contexts_arith-right reference small (pos 2) (omega arith) (omega arith) (negsuc 2)
      (omega arith) {z = negsuc 5} (omega arith) (omega arith) bounds {b' = factor_bounds} mul
      variable (unfold exact ◌*ℤ◌ in refl) (omega arith, omega arith)
      (unfold bound_contexts_arith ◌+ℤ◌ ◌-ℤ◌ ◌/ℤ◌ in refl)

bound_contexts_arith-left_example :
    Within (pos 2) (range (negsuc 12) (pos 7)) × (bounds.right ≡ bounds.right)
bound_contexts_arith-left_example =
    bound_contexts_arith-left reference small (pos 2) (omega arith) (omega arith) (pos 3)
      (omega arith) {z = pos 5} (omega arith) (omega arith) bounds
      {b' = record bounds { left = range (negsuc 12) (pos 7) }} add (unfold exact ◌+ℤ◌ in refl) tt
      (unfold bound_contexts_arith ◌-ℤ◌ in refl)

-- 5 < x is wanted, so x is at least 6.
bound_contexts_cmp-right_example :
    Within (pos 9) (range (pos 6) range_all.max) × (bounds.left ≡ bounds.left)
bound_contexts_cmp-right_example =
    bound_contexts_cmp-right reference lt (pos 9) (pos 5) (range (pos 1) (pos 1)) bounds
      {b' = record bounds { right = range (pos 6) range_all.max }} (omega arith) (omega arith)
      variable (unfold compare_op lt_op in refl) (unfold bound_contexts_cmp ◌+ℤ◌ in refl)

abbrev shared_variable : Reduced
shared_variable = record { cell = 2; integer = none; var = 9 }

abbrev copied_variable : Reduced
copied_variable = record { cell = 3; integer = none; var = 9 }

-- Both arguments are the variable 9 of the trace, whose value is -4.
identity-Sound_example : meaning (λ p. negsuc 3) (val (pos 1)) ≡ some (pos 1)
identity-Sound_example =
    identity-Sound word_div shared_variable copied_variable (λ p. negsuc 3) (pos 1) (val (pos 1))
      (record {
        left = λ v e. grind arith;
        right = λ v e. grind arith;
        same = λ e. refl;
        left_word = omega arith;
        right_word = omega arith;
      })
      (unfold div_op ◌/ℤ◌ in refl) (unfold div_identity in refl)

abbrev eight : Reduced
eight = record { cell = 2; integer = some (pos 8); var = 0 }

-- 8 * x, where the variable x is -3
mul_identity-Sound_example : some (shiftl_op (negsuc 2) 3) ≡ some (mul_op (pos 8) (negsuc 2))
mul_identity-Sound_example =
    mul_identity-Sound startle eight copied_variable
      (λ p. elim p.integer [ none ↦ negsuc 2 | some v ↦ v ]) (build_shiftl copied_variable 3)
      (record {
        left = λ v e. grind arith;
        right = λ v e. grind arith;
        same = λ e. grind arith;
        left_word = omega arith;
        right_word = omega arith;
      })
      (unfold mul_identity mul_identity_symmetry factor_identity log2_loop in refl)
