-- ===== src/Arithmetic/Backward.antt =====
-- The backward bounds of `+`, `-`, `*`: with one argument constant and the result within the
-- context's bound, the other argument lies within the bound that `bound_contexts_arith` sets.
use poprc.Prelude.{ℕ, ◌≡◌, ◌∙◌, some_inj, Option, some, none, true, suc, zero, arith}
use poprc.Prelude.Int.{ℤ, pos, negsuc, ◌+ℤ◌, ◌-ℤ◌, ◌*ℤ◌, ◌≤ℤ◌, +ℤ_parts, -ℤ_parts, eq_of_parts}
use poprc.Prelude.Product.{*ℤ_comm}
use poprc.Words.{Range, Within, IsWord, IsFinite, IsWordRange, range}
use poprc.Saturation.{Saturation}
use poprc.Saturation.Bounds.{sat_addi-le, le-sat_addi, sat_subi-le, le-sat_subi}
use poprc.Saturation.Quotient.{le-div_mini_pos, div_maxi-le_pos, le-div_mini_neg, div_maxi-le_neg}
use poprc.Arithmetic.{
  Op, add, sub, mul, Operand, constant, variable, ArgBounds, bound_contexts_arith, factor_bound,
  right_bound, left_bound,
}
use poprc.Arithmetic.SetBound.{set_right_inv, set_left_inv}
use mathlib.Core.Path.{subst}

sub_add_self : (x k : ℤ) → x +ℤ k -ℤ k ≡ x
sub_add_self x k = omega (arith, +ℤ_parts x k, -ℤ_parts (x +ℤ k) k, eq_of_parts)

sub_self_add : (x k : ℤ) → k +ℤ x -ℤ k ≡ x
sub_self_add x k = omega (arith, +ℤ_parts k x, -ℤ_parts (k +ℤ x) k, eq_of_parts)

sub_sub_self : (x k : ℤ) → k -ℤ (k -ℤ x) ≡ x
sub_sub_self x k = omega (arith, -ℤ_parts k x, -ℤ_parts k (k -ℤ x), eq_of_parts)

add_sub_self : (x k : ℤ) → x -ℤ k +ℤ k ≡ x
add_sub_self x k = omega (arith, -ℤ_parts x k, +ℤ_parts (x -ℤ k) k, eq_of_parts)

finite-IsWord : (x : ℤ) → IsFinite x → IsWord x
finite-IsWord x f = omega arith

-- The exact result of an operator that the bound inference inverts.
unfoldable pub exact : Op → ℤ → ℤ → Option ℤ
exact add x y = some (x +ℤ y)
exact sub x y = some (x -ℤ y)
exact mul x y = some (x *ℤ y)
exact _ x y = none

-- A negative factor wants a bound with no infinite end.
abbrev pub Admits : Op → ℤ → Range → Type 0
Admits mul (negsuc _) bound = IsFinite bound.min × IsFinite bound.max
Admits _ _ _ = Unit

le_self : (x : ℤ) → x ≤ℤ x
le_self x = omega arith

module _ (sat : Saturation) where
  factor_bound_pos :
      (r : Range) (c : ℕ)
      → factor_bound sat r (pos (suc c))
        ≡ range (sat.div_maxi r.min (pos (suc c))) (sat.div_mini r.max (pos (suc c)))
  unfolding factor_bound
  factor_bound_pos r c = ground arith

  factor_bound_neg :
      (r : Range) (c : ℕ)
      → factor_bound sat r (negsuc c)
        ≡ range (sat.div_maxi r.max (negsuc c)) (sat.div_mini r.min (negsuc c))
  unfolding factor_bound
  factor_bound_neg r c = ground arith

module _ (sat : Saturation) (bound : Range) (x : ℤ) (wb : IsWordRange bound) (fx : IsFinite x)
    (k : ℤ) (fk : IsFinite k) where
  factor_bound-Within :
      (q : ℤ)
      → IsFinite q
      → IsFinite (x *ℤ q)
      → Within (x *ℤ q) bound
      → Admits mul q bound
      → Within x (factor_bound sat bound q)
  unfolding factor_bound
  factor_bound-Within (pos zero) fq fz z ok = omega arith
  factor_bound-Within (pos (suc c)) fq fz z ok =
      let wq = finite-IsWord (pos (suc c)) fq in
      let wx = finite-IsWord x fx in
      rw (factor_bound_pos sat bound c) (record {
        above = div_maxi-le_pos sat x bound.min c wb.lower wq fz wx z.above;
        below = le-div_mini_pos sat x bound.max c wb.upper wq fz wx z.below;
      })
  factor_bound-Within (negsuc c) fq fz z ok =
      let wq = finite-IsWord (negsuc c) fq in
      let wx = finite-IsWord x fx in
      rw (factor_bound_neg sat bound c) (record {
        above = div_maxi-le_neg sat x bound.max c wb.upper ok.1 wq fz wx z.below;
        below = le-div_mini_neg sat x bound.min c wb.lower ok.0 wq fz wx z.above;
      })

  -- `x` is the difference of a value within the bound and the constant.
  minus_constant :
      (z : ℤ)
      → IsFinite z
      → Within z bound
      → z -ℤ k ≡ x
      → Within x (range (sat.sat_subi bound.min k) (sat.sat_subi bound.max k))
  minus_constant z fz zb e =
      let wk = finite-IsWord k fk in
      let w : IsWord (z -ℤ k) = rw e (finite-IsWord x fx) in
      rw (← e) (record {
        above = sat_subi-le sat bound.min k z k wb.lower wk fz fk zb.above (le_self k) w;
        below = le-sat_subi sat bound.max k z k wb.upper wk fz fk zb.below (le_self k) w;
      })

  from_constant :
      (z : ℤ)
      → IsFinite z
      → Within z bound
      → k -ℤ z ≡ x
      → Within x (range (sat.sat_subi k bound.max) (sat.sat_subi k bound.min))
  from_constant z fz zb e =
      let wk = finite-IsWord k fk in
      let w : IsWord (k -ℤ z) = rw e (finite-IsWord x fx) in
      rw (← e) (record {
        above = sat_subi-le sat k bound.max k z wk wb.upper fk fz (le_self k) zb.below w;
        below = le-sat_subi sat k bound.min k z wk wb.lower fk fz (le_self k) zb.above w;
      })

  plus_constant :
      (z : ℤ)
      → IsFinite z
      → Within z bound
      → z +ℤ k ≡ x
      → Within x (range (sat.sat_addi bound.min k) (sat.sat_addi bound.max k))
  plus_constant z fz zb e =
      let wk = finite-IsWord k fk in
      let w : IsWord (z +ℤ k) = rw e (finite-IsWord x fx) in
      rw (← e) (record {
        above = sat_addi-le sat bound.min k z k wb.lower wk fz fk zb.above (le_self k) w;
        below = le-sat_addi sat bound.max k z k wb.upper wk fz fk zb.below (le_self k) w;
      })

  module _ {z : ℤ} (fz : IsFinite z) (zb : Within z bound) where
    right_bound-Within :
        (op : Op) {r : Range}
        → exact op k x ≡ some z
        → Admits op k bound
        → right_bound sat op bound k ≡ some r
        → Within x r
    unfolding right_bound exact
    right_bound-Within add e ok h =
        subst (Within x) (some_inj h)
          (minus_constant z fz zb (subst (λ t. t -ℤ k ≡ x) (some_inj e) (sub_self_add x k)))
    right_bound-Within sub e ok h =
        subst (Within x) (some_inj h)
          (from_constant z fz zb (subst (λ t. k -ℤ t ≡ x) (some_inj e) (sub_sub_self x k)))
    right_bound-Within mul e ok h =
        let q : x *ℤ k ≡ z = *ℤ_comm x k ∙ some_inj e in
        subst (Within x) (some_inj h) (factor_bound-Within k fk (rw q fz) (rw q zb) ok)
    right_bound-Within _ e ok h = cc

    left_bound-Within :
        (op : Op) (old : Range) {r : Range}
        → exact op x k ≡ some z
        → Admits op k bound
        → left_bound sat op old bound k ≡ some r
        → Within x r
    unfolding left_bound exact
    left_bound-Within add old e ok h =
        subst (Within x) (some_inj h)
          (minus_constant z fz zb (subst (λ t. t -ℤ k ≡ x) (some_inj e) (sub_add_self x k)))
    left_bound-Within sub old e ok h =
        subst (Within x) (some_inj h)
          (plus_constant z fz zb (subst (λ t. t +ℤ k ≡ x) (some_inj e) (add_sub_self x k)))
    left_bound-Within mul old e ok h =
        let q : x *ℤ k ≡ z = some_inj e in
        subst (Within x) (some_inj h) (factor_bound-Within k fk (rw q fz) (rw q zb) ok)
    left_bound-Within _ old e ok h = cc

    module _ (b : ArgBounds) {b' : ArgBounds} where
      -- The finite constant `k` stands on the left of +, - or *, the right argument is finite, and the
      -- exact result, without wrapping, is finite and within the context's bound. Then the right
      -- argument lies within the bound that is set for it, and the other bound stays. For a product
      -- with a negative constant the context's bound must have finite ends.
      pub bound_contexts_arith-right :
          (op : Op) (y : Operand)
          → exact op k x ≡ some z
          → Admits op k bound
          → bound_contexts_arith sat true op (constant k) y bound b ≡ (true, b')
          → Within x b'.right × (b'.left ≡ b.left)
      unfolding bound_contexts_arith
      bound_contexts_arith-right op y e ok h =
          let (r, er, eb, el) = set_right_inv b (right_bound sat op bound k) h in
          (rw eb (right_bound-Within op e ok er), el)

      -- The finite constant `k` stands on the right of +, - or *, the left argument is finite, and the
      -- exact result, without wrapping, is finite and within the context's bound. Then the left
      -- argument lies within the bound that is set for it, and the other bound stays. For a product
      -- with a negative constant the context's bound must have finite ends.
      pub bound_contexts_arith-left :
          (op : Op)
          → exact op x k ≡ some z
          → Admits op k bound
          → bound_contexts_arith sat true op variable (constant k) bound b ≡ (true, b')
          → Within x b'.left × (b'.right ≡ b.right)
      unfolding bound_contexts_arith
      bound_contexts_arith-left op e ok h =
          let (r, er, eb, el) = set_left_inv b (left_bound sat op b.left bound k) h in
          (rw eb (left_bound-Within op b.left e ok er), el)
