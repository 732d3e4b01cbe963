-- ===== src/Arithmetic/Compare.antt =====
-- The backward bounds of the comparisons: where the wanted truth value decides the operator, the
-- bound that `bound_contexts_cmp` puts on the unknown argument holds of it.
use poprc.Prelude.{
  ◌≡◌, ◌∙◌, ◌⊎◌, inl, inr, Bool, true, false, if◌then◌else◌, Option, some, none, not, arith,
}
use poprc.Prelude.Int.{ℤ, pos, +ℤ_parts, -ℤ_parts, eqb_ℤ}
use poprc.Words.{Range, Within, IsWord}
use poprc.Saturation.{Saturation}
use poprc.Arithmetic.{
  Op, lt, lte, gt, gte, eq, eq_s, neq, neq_s, lt_op, lte_op, gt_op, gte_op, eq_op, neq_op,
  reverse_cmp, negate_cmp, negate_if, cmp_bound, bound_contexts_cmp, Operand, constant, variable,
  ArgBounds, is_singleton,
}
use poprc.Arithmetic.SetBound.{set_right_inv, set_left_inv}

-- The comparison that an operator makes; the other operators make none.
unfoldable pub compare_op : Op → ℤ → ℤ → Option ℤ
compare_op lt x y = some (lt_op x y)
compare_op lte x y = some (lte_op x y)
compare_op gt x y = some (gt_op x y)
compare_op gte x y = some (gte_op x y)
compare_op eq x y = some (eq_op x y)
compare_op eq_s x y = some (eq_op x y)
compare_op neq x y = some (neq_op x y)
compare_op neq_s x y = some (neq_op x y)
compare_op _ x y = none

reverse_cmp_lem : (op : Op) (x y : ℤ) → compare_op (reverse_cmp op) x y ≡ compare_op op y x
unfolding compare_op reverse_cmp lt_op lte_op gt_op gte_op eq_op neq_op
reverse_cmp_lem lt x y = ground arith
reverse_cmp_lem eq x y = ground arith
reverse_cmp_lem eq_s x y = ground arith
reverse_cmp_lem neq x y = ground arith
reverse_cmp_lem neq_s x y = ground arith
reverse_cmp_lem _ x y = ground arith

negate_cmp_lem :
    (op : Op) (x y : ℤ)
    → compare_op op x y ≡ some (pos 0)
    → compare_op (negate_cmp op) x y ≡ some (pos 1)
unfolding compare_op negate_cmp lt_op lte_op gt_op gte_op eq_op neq_op
negate_cmp_lem lt x y h = ground arith
negate_cmp_lem _ x y h = ground arith

module _ (sat : Saturation) where
  cmp_bound-Within :
      (op : Op) (x v : ℤ) {r : Range}
      → IsWord x
      → IsWord v
      → compare_op op x v ≡ some (pos 1)
      → cmp_bound sat op v ≡ some r
      → Within x r
  unfolding compare_op cmp_bound lt_op lte_op gt_op gte_op eq_op neq_op
  cmp_bound-Within lt x v w u h e =
      ground (arith, sat.sat_subi_lem v (pos 1) u (ground arith), -ℤ_parts v (pos 1))
  cmp_bound-Within gt x v w u h e =
      ground (arith, sat.sat_addi_lem v (pos 1) u (ground arith), +ℤ_parts v (pos 1))
  cmp_bound-Within _ x v w u h e = ground arith

truth_cases : (op : Op) (x v : ℤ) {t : ℤ} → compare_op op x v ≡ some t → (t ≡ pos 0) ⊎ (t ≡ pos 1)
unfolding compare_op lt_op lte_op gt_op gte_op eq_op neq_op
truth_cases lt x v h = ground arith
truth_cases _ x v h = ground arith

-- Where the operator gives the wanted truth value, the operator chosen by it gives true.
negate_if_lem :
    (op : Op) (x v : ℤ) {t : ℤ}
    → compare_op op x v ≡ some t
    → compare_op (negate_if (eqb_ℤ t (pos 0)) op) x v ≡ some (pos 1)
negate_if_lem op x v h = elim (truth_cases op x v h) [
  | inl e ↦ rw e (negate_cmp_lem op x v (rw e at h))
  | inr e ↦ rw e (rw e at h)
]

guard_inv :
    (s : Bool) (b : ArgBounds) {b' : ArgBounds} {o : Bool × ArgBounds}
    → (if s then (false, b) else o) ≡ (true, b')
    → o ≡ (true, b')
guard_inv true b h = cc
guard_inv false b h = h

module _ (sat : Saturation) (op : Op) (x val : ℤ) (bound : Range) (b : ArgBounds) {b' : ArgBounds}
    (wx : IsWord x) (wv : IsWord val) where
  -- With a constant left argument `val` and a right argument whose value is `x`: if the comparison
  -- has the value that the context wants, and the handler sets a bound, then `x` lies within it,
  -- and the left argument's bound is left alone.
  pub bound_contexts_cmp-right :
      (y : Operand)
      → compare_op op val x ≡ some bound.min
      → bound_contexts_cmp sat true true op (constant val) y bound b ≡ (true, b')
      → Within x b'.right × (b'.left ≡ b.left)
  unfolding bound_contexts_cmp
  bound_contexts_cmp-right y h e =
      let (r, er, eb, el) =
        set_right_inv b (cmp_bound sat (negate_if (eqb_ℤ bound.min (pos 0)) (reverse_cmp op)) val)
          (guard_inv (not (is_singleton bound)) b e) in
      (
        rw eb (
            cmp_bound-Within sat (negate_if (eqb_ℤ bound.min (pos 0)) (reverse_cmp op)) x val wx wv
              (negate_if_lem (reverse_cmp op) x val (reverse_cmp_lem op x val ∙ h)) er),
        el,
      )

  -- With a constant right argument `val` and a left argument whose value is `x`: if the comparison
  -- has the value that the context wants, and the handler sets a bound, then `x` lies within it,
  -- and the right argument's bound is left alone.
  pub bound_contexts_cmp-left :
      compare_op op x val ≡ some bound.min
      → bound_contexts_cmp sat true true op variable (constant val) bound b ≡ (true, b')
      → Within x b'.left × (b'.right ≡ b.right)
  unfolding bound_contexts_cmp
  bound_contexts_cmp-left h e =
      let (r, er, eb, el) =
        set_left_inv b (cmp_bound sat (negate_if (eqb_ℤ bound.min (pos 0)) op) val)
          (guard_inv (not (is_singleton bound)) b e) in
      (
        rw eb (
            cmp_bound-Within sat (negate_if (eqb_ℤ bound.min (pos 0)) op) x val wx wv
              (negate_if_lem op x val h) er),
        el,
      )
