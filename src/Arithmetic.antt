-- ===== src/Arithmetic.antt =====
-- primitive/arithmetic.c: the integer words, the ranges that they infer for their results (from the
-- arguments up) and the bounds that a wanted result puts on an unknown argument (from the result
-- down).
pub mod Forward
pub mod Backward
pub mod Compare
mod SetBound
pub mod BitAnd
mod Period
pub mod Remainder
pub mod Division
pub mod Product
pub mod Identities
mod Tests
use Prim.Native.Nat.{bit_and, bit_or, bit_xor}
use poprc.Prelude.{
  ℕ, ◌-◌, ◌^◌, ◌≡◌, Bool, true, false, ◌&&◌, ◌||◌, Option, none, some, if◌then◌else◌, not,
}
use poprc.Prelude.Int.{ℤ, pos, negsuc, ◌+ℤ◌, ◌-ℤ◌, ◌*ℤ◌, ◌/ℤ◌, ◌%ℤ◌, ltb_ℤ, leb_ℤ, eqb_ℤ}
use poprc.Words.{
  word_min, word_max, Range, range, range_all, range_none, min_ℤ, max_ℤ, wrap, signed, pattern_of,
}
use poprc.Saturation.{Saturation}

-- The values computed. `pos 1` and `pos 0` are C's truth values, and SYM_True and SYM_False.
unfoldable pub add_op : ℤ → ℤ → ℤ
add_op x y = wrap (x +ℤ y)

unfoldable pub mul_op : ℤ → ℤ → ℤ
mul_op x y = wrap (x *ℤ y)

unfoldable pub sub_op : ℤ → ℤ → ℤ
sub_op x y = wrap (x -ℤ y)

-- C defines `/` and `%` neither for a divisor of 0 nor for INTPTR_MIN and -1, where the quotient is no
-- word.
abbrev pub undefined_quotient : ℤ → ℤ → Bool
undefined_quotient x y = eqb_ℤ y (pos 0) || (eqb_ℤ x word_min && eqb_ℤ y (negsuc 0))

unfoldable pub div_op : ℤ → ℤ → Option ℤ
div_op x y = if undefined_quotient x y then none else some (x /ℤ y)

unfoldable pub mod_op : ℤ → ℤ → Option ℤ
mod_op x y = if undefined_quotient x y then none else some (x %ℤ y)

unfoldable pub negate_op : ℤ → ℤ
negate_op x = wrap (pos 0 -ℤ x)

unfoldable pub bitand_op : ℤ → ℤ → ℤ
bitand_op x y = signed (bit_and (pattern_of x) (pattern_of y))

unfoldable pub bitor_op : ℤ → ℤ → ℤ
bitor_op x y = signed (bit_or (pattern_of x) (pattern_of y))

unfoldable pub bitxor_op : ℤ → ℤ → ℤ
bitxor_op x y = signed (bit_xor (pattern_of x) (pattern_of y))

unfoldable pub complement_op : ℤ → ℤ
complement_op x = signed (2 ^ 64 - 1 - pattern_of x)

-- The count of places comes from the program that uses it, as a natural number.
unfoldable pub shiftl_op : ℤ → ℕ → ℤ
shiftl_op x y = wrap (x *ℤ pos (2 ^ y))

abbrev pub truth : Bool → ℤ
truth b = if b then pos 1 else pos 0

unfoldable pub not_op : ℤ → ℤ
not_op x = truth (eqb_ℤ x (pos 0))

unfoldable pub gt_op : ℤ → ℤ → ℤ
gt_op x y = truth (ltb_ℤ y x)

unfoldable pub gte_op : ℤ → ℤ → ℤ
gte_op x y = truth (leb_ℤ y x)

unfoldable pub lt_op : ℤ → ℤ → ℤ
lt_op x y = truth (ltb_ℤ x y)

unfoldable pub lte_op : ℤ → ℤ → ℤ
lte_op x y = truth (leb_ℤ x y)

unfoldable pub eq_op : ℤ → ℤ → ℤ
eq_op x y = truth (eqb_ℤ x y)

unfoldable pub neq_op : ℤ → ℤ → ℤ
neq_op x y = truth (not (eqb_ℤ x y))

-- The operators that the bound inference looks at.
pub data Op : Type 0 where
  add mul sub div modulo lt lte gt gte eq eq_s neq neq_s : Op

unfoldable pub bool_range_op : Range → Range → Range
bool_range_op a b = range (pos 0) (pos 1)

unfoldable pub no_range_op : Range → Range → Range
no_range_op a b = range_all

unfoldable pub bitand_range_op : Range → Range → Range
bitand_range_op a b =
    if ltb_ℤ a.min (pos 0)
    then (if ltb_ℤ b.min (pos 0) then range_all else range (pos 0) b.max)
    else range (pos 0) (if ltb_ℤ b.min (pos 0) then a.max else min_ℤ a.max b.max)

abbrev pub is_singleton : Range → Bool
is_singleton r = eqb_ℤ r.min r.max

-- What `func_op2` knows of an argument that is reduced: a constant, or a variable.
pub data Operand : Type 0 where
  constant : ℤ → Operand
  variable : Operand

-- The bounds of the two argument contexts, `arg_ctx[0].bound` and `arg_ctx[1].bound`.
pub record ArgBounds : Type 0 where
  pub left : Range
  pub right : Range

-- The operator with its arguments exchanged, and its negation.
unfoldable pub reverse_cmp : Op → Op
reverse_cmp lt = gt
reverse_cmp lte = gte
reverse_cmp gt = lt
reverse_cmp gte = lte
reverse_cmp op = op

unfoldable pub negate_cmp : Op → Op
negate_cmp lt = gte
negate_cmp lte = gt
negate_cmp gt = lte
negate_cmp gte = lt
negate_cmp eq = neq
negate_cmp neq = eq
negate_cmp eq_s = neq_s
negate_cmp neq_s = eq_s
negate_cmp op = op

abbrev pub set_left : ArgBounds → Option Range → Bool × ArgBounds
set_left b none = (false, b)
set_left b (some r) = (true, record b { left = r })

abbrev pub set_right : ArgBounds → Option Range → Bool × ArgBounds
set_right b none = (false, b)
set_right b (some r) = (true, record b { right = r })

abbrev pub negate_if : Bool → Op → Op
negate_if b op = if b then negate_cmp op else op

module _ (sat : Saturation) where
  open sat use {sat_addi, sat_subi, sat_muli, sat_negi, sat_abs, div_i, div_mini, div_maxi}

  unfoldable pub add_range_op : Range → Range → Range
  add_range_op a b = range (sat_addi a.min b.min) (sat_addi a.max b.max)

  unfoldable pub mul_range_op : Range → Range → Range
  mul_range_op x y =
      let a = sat_muli x.min y.min in
      let b = sat_muli x.min y.max in
      let c = sat_muli x.max y.min in
      let d = sat_muli x.max y.max in
      range (min_ℤ (min_ℤ a b) (min_ℤ c d)) (max_ℤ (max_ℤ a b) (max_ℤ c d))

  unfoldable pub sub_range_op : Range → Range → Range
  sub_range_op a b = range (sat_subi a.min b.max) (sat_subi a.max b.min)

  unfoldable pub div_range_op : Range → Range → Range
  div_range_op n d =
      let d_small = if ltb_ℤ d.max (pos 0) then d.max else d.min in
      if leb_ℤ d.min (pos 0) && leb_ℤ (pos 0) d.max
      then range_all
      else if ltb_ℤ (pos 0) d_small
      then range (div_i n.min d_small) (div_i n.max d_small)
      else range (div_i n.max d_small) (div_i n.min d_small)

  -- `range_span`, where the sum wraps
  unfoldable pub range_span : Range → ℤ
  range_span a = if leb_ℤ a.min a.max then wrap (sat_subi a.max a.min +ℤ pos 1) else pos 0

  unfoldable pub mod_wide : ℤ → Range → Range
  mod_wide da n =
      range (max_ℤ (min_ℤ n.min (pos 0)) (sat_negi (sat_subi da (pos 1))))
        (min_ℤ (max_ℤ n.max (pos 0)) (sat_subi da (pos 1)))

  unfoldable pub mod_range_op : Range → Range → Range
  unfolding range_span mod_wide
  mod_range_op n d =
      let da = max_ℤ (sat_abs d.min) (sat_abs d.max) in
      let n_span = range_span n in
      let ends = range (n.min %ℤ da) (n.max %ℤ da) in
      if is_singleton d && not (eqb_ℤ d.min word_max || eqb_ℤ d.min word_min)
      then (if eqb_ℤ n_span (pos 0) || eqb_ℤ da (pos 0)
          then range_none
          else if eqb_ℤ n_span (range_span ends)
          then ends
          else mod_wide da n)
      else mod_wide da n

  -- The range of the factor that goes with the constant `k`.
  unfoldable pub factor_bound : Range → ℤ → Range
  factor_bound bound k =
      if ltb_ℤ (pos 0) k
      then range (div_maxi bound.min k) (div_mini bound.max k)
      else if ltb_ℤ k (pos 0)
      then range (div_maxi bound.max k) (div_mini bound.min k)
      else range_all

  -- The switch for a constant left argument: the bound of the right one, if the operator has one.
  unfoldable pub right_bound : Op → Range → ℤ → Option Range
  unfolding factor_bound
  right_bound add bound lhs = some (range (sat_subi bound.min lhs) (sat_subi bound.max lhs))
  right_bound sub bound lhs = some (range (sat_subi lhs bound.max) (sat_subi lhs bound.min))
  right_bound mul bound lhs = some (factor_bound bound lhs)
  right_bound _ bound lhs = none

  -- The range of the dividend; a zero divisor leaves the context as it was.
  unfoldable pub dividend_bound : Range → Range → ℤ → Range
  dividend_bound old bound rhs =
      if ltb_ℤ (pos 0) rhs
      then range (sat_muli bound.min rhs) (sat_muli bound.max rhs)
      else if ltb_ℤ rhs (pos 0)
      then range (sat_muli bound.max rhs) (sat_muli bound.min rhs)
      else old

  -- The switch for a constant right argument.
  unfoldable pub left_bound : Op → Range → Range → ℤ → Option Range
  unfolding factor_bound dividend_bound
  left_bound add old bound rhs = some (range (sat_subi bound.min rhs) (sat_subi bound.max rhs))
  left_bound sub old bound rhs = some (range (sat_addi bound.min rhs) (sat_addi bound.max rhs))
  left_bound mul old bound rhs = some (factor_bound bound rhs)
  left_bound div old bound rhs = some (dividend_bound old bound rhs)
  left_bound _ old bound rhs = none

  -- Whether the bounds were set, and the bounds. `bound` is the context's bound where the context
  -- wants an integer and the default bound otherwise.
  unfoldable pub bound_contexts_arith :
      (tracing : Bool) → Op → Operand → Operand → (bound : Range) → ArgBounds → Bool × ArgBounds
  unfolding left_bound right_bound
  bound_contexts_arith false op x y bound b = (false, b)
  bound_contexts_arith true op (constant lhs) y bound b = set_right b (right_bound op bound lhs)
  bound_contexts_arith true op variable (constant rhs) bound b =
      set_left b (left_bound op b.left bound rhs)
  bound_contexts_arith true op variable variable bound b = (false, b)

  -- The values that make the comparison with `val` true; none where a range cannot say so.
  unfoldable pub cmp_bound : Op → ℤ → Option Range
  cmp_bound lt val = some (range word_min (sat_subi val (pos 1)))
  cmp_bound lte val = some (range word_min val)
  cmp_bound gt val = some (range (sat_addi val (pos 1)) word_max)
  cmp_bound gte val = some (range val word_max)
  cmp_bound eq val = some (range val val)
  cmp_bound eq_s val = some (range val val)
  cmp_bound neq val = none
  cmp_bound neq_s val = none
  cmp_bound _ val = some range_all

  -- `wants_symbol` is `ctx->t == T_SYMBOL`; `bound` holds the symbol wanted.
  unfoldable pub bound_contexts_cmp :
      (tracing wants_symbol : Bool)
      → Op
      → Operand
      → Operand
      → (bound : Range) → ArgBounds
      → Bool × ArgBounds
  unfolding reverse_cmp negate_cmp cmp_bound
  bound_contexts_cmp tracing wants_symbol op x y bound b =
      if not tracing || not wants_symbol || not (is_singleton bound) then (false, b) else elim x [
        | constant val ↦
            set_right b (cmp_bound (negate_if (eqb_ℤ bound.min (pos 0)) (reverse_cmp op)) val)
        | variable ↦ elim y [
          | constant val ↦ set_left b (cmp_bound (negate_if (eqb_ℤ bound.min (pos 0)) op) val)
          | variable ↦ (false, b)
        ]
      ]
